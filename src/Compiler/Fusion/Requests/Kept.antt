-- ===== src/Compiler/Fusion/Requests/Kept.antt =====
-- What `fuse_requests` keeps of a list: its form, its effects and the number of its requests.
use tired.Prelude.{
  ℕ, suc, ◌+◌, ◌≤◌, Bool, true, false, String, List, [], ◌∷◌, ◌++◌, Option, none, some, ◌≡◌, refl,
  sym, ◌∙◌, ap, arith, get_elem?, All, inl, inr, Option-cases, Bool-cases, length, subst,
}
use tired.Syntax.Ast.{ℤ, Expr}
use tired.Compiler.Ir
use tired.Compiler.Ir.{Node, NodeKind, FetchIr, Body, is_fetch}
use tired.Compiler.Deps.{compute_deps, recompute_deps}
use tired.Compiler.Deps.Numbered.{
  NumberedFrom, NumberedFrom-append, NumberedFrom-IsNumbered, All-append, All-get_elem?,
}
use tired.Compiler.Deps.Wired.{IsWired, compute_deps-IsWired}
use tired.Compiler.Optimize.Dedup.{is_get}
use tired.Compiler.Optimize.Settled.{IsSettled, IsFlat, Fits, compute_deps-Fits}
use tired.Compiler.Optimize.Effects.{
  effects_of, effects_of-append, effects_of-compute_deps, requests, requests-append,
  requests-compute_deps,
}
use tired.Compiler.Fusion.{batchable, is_empty_list}
use tired.Compiler.Fusion.Requests.{
  GroupPlan, Planned, find_plan, make_batch_node, make_scatter_node, kind_value, kind_group_key,
  batch_group_key, expand, place_in, place_planned, place, rebuild, plan_requests, fuse_nodes,
}
use tired.Compiler.Fusion.Requests.Candidates.{
  IsCandidate, IsSound, plan_requests-IsSound, find_plan-IsCandidate,
}

module _ (show_float : ℕ → String) (parse_int : String → Option ℤ) where
  expand-Numbered :
      (at : ℕ) (g : GroupPlan) (leader : Bool) (n : Node) (v : Option Expr)
      → NumberedFrom at (expand show_float parse_int at g leader n v)
  unfolding expand
  expand-Numbered at g leader n none = (refl, tt)
  expand-Numbered at g true n (some v) = (refl, (refl, tt))
  expand-Numbered at g false n (some v) = (refl, tt)

  place_in-Numbered :
      (at : ℕ) (leader : Bool) (n : Node) (g : Option GroupPlan)
      → NumberedFrom at (place_in show_float parse_int at leader n g)
  unfolding place_in
  place_in-Numbered at leader n none = (refl, tt)
  place_in-Numbered at leader n (some g) = expand-Numbered at g leader n _

  place-Numbered :
      (gs : List GroupPlan) (at : ℕ) (n : Node) (o : Option (ℕ × Bool))
      → NumberedFrom at (place_planned show_float parse_int gs at n o)
  unfolding place_planned
  place-Numbered gs at n none = (refl, tt)
  place-Numbered gs at n (some (gid, leader)) = place_in-Numbered at leader n (get_elem? gs gid)

  rebuild-Numbered :
      (p : Planned) (i at : ℕ) (ns : List Node)
      → NumberedFrom at (rebuild show_float parse_int p i at ns)
  unfolding rebuild place
  rebuild-Numbered p i at [] = tt
  rebuild-Numbered p i at (n ∷ ns) =
      NumberedFrom-append at (place show_float parse_int p i at n) _
        (place-Numbered p.groups at n (find_plan i p.plan)) (rebuild-Numbered p (suc i) _ ns)

  -- Fusion keeps a list well-formed.
  pub fuse_nodes-IsWired :
      (ns : List Node) → IsWired ns → IsWired (fuse_nodes show_float parse_int ns)
  unfolding fuse_nodes recompute_deps compute_deps
  fuse_nodes-IsWired ns w =
      elim (Bool-cases (is_empty_list (plan_requests show_float parse_int ns).groups)) [
        | inl e ↦ rw e w
        | inr e ↦ rw e (
            compute_deps-IsWired _ (
              NumberedFrom-IsNumbered _
                (rebuild-Numbered (plan_requests show_float parse_int ns) 0 0 ns)))
      ]

  module _ (Q : NodeKind → Type 0) (flat : IsFlat Q) where
    expand-Fits :
        (at : ℕ) (g : GroupPlan) (leader : Bool) (n : Node) (v : Option Expr)
        → is_get g.template ≡ true
        → Fits Q n
        → All (Fits Q) (expand show_float parse_int at g leader n v)
    unfolding expand make_batch_node make_scatter_node is_get
    expand-Fits at g leader n none get h = (h, tt)
    expand-Fits at g true n (some v) get h =
        ((ground arith, flat.fetch _), ((refl, flat.scatter _), tt))
    expand-Fits at g false n (some v) get h = ((refl, flat.scatter _), tt)

    place_in-Fits :
        (at : ℕ) (leader : Bool) (n : Node) (gs : List GroupPlan) (gid : ℕ) (g : Option GroupPlan)
        → get_elem? gs gid ≡ g
        → All (λ x. is_get x.template ≡ true) gs
        → Fits Q n
        → All (Fits Q) (place_in show_float parse_int at leader n g)
    unfolding place_in
    place_in-Fits at leader n gs gid none e gets h = (h, tt)
    place_in-Fits at leader n gs gid (some g) e gets h =
        expand-Fits at g leader n _ (All-get_elem? (λ x. is_get x.template ≡ true) gs gid g gets e)
          h

    place-Fits :
        (gs : List GroupPlan) (at : ℕ) (n : Node) (o : Option (ℕ × Bool))
        → All (λ x. is_get x.template ≡ true) gs
        → Fits Q n
        → All (Fits Q) (place_planned show_float parse_int gs at n o)
    unfolding place_planned
    place-Fits gs at n none gets h = (h, tt)
    place-Fits gs at n (some (gid, leader)) gets h = place_in-Fits at leader n gs gid _ refl gets h

    rebuild-Fits :
        (p : Planned) (i at : ℕ) (ns : List Node)
        → All (λ x. is_get x.template ≡ true) p.groups
        → All (Fits Q) ns
        → All (Fits Q) (rebuild show_float parse_int p i at ns)
    unfolding rebuild place
    rebuild-Fits p i at [] gets h = tt
    rebuild-Fits p i at (n ∷ ns) gets h =
        All-append (Fits Q) (place show_float parse_int p i at n) _
          (place-Fits p.groups at n (find_plan i p.plan) gets h.0)
          (rebuild-Fits p (suc i) _ ns gets h.1)

    -- Fusion keeps kinds and flags in agreement: batches and scatters are no effects.
    pub fuse_nodes-Fits :
        (ns : List Node) → All (Fits Q) ns → All (Fits Q) (fuse_nodes show_float parse_int ns)
    unfolding fuse_nodes recompute_deps compute_deps
    fuse_nodes-Fits ns h =
        elim (Bool-cases (is_empty_list (plan_requests show_float parse_int ns).groups)) [
          | inl e ↦ rw e h
          | inr e ↦ rw e (
              compute_deps-Fits Q _ (
                rebuild-Fits (plan_requests show_float parse_int ns) 0 0 ns
                  (plan_requests-IsSound show_float parse_int ns).gets h))
        ]

  expand-quiet :
      (at : ℕ) (g : GroupPlan) (leader : Bool) (n : Node) (v : Option Expr)
      → n.effect ≡ false
      → effects_of (expand show_float parse_int at g leader n v) ≡ []
  unfolding expand make_batch_node make_scatter_node
  expand-quiet at g leader n none q = rw q
  expand-quiet at g true n (some v) q = refl
  expand-quiet at g false n (some v) q = refl

  place_in-quiet :
      (at : ℕ) (leader : Bool) (n : Node) (g : Option GroupPlan)
      → n.effect ≡ false
      → effects_of (place_in show_float parse_int at leader n g) ≡ []
  unfolding place_in
  place_in-quiet at leader n none q = rw q
  place_in-quiet at leader n (some g) q = expand-quiet at g leader n _ q

  kind_group_key-quiet :
      (k : NodeKind) (e : Bool) (bound : Option String) (key : String)
      → kind_group_key show_float parse_int k bound ≡ some key
      → IsSettled k e
      → e ≡ false
  unfolding kind_group_key batchable is_get
  kind_group_key-quiet (Ir.fetch f) e bound key q h = elim (Option-cases f.batch) [
    | inl b ↦ ground (arith, b)
    | inr (s, b) ↦ ground (arith, b)
  ]
  kind_group_key-quiet _ e bound key q h = cc

  module _ (all : List Node) (settled : All (λ n. IsSettled n.kind n.effect) all) where
    candidate-quiet :
        (i : ℕ) (n : Node)
        → get_elem? all i ≡ some n
        → IsCandidate show_float parse_int all i
        → n.effect ≡ false
    unfolding batch_group_key
    candidate-quiet i n at_i (m, key, at_m, q) =
        let same : m ≡ n = cc in
        subst (λ x. x.effect ≡ false) same
          (kind_group_key-quiet m.kind m.effect m.binding key q
            (All-get_elem? (λ x. IsSettled x.kind x.effect) all i m settled at_m))

    place-effects :
        (p : Planned) (i at : ℕ) (n : Node) (o : Option (ℕ × Bool))
        → find_plan i p.plan ≡ o
        → IsSound show_float parse_int all p
        → get_elem? all i ≡ some n
        → effects_of (place_planned show_float parse_int p.groups at n o) ≡ effects_of (n ∷ [])
    unfolding place_planned
    place-effects p i at n none e sound at_i = refl
    place-effects p i at n (some (gid, leader)) e sound at_i =
        let quiet =
          candidate-quiet i n at_i
            (find_plan-IsCandidate show_float parse_int all i p.plan gid leader sound.planned e) in
        place_in-quiet at leader n (get_elem? p.groups gid) quiet ∙ sym (rw quiet)

    rebuild-effects :
        (p : Planned) (i at : ℕ) (rest : List Node)
        → IsSound show_float parse_int all p
        → ((k : ℕ) (n : Node) → get_elem? rest k ≡ some n → get_elem? all (k + i) ≡ some n)
        → effects_of (rebuild show_float parse_int p i at rest) ≡ effects_of rest
    unfolding rebuild place
    rebuild-effects p i at [] sound same = refl
    rebuild-effects p i at (n ∷ rest) sound same =
        effects_of-append (place show_float parse_int p i at n) _
        ∙ ap
            (λ es.
              es
              ++ effects_of (
                  rebuild show_float parse_int p (suc i)
                    (length (place show_float parse_int p i at n) + at) rest))
            (place-effects p i at n (find_plan i p.plan) refl sound (
              let q : 0 + i ≡ i = omega arith in
              subst (λ j. get_elem? all j ≡ some n) q (same 0 n refl)))
        ∙ ap (λ es. effects_of (n ∷ []) ++ es)
            (rebuild-effects p (suc i) _ rest sound (λ k m e.
              let q : suc k + i ≡ k + suc i = omega arith in
              subst (λ j. get_elem? all j ≡ some m) q (same (suc k) m e)))
        ∙ sym (effects_of-append (n ∷ []) rest)

    -- In a list whose nodes are all flagged as their kinds say, fusion of requests keeps the effects in
    -- their order, each with its kind, its binding, what it reads, its liveness flag and its span.
    pub fuse_nodes-effects : effects_of (fuse_nodes show_float parse_int all) ≡ effects_of all
    unfolding fuse_nodes recompute_deps compute_deps
    fuse_nodes-effects =
        elim (Bool-cases (is_empty_list (plan_requests show_float parse_int all).groups)) [
          | inl e ↦ rw e
          | inr e ↦ rw e (
              effects_of-compute_deps
                (rebuild show_float parse_int (plan_requests show_float parse_int all) 0 0 all)
              ∙ rebuild-effects (plan_requests show_float parse_int all) 0 0 all
                  (plan_requests-IsSound show_float parse_int all)
                  (λ k n e. let q : k + 0 ≡ k = omega arith in rw q e))
        ]

  expand-requests :
      (at : ℕ) (g : GroupPlan) (leader : Bool) (n : Node) (k : NodeKind)
      → n.kind ≡ k
      → requests (expand show_float parse_int at g leader n (kind_value show_float parse_int k))
        ≤ requests (n ∷ [])
  unfolding expand make_batch_node make_scatter_node kind_value is_fetch
  expand-requests at g true n (Ir.fetch f) e = rw e (omega arith)
  expand-requests at g false n (Ir.fetch f) e = omega arith
  expand-requests at g leader n _ e = omega arith

  place-requests :
      (gs : List GroupPlan) (at : ℕ) (n : Node) (o : Option (ℕ × Bool))
      → requests (place_planned show_float parse_int gs at n o) ≤ requests (n ∷ [])
  unfolding place_planned place_in
  place-requests gs at n none = omega arith
  place-requests gs at n (some (gid, leader)) = place_in-requests (get_elem? gs gid)
    where
      place_in-requests :
          (g : Option GroupPlan)
          → requests (place_in show_float parse_int at leader n g) ≤ requests (n ∷ [])
      place_in-requests none = omega arith
      place_in-requests (some g) = expand-requests at g leader n n.kind refl

  rebuild-requests :
      (p : Planned) (i at : ℕ) (ns : List Node)
      → requests (rebuild show_float parse_int p i at ns) ≤ requests ns
  unfolding rebuild place
  rebuild-requests p i at [] = omega arith
  rebuild-requests p i at (n ∷ ns) =
      let new = place_planned show_float parse_int p.groups at n (find_plan i p.plan) in
      omega (
        arith,
        place-requests p.groups at n (find_plan i p.plan),
        requests-append new (rebuild show_float parse_int p (suc i) (length new + at) ns),
        rebuild-requests p (suc i) (length new + at) ns,
      )

  -- Fusion of requests never adds a request.
  pub fuse_nodes-requests :
      (ns : List Node) → requests (fuse_nodes show_float parse_int ns) ≤ requests ns
  unfolding fuse_nodes recompute_deps compute_deps
  fuse_nodes-requests ns =
      elim (Bool-cases (is_empty_list (plan_requests show_float parse_int ns).groups)) [
        | inl e ↦ rw e (omega arith)
        | inr e ↦
            (let fused =
                rebuild show_float parse_int (plan_requests show_float parse_int ns) 0 0 ns in
              rw (e, requests-compute_deps fused)
                (rebuild-requests (plan_requests show_float parse_int ns) 0 0 ns))
      ]
