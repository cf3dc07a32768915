-- ===== src/Compiler/Optimize/Dedup/Scan.antt =====
-- The two loops of deduplication: what the first finds, and what the second assigns.
use mathlib.Core.Option
use tired.Prelude.{
  ℕ, zero, suc, ◌+◌, ◌<◌, Bool, true, false, String, List, [], ◌∷◌, Option, none, some, ◌≡◌, refl,
  inl, inr, arith, ◌==◌, ap, eq_iff, if◌then◌else◌, lookup, get_elem?, Bool-cases, Option-cases,
  sym, ◌∙◌, subst,
}
use tired.Compiler.Ir
use tired.Compiler.Ir.{Node, NodeKind, Body}
use tired.Compiler.Deps.Meaning.{test_at}
use tired.Compiler.Deps.Wired.{IsNumbered}
use tired.Compiler.Optimize.Dedup.{
  Rewrite, node_sig, Requests, remember, reuse, cons_found, find_rewrites, alias_kind, alias_node,
  update, apply_rewrites, dedup_nodes,
}
use tired.Compiler.Optimize.Dedup.Correct.{
  answers, IsFirst, Known, Known-start, Known-remember, binding_at,
}

-- The first rewrite of a node.
abbrev pub find : ℕ → List Rewrite → Option Rewrite
find j [] = none
find j (r ∷ rs) = if r.alias == j then some r else find j rs

abbrev pub rewritten : Option Rewrite → Node → Node
rewritten none n = n
rewritten (some r) n = alias_node r n

get_elem?-update :
    (i : ℕ) (f : Node → Node) (ns : List Node) (j : ℕ)
    → get_elem? (update i f ns) j
      ≡ (if i == j then Option.map f (get_elem? ns j) else get_elem? ns j)
unfolding update
get_elem?-update i f [] j = ground arith
get_elem?-update zero f (n ∷ ns) zero = ground arith
get_elem?-update zero f (n ∷ ns) (suc j) = ground arith
get_elem?-update (suc i) f (n ∷ ns) zero = ground arith
get_elem?-update (suc i) f (n ∷ ns) (suc j) = ground (arith, get_elem?-update i f ns j)

-- A node is rewritten once: the rewrite leaves no fetch.
alias_kind_again :
    (r t : Rewrite) (n : Node) (k : NodeKind)
    → n.kind ≡ k
    → alias_node t (alias_kind k r n) ≡ alias_kind k r n
unfolding alias_node
alias_kind_again r t n (Ir.fetch f) e = refl
alias_kind_again r t n _ e = rw (e, alias_kind)

alias_node_again : (r t : Rewrite) (n : Node) → alias_node t (alias_node r n) ≡ alias_node r n
alias_node_again r t n = unfold alias_node in alias_kind_again r t n n.kind refl

rewritten_again :
    (r : Rewrite) (o : Option Rewrite) (n : Node) → rewritten o (alias_node r n) ≡ alias_node r n
rewritten_again r none n = refl
rewritten_again r (some t) n = alias_node_again r t n

pub apply_at :
    (rs : List Rewrite) (ns : List Node) (j : ℕ) (n : Node)
    → get_elem? ns j ≡ some n
    → get_elem? (apply_rewrites rs ns) j ≡ some (rewritten (find j rs) n)
unfolding apply_rewrites
apply_at [] ns j n e = e
apply_at (r ∷ rs) ns j n e =
    let up = get_elem?-update r.alias (alias_node r) ns j in
    elim (Bool-cases (r.alias == j)) [
      | inl hit ↦
          (let q : get_elem? (update r.alias (alias_node r) ns) j ≡ some (alias_node r n) =
              up ∙ rw (hit, e) refl in
            apply_at rs (update r.alias (alias_node r) ns) j (alias_node r n) q
            ∙ ap some (rewritten_again r (find j rs) n)
            ∙ rw hit)
      | inr miss ↦
          (let q : get_elem? (update r.alias (alias_node r) ns) j ≡ some n = up ∙ rw miss e in
            apply_at rs (update r.alias (alias_node r) ns) j n q ∙ rw miss)
    ]

pub apply-none :
    (rs : List Rewrite) (ns : List Node) (j : ℕ)
    → get_elem? ns j ≡ none
    → get_elem? (apply_rewrites rs ns) j ≡ none
unfolding apply_rewrites
apply-none [] ns j e = e
apply-none (r ∷ rs) ns j e =
    apply-none rs (update r.alias (alias_node r) ns) j
      (ground (arith, get_elem?-update r.alias (alias_node r) ns j))

module _ (show_float : ℕ → String) (ns : List Node) where
  -- Why the node at a position is rewritten, or kept.
  abbrev pub Outcome : ℕ → Node → Option Rewrite → Type 0
  Outcome j n none =
      (s : String)
      → answers show_float s n ≡ true
      → (k : ℕ) → k < j
      → test_at (answers show_float s) ns k ≡ false
  Outcome j n (some r) =
      (s : String) × (r.alias ≡ j)
      × (answers show_float s n ≡ true)
      × (node_sig show_float n ≡ some s)
      × (r.first < j)
      × IsFirst show_float ns s r.first
      × (binding_at ns r.first ≡ some r.bound)

  reuse-Outcome :
      (i : ℕ) (seen : Requests show_float) (n : Node)
      → n.id ≡ i
      → Known show_float ns i seen
      → Outcome i n (reuse show_float (node_sig show_float n) n.binding n.id seen)
  unfolding reuse
  reuse-Outcome i seen n at_i h = elim (Option-cases (node_sig show_float n)) [
    | inl e ↦ rw (e, reuse) (λ s a k lt. ground arith)
    | inr (sig, e) ↦ elim (Option-cases n.binding) [
      | inl f ↦ rw (e, f, reuse) (λ s a k lt. ground arith)
      | inr (b, f) ↦ elim (Option-cases (lookup sig seen)) [
        | inl new ↦
            rw (e, f, reuse, new)
              (λ s a k lt.
                h.miss s (let q : sig ≡ s = ground (arith, eq_iff sig s) in rw (← q) new) k lt)
        | inr (old, q) ↦
            (let r : Rewrite = record { alias = n.id; first = old.0; bound = old.1 } in
              let v : reuse show_float (node_sig show_float n) n.binding n.id seen ≡ some r =
                rw (e, f, reuse, q) in
              let (lt, first, b') = h.hit sig old q in
              subst (Outcome i n) (sym v)
                (sig, at_i, ground (arith, eq_iff sig sig), e, lt, first, b'))
      ]
    ]
  ]

  -- Rewrites of later nodes are not the first rewrite of this one.
  find-later :
      (rest : List Node) (i j : ℕ) (seen : Requests show_float)
      → j < i
      → ((k : ℕ) (n : Node) → get_elem? rest k ≡ some n → n.id ≡ i + k)
      → find j (find_rewrites show_float seen rest) ≡ none
  unfolding find_rewrites reuse
  find-later [] i j seen lt h = refl
  find-later (n ∷ rest) i j seen lt h =
      let at_i = h 0 n refl in
      let later = λ (next : Requests show_float).
        find-later rest (suc i) j next (omega arith)
          (λ k m e. let q = h (suc k) m e in omega arith) in
      ground (arith, later (remember show_float (node_sig show_float n) n.binding n.id seen))

  record Rest (rest : List Node) (i : ℕ) : Type 0 where
    ids : (k : ℕ) (n : Node) → get_elem? rest k ≡ some n → n.id ≡ i + k
    tests : (p : Node → Bool) (k : ℕ) → test_at p rest k ≡ test_at p ns (i + k)
    nodes : (k : ℕ) → get_elem? rest k ≡ get_elem? ns (i + k)

  Rest-tail : (n : Node) (rest : List Node) (i : ℕ) → Rest (n ∷ rest) i → Rest rest (suc i)
  Rest-tail n rest i h = record {
    ids = λ k m e. let q = h.ids (suc k) m e in omega arith;
    tests = λ p k. let q : suc i + k ≡ i + suc k = omega arith in rw q (h.tests p (suc k));
    nodes = λ k. let q : suc i + k ≡ i + suc k = omega arith in rw q (h.nodes (suc k));
  }

  find-found :
      (o : Option Rewrite) (rs : List Rewrite) (j : ℕ)
      → ((r : Rewrite) → o ≡ some r → r.alias ≡ j)
      → find j rs ≡ none
      → find j (cons_found show_float o rs) ≡ o
  find-found none rs j h e = e
  find-found (some r) rs j h e = let q = h r refl in ground arith

  find-other :
      (o : Option Rewrite) (rs : List Rewrite) (i j : ℕ)
      → ((r : Rewrite) → o ≡ some r → r.alias ≡ i)
      → i < j
      → find j (cons_found show_float o rs) ≡ find j rs
  find-other none rs i j h lt = refl
  find-other (some r) rs i j h lt = let q = h r refl in ground arith

  alias-reuse :
      (o b : Option String) (i : ℕ) (seen : Requests show_float) (r : Rewrite)
      → reuse show_float o b i seen ≡ some r
      → r.alias ≡ i
  unfolding reuse
  alias-reuse o b i seen r e = ground arith

  find_at :
      (rest : List Node) (i : ℕ) (seen : Requests show_float)
      → Rest rest i
      → Known show_float ns i seen
      → (k j : ℕ) (n : Node) → j ≡ i + k
      → get_elem? rest k ≡ some n
      → Outcome j n (find j (find_rewrites show_float seen rest))
  unfolding find_rewrites
  find_at [] i seen same h k j n at_j e = cc
  find_at (m ∷ rest) i seen same h zero j n at_j e =
      let here : j ≡ i = omega arith in
      let it : n ≡ m = cc in
      let at_i : m.id ≡ i = (let q = same.ids 0 m refl in omega arith) in
      let found =
        find-found (reuse show_float (node_sig show_float m) m.binding m.id seen)
          (find_rewrites show_float
            (remember show_float (node_sig show_float m) m.binding m.id seen) rest)
          i (λ r q. alias-reuse _ _ m.id seen r q ∙ at_i)
          (find-later rest (suc i) i _ (omega arith)
            (λ k l q. let t = same.ids (suc k) l q in omega arith)) in
      rw (here, it) (subst (Outcome i m) (sym found) (reuse-Outcome i seen m at_i h))
  find_at (m ∷ rest) i seen same h (suc k) j n at_j e =
      let at_i : m.id ≡ i = (let q = same.ids 0 m refl in omega arith) in
      let zero_at : i ≡ i + 0 = omega arith in
      let next =
        Known-remember show_float ns i seen m (λ p. rw zero_at (sym (same.tests p 0)))
          (rw zero_at (
            ap (λ (o : Option Node). elim o [ none ↦ none | some l ↦ l.binding ])
              (sym (same.nodes 0))))
          at_i h in
      let other =
        find-other (reuse show_float (node_sig show_float m) m.binding m.id seen)
          (find_rewrites show_float
            (remember show_float (node_sig show_float m) m.binding m.id seen) rest)
          i j (λ r q. alias-reuse _ _ m.id seen r q ∙ at_i) (omega arith) in
      subst (Outcome j n) (sym other)
        (find_at rest (suc i) _ (Rest-tail m rest i same) next k j n (omega arith) e)

  -- Deduplication of a numbered list rewrites each node as its outcome says.
  pub dedup_at :
      IsNumbered ns
      → (j : ℕ) (n : Node) → get_elem? ns j ≡ some n
      → (o : Option Rewrite) × (get_elem? (dedup_nodes show_float ns) j ≡ some (rewritten o n))
        × Outcome j n o
  unfolding dedup_nodes
  dedup_at ids j n e =
      let rs = find_rewrites show_float [] ns in
      let same : Rest ns 0 = record {
        ids = λ k m q. (let t = ids k m q in omega arith);
        tests = λ p k. (let q : 0 + k ≡ k = omega arith in rw q);
        nodes = λ k. (let q : 0 + k ≡ k = omega arith in rw q);
      } in
      (
        find j rs,
        apply_at rs ns j n e,
        find_at ns 0 [] same (Known-start show_float ns) j j n (omega arith) e,
      )
