-- ===== src/Compiler/Fusion/Requests/Candidates.antt =====
-- `fuse_requests` plans only requests that may be batched: bound `GET`s with a batch rule.
use tired.Prelude.{
  ℕ, suc, ◌+◌, Bool, true, false, String, List, [], ◌∷◌, Option, some, ◌≡◌, refl, arith, get_elem?,
  str_eq, All, inl, inr, Option-cases, Bool-cases, subst, length, ◌==◌,
}
use tired.Syntax.Span.{Span}
use tired.Syntax.Ast.{ℤ}
use tired.Compiler.Ir
use tired.Compiler.Ir.{Node, NodeKind, FetchIr, BatchSpec}
use tired.Compiler.Deps.Numbered.{All-append}
use tired.Compiler.Optimize.Dedup.{is_get}
use tired.Compiler.Fusion.{batchable}
use tired.Compiler.Fusion.Requests.{
  Members, add_member, Planned, nothing_planned, bound_from, leader_kind, leader_of, plan_members,
  find_plan, kind_group_key, batch_group_key, group_nodes, values_at, sound_at, plan_sound,
  plan_group, plan_groups, plan_requests,
}

module _ (show_float : ℕ → String) (parse_int : String → Option ℤ) where
  leader_kind-get :
      (k : NodeKind) (bound : Option String) (key : String) (f : FetchIr) (spec : BatchSpec)
      → kind_group_key show_float parse_int k bound ≡ some key
      → leader_kind k ≡ some (f, spec)
      → is_get f ≡ true
  unfolding kind_group_key batchable
  leader_kind-get (Ir.fetch g) bound key f spec e q = elim (Option-cases g.batch) [
    | inl b ↦ ground (arith, b)
    | inr (s, b) ↦ ground (arith, b)
  ]
  leader_kind-get _ bound key f spec e q = cc

  module _ (ns : List Node) where
    -- The node at a position has a group key.
    abbrev pub IsCandidate : ℕ → Type 0
    IsCandidate i =
        (n : Node) × (key : String) × (get_elem? ns i ≡ some n)
        × (batch_group_key show_float parse_int n ≡ some key)

    later_at : (i k : ℕ) → i + suc k ≡ suc i + k
    later_at i k = omega arith

    abbrev Grouped : Members → Type 0
    Grouped ms = All (λ m. All IsCandidate m.1) ms

    add_member-Grouped :
        (k : String) (i : ℕ) (ms : Members)
        → IsCandidate i
        → Grouped ms
        → Grouped (add_member k i ms)
    unfolding add_member
    add_member-Grouped k i [] c h = ((c, tt), tt)
    add_member-Grouped k i ((j, is) ∷ ms) c h = elim (Bool-cases (str_eq j k)) [
      | inl e ↦ rw e (All-append IsCandidate is (i ∷ []) h.0 (c, tt), h.1)
      | inr e ↦ rw e (h.0, add_member-Grouped k i ms c h.1)
    ]

    group_nodes-Grouped :
        (i : ℕ) (rest : List Node) (ms : Members)
        → ((k : ℕ) (n : Node) → get_elem? rest k ≡ some n → get_elem? ns (i + k) ≡ some n)
        → Grouped ms
        → Grouped (group_nodes show_float parse_int i rest ms)
    unfolding group_nodes
    group_nodes-Grouped i [] ms same h = h
    group_nodes-Grouped i (n ∷ rest) ms same h =
        let later = λ (k : ℕ) (m : Node) (e : get_elem? rest k ≡ some m).
          subst (λ p. get_elem? ns p ≡ some m) (later_at i k) (same (suc k) m e) in
        elim (Option-cases (batch_group_key show_float parse_int n)) [
          | inl e ↦ rw e (group_nodes-Grouped (suc i) rest ms later h)
          | inr (key, e) ↦
              (let at_i : i + 0 ≡ i = omega arith in
                rw e (
                  group_nodes-Grouped (suc i) rest (add_member key i ms) later (
                    add_member-Grouped key i ms
                      (n, key, subst (λ j. get_elem? ns j ≡ some n) at_i (same 0 n refl), e) h)))
        ]

    -- Planned positions are candidates, and the template of a group is a `GET`.
    pub record IsSound (p : Planned) : Type 0 where
      pub planned : All (λ e. IsCandidate e.0) p.plan
      pub gets : All (λ g. is_get g.template ≡ true) p.groups

    plan_members-planned :
        (m : List ℕ) (gid : ℕ) (leader : Bool)
        → All IsCandidate m
        → All (λ e. IsCandidate e.0) (plan_members m gid leader)
    unfolding plan_members
    plan_members-planned [] gid leader h = tt
    plan_members-planned (i ∷ m) gid leader h = (h.0, plan_members-planned m gid false h.1)

    leader_of-get :
        (i : ℕ) (f : FetchIr) (spec : BatchSpec) (sp : Span)
        → IsCandidate i
        → leader_of (get_elem? ns i) ≡ some (f, spec, sp)
        → is_get f ≡ true
    unfolding leader_of batch_group_key
    leader_of-get i f spec sp (n, key, at_i, e) q = elim (Option-cases (leader_kind n.kind)) [
      | inl none_here ↦ ground (arith, at_i, none_here)
      | inr ((g, s), here) ↦
          (let get = leader_kind-get n.kind n.binding key g s e here in
            let same : g ≡ f = ground (arith, at_i, here, q) in
            subst (λ x. is_get x ≡ true) same get)
    ]

    plan_group-IsSound :
        (m : List ℕ) (p : Planned)
        → All IsCandidate m
        → IsSound p
        → IsSound (plan_group show_float parse_int ns m p)
    unfolding plan_group plan_sound
    plan_group-IsSound [] p c h = h
    plan_group-IsSound (i ∷ []) p c h = h
    plan_group-IsSound (i ∷ j ∷ m) p c h =
        let ids = values_at show_float parse_int ns (i ∷ j ∷ m) in
        elim (Bool-cases (sound_at show_float parse_int (bound_from i ns) ids)) [
          | inr e ↦ rw e h
          | inl e ↦ elim (Option-cases (leader_of (get_elem? ns i))) [
            | inl q ↦ rw (e, q) h
            | inr ((f, spec, sp), q) ↦
                rw (e, q)
                  (record {
                    planned =
                        All-append (λ x. IsCandidate x.0) p.plan _ h.planned
                          (plan_members-planned (i ∷ j ∷ m) (length p.groups) true c);
                    gets =
                        All-append (λ g. is_get g.template ≡ true) p.groups _ h.gets
                          (leader_of-get i f spec sp c.0 q, tt);
                  })
          ]
        ]

    plan_groups-IsSound :
        (ms : Members) (p : Planned)
        → Grouped ms
        → IsSound p
        → IsSound (plan_groups show_float parse_int ns ms p)
    unfolding plan_groups
    plan_groups-IsSound [] p g h = h
    plan_groups-IsSound ((k, m) ∷ ms) p g h =
        plan_groups-IsSound ms (plan_group show_float parse_int ns m p) g.1
          (plan_group-IsSound m p g.0 h)

    pub plan_requests-IsSound : IsSound (plan_requests show_float parse_int ns)
    unfolding plan_requests
    plan_requests-IsSound =
        plan_groups-IsSound _ nothing_planned
          (group_nodes-Grouped 0 ns [] (λ k n e. let q : 0 + k ≡ k = omega arith in rw q e) tt)
          (record { planned = tt; gets = tt })

    pub find_plan-IsCandidate :
        (i : ℕ) (ps : List (ℕ × ℕ × Bool)) (gid : ℕ) (leader : Bool)
        → All (λ e. IsCandidate e.0) ps
        → find_plan i ps ≡ some (gid, leader)
        → IsCandidate i
    unfolding find_plan
    find_plan-IsCandidate i [] gid leader h e = cc
    find_plan-IsCandidate i ((j, g, l) ∷ ps) gid leader h e = elim (Bool-cases (j == i)) [
      | inl here ↦ (let same : j ≡ i = ground arith in subst IsCandidate same h.0)
      | inr other ↦ find_plan-IsCandidate i ps gid leader h.1 (ground arith)
    ]
