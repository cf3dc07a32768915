-- ===== src/Compiler/Fusion/Requests/Quiet.antt =====
-- The severity of what fusion of requests reports.
use tired.Prelude.{
  ℕ, String, List, [], ◌∷◌, Option, ◌≡◌, refl, false, get_elem?, Bool-cases, Option-cases, inl, inr,
}
use tired.Syntax.Ast.{ℤ}
use tired.Syntax.Diag.{is_error, warning, with_note}
use tired.Syntax.Diag.Quiet.{IsQuiet}
use tired.Compiler.Ir.{Node}
use tired.Compiler.Deps.Numbered.{All-append}
use tired.Compiler.Fusion.Requests.{
  Planned, Members, nothing_planned, fused_warning, leader_of, values_at, sound_at, bound_from,
  plan_sound, plan_group, plan_groups, plan_requests,
}

module _ (show_float : ℕ → String) (parse_int : String → Option ℤ) where
  plan_group-IsQuiet :
      (ns : List Node) (m : List ℕ) (p : Planned)
      → IsQuiet p.warnings
      → IsQuiet (plan_group show_float parse_int ns m p).warnings
  unfolding plan_group plan_sound fused_warning warning with_note
  plan_group-IsQuiet ns [] p h = h
  plan_group-IsQuiet ns (i ∷ []) p h = h
  plan_group-IsQuiet ns (i ∷ j ∷ m) p h =
      let ids = values_at show_float parse_int ns (i ∷ j ∷ m) in
      elim (Bool-cases (sound_at show_float parse_int (bound_from i ns) ids)) [
        | inr e ↦ rw e h
        | inl e ↦ elim (Option-cases (leader_of (get_elem? ns i))) [
          | inl q ↦ rw (e, q) h
          | inr ((f, spec, sp), q) ↦
              rw (e, q) (All-append (λ d. is_error d.severity ≡ false) p.warnings _ h (refl, tt))
        ]
      ]

  plan_groups-IsQuiet :
      (ns : List Node) (ms : Members) (p : Planned)
      → IsQuiet p.warnings
      → IsQuiet (plan_groups show_float parse_int ns ms p).warnings
  unfolding plan_groups
  plan_groups-IsQuiet ns [] p h = h
  plan_groups-IsQuiet ns ((_, m) ∷ ms) p h =
      plan_groups-IsQuiet ns ms (plan_group show_float parse_int ns m p)
        (plan_group-IsQuiet ns m p h)

  pub plan_requests-IsQuiet :
      (ns : List Node) → IsQuiet (plan_requests show_float parse_int ns).warnings
  unfolding plan_requests
  plan_requests-IsQuiet ns = plan_groups-IsQuiet ns _ nothing_planned tt
