-- ===== src/Compiler/Optimize/Liveness.antt =====
-- `liveness` of crates/hale-compiler/src/optimize.rs: dead-request elimination. A worklist marks
-- what the effects need. `Vec<bool>` is a list of flags, and the stack has its top in front.
-- Rust panics on an index out of range; here such a read is `false` and such a write does nothing.
pub mod Marking
pub mod Correct
use tired.Prelude.{
  ℕ, zero, suc, Bool, true, false, not, ◌&&◌, String, List, [], ◌∷◌, none, some, get_elem?, get_or,
  set, length, replicate, concat, if◌then◌else◌, map,
}
use tired.Syntax.Diag.{Diagnostics, Diagnostic, warning, with_note}
use tired.Compiler.Deps.Wired.{deps_of}
use tired.Compiler.Ir.{Node, NodeKind, Body, FetchIr, fetch, render_path}

pub record Marks : Type 0 where
  pub flags : List Bool
  pub stack : List ℕ

abbrev pub marked : Marks → ℕ → Bool
marked s v = get_or s.flags v false

-- `if !live[d] { live[d] = true; stack.push(d); }`
unfoldable pub mark : ℕ → Marks → Marks
mark d s = if marked s d then s else record { flags = set s.flags d true; stack = d ∷ s.stack }

unfoldable pub mark_all : List ℕ → Marks → Marks
mark_all [] s = s
mark_all (d ∷ ds) s = mark_all ds (mark d s)

unfoldable pub seed : List Node → Marks → Marks
seed [] s = s
seed (n ∷ ns) s = seed ns (if n.effect then mark n.id s else s)

-- `while let Some(id) = stack.pop()`
unfoldable pub drain : ℕ → List Node → Marks → Marks
drain zero ns s = s
drain (suc fuel) ns s = elim s.stack [
  | [] ↦ s
  | id ∷ rest ↦ drain fuel ns (mark_all (deps_of ns id) (record s { stack = rest }))
]

unfoldable pub unmarked : ℕ → Marks
unmarked n = record { flags = replicate n false; stack = [] }

-- A node enters the stack once, so as many rounds as there are nodes are enough.
unfoldable pub live_marks : List Node → Marks
unfolding seed drain unmarked
live_marks ns = drain (length ns) ns (seed ns (unmarked (length ns)))

unfoldable pub set_live : List Bool → Node → Node
set_live flags n = record n { live = get_or flags n.id false }

unfoldable pub dead_request : Node → FetchIr → Diagnostic
dead_request n f =
    with_note
      (warning n.span (
        concat (
          "request `"
          ∷ f.endpoint
          ∷ " "
          ∷ render_path f.path
          ∷ "` is never used and was eliminated"
          ∷ [])))
      "dead-request elimination: 0 bytes were sent for it"

unfoldable pub report_dead : Node → NodeKind → Diagnostics → Diagnostics
report_dead n (fetch f) ds = if n.live then ds else dead_request n f ∷ ds
report_dead n _ ds = ds

unfoldable pub dead_requests : List Node → Diagnostics
dead_requests [] = []
dead_requests (n ∷ ns) = report_dead n n.kind (dead_requests ns)

unfoldable pub liveness : Body → Body
unfolding set_live
liveness b = record b { nodes = map (set_live (live_marks b.nodes).flags) b.nodes }

-- The warnings of the same loop.
unfoldable pub liveness_warnings : Body → Diagnostics
unfolding dead_requests report_dead liveness
liveness_warnings b = dead_requests (liveness b).nodes
