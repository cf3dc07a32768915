-- ===== src/Compiler/Fusion/Loops/Quiet.antt =====
-- The severity of what fusion of loops reports.
use tired.Prelude.{String, List, [], ◌∷◌, ◌≡◌, refl, false}
use tired.Syntax.Diag.{is_error, warning, with_note}
use tired.Syntax.Diag.Quiet.{IsQuiet}
use tired.Compiler.Ir
use tired.Compiler.Ir.{Node, NodeKind}
use tired.Compiler.Deps.Numbered.{All-append}
use tired.Compiler.Fusion.Loops.{
  LoopFusePlan, loop_warning, plan_warnings, kind_warnings, kind_plans, loop_warnings,
}

plan_warnings-IsQuiet : (var : String) (ps : List LoopFusePlan) → IsQuiet (plan_warnings var ps)
unfolding plan_warnings loop_warning warning with_note
plan_warnings-IsQuiet var [] = tt
plan_warnings-IsQuiet var (p ∷ ps) = (refl, plan_warnings-IsQuiet var ps)

kind_warnings-IsQuiet : (k : NodeKind) (ps : List LoopFusePlan) → IsQuiet (kind_warnings k ps)
unfolding kind_warnings
kind_warnings-IsQuiet (Ir.for_each var _ _ _ _) ps = plan_warnings-IsQuiet var ps
kind_warnings-IsQuiet _ ps = tt

pub loop_warnings-IsQuiet : (ns : List Node) → IsQuiet (loop_warnings ns)
unfolding loop_warnings
loop_warnings-IsQuiet [] = tt
loop_warnings-IsQuiet (n ∷ ns) =
    All-append (λ d. is_error d.severity ≡ false) (kind_warnings n.kind (kind_plans n.kind)) _
      (kind_warnings-IsQuiet n.kind (kind_plans n.kind)) (loop_warnings-IsQuiet ns)
