-- ===== src/Tests/Fusion.antt =====
-- The properties of fusion and of the whole optimizer on the sample block.
use tired.Prelude.{◌≤◌, List, [], ◌∷◌, ◌≡◌, All, none}
use tired.Compiler.Ir.{Body, Flow}
use tired.Compiler.Ir.Deep.{Deep}
use tired.Compiler.Ir.Everywhere.{Everywhere}
use tired.Compiler.Deps.Wired.{IsWired}
use tired.Compiler.Lower.Nodes.{lower_block}
use tired.Compiler.Optimize.Effects.{effects_of, requests}
use tired.Compiler.Optimize.Settled.{IsReady}
use tired.Compiler.Fusion.Requests.{fuse_nodes}
use tired.Compiler.Fusion.Requests.Kept.{
  fuse_nodes-IsWired, fuse_nodes-effects, fuse_nodes-requests,
}
use tired.Compiler.Fusion.Loops.{fuse_loop_nodes}
use tired.Compiler.Fusion.Loops.Kept.{fuse_loop_nodes-IsWired}
use tired.Compiler.Optimize.Driver.{optimize_body, optimize}
use tired.Compiler.Optimize.Driver.Sound.{IsScheduled, optimize_body-IsScheduled}
use tired.Compiler.Optimize.Driver.Program.{lower_block-IsReady, optimize-IsScheduled}
use tired.Tests.Sample.{sample, post_then_log, show_float, parse_int}

abbrev body : Body
body = lower_block sample

body-IsReady : Deep IsReady body
body-IsReady = lower_block-IsReady sample

fuse_nodes-IsWired_example : IsWired (fuse_nodes show_float parse_int body.nodes)
fuse_nodes-IsWired_example = fuse_nodes-IsWired show_float parse_int body.nodes body-IsReady.here.0

fuse_nodes-effects_example :
    effects_of (fuse_nodes show_float parse_int body.nodes) ≡ effects_of body.nodes
fuse_nodes-effects_example = fuse_nodes-effects show_float parse_int body.nodes body-IsReady.here.1

fuse_nodes-requests_example :
    requests (fuse_nodes show_float parse_int body.nodes) ≤ requests body.nodes
fuse_nodes-requests_example = fuse_nodes-requests show_float parse_int body.nodes

fuse_loop_nodes-IsWired_example : IsWired (fuse_loop_nodes 0 body.nodes)
fuse_loop_nodes-IsWired_example = fuse_loop_nodes-IsWired 0 body.nodes body-IsReady.here.0

optimize_body-IsScheduled_example :
    Everywhere IsScheduled (optimize_body show_float parse_int body 0).0
optimize_body-IsScheduled_example =
    optimize_body-IsScheduled show_float parse_int body 0 body-IsReady

abbrev flows : List Flow
flows = record { name = "ping"; params = []; budget = none; body = lower_block post_then_log } ∷ []

optimize-IsScheduled_example :
    let (main', flows', tests', servers', _) = optimize show_float parse_int body flows [] [] in
    Everywhere IsScheduled main'
    × All (λ f. Everywhere IsScheduled f.body) flows'
    × All (λ t. Everywhere IsScheduled t.body) tests'
    × All (λ s. All (λ r. Everywhere IsScheduled r.body) s.routes) servers'
optimize-IsScheduled_example =
    optimize-IsScheduled show_float parse_int body flows [] [] body-IsReady
      (lower_block-IsReady post_then_log, tt) tt tt
