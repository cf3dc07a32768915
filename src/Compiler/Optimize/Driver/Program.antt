-- ===== src/Compiler/Optimize/Driver/Program.antt =====
-- `optimize` on a whole program.
use tired.Prelude.{ℕ, String, List, [], ◌∷◌, Option, All}
use tired.Syntax.Ast.{ℤ, Block}
use tired.Compiler.Ir.{Node, FetchIr, Body, Flow, Test, Server, Route}
use tired.Compiler.Ir.Deep.{Deep, Deep-map}
use tired.Compiler.Ir.Everywhere.{Everywhere}
use tired.Compiler.Lower.Nodes.{lower_block}
use tired.Compiler.Lower.Sound.{RuleWith, Follows, IsBare, lower_block-IsLowered}
use tired.Compiler.Optimize.Settled.{IsSettled, RuleWith-IsSettled, IsReady}
use tired.Compiler.Optimize.Driver.{
  optimize_body, optimize_flows, optimize_tests, optimize_routes, optimize_servers, optimize,
}
use tired.Compiler.Optimize.Driver.Sound.{IsScheduled, optimize_body-IsScheduled}

rules-IsSettled :
    (L : FetchIr → Type 0) (ns : List Node)
    → All (λ n. RuleWith L n.kind n.effect) ns
    → All (λ n. IsSettled n.kind n.effect) ns
rules-IsSettled L [] h = tt
rules-IsSettled L (n ∷ ns) h = (RuleWith-IsSettled L n.kind n.effect h.0, rules-IsSettled L ns h.1)

-- Lowering gives what the passes need.
pub Follows-IsReady :
    (L : FetchIr → Type 0) (b : Body) → Deep (Follows (RuleWith L)) b → Deep IsReady b
Follows-IsReady L b h =
    Deep-map {P = Follows (RuleWith L)} {Q = IsReady} (λ ns h. (h.0, rules-IsSettled L ns h.1)) b h

pub lower_block-IsReady : (b : Block) → Deep IsReady (lower_block b)
lower_block-IsReady b = Follows-IsReady IsBare (lower_block b) (lower_block-IsLowered b)

module _ (show_float : ℕ → String) (parse_int : String → Option ℤ) where
  -- A lowered block comes out of `optimize_body` well-formed and scheduled at every depth.
  pub compiled-IsScheduled :
      (b : Block) (seq : ℕ)
      → Everywhere IsScheduled (optimize_body show_float parse_int (lower_block b) seq).0
  compiled-IsScheduled b seq =
      optimize_body-IsScheduled show_float parse_int (lower_block b) seq (lower_block-IsReady b)

  flows-IsScheduled :
      (fs : List Flow) (seq : ℕ)
      → All (λ f. Deep IsReady f.body) fs
      → All (λ f. Everywhere IsScheduled f.body) (optimize_flows show_float parse_int fs seq).0
  unfolding optimize_flows
  flows-IsScheduled [] seq h = tt
  flows-IsScheduled (f ∷ fs) seq h =
      (optimize_body-IsScheduled show_float parse_int f.body seq h.0, flows-IsScheduled fs _ h.1)

  tests-IsScheduled :
      (ts : List Test) (seq : ℕ)
      → All (λ t. Deep IsReady t.body) ts
      → All (λ t. Everywhere IsScheduled t.body) (optimize_tests show_float parse_int ts seq).0
  unfolding optimize_tests
  tests-IsScheduled [] seq h = tt
  tests-IsScheduled (t ∷ ts) seq h =
      (optimize_body-IsScheduled show_float parse_int t.body seq h.0, tests-IsScheduled ts _ h.1)

  routes-IsScheduled :
      (rs : List Route) (seq : ℕ)
      → All (λ r. Deep IsReady r.body) rs
      → All (λ r. Everywhere IsScheduled r.body) (optimize_routes show_float parse_int rs seq).0
  unfolding optimize_routes
  routes-IsScheduled [] seq h = tt
  routes-IsScheduled (r ∷ rs) seq h =
      (optimize_body-IsScheduled show_float parse_int r.body seq h.0, routes-IsScheduled rs _ h.1)

  servers-IsScheduled :
      (ss : List Server) (seq : ℕ)
      → All (λ s. All (λ r. Deep IsReady r.body) s.routes) ss
      → All
          (λ s. All (λ r. Everywhere IsScheduled r.body) s.routes)
          (optimize_servers show_float parse_int ss seq).0
  unfolding optimize_servers
  servers-IsScheduled [] seq h = tt
  servers-IsScheduled (s ∷ ss) seq h =
      (routes-IsScheduled s.routes seq h.0, servers-IsScheduled ss _ h.1)

  -- If in the main body and in the bodies of the flows, the tests and the routes, at every depth, ids are
  -- positions, edges lead backwards and every effect flag fits the kind of its node, then `optimize` leaves
  -- each of these bodies with ids that are positions, edges that lead backwards and the waves of its own
  -- final nodes, at every depth.
  pub optimize-IsScheduled :
      (main : Body) (flows : List Flow) (tests : List Test) (servers : List Server)
      → Deep IsReady main
      → All (λ f. Deep IsReady f.body) flows
      → All (λ t. Deep IsReady t.body) tests
      → All (λ s. All (λ r. Deep IsReady r.body) s.routes) servers
      → let (main', flows', tests', servers', _) =
          optimize show_float parse_int main flows tests servers in
        Everywhere IsScheduled main'
        × All (λ f. Everywhere IsScheduled f.body) flows'
        × All (λ t. Everywhere IsScheduled t.body) tests'
        × All (λ s. All (λ r. Everywhere IsScheduled r.body) s.routes) servers'
  unfolding optimize
  optimize-IsScheduled main flows tests servers m f t s = (
    optimize_body-IsScheduled show_float parse_int main 0 m,
    flows-IsScheduled flows _ f,
    tests-IsScheduled tests _ t,
    servers-IsScheduled servers _ s,
  )
