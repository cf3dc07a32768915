-- ===== src/Compiler/Lower/Programs.antt =====
-- `lower_program` of crates/hale-compiler/src/lower.rs.
pub mod Annotated
use tired.Prelude.{
  ℕ, String, List, [], ◌∷◌, Bool, true, false, ◌&&◌, Option, none, some, map, if◌then◌else◌, All,
  Bool-cases, inl, inr, ◌≡◌, refl,
}
use tired.Syntax.Ast.{Stmt}
use tired.Syntax.Items.{
  Program, Item, endpoint_item, type_item, flow_item, mock_item, test_item, server_item, stmt_item,
  FlowDecl, TestDecl, ServerRoute, to_stmts,
}
use tired.Compiler.Ir.{Body, Flow, Test, Server, Route}
use tired.Compiler.Ir.Deep.{Deep, Deep-map}
use tired.Compiler.Lower.Nodes.{lower_block, lower_stmts}
use tired.Compiler.Lower.Sound.{
  RuleWith, NodeRule, Follows, IsLowered, lower_block-IsLowered, lower_stmts-IsLowered,
}
use tired.Compiler.Lower.Annotate.{Latencies, BatchRules, annotate_latency, annotate_batch}
use tired.Compiler.Lower.Annotate.Stamped.{IsStamped, annotate-IsStamped}
use tired.Compiler.Lower.Settings.{
  endpoint_latencies, endpoint_batch_rules, lower_server, lower_route, collect_mocks,
}

main_stmts : List Item → List Stmt
main_stmts [] = []
main_stmts (stmt_item s ∷ items) = s ∷ main_stmts items
main_stmts (_ ∷ items) = main_stmts items

lower_flow : FlowDecl → Flow
lower_flow f = record {
  name = f.name.node;
  params = map (λ p. p.name.node) f.params;
  budget = f.budget;
  body = lower_block f.body;
}

lower_test : TestDecl → Test
lower_test t = record {
  description = t.description;
  mocks = collect_mocks t.body;
  body = lower_block t.body;
}

flows_in : List Item → List Flow
unfolding lower_flow
flows_in [] = []
flows_in (flow_item f ∷ items) = lower_flow f ∷ flows_in items
flows_in (_ ∷ items) = flows_in items

tests_in : List Item → List Test
unfolding lower_test
tests_in [] = []
tests_in (test_item t ∷ items) = lower_test t ∷ tests_in items
tests_in (_ ∷ items) = tests_in items

-- What `lower_program` returns, and the optimizer takes.
pub record Lowered : Type 0 where
  pub main : Body
  pub flows : List Flow
  pub tests : List Test
  pub servers : List Server

-- A statement about every body of a program.
pub record EachBody (P : Body → Type 0) (l : Lowered) : Type 0 where
  pub main : P l.main
  pub flows : All (λ f. P f.body) l.flows
  pub tests : All (λ t. P t.body) l.tests
  pub servers : All (λ s. All (λ r. P r.body) s.routes) l.servers

-- `go` on every body.
module _ (go : Body → Body) where
  on_flow : Flow → Flow
  on_flow f = record f { body = go f.body }

  on_test : Test → Test
  on_test t = record t { body = go t.body }

  on_route : Route → Route
  on_route r = record r { body = go r.body }

  on_server : Server → Server
  unfolding on_route
  on_server s = record s { routes = map on_route s.routes }

  unfoldable pub on_bodies : Lowered → Lowered
  unfolding on_flow on_test on_server
  on_bodies l = record {
    main = go l.main;
    flows = map on_flow l.flows;
    tests = map on_test l.tests;
    servers = map on_server l.servers;
  }

-- `is_empty` of a map.
no_entries : {V : Type 0} → List (String × V) → Bool
no_entries [] = true
no_entries (_ ∷ _) = false

unfoldable pub annotate : Latencies → BatchRules → Lowered → Lowered
unfolding on_bodies no_entries
annotate latency batch l =
    if no_entries latency && no_entries batch
    then l
    else on_bodies (λ b. annotate_batch batch (annotate_latency latency b)) l

module _ (to_uppercase : String → String) where
  servers_in : List Item → List Server
  servers_in [] = []
  servers_in (server_item s ∷ items) = lower_server to_uppercase s ∷ servers_in items
  servers_in (_ ∷ items) = servers_in items

  lower_items : List Item → Lowered
  unfolding main_stmts flows_in tests_in servers_in
  lower_items items = record {
    main = lower_stmts (to_stmts (main_stmts items));
    flows = flows_in items;
    tests = tests_in items;
    servers = servers_in items;
  }

  unfoldable pub lower_program : Program → Lowered
  unfolding annotate lower_items
  lower_program p = annotate (endpoint_latencies p) (endpoint_batch_rules p) (lower_items p.items)
