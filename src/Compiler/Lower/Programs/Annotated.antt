-- ===== src/Compiler/Lower/Programs/Annotated.antt =====
-- What holds of the bodies of a lowered program.
use tired.Prelude.{
  str_eq, String, List, [], ◌∷◌, Option, none, some, Bool, map, All, Bool-cases, Option-cases, inl,
  inr, lookup, if◌then◌else◌, ◌≡◌, ◌∙◌, ap,
}
use tired.Syntax.Items.{Program, Item, flow_item, test_item, server_item, ServerRoute, to_stmts}
use tired.Compiler.Ir
use tired.Compiler.Ir.{NodeKind, FetchIr, BatchSpec, Node, Body, Flow, Test, Server, Route}
use tired.Compiler.Ir.Deep.{Deep, Deep-map}
use tired.Compiler.Deps.Numbered.{All-map}
use tired.Compiler.Lower.Sound.{
  RuleWith, Follows, IsBare, IsLowered, lower_block-IsLowered, lower_stmts-IsLowered,
}
use tired.Compiler.Lower.Annotate.{Latencies, BatchRules}
use tired.Compiler.Lower.Annotate.Stamped.{IsStamped, declared_batch, annotate-IsStamped}
use tired.Compiler.Lower.Settings.{
  endpoint_latencies, endpoint_batch_rules, lower_server, lower_route,
}
use tired.Compiler.Lower.Settings.Declared.{
  declared_latency, declared_rule, endpoint_latencies-lookup, endpoint_batch_rules-lookup,
}
use tired.Compiler.Lower.Programs.{
  main_stmts, lower_flow, lower_test, flows_in, tests_in, servers_in, Lowered, EachBody, on_flow,
  on_test, on_route, on_server, on_bodies, no_entries, annotate, lower_items, lower_program,
}

All-mapped :
    {A B : Type 0} (P : A → Type 0) (Q : B → Type 0) (f : A → B) (xs : List A)
    → ((x : A) → P x → Q (f x))
    → All P xs
    → All Q (map f xs)
All-mapped P Q f [] to h = tt
All-mapped P Q f (x ∷ xs) to h = (to x h.0, All-mapped P Q f xs to h.1)

-- A change of bodies carries a statement about every body over.
module _ (P Q : Body → Type 0) (go : Body → Body) (to : (b : Body) → P b → Q (go b)) where
  EachBody-on_bodies : (l : Lowered) → EachBody P l → EachBody Q (on_bodies go l)
  unfolding on_bodies on_flow on_test on_route on_server
  EachBody-on_bodies l h = record {
    main = to l.main h.main;
    flows =
        All-mapped (λ f. P f.body) (λ f. Q f.body) (on_flow go) l.flows (λ f k. to f.body k)
          h.flows;
    tests =
        All-mapped (λ t. P t.body) (λ t. Q t.body) (on_test go) l.tests (λ t k. to t.body k)
          h.tests;
    servers =
        All-mapped (λ s. All (λ r. P r.body) s.routes) (λ s. All (λ r. Q r.body) s.routes)
          (on_server go) l.servers
          (λ s k.
            All-mapped (λ r. P r.body) (λ r. Q r.body) (on_route go) s.routes (λ r i. to r.body i)
              k)
          h.servers;
  }

abbrev IsLoweredBody : Body → Type 0
IsLoweredBody b = Deep IsLowered b

flows_in-IsLowered : (items : List Item) → All (λ f. IsLoweredBody f.body) (flows_in items)
unfolding flows_in lower_flow
flows_in-IsLowered [] = tt
flows_in-IsLowered (flow_item f ∷ items) = (lower_block-IsLowered f.body, flows_in-IsLowered items)
flows_in-IsLowered (_ ∷ items) = flows_in-IsLowered items

tests_in-IsLowered : (items : List Item) → All (λ t. IsLoweredBody t.body) (tests_in items)
unfolding tests_in lower_test
tests_in-IsLowered [] = tt
tests_in-IsLowered (test_item t ∷ items) = (lower_block-IsLowered t.body, tests_in-IsLowered items)
tests_in-IsLowered (_ ∷ items) = tests_in-IsLowered items

routes-IsLowered :
    (to_uppercase : String → String) (rs : List ServerRoute)
    → All (λ r. IsLoweredBody r.body) (map (lower_route to_uppercase) rs)
unfolding lower_route
routes-IsLowered to_uppercase [] = tt
routes-IsLowered to_uppercase (r ∷ rs) =
    (lower_block-IsLowered r.handler, routes-IsLowered to_uppercase rs)

servers_in-IsLowered :
    (to_uppercase : String → String) (items : List Item)
    → All (λ s. All (λ r. IsLoweredBody r.body) s.routes) (servers_in to_uppercase items)
unfolding servers_in lower_server
servers_in-IsLowered to_uppercase [] = tt
servers_in-IsLowered to_uppercase (server_item s ∷ items) =
    (routes-IsLowered to_uppercase s.routes, servers_in-IsLowered to_uppercase items)
servers_in-IsLowered to_uppercase (_ ∷ items) = servers_in-IsLowered to_uppercase items

lower_items-IsLowered :
    (to_uppercase : String → String) (items : List Item)
    → EachBody IsLoweredBody (lower_items to_uppercase items)
unfolding lower_items
lower_items-IsLowered to_uppercase items = record {
  main = lower_stmts-IsLowered (to_stmts (main_stmts items));
  flows = flows_in-IsLowered items;
  tests = tests_in-IsLowered items;
  servers = servers_in-IsLowered to_uppercase items;
}

-- A rule with another condition on requests.
module _ (L K : FetchIr → Type 0) (to : (f : FetchIr) → L f → K f) where
  RuleWith-map : (k : NodeKind) (e : Bool) → RuleWith L k e → RuleWith K k e
  RuleWith-map (Ir.fetch f) e h = (h.0, to f h.1)
  RuleWith-map (Ir.let_node _) e h = h
  RuleWith-map (Ir.scatter _) e h = absurd h
  RuleWith-map _ e h = h

  Deep-Follows : (b : Body) → Deep (Follows (RuleWith L)) b → Deep (Follows (RuleWith K)) b
  Deep-Follows b h =
      Deep-map {P = Follows (RuleWith L)} {Q = Follows (RuleWith K)}
        (λ ns k. (
          k.0,
          All-map (λ (n : Node). RuleWith L n.kind n.effect)
              (λ (n : Node). RuleWith K n.kind n.effect) ns (λ n. RuleWith-map n.kind n.effect) k.1,
        ))
        b h

IsBare-IsStamped : (f : FetchIr) → IsBare f → IsStamped [] [] f
IsBare-IsStamped f (timed, bare) = elim (Bool-cases (str_eq f.method "GET")) [
  | inl e ↦ rw e (timed, bare)
  | inr e ↦ rw e (timed, bare)
]

-- A body whose requests carry what the tables say.
abbrev IsStampedBody : Latencies → BatchRules → Body → Type 0
IsStampedBody times rules b = Deep (Follows (RuleWith (IsStamped times rules))) b

pub EachBody-map :
    (P Q : Body → Type 0) (l : Lowered) → ((b : Body) → P b → Q b) → EachBody P l → EachBody Q l
EachBody-map P Q l to h = record {
  main = to l.main h.main;
  flows =
      All-map (λ (f : Flow). P f.body) (λ (f : Flow). Q f.body) l.flows (λ f. to f.body) h.flows;
  tests =
      All-map (λ (t : Test). P t.body) (λ (t : Test). Q t.body) l.tests (λ t. to t.body) h.tests;
  servers =
      All-map (λ (s : Server). All (λ r. P r.body) s.routes)
        (λ (s : Server). All (λ r. Q r.body) s.routes) l.servers
        (λ s. All-map (λ (r : Route). P r.body) (λ (r : Route). Q r.body) s.routes (λ r. to r.body))
        h.servers;
}

annotate-IsStampedBody :
    (times : Latencies) (rules : BatchRules) (l : Lowered)
    → EachBody IsLoweredBody l
    → EachBody (IsStampedBody times rules) (annotate times rules l)
unfolding annotate no_entries
annotate-IsStampedBody [] [] l h =
    EachBody-map IsLoweredBody (IsStampedBody [] []) l
      (Deep-Follows IsBare (IsStamped [] []) IsBare-IsStamped) h
annotate-IsStampedBody [] (r ∷ rs) l h =
    EachBody-on_bodies IsLoweredBody (IsStampedBody [] (r ∷ rs)) _ (annotate-IsStamped [] (r ∷ rs))
      l h
annotate-IsStampedBody (t ∷ ts) rules l h =
    EachBody-on_bodies IsLoweredBody (IsStampedBody (t ∷ ts) rules) _
      (annotate-IsStamped (t ∷ ts) rules) l h

-- The batching of a request by a rule.
abbrev batch_by : Option (String × String) → Option BatchSpec
batch_by none = none
batch_by (some (param, key)) =
    some (record { query_param = param; key_field = key; ids = []; mapped = none })

-- A request with the latency, and if it is a GET the rule, that the items declare for its endpoint.
abbrev pub IsDeclared : List Item → FetchIr → Type 0
IsDeclared items f =
    (f.latency_ms ≡ declared_latency f.endpoint items)
    × (f.batch
        ≡ (if str_eq f.method "GET" then batch_by (declared_rule f.endpoint items) else none))

-- A body whose requests carry what the items declare.
abbrev pub IsAnnotated : List Item → Body → Type 0
IsAnnotated items b = Deep (Follows (RuleWith (IsDeclared items))) b

declared_batch-by :
    (rules : BatchRules) (method endpoint : String)
    → declared_batch rules method endpoint
      ≡ (if str_eq method "GET" then batch_by (lookup endpoint rules) else none)
declared_batch-by rules method endpoint = elim (Option-cases (lookup endpoint rules)) [
  | inl e ↦ rw e
  | inr (r, e) ↦ rw e
]

IsStamped-IsDeclared :
    (p : Program) (f : FetchIr)
    → IsStamped (endpoint_latencies p) (endpoint_batch_rules p) f
    → IsDeclared p.items f
IsStamped-IsDeclared p f (timed, batched) = (
  timed ∙ endpoint_latencies-lookup f.endpoint p,
  batched
      ∙ declared_batch-by (endpoint_batch_rules p) f.method f.endpoint
      ∙ ap (λ r. if str_eq f.method "GET" then batch_by r else none)
          (endpoint_batch_rules-lookup f.endpoint p),
)

-- In every body of a lowered program, at every depth, ids are positions, edges lead backwards, a request
-- is an effect exactly if it is no GET, and it has the latency that its endpoint declares, the duration
-- that the setting `latency` starts with, and, if it is a GET, the batch rule that the endpoint declares,
-- by `param(..)` and `key(..)` of the setting `batch`; of several declarations the last with one counts.
pub lower_program-IsAnnotated :
    (to_uppercase : String → String) (p : Program)
    → EachBody (IsAnnotated p.items) (lower_program to_uppercase p)
unfolding lower_program
lower_program-IsAnnotated to_uppercase p =
    let times = endpoint_latencies p in
    let rules = endpoint_batch_rules p in
    EachBody-map (IsStampedBody times rules) (IsAnnotated p.items) _
      (Deep-Follows (IsStamped times rules) (IsDeclared p.items) (IsStamped-IsDeclared p))
      (annotate-IsStampedBody times rules _ (lower_items-IsLowered to_uppercase p.items))
