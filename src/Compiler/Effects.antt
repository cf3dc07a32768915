-- ===== src/Compiler/Effects.antt =====
-- `effects` and `effects_into` of crates/hale-compiler/src/cost.rs: which endpoints a body can reach, and
-- whether it can change anything.
pub mod Covered
pub mod Calls
use tired.Prelude.{
  ℕ, zero, suc, Bool, true, false, not, ◌||◌, String, List, [], ◌∷◌, Option, none, some, str_eq,
  if◌then◌else◌, contains, insert, length,
}
use tired.Syntax.Ast.{Expr}
use tired.Compiler.Ir
use tired.Compiler.Ir.{
  NodeKind, FetchIr, Arms, ArmBodyIr, Stored, StoredNodes, stored, no_nodes, node_and, Body, Flow,
  store,
}
use tired.Compiler.Cost.{call_name, find_flow}

pub record Effects : Type 0 where
  pub endpoints : List String
  pub mutates : Bool

abbrev pub nothing_yet : Effects
nothing_yet = record { endpoints = []; mutates = false }

-- `matches!(f.method.as_str(), "GET" | "HEAD")`
unfoldable pub is_read : String → Bool
is_read m = str_eq m "GET" || str_eq m "HEAD"

unfoldable pub add_fetch : FetchIr → Effects → Effects
unfolding is_read
add_fetch f out = record {
  endpoints = insert f.endpoint out.endpoints;
  mutates = not (is_read f.method) || out.mutates;
}

-- `effects_into`, by what a call adds.
module _ (calls : Expr → Effects → Effects) where
  unfoldable mutual
    unfolding add_fetch

    pub into_kind : NodeKind → Effects → Effects
    into_kind (Ir.fetch f) out = add_fetch f out
    into_kind (Ir.expr e) out = calls e out
    into_kind (Ir.match_node _ arms _) out = into_arms arms out
    into_kind (Ir.for_each _ _ b _ _) out = into_stored b out
    into_kind _ out = out

    pub into_arms : Arms → Effects → Effects
    into_arms Ir.no_arms out = out
    into_arms (Ir.arm_and _ b arms) out = into_arms arms (into_arm b out)

    pub into_arm : ArmBodyIr → Effects → Effects
    into_arm (Ir.body b) out = into_stored b out
    into_arm _ out = out

    pub into_stored : Stored → Effects → Effects
    into_stored (stored ns _) out = into_nodes ns out

    pub into_nodes : StoredNodes → Effects → Effects
    into_nodes no_nodes out = out
    into_nodes (node_and _ k _ _ _ _ live _ ns) out =
        let new = into_kind k out in into_nodes ns (if live then new else out)

-- A flow that is being visited is not entered again.
unfoldable pub into_flow : (Expr → Effects → Effects) → Bool → Option Flow → Effects → Effects
into_flow calls true found out = out
into_flow calls false none out = out
into_flow calls false (some f) out = into_stored calls (store f.body) out

-- The call of a name, if the expression is one; `inside` is how the calls in a flow are run over.
unfoldable pub into_call :
    (String → Expr → Effects → Effects)
    → List Flow
    → List String
    → Option String
    → Effects
    → Effects
unfolding into_flow
into_call inside flows visiting none out = out
into_call inside flows visiting (some name) out =
    into_flow (inside name) (contains name visiting) (find_flow name flows) out

-- What a call adds. The fuel bounds how many flows call one another in a row.
unfoldable pub call_effects : ℕ → List Flow → List String → Expr → Effects → Effects
unfolding into_call
call_effects zero flows visiting e out = out
call_effects (suc fuel) flows visiting e out =
    into_call (λ name. call_effects fuel flows (name ∷ visiting)) flows visiting (call_name e) out

-- No flow is visited twice in a row of calls, so as much fuel as there are flows is enough.
unfoldable pub effects : Body → List Flow → Effects
unfolding call_effects
effects b flows = into_stored (call_effects (length flows) flows []) (store b) nothing_yet
