-- ===== src/Compiler/Ir.antt =====
-- crates/hale-compiler/src/ir.rs. A node may hold a body, so a nested body is kept in the form
-- `Stored`; `load` and `store` convert it to the record of lists that the passes work on.
pub mod Deep
pub mod Depth
pub mod Everywhere
use tired.Prelude.{
  ℕ, Bool, true, false, String, Option, none, some, List, [], ◌∷◌, ◌≡◌, refl, ap, concat, length,
  show_nat, str_eq, if◌then◌else◌,
}
use tired.Syntax.Span.{Span}
use tired.Syntax.Ast.{
  Expr, TypeExpr, Pattern, PathPattern, PathSegs, PipelineOp, Effects, path, no_segs, literal_and,
  param_and,
}
use tired.Syntax.Items.{Budget}

pub data PathSeg : Type 0 where
  literal : String → PathSeg
  param : Expr → PathSeg

unfoldable pub seg_list : PathSegs → List PathSeg
seg_list no_segs = []
seg_list (literal_and l ss) = literal l ∷ seg_list ss
seg_list (param_and e ss) = param e ∷ seg_list ss

unfoldable pub of_segments : List PathSeg → PathSegs
of_segments [] = no_segs
of_segments (literal l ∷ ss) = literal_and l (of_segments ss)
of_segments (param e ∷ ss) = param_and e (of_segments ss)

-- `path.segments`
unfoldable pub segments : PathPattern → List PathSeg
unfolding seg_list
segments (path ss _) = seg_list ss

unfoldable pub path_span : PathPattern → Span
path_span (path _ s) = s

pub segments-of_segments : (ss : List PathSeg) (s : Span) → segments (path (of_segments ss) s) ≡ ss
unfolding segments of_segments
segments-of_segments [] s = refl
segments-of_segments (literal l ∷ ss) s = ap (λ r. literal l ∷ r) (segments-of_segments ss s)
segments-of_segments (param e ∷ ss) s = ap (λ r. param e ∷ r) (segments-of_segments ss s)

pub record MappedIds : Type 0 where
  pub coll : Expr
  pub var : String
  pub key : Expr

pub record BatchSpec : Type 0 where
  pub query_param : String
  pub key_field : String
  pub ids : List Expr
  pub mapped : Option MappedIds

pub record FetchIr : Type 0 where
  pub method : String
  pub endpoint : String
  pub endpoint_span : Span
  pub path : PathPattern
  pub params : List (String × Expr)
  pub body : Option Expr
  pub idempotency_key : Option Expr
  pub latency_ms : Option ℕ
  pub batch : Option BatchSpec
  pub pipeline : List PipelineOp
  pub as_result : Bool
  pub contract_ty : Option TypeExpr

pub record ScatterIr : Type 0 where
  pub batch : String
  pub key_field : String
  pub value : Expr

mutual
  pub data NodeKind : Type 0 where
    fetch : FetchIr → NodeKind
    let_node log : Expr → NodeKind
    return_node : Option Expr → NodeKind
    assert_node expr : Expr → NodeKind
    match_node : Expr → Arms → Span → NodeKind
    scatter : ScatterIr → NodeKind
    -- `ForEachIr`: var, iter, body, returns, span.
    for_each : String → Expr → Stored → Bool → Span → NodeKind

  -- `Vec<ArmIr>`
  pub data Arms : Type 0 where
    no_arms : Arms
    arm_and : Pattern → ArmBodyIr → Arms → Arms

  pub data ArmBodyIr : Type 0 where
    value : Expr → ArmBodyIr
    body : Stored → ArmBodyIr
    retry : Effects → ArmBodyIr

  -- A nested `Body`: nodes and waves.
  pub data Stored : Type 0 where
    stored : StoredNodes → List (List ℕ) → Stored

  -- A nested `Vec<Node>`: id, kind, binding, reads, deps, effect, live, span of the first node.
  pub data StoredNodes : Type 0 where
    no_nodes : StoredNodes
    node_and :
        ℕ
        → NodeKind
        → Option String
        → List String
        → List ℕ
        → Bool
        → Bool
        → Span
        → StoredNodes
        → StoredNodes

pub record Node : Type 0 where
  pub id : ℕ
  pub kind : NodeKind
  pub binding : Option String
  pub reads : List String
  pub deps : List ℕ
  pub effect : Bool
  pub live : Bool
  pub span : Span

pub record Body : Type 0 where
  pub nodes : List Node
  pub waves : List (List ℕ)

unfoldable pub load_nodes : StoredNodes → List Node
load_nodes no_nodes = []
load_nodes (node_and i k b r d e l s ns) =
    record { id = i; kind = k; binding = b; reads = r; deps = d; effect = e; live = l; span = s }
    ∷ load_nodes ns

unfoldable pub store_nodes : List Node → StoredNodes
store_nodes [] = no_nodes
store_nodes (n ∷ ns) =
    node_and n.id n.kind n.binding n.reads n.deps n.effect n.live n.span (store_nodes ns)

unfoldable pub load : Stored → Body
unfolding load_nodes
load (stored ns ws) = record { nodes = load_nodes ns; waves = ws }

unfoldable pub store : Body → Stored
unfolding store_nodes
store b = stored (store_nodes b.nodes) b.waves

pub load-store : (b : Body) → load (store b) ≡ b
unfolding load store
load-store b = ap (λ ns. record b { nodes = ns }) (load-store_nodes b.nodes)
  where
    load-store_nodes : (ns : List Node) → load_nodes (store_nodes ns) ≡ ns
    load-store_nodes [] = refl
    load-store_nodes (n ∷ ns) = ap (λ r. n ∷ r) (load-store_nodes ns)

pub record Flow : Type 0 where
  pub name : String
  pub params : List String
  pub budget : Option Budget
  pub body : Body

pub record Test : Type 0 where
  pub description : String
  pub mocks : List String
  pub body : Body

pub record Route : Type 0 where
  pub method : String
  pub path : PathPattern
  pub param_names : List String
  pub budget : Option Budget
  pub body : Body

pub record Server : Type 0 where
  pub name : String
  pub base : String
  pub port : Option ℕ
  pub routes : List Route

unfoldable pub is_fetch : NodeKind → Bool
is_fetch (fetch _) = true
is_fetch _ = false

seg_texts : List PathSeg → List String
seg_texts [] = []
seg_texts (literal l ∷ ss) = "/" ∷ l ∷ seg_texts ss
seg_texts (param _ ∷ ss) = "/" ∷ "{..}" ∷ seg_texts ss

unfoldable pub render_path : PathPattern → String
unfolding seg_texts segments concat
render_path p = let s = concat (seg_texts (segments p)) in if str_eq s "" then "/" else s

idempotent_tag : Option Expr → String
idempotent_tag none = ""
idempotent_tag (some _) = "  [idempotent]"

-- An unbatched fetch: the last case of the `match` in `label`.
plain_label : FetchIr → String → String
plain_label f idem =
    let m = if str_eq f.method "GET" then "" else concat (f.method ∷ " " ∷ []) in
    concat ("fetch " ∷ m ∷ f.endpoint ∷ " " ∷ render_path f.path ∷ idem ∷ [])

batch_label : FetchIr → Option BatchSpec → String → String
unfolding plain_label
batch_label f none idem = plain_label f idem
batch_label f (some b) idem = elim b.ids [
  | _ ∷ _ ↦ concat (
      "fetch "
      ∷ f.endpoint
      ∷ " "
      ∷ render_path f.path
      ∷ "?"
      ∷ b.query_param
      ∷ "=… [batched ×"
      ∷ show_nat (length b.ids)
      ∷ "]"
      ∷ idem
      ∷ [])
  | [] ↦ elim b.mapped [
    | some _ ↦ concat (
        "fetch "
        ∷ f.endpoint
        ∷ " "
        ∷ render_path f.path
        ∷ "?"
        ∷ b.query_param
        ∷ "=… [batched ×N, fused from loop]"
        ∷ idem
        ∷ [])
    | none ↦ plain_label f idem
  ]
]

unfoldable pub label : NodeKind → String
unfolding batch_label idempotent_tag
label (fetch f) = batch_label f f.batch (idempotent_tag f.idempotency_key)
label (let_node _) = "let"
label (log _) = "log"
label (return_node _) = "return"
label (assert_node _) = "assert"
label (expr _) = "expr"
label (match_node _ _ _) = "match"
label (scatter s) = concat ("scatter " ∷ s.batch ∷ "." ∷ s.key_field ∷ " (from batch)" ∷ [])
label (for_each v _ _ _ _) = concat ("for " ∷ v ∷ " in … (per-element loop)" ∷ [])
