-- ===== src/Compiler/Optimize/Dedup.antt =====
-- `dedup_requests` and `fetch_sig` of crates/hale-compiler/src/optimize.rs: the collapse of identical
-- requests. `show_float` is Rust's printing of an `f64`.
pub mod Correct
pub mod Scan
pub mod Unique
pub mod Ambiguous
use tired.Prelude.{
  ℕ, zero, suc, Bool, true, false, not, String, List, [], ◌∷◌, ◌++◌, Option, none, some, ◌==◌,
  str_eq, if◌then◌else◌, concat, join, sort, map, show_nat, lookup,
}
use tired.Syntax.Span.{Span}
use tired.Syntax.Ast.{Expr, ident, PipelineOp}
use tired.Syntax.Diag.{Diagnostics, Diagnostic, warning, with_note}
use tired.Syntax.Pretty.{expr_text, pipeline_op}
use tired.Compiler.Ir
use tired.Compiler.Ir.{
  Node, NodeKind, Body, FetchIr, BatchSpec, PathSeg, segments, render_path, let_node,
}

-- A rewrite: the alias, the first node with the request, and the variable that it binds.
pub record Rewrite : Type 0 where
  pub alias : ℕ
  pub first : ℕ
  pub bound : String

-- `f.batch.as_ref().is_some_and(|b| b.mapped.is_some())`
unfoldable pub is_mapped : Option BatchSpec → Bool
is_mapped none = false
is_mapped (some b) = elim b.mapped [ none ↦ false | some _ ↦ true ]

unfoldable pub is_get : FetchIr → Bool
is_get f = str_eq f.method "GET"

module _ (show_float : ℕ → String) where
  unfoldable pub seg_parts : List PathSeg → List String
  seg_parts [] = []
  seg_parts (Ir.literal l ∷ ss) = "/" ∷ l ∷ seg_parts ss
  seg_parts (Ir.param e ∷ ss) = "/" ∷ "{" ∷ expr_text show_float e ∷ "}" ∷ seg_parts ss

  unfoldable pub param_parts : List (String × Expr) → List String
  param_parts [] = []
  param_parts ((k, e) ∷ ps) = concat (k ∷ "=" ∷ expr_text show_float e ∷ []) ∷ param_parts ps

  unfoldable pub op_parts : List PipelineOp → List String
  op_parts [] = []
  op_parts (op ∷ ops) = "|" ∷ pipeline_op show_float op ∷ op_parts ops

  unfoldable pub fetch_sig : FetchIr → List String → List ℕ → String
  unfolding seg_parts param_parts op_parts
  fetch_sig f reads deps = concat (
      "GET "
      ∷ f.endpoint
      ∷ concat (seg_parts (segments f.path))
      ∷ "?"
      ∷ join "&" (sort (param_parts f.params))
      ∷ concat (op_parts f.pipeline)
      ∷ "#reads["
      ∷ join "," (sort reads)
      ∷ "]#deps["
      ∷ join "," (sort (map show_nat deps))
      ∷ "]"
      ∷ [])

  -- The signature of a node that the loop does not skip.
  unfoldable pub kind_sig : NodeKind → List String → List ℕ → Option String
  kind_sig (Ir.fetch f) reads deps =
      if is_get f then (if is_mapped f.batch then none else some (fetch_sig f reads deps)) else none
  kind_sig _ reads deps = none

  unfoldable pub node_sig : Node → Option String
  node_sig n = kind_sig n.kind n.reads n.deps

  abbrev pub Requests : Type 0
  Requests = List (String × (ℕ × String))

  -- The arm `None` of the `match`, and all skipped nodes.
  unfoldable pub remember : Option String → Option String → ℕ → Requests → Requests
  remember (some sig) (some b) id seen = elim (lookup sig seen) [
    | some _ ↦ seen
    | none ↦ (sig, (id, b)) ∷ seen
  ]
  remember _ _ id seen = seen

  -- The arm `Some` of the `match`.
  unfoldable pub reuse : Option String → Option String → ℕ → Requests → Option Rewrite
  reuse (some sig) (some _) id seen = elim (lookup sig seen) [
    | some hit ↦ some (record { alias = id; first = hit.0; bound = hit.1 })
    | none ↦ none
  ]
  reuse _ _ id seen = none

  abbrev pub cons_found : Option Rewrite → List Rewrite → List Rewrite
  cons_found none rs = rs
  cons_found (some r) rs = r ∷ rs

  unfoldable pub find_rewrites : Requests → List Node → List Rewrite
  find_rewrites seen [] = []
  find_rewrites seen (n ∷ ns) =
      cons_found (reuse (node_sig n) n.binding n.id seen)
        (find_rewrites (remember (node_sig n) n.binding n.id seen) ns)

-- The assignments to `body.nodes[alias_id]`; a node that is no fetch is passed over.
unfoldable pub alias_kind : NodeKind → Rewrite → Node → Node
alias_kind (Ir.fetch _) r n = record n {
  kind = let_node (ident (record { node = r.bound; span = n.span }));
  reads = r.bound ∷ [];
  deps = r.first ∷ [];
}
alias_kind _ r n = n

unfoldable pub alias_node : Rewrite → Node → Node
unfolding alias_kind
alias_node r n = alias_kind n.kind r n

unfoldable pub update : ℕ → (Node → Node) → List Node → List Node
update i f [] = []
update zero f (n ∷ ns) = f n ∷ ns
update (suc i) f (n ∷ ns) = n ∷ update i f ns

unfoldable pub apply_rewrites : List Rewrite → List Node → List Node
apply_rewrites [] ns = ns
apply_rewrites (r ∷ rs) ns = apply_rewrites rs (update r.alias (alias_node r) ns)

unfoldable pub dedup_nodes : (ℕ → String) → List Node → List Node
dedup_nodes show_float ns = apply_rewrites (find_rewrites show_float [] ns) ns

unfoldable pub dedup_requests : (ℕ → String) → Body → Body
dedup_requests show_float b = record b { nodes = dedup_nodes show_float b.nodes }

unfoldable pub duplicate_warning : Span → FetchIr → Diagnostic
duplicate_warning sp f =
    with_note
      (warning sp (
        concat (
          "duplicate request `"
          ∷ f.endpoint
          ∷ " "
          ∷ render_path f.path
          ∷ "` reuses an identical earlier call"
          ∷ [])))
      "request deduplication: the network is hit once; the second call is free"

abbrev pub warn_kind : NodeKind → Span → Diagnostics → Diagnostics
warn_kind (Ir.fetch f) sp ds = duplicate_warning sp f ∷ ds
warn_kind _ sp ds = ds

unfoldable pub warn_at : ℕ → List Node → Diagnostics → Diagnostics
warn_at i [] ds = ds
warn_at zero (n ∷ ns) ds = warn_kind n.kind n.span ds
warn_at (suc i) (n ∷ ns) ds = warn_at i ns ds

-- The warnings that the second loop pushes.
unfoldable pub rewrite_warnings : List Rewrite → List Node → Diagnostics
rewrite_warnings [] ns = []
rewrite_warnings (r ∷ rs) ns =
    warn_at r.alias ns (rewrite_warnings rs (update r.alias (alias_node r) ns))

unfoldable pub dedup_warnings : (ℕ → String) → Body → Diagnostics
dedup_warnings show_float b = rewrite_warnings (find_rewrites show_float [] b.nodes) b.nodes
