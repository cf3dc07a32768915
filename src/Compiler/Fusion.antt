-- ===== src/Compiler/Fusion.antt =====
-- Request and loop fusion of crates/hale-compiler/src/optimize.rs: what both passes share. How Rust
-- reads an `i64` is the argument `parse_int`, from `str::parse`.
pub mod Requests
pub mod Loops
use tired.Prelude.{
  ℕ, Bool, true, false, ◌&&◌, String, List, [], ◌∷◌, ◌++◌, Option, none, some, length, ltb, not,
  concat, join, insert_all, insert,
}
use tired.Syntax.Ast.{Expr, int, str, null, ℤ, lit, no_parts, PathPattern, path}
use tired.Syntax.Pretty.{expr_text}
use tired.Compiler.Ir
use tired.Compiler.Ir.{Node, FetchIr, BatchSpec, PathSeg, segments, of_segments, path_span}
use tired.Compiler.Lower.FreeVars.{free_vars_of}
use tired.Compiler.Optimize.Dedup.{is_get}

abbrev pub is_empty_list {ℓ} : {A : Type ℓ} → List A → Bool
is_empty_list [] = true
is_empty_list (_ ∷ _) = false

abbrev pub is_none {ℓ} : {A : Type ℓ} → Option A → Bool
is_none none = true
is_none (some _) = false

-- The conditions that `batch_group_key` and `loop_fusions` share.
unfoldable pub batchable : FetchIr → BatchSpec → Option String → Bool
unfolding is_get
batchable f spec bound =
    is_get f
    && (is_empty_list spec.ids
        && (is_none spec.mapped
            && (is_empty_list f.params
                && (is_empty_list f.pipeline
                    && (is_none f.idempotency_key
                        && (not (is_none bound) && ltb 1 (length (segments f.path))))))))

unfoldable pub last_seg : List PathSeg → Option PathSeg
last_seg [] = none
last_seg (s ∷ []) = some s
last_seg (s ∷ t ∷ ss) = last_seg (t ∷ ss)

-- `segments[..segments.len().saturating_sub(1)]`
unfoldable pub init_segs : List PathSeg → List PathSeg
init_segs [] = []
init_segs (s ∷ []) = []
init_segs (s ∷ t ∷ ss) = s ∷ init_segs (t ∷ ss)

unfoldable pub prefix_path : PathPattern → PathPattern
unfolding init_segs
prefix_path p = path (of_segments (init_segs (segments p))) (path_span p)

-- `BTreeSet::extend` by the free variables of each expression.
unfoldable pub all_free_vars : List Expr → List String → List String
all_free_vars [] out = out
all_free_vars (e ∷ es) out = all_free_vars es (insert_all (free_vars_of e) out)

module _ (parse_int : String → Option ℤ) where
  literal_value : Option ℤ → String → PathPattern → Expr
  literal_value (some n) l p = int n (path_span p)
  literal_value none l p = str (lit l no_parts) (path_span p)

  seg_value : Option PathSeg → PathPattern → Expr
  unfolding literal_value
  seg_value (some (Ir.param e)) p = e
  seg_value (some (Ir.literal l)) p = literal_value (parse_int l) l p
  seg_value none p = null (path_span p)

  unfoldable pub varying_value : PathPattern → Expr
  unfolding seg_value last_seg
  varying_value p = seg_value (last_seg (segments p)) p
