-- ===== src/Compiler/Optimize/Dedup/Unique.antt =====
-- After deduplication no shareable request is sent twice, and nothing else has changed.
use tired.Prelude.{
  ℕ, ◌<◌, true, false, String, List, [], ◌∷◌, Option, none, some, ◌≡◌, refl, sym, ◌∙◌, arith, inl,
  inr, get_elem?, Option-cases, Bool-cases, ap, subst,
}
use tired.Syntax.Ast.{ident}
use tired.Compiler.Ir
use tired.Compiler.Ir.{Node, NodeKind, FetchIr}
use tired.Compiler.Deps.Meaning.{test_at}
use tired.Compiler.Deps.Wired.{IsNumbered, test_at-some, test_at-none}
use tired.Compiler.Optimize.Dedup.{
  Rewrite, is_get, kind_sig, node_sig, alias_kind, alias_node, dedup_nodes,
}
use tired.Compiler.Optimize.Dedup.Correct.{answers}
use tired.Compiler.Optimize.Dedup.Scan.{rewritten, Outcome, dedup_at, apply-none}

module _ (show_float : ℕ → String) where
  sig-alias_kind :
      (r : Rewrite) (n : Node) (k : NodeKind) (s : String)
      → n.kind ≡ k
      → node_sig show_float n ≡ some s
      → node_sig show_float (alias_kind k r n) ≡ none
  unfolding node_sig kind_sig alias_kind
  sig-alias_kind r n (Ir.fetch f) s e h = refl
  sig-alias_kind r n _ s e h = cc

  sig-alias_node :
      (r : Rewrite) (n : Node) (s : String)
      → node_sig show_float n ≡ some s
      → node_sig show_float (alias_node r n) ≡ none
  unfolding alias_node
  sig-alias_node r n s h = sig-alias_kind r n n.kind s refl h

  -- What still sends a request was kept.
  kept_of_answers :
      (ns : List Node) (j : ℕ) (n : Node) (o : Option Rewrite) (s : String)
      → Outcome show_float ns j n o
      → answers show_float s (rewritten o n) ≡ true
      → o ≡ none
  kept_of_answers ns j n none s h a = refl
  kept_of_answers ns j n (some r) s (t, _, _, sig, _, _, _) a =
      let q = sig-alias_node r n t sig in absurd (ground (arith, q))

  -- What still answers to a signature is an old node, and no old node before it did.
  record Survivor (ns : List Node) (s : String) (j : ℕ) : Type 0 where
    old : test_at (answers show_float s) ns j ≡ true
    first : (k : ℕ) → k < j → test_at (answers show_float s) ns k ≡ false

  survivor :
      (ns : List Node) (s : String) (j : ℕ)
      → IsNumbered ns
      → test_at (answers show_float s) (dedup_nodes show_float ns) j ≡ true
      → Survivor ns s j
  survivor ns s j ids a = elim (Option-cases (get_elem? ns j)) [
    | inl e ↦
        (let gone : get_elem? (dedup_nodes show_float ns) j ≡ none =
            (unfold dedup_nodes in apply-none _ ns j e) in
          cc (test_at-none (answers show_float s) (dedup_nodes show_float ns) j gone))
    | inr (n, e) ↦
        (let (o, at_j, why) = dedup_at show_float ns ids j n e in
          let here = test_at-some (answers show_float s) (dedup_nodes show_float ns) j _ at_j in
          let kept = kept_of_answers ns j n o s why (sym here ∙ a) in
          let why' = subst (Outcome show_float ns j n) kept why in
          let a' : answers show_float s n ≡ true =
            subst (λ r. answers show_float s (rewritten r n) ≡ true) kept (sym here ∙ a) in
          record {
            old = test_at-some (answers show_float s) ns j n e ∙ a';
            first = λ k lt. why' s a' k lt;
          })
  ]

-- After deduplication of a numbered list no two bound `GET` requests have the same signature, but for
-- those with ids mapped from a collection, which have none: each is sent once.
pub dedup_unique :
    (show_float : ℕ → String) (ns : List Node) (s : String) (k j : ℕ)
    → IsNumbered ns
    → k < j
    → test_at (answers show_float s) (dedup_nodes show_float ns) k ≡ true
    → test_at (answers show_float s) (dedup_nodes show_float ns) j ≡ false
dedup_unique show_float ns s k j ids lt at_k =
    elim (Bool-cases (test_at (answers show_float s) (dedup_nodes show_float ns) j)) [
      | inr e ↦ e
      | inl at_j ↦
          (let x = survivor show_float ns s k ids at_k in
            let y = survivor show_float ns s j ids at_j in
            let p = x.old in let q = y.first k lt in cc)
    ]

sig-kind_none :
    (show_float : ℕ → String) (n : Node) (k : NodeKind)
    → n.kind ≡ k
    → ((f : FetchIr) → k ≡ Ir.fetch f → is_get f ≡ false)
    → node_sig show_float n ≡ none
unfolding node_sig kind_sig
sig-kind_none show_float n (Ir.fetch f) e h = let q = h f refl in rw e (rw q)
sig-kind_none show_float n _ e h = rw e

-- Deduplication leaves a node of a numbered list as it is unless it is a `GET` request: a mutation is
-- always sent.
pub dedup_keeps :
    (show_float : ℕ → String) (ns : List Node) (j : ℕ) (n : Node)
    → IsNumbered ns
    → get_elem? ns j ≡ some n
    → ((f : FetchIr) → n.kind ≡ Ir.fetch f → is_get f ≡ false)
    → get_elem? (dedup_nodes show_float ns) j ≡ some n
dedup_keeps show_float ns j n ids e h =
    let quiet = sig-kind_none show_float n n.kind refl h in
    let (o, at_j, why) = dedup_at show_float ns ids j n e in at_j ∙ ap some (unchanged o why quiet)
  where
    unchanged :
        (o : Option Rewrite)
        → Outcome show_float ns j n o
        → node_sig show_float n ≡ none
        → rewritten o n ≡ n
    unchanged none why quiet = refl
    unchanged (some r) (_, _, _, sig, _, _, _) quiet =
        absurd (let q = sym sig ∙ quiet in ground (arith, q))

-- A `let` that reads the variable of an earlier request, in place of a node.
abbrev pub shared : Option Rewrite → Node → Node
shared none n = n
shared (some r) n = record n {
  kind = Ir.let_node (ident (record { node = r.bound; span = n.span }));
  reads = r.bound ∷ [];
  deps = r.first ∷ [];
}

alias_kind-shared :
    (show_float : ℕ → String) (r : Rewrite) (n : Node) (k : NodeKind) (s : String)
    → n.kind ≡ k
    → node_sig show_float n ≡ some s
    → alias_kind k r n ≡ shared (some r) n
unfolding node_sig kind_sig alias_kind
alias_kind-shared show_float r n (Ir.fetch f) s e h = refl
alias_kind-shared show_float r n _ s e h = cc

rewritten-shared :
    (show_float : ℕ → String) (ns : List Node) (j : ℕ) (n : Node) (o : Option Rewrite)
    → Outcome show_float ns j n o
    → rewritten o n ≡ shared o n
unfolding alias_node
rewritten-shared show_float ns j n none h = refl
rewritten-shared show_float ns j n (some r) (s, _, _, sig, _, _, _) =
    alias_kind-shared show_float r n n.kind s refl sig

-- Each node of a numbered list is kept, and then no earlier node shares its request, or it is
-- rewritten to a `let` that reads the variable of the first earlier node with the same
-- signature and depends on that node alone.
pub dedup-Outcome :
    (show_float : ℕ → String) (ns : List Node) (j : ℕ) (n : Node)
    → IsNumbered ns
    → get_elem? ns j ≡ some n
    → (o : Option Rewrite) × (get_elem? (dedup_nodes show_float ns) j ≡ some (shared o n))
      × Outcome show_float ns j n o
dedup-Outcome show_float ns j n ids e =
    let (o, at_j, why) = dedup_at show_float ns ids j n e in
    (o, at_j ∙ ap some (rewritten-shared show_float ns j n o why), why)
