-- ===== src/Compiler/Optimize/Dedup/Correct.antt =====
-- Deduplication: what is reused, what is kept, and that no two requests left are identical.
use tired.Prelude.{
  ℕ, suc, ◌<◌, Bool, true, false, ◌&&◌, String, List, [], ◌∷◌, Option, none, some, ◌≡◌, inl, inr,
  arith, str_eq, eq_iff, lookup, get_elem?, Bool-cases, Option-cases, dec_lt, ◌∙◌,
}
use tired.Compiler.Ir.{Node}
use tired.Compiler.Deps.Meaning.{test_at}
use tired.Compiler.Optimize.Dedup.{node_sig, Requests, remember}

abbrev pub is_bound : Option String → Bool
is_bound none = false
is_bound (some _) = true

abbrev pub has_sig : Option String → String → Bool
has_sig none s = false
has_sig (some t) s = str_eq t s

abbrev pub fits : Option String → Option String → String → Bool
fits o b s = has_sig o s && is_bound b

-- The binding of the node at a position.
abbrev pub binding_at : List Node → ℕ → Option String
binding_at ns k = elim (get_elem? ns k) [ none ↦ none | some n ↦ n.binding ]

module _ (show_float : ℕ → String) where
  -- The node sends a request with this signature that may be shared, and binds its result.
  abbrev pub answers : String → Node → Bool
  answers s n = fits (node_sig show_float n) n.binding s

  -- `k` is the first position of the list whose node answers to the signature.
  pub record IsFirst (ns : List Node) (s : String) (k : ℕ) : Type 0 where
    pub passes : test_at (answers s) ns k ≡ true
    pub none_before : (l : ℕ) → l < k → test_at (answers s) ns l ≡ false

  -- The map `seen` after the nodes before position `i`.
  pub record Known (ns : List Node) (i : ℕ) (seen : Requests show_float) : Type 0 where
    pub hit :
        (s : String) (h : ℕ × String)
        → lookup s seen ≡ some h
        → (h.0 < i) × IsFirst ns s h.0 × (binding_at ns h.0 ≡ some h.1)
    pub miss :
        (s : String) → lookup s seen ≡ none → (k : ℕ) → k < i → test_at (answers s) ns k ≡ false

  module _ (ns : List Node) where
    pub Known-start : Known ns 0 []
    Known-start = record { hit = λ s h e. cc; miss = λ s e k lt. absurd (omega arith) }

    -- A node that answers to nothing new.
    Known-skip :
        (i : ℕ) (seen : Requests show_float) (n : Node)
        → ((p : Node → Bool) → test_at p ns i ≡ p n)
        → Known ns i seen
        → ((s : String) → lookup s seen ≡ none → answers s n ≡ false)
        → Known ns (suc i) seen
    Known-skip i seen n here h quiet = record {
      hit = λ s p e. let (lt, first, b) = h.hit s p e in (omega arith, first, b);
      miss = λ s e k lt. elim (dec_lt k i) [
        | yes old ↦ h.miss s e k old
        | no new ↦ (let at_i : k ≡ i = omega arith in rw at_i (here (answers s) ∙ quiet s e))
      ];
    }

    Known-new :
        (i : ℕ) (seen : Requests show_float) (n : Node) (sig b : String)
        → ((p : Node → Bool) → test_at p ns i ≡ p n)
        → binding_at ns i ≡ n.binding
        → Known ns i seen
        → node_sig show_float n ≡ some sig
        → n.binding ≡ some b
        → lookup sig seen ≡ none
        → Known ns (suc i) ((sig, (i, b)) ∷ seen)
    Known-new i seen n sig b here bound h is_sig is_b fresh = record {
      hit = λ s p e. elim (Bool-cases (str_eq sig s)) [
        | inl same ↦
            (let it : s ≡ sig = ground (arith, eq_iff sig s) in
              let q : p ≡ (i, b) = ground arith in
              rw (it, q)
                (
                  omega arith,
                  record {
                    passes = here (answers sig) ∙ ground (arith, eq_iff sig sig);
                    none_before = λ l lt. h.miss sig fresh l lt;
                  },
                  bound ∙ is_b,
                ))
        | inr other ↦ (let (lt, first, q) = h.hit s p (ground arith) in (omega arith, first, q))
      ];
      miss = λ s e k lt. elim (dec_lt k i) [
        | yes old ↦ h.miss s (ground arith) k old
        | no new ↦
            (let at_i : k ≡ i = omega arith in
              rw at_i (here (answers s) ∙ ground (arith, eq_iff sig s)))
      ];
    }

    pub Known-remember :
        (i : ℕ) (seen : Requests show_float) (n : Node)
        → ((p : Node → Bool) → test_at p ns i ≡ p n)
        → binding_at ns i ≡ n.binding
        → n.id ≡ i
        → Known ns i seen
        → Known ns (suc i) (remember show_float (node_sig show_float n) n.binding n.id seen)
    unfolding remember
    Known-remember i seen n here bound at_i h = elim (Option-cases (node_sig show_float n)) [
      | inl e ↦ rw (e, remember) (Known-skip i seen n here h (λ s q. ground arith))
      | inr (sig, e) ↦ elim (Option-cases n.binding) [
        | inl f ↦ rw (e, f, remember) (Known-skip i seen n here h (λ s q. ground arith))
        | inr (b, f) ↦ elim (Option-cases (lookup sig seen)) [
          | inl new ↦ rw (e, f, remember, new, at_i) (Known-new i seen n sig b here bound h e f new)
          | inr (old, q) ↦
              rw (e, f, remember, q)
                (Known-skip i seen n here h (λ s r. ground (arith, eq_iff sig s)))
        ]
      ]
    ]
