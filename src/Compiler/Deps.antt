-- ===== src/Compiler/Deps.antt =====
-- The dependency edges of a list of nodes: `compute_deps` of crates/hale-compiler/src/lower.rs, and
-- `recompute_deps` of optimize.rs, which has the same text.
pub mod Meaning
pub mod Wired
pub mod Numbered
use tired.Prelude.{
  ℕ, suc, Bool, true, false, String, Option, none, some, List, [], ◌∷◌, ltb, ◌==◌, if◌then◌else◌,
  lookup,
}
use tired.Compiler.Ir.{Node}

-- `BTreeSet<NodeId>::insert`
unfoldable pub insert_id : ℕ → List ℕ → List ℕ
insert_id x [] = x ∷ []
insert_id x (y ∷ s) = if y == x then y ∷ s else if ltb x y then x ∷ y ∷ s else y ∷ insert_id x s

-- The set grown by what may be there.
unfoldable pub insert_found : Option ℕ → List ℕ → List ℕ
insert_found none s = s
insert_found (some x) s = insert_id x s

-- `last_writer`, the newest entry first, and `last_effect`.
pub record Seen : Type 0 where
  pub writers : List (String × ℕ)
  pub last_effect : Option ℕ

unfoldable pub read_deps : List (String × ℕ) → List String → List ℕ → List ℕ
read_deps w [] s = s
read_deps w (r ∷ rs) s = read_deps w rs (insert_found (lookup r w) s)

unfoldable pub node_deps : Seen → Node → List ℕ
unfolding read_deps insert_found insert_id
node_deps seen n =
    let reads = read_deps seen.writers n.reads [] in
    if n.effect then insert_found seen.last_effect reads else reads

unfoldable pub write : Option String → ℕ → List (String × ℕ) → List (String × ℕ)
write none i w = w
write (some b) i w = (b, i) ∷ w

unfoldable pub advance : Seen → ℕ → Node → Seen
unfolding write
advance seen i n = record {
  writers = write n.binding i seen.writers;
  last_effect = if n.effect then some i else seen.last_effect;
}

unfoldable pub deps_from : ℕ → Seen → List Node → List Node
unfolding node_deps advance
deps_from i seen [] = []
deps_from i seen (n ∷ ns) =
    record n { deps = node_deps seen n } ∷ deps_from (suc i) (advance seen i n) ns

abbrev pub nothing_seen : Seen
nothing_seen = record { writers = []; last_effect = none }

unfoldable pub compute_deps : List Node → List Node
unfolding deps_from
compute_deps ns = deps_from 0 nothing_seen ns

unfoldable pub recompute_deps : List Node → List Node
unfolding deps_from
recompute_deps ns = deps_from 0 nothing_seen ns
