-- ===== src/Compiler/Optimize/Waves.antt =====
-- `schedule_waves` of crates/hale-compiler/src/optimize.rs: parallel inference. `Vec<usize>` of zeros
-- that a forward pass fills is the list of the levels so far, read as 0 behind its end.
pub mod Bare
pub mod Levels
pub mod Buckets
pub mod Correct
use tired.Prelude.{
  ℕ, zero, suc, ◌+◌, max, Bool, true, false, List, [], ◌∷◌, ◌++◌, none, some, get_elem?, get_or,
  keep, replicate, if◌then◌else◌,
}
use tired.Compiler.Ir.{Node, Body}

-- `body.nodes[d].live`
abbrev pub is_live : List Node → ℕ → Bool
is_live ns d = elim (get_elem? ns d) [ none ↦ false | some n ↦ n.live ]

-- `for &d in deps { if live { lvl = lvl.max(level[d] + 1) } }`
unfoldable pub dep_level : List Node → List ℕ → List ℕ → ℕ → ℕ
dep_level ns ls [] lvl = lvl
dep_level ns ls (d ∷ ds) lvl =
    dep_level ns ls ds (if is_live ns d then max lvl (get_or ls d 0 + 1) else lvl)

unfoldable pub node_level : List Node → List ℕ → Node → ℕ
node_level ns ls n = if n.live then dep_level ns ls n.deps 0 else 0

unfoldable pub levels_from : List Node → List Node → List ℕ → List ℕ
levels_from ns [] ls = ls
levels_from ns (n ∷ rest) ls = levels_from ns rest (ls ++ node_level ns ls n ∷ [])

unfoldable pub levels : List Node → List ℕ
levels ns = levels_from ns ns []

unfoldable pub max_level : List ℕ → ℕ
max_level [] = 0
max_level (l ∷ ls) = max l (max_level ls)

-- `waves[l].push(id)`
unfoldable pub push_at : ℕ → ℕ → List (List ℕ) → List (List ℕ)
push_at l id [] = []
push_at zero id (w ∷ ws) = (w ++ id ∷ []) ∷ ws
push_at (suc l) id (w ∷ ws) = w ∷ push_at l id ws

unfoldable pub fill : List ℕ → List Node → List (List ℕ) → List (List ℕ)
fill ls [] ws = ws
fill ls (n ∷ ns) ws = fill ls ns (if n.live then push_at (get_or ls n.id 0) n.id ws else ws)

abbrev pub non_empty : List ℕ → Bool
non_empty [] = false
non_empty (_ ∷ _) = true

unfoldable pub waves_of : List Node → List (List ℕ)
waves_of ns = let ls = levels ns in keep non_empty (fill ls ns (replicate (max_level ls + 1) []))

unfoldable pub schedule_waves : Body → Body
schedule_waves b = record b { waves = waves_of b.nodes }
