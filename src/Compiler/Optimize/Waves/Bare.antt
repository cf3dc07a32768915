-- ===== src/Compiler/Optimize/Waves/Bare.antt =====
-- The schedule does not look into the nodes.
use tired.Prelude.{
  ℕ, zero, suc, ◌+◌, List, [], ◌∷◌, ◌++◌, none, ◌≡◌, refl, ap, ◌∙◌, map, max, get_or, if◌then◌else◌,
  keep, replicate,
}
use tired.Compiler.Ir
use tired.Compiler.Ir.{Node, Body}
use tired.Compiler.Optimize.Waves.{
  is_live, dep_level, node_level, levels_from, levels, max_level, push_at, fill, non_empty,
  waves_of,
}

-- The node without its kind.
abbrev pub bare : Node → Node
bare n = record n { kind = Ir.return_node none }

is_live-bare : (ns : List Node) (d : ℕ) → is_live (map bare ns) d ≡ is_live ns d
is_live-bare [] d = refl
is_live-bare (n ∷ ns) zero = refl
is_live-bare (n ∷ ns) (suc d) = is_live-bare ns d

dep_level-bare :
    (ns : List Node) (ls ds : List ℕ) (lvl : ℕ)
    → dep_level (map bare ns) ls ds lvl ≡ dep_level ns ls ds lvl
unfolding dep_level
dep_level-bare ns ls [] lvl = refl
dep_level-bare ns ls (d ∷ ds) lvl =
    rw (is_live-bare ns d)
      (dep_level-bare ns ls ds (if is_live ns d then max lvl (get_or ls d 0 + 1) else lvl))

node_level-bare :
    (ns : List Node) (ls : List ℕ) (n : Node)
    → node_level (map bare ns) ls (bare n) ≡ node_level ns ls n
unfolding node_level
node_level-bare ns ls n = ap (λ x. if n.live then x else 0) (dep_level-bare ns ls n.deps 0)

levels_from-bare :
    (ns rest : List Node) (ls : List ℕ)
    → levels_from (map bare ns) (map bare rest) ls ≡ levels_from ns rest ls
unfolding levels_from
levels_from-bare ns [] ls = refl
levels_from-bare ns (n ∷ rest) ls =
    levels_from-bare ns rest (ls ++ node_level (map bare ns) ls (bare n) ∷ [])
    ∙ ap (λ x. levels_from ns rest (ls ++ x ∷ [])) (node_level-bare ns ls n)

fill-bare :
    (ls : List ℕ) (ns : List Node) (ws : List (List ℕ)) → fill ls (map bare ns) ws ≡ fill ls ns ws
unfolding fill
fill-bare ls [] ws = refl
fill-bare ls (n ∷ ns) ws =
    fill-bare ls ns (if n.live then push_at (get_or ls n.id 0) n.id ws else ws)

pub waves_of-bare : (ns : List Node) → waves_of (map bare ns) ≡ waves_of ns
unfolding waves_of levels
waves_of-bare ns =
    ap (λ ls. keep non_empty (fill ls (map bare ns) (replicate (max_level ls + 1) [])))
      (levels_from-bare ns ns [])
    ∙ ap (keep non_empty) (fill-bare (levels ns) ns (replicate (max_level (levels ns) + 1) []))
