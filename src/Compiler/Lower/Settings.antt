-- ===== src/Compiler/Lower/Settings.antt =====
-- What lower.rs reads from the settings of endpoints and servers. How Rust writes a method in upper
-- case is the argument `to_uppercase`.
pub mod Declared
use tired.Prelude.{
  ℕ, ◌≤◌, max, min, String, List, [], ◌∷◌, Option, none, some, map, str_eq, if◌then◌else◌, concat,
  arith, Bool-cases, inl, inr,
}
use tired.Syntax.Ast.{
  ℤ, pos, negsuc, Expr, int, str, ident, implicit_field, call, duration, StrParts, no_parts, lit,
  interp, Exprs, expr_and, Block, block, Stmts, no_stmts, stmt_and, using_mock, PathSegs, path,
  PathPattern, no_segs, literal_and, param_and,
}
use tired.Syntax.Items.{Setting, Item, endpoint_item, Program, ServerDecl, ServerRoute}
use tired.Compiler.Ir.{Route, Server}
use tired.Compiler.Lower.Nodes.{lower_block}
use tired.Compiler.Lower.Annotate.{Latencies, BatchRules}

literal_texts : StrParts → List String
literal_texts no_parts = []
literal_texts (lit s ps) = s ∷ literal_texts ps
literal_texts (interp _ ps) = literal_texts ps

unfoldable pub str_atom : Expr → Option String
unfolding literal_texts
str_atom (implicit_field n) = some n.node
str_atom (str ps _) = some (concat (literal_texts ps))
str_atom _ = none

-- `e.settings.iter().find(|s| s.key.node == key)`
unfoldable pub find_setting : String → List Setting → Option Setting
find_setting key [] = none
find_setting key (s ∷ ss) = if str_eq s.key.node key then some s else find_setting key ss

-- `param` and `key` of the loop over the values.
abbrev pub Atoms : Type 0
Atoms = Option String × Option String

read_atom : String → Expr → Atoms → Atoms
unfolding str_atom
read_atom name a (param, key) =
    if str_eq name "param"
    then (str_atom a, key)
    else if str_eq name "key"
    then (param, str_atom a)
    else (param, key)

read_call : Expr → Exprs → Atoms → Atoms
unfolding read_atom
read_call (ident n) (expr_and a _) atoms = read_atom n.node a atoms
read_call _ _ atoms = atoms

read_value : Expr → Atoms → Atoms
unfolding read_call
read_value (call callee args _) atoms = read_call callee args atoms
read_value _ atoms = atoms

unfoldable pub read_values : List Expr → Atoms → Atoms
unfolding read_value
read_values [] atoms = atoms
read_values (v ∷ vs) atoms = read_values vs (read_value v atoms)

add_rule : String → Atoms → BatchRules → BatchRules
add_rule name (some p, some k) rules = (name, (p, k)) ∷ rules
add_rule name _ rules = rules

add_setting_rule : String → Option Setting → BatchRules → BatchRules
unfolding add_rule read_values
add_setting_rule name none rules = rules
add_setting_rule name (some s) rules = add_rule name (read_values s.values (none, none)) rules

rules_from : List Item → BatchRules → BatchRules
unfolding add_setting_rule find_setting
rules_from [] rules = rules
rules_from (endpoint_item e ∷ items) rules =
    rules_from items (add_setting_rule e.name.node (find_setting "batch" e.settings) rules)
rules_from (_ ∷ items) rules = rules_from items rules

unfoldable pub endpoint_batch_rules : Program → BatchRules
unfolding rules_from
endpoint_batch_rules p = rules_from p.items []

add_duration : String → List Expr → Latencies → Latencies
add_duration name (duration ms _ ∷ _) table = (name, ms) ∷ table
add_duration name _ table = table

add_latency : String → Option Setting → Latencies → Latencies
unfolding add_duration
add_latency name none table = table
add_latency name (some s) table = add_duration name s.values table

latencies_from : List Item → Latencies → Latencies
unfolding add_latency find_setting
latencies_from [] table = table
latencies_from (endpoint_item e ∷ items) table =
    latencies_from items (add_latency e.name.node (find_setting "latency" e.settings) table)
latencies_from (_ ∷ items) table = latencies_from items table

unfoldable pub endpoint_latencies : Program → Latencies
unfolding latencies_from
endpoint_latencies p = latencies_from p.items []

-- `base` and `port` of `lower_server`.
abbrev pub Listen : Type 0
Listen = String × Option ℕ

-- `clamp(1, 65535) as u16`
unfoldable pub clamp_port : ℤ → ℕ
clamp_port (pos n) = min (max n 1) 65535
clamp_port (negsuc _) = 1

set_base : List Expr → Listen → Listen
unfolding literal_texts
set_base (str ps _ ∷ _) (base, port) = (concat (literal_texts ps), port)
set_base _ l = l

set_port : List Expr → Listen → Listen
unfolding clamp_port
set_port (int n _ ∷ _) (base, port) = (base, some (clamp_port n))
set_port _ l = l

read_setting : Setting → Listen → Listen
unfolding set_base set_port
read_setting s l =
    if str_eq s.key.node "base"
    then set_base s.values l
    else if str_eq s.key.node "port"
    then set_port s.values l
    else l

unfoldable pub read_settings : List Setting → Listen → Listen
unfolding read_setting
read_settings [] l = l
read_settings (s ∷ ss) l = read_settings ss (read_setting s l)

seg_params : PathSegs → List String
seg_params no_segs = []
seg_params (literal_and _ ss) = seg_params ss
seg_params (param_and (ident n) ss) = n.node ∷ seg_params ss
seg_params (param_and _ ss) = seg_params ss

unfoldable pub path_params : PathPattern → List String
unfolding seg_params
path_params (path ss _) = seg_params ss

module _ (to_uppercase : String → String) where
  unfoldable pub lower_route : ServerRoute → Route
  unfolding path_params
  lower_route r = record {
    method = to_uppercase r.method.node;
    path = r.path;
    param_names = path_params r.path;
    budget = r.budget;
    body = lower_block r.handler;
  }

  unfoldable pub lower_server : ServerDecl → Server
  unfolding read_settings lower_route
  lower_server decl =
      let (base, port) = read_settings decl.settings ("", none) in
      record {
        name = decl.name.node;
        base = base;
        port = port;
        routes = map lower_route decl.routes;
      }

mocks_in : Stmts → List String
mocks_in no_stmts = []
mocks_in (stmt_and (using_mock name _) ss) = name.node ∷ mocks_in ss
mocks_in (stmt_and _ ss) = mocks_in ss

unfoldable pub collect_mocks : Block → List String
unfolding mocks_in
collect_mocks (block ss _) = mocks_in ss

-- A port that is set is a port number.
abbrev pub IsPort : Option ℕ → Type 0
IsPort none = Unit
IsPort (some n) = (1 ≤ n) × (n ≤ 65535)

set_base-IsPort : (vs : List Expr) (l : Listen) → IsPort l.1 → IsPort (set_base vs l).1
unfolding set_base
set_base-IsPort [] l h = h
set_base-IsPort (str _ _ ∷ _) l h = h
set_base-IsPort (_ ∷ _) l h = h

set_port-IsPort : (vs : List Expr) (l : Listen) → IsPort l.1 → IsPort (set_port vs l).1
unfolding set_port clamp_port
set_port-IsPort [] l h = h
set_port-IsPort (int (pos n) _ ∷ _) l h = (omega arith, omega arith)
set_port-IsPort (int (negsuc n) _ ∷ _) l h = (omega arith, omega arith)
set_port-IsPort (_ ∷ _) l h = h

read_setting-IsPort : (s : Setting) (l : Listen) → IsPort l.1 → IsPort (read_setting s l).1
unfolding read_setting
read_setting-IsPort s l h = elim (Bool-cases (str_eq s.key.node "base")) [
  | inl e ↦ rw e (set_base-IsPort s.values l h)
  | inr e ↦ elim (Bool-cases (str_eq s.key.node "port")) [
    | inl k ↦ rw (e, k) (set_port-IsPort s.values l h)
    | inr k ↦ rw (e, k) h
  ]
]

read_settings-IsPort : (ss : List Setting) (l : Listen) → IsPort l.1 → IsPort (read_settings ss l).1
unfolding read_settings
read_settings-IsPort [] l h = h
read_settings-IsPort (s ∷ ss) l h =
    read_settings-IsPort ss (read_setting s l) (read_setting-IsPort s l h)

-- The port of a lowered server, when there is one, is from 1 to 65535, whatever its settings say.
pub lower_server-IsPort :
    (to_uppercase : String → String) (decl : ServerDecl)
    → IsPort (lower_server to_uppercase decl).port
unfolding lower_server
lower_server-IsPort to_uppercase decl = read_settings-IsPort decl.settings ("", none) tt
