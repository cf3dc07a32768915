-- ===== src/Compiler/Lower/Settings/Declared.antt =====
-- What the items of a program declare for an endpoint, said without the tables of lower.rs, and that
-- the tables say the same.
use Prim.Native.String
use tired.Prelude.{
  ℕ, Bool, true, false, String, List, [], ◌∷◌, Option, none, some, str_eq, eq_iff, if◌then◌else◌,
  concat, lookup, ◌≡◌, refl, sym, ◌∙◌, ap, Bool-cases, inl, inr, subst,
}
use tired.Syntax.Ast.{
  Expr, str, ident, implicit_field, call, duration, StrParts, no_parts, lit, interp, Exprs,
  expr_and,
}
use tired.Syntax.Items.{Setting, Item, endpoint_item, Program}
use tired.Compiler.Lower.Annotate.{Latencies, BatchRules}
use tired.Compiler.Lower.Settings.{
  Atoms, literal_texts, str_atom, find_setting, read_atom, read_call, read_value, read_values,
  add_rule, add_setting_rule, rules_from, add_duration, add_latency, latencies_from,
  endpoint_latencies, endpoint_batch_rules,
}

abbrev or_else : {A : Type 0} → Option A → Option A → Option A
or_else (some a) b = some a
or_else none b = b

-- The values of the first setting with a key.
abbrev first_values : String → List Setting → List Expr
first_values key [] = []
first_values key (s ∷ ss) = if str_eq s.key.node key then s.values else first_values key ss

abbrev milliseconds : List Expr → Option ℕ
milliseconds (duration ms _ ∷ _) = some ms
milliseconds _ = none

-- The duration that the setting `latency` of an endpoint starts with; of two declarations of the
-- endpoint that have one, the later counts.
abbrev pub declared_latency : String → List Item → Option ℕ
declared_latency name [] = none
declared_latency name (endpoint_item e ∷ items) =
    or_else (declared_latency name items)
      (if str_eq e.name.node name then milliseconds (first_values "latency" e.settings) else none)
declared_latency name (_ ∷ items) = declared_latency name items

-- A text without its interpolated parts.
abbrev plain_text : StrParts → String
plain_text no_parts = ""
plain_text (lit s ps) = String.◌++◌ s (plain_text ps)
plain_text (interp _ ps) = plain_text ps

abbrev word_of : Expr → Option String
word_of (implicit_field n) = some n.node
word_of (str ps _) = some (plain_text ps)
word_of _ = none

abbrev call_argument : String → Expr → Exprs → Option (Option String)
call_argument word (ident n) (expr_and a _) = if str_eq n.node word then some (word_of a) else none
call_argument word _ _ = none

-- The first argument of a call of `word`, if it is a text or a field name.
abbrev argument : String → Expr → Option (Option String)
argument word (call callee args _) = call_argument word callee args
argument word _ = none

abbrev last_argument : String → List Expr → Option (Option String)
last_argument word [] = none
last_argument word (v ∷ vs) = or_else (last_argument word vs) (argument word v)

abbrev get_from : Option String → Option (Option String) → Option String
get_from old (some new) = new
get_from old none = old

abbrev both : Option String → Option String → Option (String × String)
both (some p) (some k) = some (p, k)
both _ _ = none

-- The names that `param(..)` and `key(..)` give among the values of a setting.
abbrev rule_of : List Expr → Option (String × String)
rule_of vs =
    both (get_from none (last_argument "param" vs)) (get_from none (last_argument "key" vs))

-- The rule of the setting `batch` of an endpoint, by the last declaration that has one.
abbrev pub declared_rule : String → List Item → Option (String × String)
declared_rule name [] = none
declared_rule name (endpoint_item e ∷ items) =
    or_else (declared_rule name items)
      (if str_eq e.name.node name then rule_of (first_values "batch" e.settings) else none)
declared_rule name (_ ∷ items) = declared_rule name items

or_else_assoc : {A : Type 0} (a b c : Option A) → or_else a (or_else b c) ≡ or_else (or_else a b) c
or_else_assoc (some a) b c = refl
or_else_assoc none b c = refl

-- One entry in front of a table.
lookup-entry :
    {A : Type 0} (x name : String) (v : A) (table : List (String × A))
    → lookup x ((name, v) ∷ table)
      ≡ or_else (if str_eq name x then some v else none) (lookup x table)
lookup-entry x name v table = elim (Bool-cases (str_eq name x)) [ inl e ↦ rw e | inr e ↦ rw e ]

unchanged : {A : Type 0} (b : Bool) (o : Option A) → o ≡ or_else (if b then none else none) o
unchanged true o = refl
unchanged false o = refl

add_duration-lookup :
    (x name : String) (vs : List Expr) (table : Latencies)
    → lookup x (add_duration name vs table)
      ≡ or_else (if str_eq name x then milliseconds vs else none) (lookup x table)
unfolding add_duration
add_duration-lookup x name (duration ms _ ∷ _) table = lookup-entry x name ms table
add_duration-lookup x name [] table = unchanged (str_eq name x) _
add_duration-lookup x name (_ ∷ _) table = unchanged (str_eq name x) _

add_latency-lookup :
    (x name : String) (ss : List Setting) (table : Latencies)
    → lookup x (add_latency name (find_setting "latency" ss) table)
      ≡ or_else
          (if str_eq name x then milliseconds (first_values "latency" ss) else none)
          (lookup x table)
unfolding add_latency find_setting
add_latency-lookup x name [] table = unchanged (str_eq name x) _
add_latency-lookup x name (s ∷ ss) table = elim (Bool-cases (str_eq s.key.node "latency")) [
  | inl e ↦ rw e (add_duration-lookup x name s.values table)
  | inr e ↦ rw e (add_latency-lookup x name ss table)
]

latencies_from-lookup :
    (x : String) (items : List Item) (table : Latencies)
    → lookup x (latencies_from items table) ≡ or_else (declared_latency x items) (lookup x table)
unfolding latencies_from
latencies_from-lookup x [] table = refl
latencies_from-lookup x (endpoint_item e ∷ items) table =
    latencies_from-lookup x items _
    ∙ ap (or_else (declared_latency x items)) (add_latency-lookup x e.name.node e.settings table)
    ∙ or_else_assoc (declared_latency x items) _ _
latencies_from-lookup x (_ ∷ items) table = latencies_from-lookup x items table

plain_text-concat : (ps : StrParts) → concat (literal_texts ps) ≡ plain_text ps
unfolding concat literal_texts
plain_text-concat no_parts = refl
plain_text-concat (lit s ps) = ap (String.◌++◌ s) (plain_text-concat ps)
plain_text-concat (interp _ ps) = plain_text-concat ps

str_atom-word_of : (e : Expr) → str_atom e ≡ word_of e
unfolding str_atom
str_atom-word_of (implicit_field n) = refl
str_atom-word_of (str ps _) = ap some (plain_text-concat ps)
str_atom-word_of _ = refl

-- Both atoms after a value.
abbrev with_argument : Expr → Atoms → Atoms
with_argument v (param, key) =
    (get_from param (argument "param" v), get_from key (argument "key" v))

read_atom-by_name :
    (name : String) (a : Expr) (param key : Option String)
    → read_atom name a (param, key) ≡ (
      get_from param (if str_eq name "param" then some (word_of a) else none),
      get_from key (if str_eq name "key" then some (word_of a) else none),
    )
unfolding read_atom
read_atom-by_name name a param key = elim (Bool-cases (str_eq name "param")) [
  | inl p ↦
      (let k : str_eq name "key" ≡ false =
          subst (λ n. str_eq n "key" ≡ false) (sym ((eq_iff name "param").0 p)) refl in
        rw (p, k) (ap (λ w. (w, key)) (str_atom-word_of a)))
  | inr p ↦ elim (Bool-cases (str_eq name "key")) [
    | inl k ↦ rw (p, k) (ap (λ w. (param, w)) (str_atom-word_of a))
    | inr k ↦ rw (p, k)
  ]
]

read_call-by_name :
    (callee : Expr) (args : Exprs) (param key : Option String)
    → read_call callee args (param, key) ≡ (
      get_from param (call_argument "param" callee args),
      get_from key (call_argument "key" callee args),
    )
unfolding read_call
read_call-by_name (ident n) (expr_and a _) param key = read_atom-by_name n.node a param key
read_call-by_name _ _ param key = refl

read_value-argument :
    (v : Expr) (param key : Option String)
    → read_value v (param, key) ≡ with_argument v (param, key)
unfolding read_value
read_value-argument (call callee args _) param key = read_call-by_name callee args param key
read_value-argument _ param key = refl

get_from-or_else :
    (old : Option String) (a b : Option (Option String))
    → get_from (get_from old b) a ≡ get_from old (or_else a b)
get_from-or_else old (some new) b = refl
get_from-or_else old none b = refl

read_values-last_argument :
    (vs : List Expr) (param key : Option String)
    → read_values vs (param, key)
      ≡ (get_from param (last_argument "param" vs), get_from key (last_argument "key" vs))
unfolding read_values
read_values-last_argument [] param key = refl
read_values-last_argument (v ∷ vs) param key =
    ap (read_values vs) (read_value-argument v param key)
    ∙ read_values-last_argument vs _ _
    ∙ ap (λ p. (p, get_from (get_from key (argument "key" v)) (last_argument "key" vs)))
        (get_from-or_else param (last_argument "param" vs) (argument "param" v))
    ∙ ap (λ k. (get_from param (last_argument "param" (v ∷ vs)), k))
        (get_from-or_else key (last_argument "key" vs) (argument "key" v))

add_rule-lookup :
    (x name : String) (p k : Option String) (rules : BatchRules)
    → lookup x (add_rule name (p, k) rules)
      ≡ or_else (if str_eq name x then both p k else none) (lookup x rules)
unfolding add_rule
add_rule-lookup x name (some p) (some k) rules = lookup-entry x name (p, k) rules
add_rule-lookup x name (some p) none rules = unchanged (str_eq name x) _
add_rule-lookup x name none k rules = unchanged (str_eq name x) _

add_setting_rule-lookup :
    (x name : String) (ss : List Setting) (rules : BatchRules)
    → lookup x (add_setting_rule name (find_setting "batch" ss) rules)
      ≡ or_else (if str_eq name x then rule_of (first_values "batch" ss) else none) (lookup x rules)
unfolding add_setting_rule find_setting
add_setting_rule-lookup x name [] rules = unchanged (str_eq name x) _
add_setting_rule-lookup x name (s ∷ ss) rules = elim (Bool-cases (str_eq s.key.node "batch")) [
  | inl e ↦ rw e (
      ap (λ atoms. lookup x (add_rule name atoms rules))
        (read_values-last_argument s.values none none)
      ∙ add_rule-lookup x name _ _ rules)
  | inr e ↦ rw e (add_setting_rule-lookup x name ss rules)
]

rules_from-lookup :
    (x : String) (items : List Item) (rules : BatchRules)
    → lookup x (rules_from items rules) ≡ or_else (declared_rule x items) (lookup x rules)
unfolding rules_from
rules_from-lookup x [] rules = refl
rules_from-lookup x (endpoint_item e ∷ items) rules =
    rules_from-lookup x items _
    ∙ ap (or_else (declared_rule x items)) (add_setting_rule-lookup x e.name.node e.settings rules)
    ∙ or_else_assoc (declared_rule x items) _ _
rules_from-lookup x (_ ∷ items) rules = rules_from-lookup x items rules

or_else-none : {A : Type 0} (a : Option A) → or_else a none ≡ a
or_else-none (some a) = refl
or_else-none none = refl

pub endpoint_latencies-lookup :
    (x : String) (p : Program) → lookup x (endpoint_latencies p) ≡ declared_latency x p.items
unfolding endpoint_latencies
endpoint_latencies-lookup x p = latencies_from-lookup x p.items [] ∙ or_else-none _

pub endpoint_batch_rules-lookup :
    (x : String) (p : Program) → lookup x (endpoint_batch_rules p) ≡ declared_rule x p.items
unfolding endpoint_batch_rules
endpoint_batch_rules-lookup x p = rules_from-lookup x p.items [] ∙ or_else-none _
