-- ===== src/Compiler/Lower/Annotate/Stamped.antt =====
-- What the annotations leave in the requests of a body, and what they keep.
use tired.Prelude.{
  ℕ, zero, suc, ◌<◌, Bool, not, String, List, [], ◌∷◌, Option, none, some, ◌≡◌, refl, ap, sym, ◌∙◌,
  subst, All, get_elem?, lookup, str_eq, if◌then◌else◌, Bool-cases, inl, inr,
}
use tired.Compiler.Ir
use tired.Compiler.Ir.{
  Node, NodeKind, FetchIr, BatchSpec, Arms, ArmBodyIr, Stored, StoredNodes, stored, no_nodes,
  node_and, Body, load_nodes,
}
use tired.Compiler.Ir.Deep.{DeepKind, DeepArms, DeepArm, DeepStored, DeepNodes, Deep}
use tired.Compiler.Deps.Wired.{IsWired, IsWired-pointwise, deps_of-some}
use tired.Compiler.Lower.Sound.{RuleWith, NodeRule, Follows}
use tired.Compiler.Lower.Annotate.{
  Latencies, BatchRules, on_kind, on_arms, on_arm, on_stored, on_stored_nodes, on_nodes, on_body,
  stamp_latency, stamp_rule, stamp_batch, annotate_latency, annotate_batch,
}

module _ (change : FetchIr → FetchIr) where
  load_nodes-on_stored_nodes :
      (ns : StoredNodes) → load_nodes (on_stored_nodes change ns) ≡ on_nodes change (load_nodes ns)
  unfolding load_nodes on_stored_nodes on_nodes
  load_nodes-on_stored_nodes no_nodes = refl
  load_nodes-on_stored_nodes (node_and i k b r d e l s ns) =
      ap
        (λ ms.
          record {
            id = i;
            kind = on_kind change k;
            binding = b;
            reads = r;
            deps = d;
            effect = e;
            live = l;
            span = s;
          }
          ∷ ms)
        (load_nodes-on_stored_nodes ns)

  on_nodes-none :
      (ns : List Node) (j : ℕ) → get_elem? ns j ≡ none → get_elem? (on_nodes change ns) j ≡ none
  unfolding on_nodes
  on_nodes-none [] j e = refl
  on_nodes-none (n ∷ ns) zero e = cc
  on_nodes-none (n ∷ ns) (suc j) e = on_nodes-none ns j e

  on_nodes-some :
      (ns : List Node) (j : ℕ) (n : Node)
      → get_elem? ns j ≡ some n
      → get_elem? (on_nodes change ns) j ≡ some (record n { kind = on_kind change n.kind })
  unfolding on_nodes
  on_nodes-some [] j n e = cc
  on_nodes-some (m ∷ ns) zero n e = let same : m ≡ n = cc in rw same refl
  on_nodes-some (m ∷ ns) (suc j) n e = on_nodes-some ns j n e

  on_nodes-IsWired : (ns : List Node) → IsWired ns → IsWired (on_nodes change ns)
  on_nodes-IsWired ns w = IsWired-pointwise ns _ (on_nodes-none ns) (λ j n e. (
    _,
    on_nodes-some ns j n e,
    w.numbered j n e,
    subst (All (λ i. i < j)) (deps_of-some ns j n e) (w.backward j),
  ))

  -- A change of all requests turns a rule into another if it does so node by node.
  module _ (A B : NodeKind → Bool → Type 0)
      (to : (k : NodeKind) (e : Bool) → A k e → B (on_kind change k) e) where
    on_nodes-rule :
        (ns : List Node)
        → All (λ n. A n.kind n.effect) ns
        → All (λ n. B n.kind n.effect) (on_nodes change ns)
    unfolding on_nodes
    on_nodes-rule [] h = tt
    on_nodes-rule (n ∷ ns) h = (to n.kind n.effect h.0, on_nodes-rule ns h.1)

    Follows-on_nodes : (ns : List Node) → Follows A ns → Follows B (on_nodes change ns)
    Follows-on_nodes ns h = (on_nodes-IsWired ns h.0, on_nodes-rule ns h.1)

    mutual
      unfolding on_kind

      DeepKind-on_kind :
          (k : NodeKind) → DeepKind (Follows A) k → DeepKind (Follows B) (on_kind change k)
      DeepKind-on_kind (Ir.match_node _ arms _) h = DeepArms-on_arms arms h
      DeepKind-on_kind (Ir.for_each _ _ b _ _) h = DeepStored-on_stored b h
      DeepKind-on_kind _ h = tt

      DeepArms-on_arms :
          (arms : Arms) → DeepArms (Follows A) arms → DeepArms (Follows B) (on_arms change arms)
      DeepArms-on_arms Ir.no_arms h = tt
      DeepArms-on_arms (Ir.arm_and _ b arms) h = (DeepArm-on_arm b h.0, DeepArms-on_arms arms h.1)

      DeepArm-on_arm :
          (b : ArmBodyIr) → DeepArm (Follows A) b → DeepArm (Follows B) (on_arm change b)
      DeepArm-on_arm (Ir.body b) h = DeepStored-on_stored b h
      DeepArm-on_arm _ h = tt

      DeepStored-on_stored :
          (s : Stored) → DeepStored (Follows A) s → DeepStored (Follows B) (on_stored change s)
      DeepStored-on_stored (stored ns _) h = (
        rw (load_nodes-on_stored_nodes ns) (Follows-on_nodes (load_nodes ns) h.0),
        DeepNodes-on_stored_nodes ns h.1,
      )

      DeepNodes-on_stored_nodes :
          (ns : StoredNodes)
          → DeepNodes (Follows A) ns
          → DeepNodes (Follows B) (on_stored_nodes change ns)
      DeepNodes-on_stored_nodes no_nodes h = tt
      DeepNodes-on_stored_nodes (node_and _ k _ _ _ _ _ _ ns) h =
          (DeepKind-on_kind k h.0, DeepNodes-on_stored_nodes ns h.1)

    below-on_nodes :
        (ns : List Node)
        → All (λ n. DeepKind (Follows A) n.kind) ns
        → All (λ n. DeepKind (Follows B) n.kind) (on_nodes change ns)
    unfolding on_nodes
    below-on_nodes [] h = tt
    below-on_nodes (n ∷ ns) h = (DeepKind-on_kind n.kind h.0, below-on_nodes ns h.1)

    pub Deep-on_body : (b : Body) → Deep (Follows A) b → Deep (Follows B) (on_body change b)
    unfolding on_body
    Deep-on_body b h = record {
      here = Follows-on_nodes b.nodes h.here;
      below = below-on_nodes b.nodes h.below;
    }

-- The batch rule that a request gets: that of its endpoint, if it is a GET.
abbrev pub declared_batch : BatchRules → String → String → Option BatchSpec
declared_batch table method endpoint =
    if str_eq method "GET"
    then elim (lookup endpoint table) [
      | none ↦ none
      | some (param, key) ↦
          some (record { query_param = param; key_field = key; ids = []; mapped = none })
    ]
    else none

-- A request with the declared latency and no batch rule.
abbrev IsTimed : Latencies → FetchIr → Type 0
IsTimed table f = (f.latency_ms ≡ lookup f.endpoint table) × (f.batch ≡ none)

abbrev pub IsStamped : Latencies → BatchRules → FetchIr → Type 0
IsStamped times rules f =
    (f.latency_ms ≡ lookup f.endpoint times) × (f.batch ≡ declared_batch rules f.method f.endpoint)

IsTimed-stamp_latency :
    (table : Latencies) (k : NodeKind) (e : Bool)
    → NodeRule k e
    → RuleWith (IsTimed table) (on_kind (stamp_latency table) k) e
unfolding on_kind stamp_latency
IsTimed-stamp_latency table (Ir.fetch f) e h = (h.0, (refl, h.1.1))
IsTimed-stamp_latency table (Ir.let_node _) e h = h
IsTimed-stamp_latency table (Ir.scatter _) e h = absurd h
IsTimed-stamp_latency table _ e h = h

stamp_rule-batch :
    (f : FetchIr) (o : Option (String × String))
    → f.batch ≡ none
    → (stamp_rule o f).batch ≡ elim o [
      | none ↦ none
      | some (param, key) ↦
          some (record { query_param = param; key_field = key; ids = []; mapped = none })
    ]
unfolding stamp_rule
stamp_rule-batch f none e = e
stamp_rule-batch f (some (param, key)) e = refl

-- What `stamp_rule` keeps of a request.
stamp_rule-same :
    (f : FetchIr) (o : Option (String × String))
    → ((stamp_rule o f).method ≡ f.method)
      × ((stamp_rule o f).endpoint ≡ f.endpoint)
      × ((stamp_rule o f).latency_ms ≡ f.latency_ms)
unfolding stamp_rule
stamp_rule-same f none = (refl, refl, refl)
stamp_rule-same f (some (param, key)) = (refl, refl, refl)

stamp_batch-same :
    (rules : BatchRules) (f : FetchIr)
    → ((stamp_batch rules f).method ≡ f.method)
      × ((stamp_batch rules f).endpoint ≡ f.endpoint)
      × ((stamp_batch rules f).latency_ms ≡ f.latency_ms)
unfolding stamp_batch
stamp_batch-same rules f = elim (Bool-cases (str_eq f.method "GET")) [
  | inl get ↦ rw get (stamp_rule-same f (lookup f.endpoint rules))
  | inr other ↦ rw other (refl, refl, refl)
]

stamp_batch-batch :
    (rules : BatchRules) (f : FetchIr)
    → f.batch ≡ none
    → (stamp_batch rules f).batch ≡ declared_batch rules f.method f.endpoint
unfolding stamp_batch
stamp_batch-batch rules f bare = elim (Bool-cases (str_eq f.method "GET")) [
  | inl get ↦ rw get (stamp_rule-batch f (lookup f.endpoint rules) bare)
  | inr other ↦ rw other bare
]

IsStamped-stamp_fetch :
    (times : Latencies) (rules : BatchRules) (f : FetchIr) (e : Bool)
    → RuleWith (IsTimed times) (Ir.fetch f) e
    → RuleWith (IsStamped times rules) (Ir.fetch (stamp_batch rules f)) e
IsStamped-stamp_fetch times rules f e (flag, (timed, bare)) =
    let (m, p, l) = stamp_batch-same rules f in
    (
      flag ∙ ap (λ s. not (str_eq s "GET")) (sym m),
      (
        l ∙ timed ∙ ap (λ s. lookup s times) (sym p),
        stamp_batch-batch rules f bare
            ∙ ap (λ s. declared_batch rules s f.endpoint) (sym m)
            ∙ ap (λ s. declared_batch rules (stamp_batch rules f).method s) (sym p),
      ),
    )

IsStamped-stamp_batch :
    (times : Latencies) (rules : BatchRules) (k : NodeKind) (e : Bool)
    → RuleWith (IsTimed times) k e
    → RuleWith (IsStamped times rules) (on_kind (stamp_batch rules) k) e
unfolding on_kind
IsStamped-stamp_batch times rules (Ir.fetch f) e h = IsStamped-stamp_fetch times rules f e h
IsStamped-stamp_batch times rules (Ir.let_node _) e h = h
IsStamped-stamp_batch times rules (Ir.scatter _) e h = absurd h
IsStamped-stamp_batch times rules _ e h = h

-- A lowered body after both annotations, at every depth: each request has the declared latency of its
-- endpoint, each GET its declared batch rule, each other request no rule; the rest is as it was.
pub annotate-IsStamped :
    (times : Latencies) (rules : BatchRules) (b : Body)
    → Deep (Follows NodeRule) b
    → Deep
        (Follows (RuleWith (IsStamped times rules)))
        (annotate_batch rules (annotate_latency times b))
unfolding annotate_batch annotate_latency
annotate-IsStamped times rules b h =
    Deep-on_body (stamp_batch rules) (RuleWith (IsTimed times)) (RuleWith (IsStamped times rules))
      (IsStamped-stamp_batch times rules) _
      (Deep-on_body (stamp_latency times) NodeRule (RuleWith (IsTimed times))
        (IsTimed-stamp_latency times) b h)
