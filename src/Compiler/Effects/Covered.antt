-- ===== src/Compiler/Effects/Covered.antt =====
-- What it means that an effect signature covers the live requests of a body.
use tired.Prelude.{true, false, String, ◌≡◌, refl, arith, eq_iff, contains, contains-insert}
use tired.Syntax.Ast.{Expr}
use tired.Compiler.Ir
use tired.Compiler.Ir.{
  NodeKind, FetchIr, Arms, ArmBodyIr, Stored, StoredNodes, stored, no_nodes, node_and, Body, Flow,
  store,
}
use tired.Compiler.Effects.{
  Effects, is_read, add_fetch, into_kind, into_arms, into_arm, into_stored, into_nodes,
}

-- What is in one signature is in the other.
pub record IsWithin (a b : Effects) : Type 0 where
  pub endpoints : (x : String) → contains x a.endpoints ≡ true → contains x b.endpoints ≡ true
  pub mutates : a.mutates ≡ true → b.mutates ≡ true

pub IsWithin-same : (a : Effects) → IsWithin a a
IsWithin-same a = record { endpoints = λ x h. h; mutates = λ h. h }

IsWithin-trans : (a b c : Effects) → IsWithin a b → IsWithin b c → IsWithin a c
IsWithin-trans a b c h k = record {
  endpoints = λ x e. k.endpoints x (h.endpoints x e);
  mutates = λ e. k.mutates (h.mutates e);
}

-- The signature names the endpoint of the request, and admits a change unless the request only reads.
abbrev pub Covers : Effects → FetchIr → Type 0
Covers out f =
    (contains f.endpoint out.endpoints ≡ true) × (is_read f.method ≡ false → out.mutates ≡ true)

add_fetch-IsWithin : (f : FetchIr) (out : Effects) → IsWithin out (add_fetch f out)
unfolding add_fetch
add_fetch-IsWithin f out = record {
  endpoints = λ x h. ground (arith, contains-insert f.endpoint x out.endpoints);
  mutates = λ h. ground arith;
}

add_fetch-Covers : (f : FetchIr) (out r : Effects) → IsWithin (add_fetch f out) r → Covers r f
unfolding add_fetch
add_fetch-Covers f out r h = (
  h.endpoints f.endpoint (
      ground
        (arith, contains-insert f.endpoint f.endpoint out.endpoints, eq_iff f.endpoint f.endpoint)),
  λ e. h.mutates (rw e refl),
)

-- A condition on the live requests and calls of a body, in nested bodies too.
module _ (P : FetchIr → Type 0) (C : Expr → Type 0) where
  abbrev mutual
    pub LiveKind : NodeKind → Type 0
    LiveKind (Ir.fetch f) = P f
    LiveKind (Ir.expr e) = C e
    LiveKind (Ir.match_node _ arms _) = LiveArms arms
    LiveKind (Ir.for_each _ _ b _ _) = LiveStored b
    LiveKind _ = Unit

    pub LiveArms : Arms → Type 0
    LiveArms Ir.no_arms = Unit
    LiveArms (Ir.arm_and _ b arms) = LiveArm b × LiveArms arms

    pub LiveArm : ArmBodyIr → Type 0
    LiveArm (Ir.body b) = LiveStored b
    LiveArm _ = Unit

    pub LiveStored : Stored → Type 0
    LiveStored (stored ns _) = LiveNodes ns

    pub LiveNodes : StoredNodes → Type 0
    LiveNodes no_nodes = Unit
    LiveNodes (node_and _ k _ _ _ _ live _ ns) = (live ≡ true → LiveKind k) × LiveNodes ns

-- With calls that only add, all that is run over only adds.
module _ (calls : Expr → Effects → Effects)
    (adds : (e : Expr) (out : Effects) → IsWithin out (calls e out)) where
  mutual
    unfolding into_kind

    kind-IsWithin : (k : NodeKind) (out : Effects) → IsWithin out (into_kind calls k out)
    kind-IsWithin (Ir.fetch f) out = add_fetch-IsWithin f out
    kind-IsWithin (Ir.expr e) out = adds e out
    kind-IsWithin (Ir.match_node _ arms _) out = arms-IsWithin arms out
    kind-IsWithin (Ir.for_each _ _ b _ _) out = stored-IsWithin b out
    kind-IsWithin _ out = IsWithin-same out

    arms-IsWithin : (arms : Arms) (out : Effects) → IsWithin out (into_arms calls arms out)
    arms-IsWithin Ir.no_arms out = IsWithin-same out
    arms-IsWithin (Ir.arm_and _ b arms) out =
        IsWithin-trans out (into_arm calls b out) _ (arm-IsWithin b out) (arms-IsWithin arms _)

    arm-IsWithin : (b : ArmBodyIr) (out : Effects) → IsWithin out (into_arm calls b out)
    arm-IsWithin (Ir.body b) out = stored-IsWithin b out
    arm-IsWithin _ out = IsWithin-same out

    pub stored-IsWithin : (s : Stored) (out : Effects) → IsWithin out (into_stored calls s out)
    stored-IsWithin (stored ns _) out = nodes-IsWithin ns out

    nodes-IsWithin : (ns : StoredNodes) (out : Effects) → IsWithin out (into_nodes calls ns out)
    nodes-IsWithin no_nodes out = IsWithin-same out
    nodes-IsWithin (node_and _ k _ _ _ _ true _ ns) out =
        IsWithin-trans out (into_kind calls k out) _ (kind-IsWithin k out) (nodes-IsWithin ns _)
    nodes-IsWithin (node_and _ k _ _ _ _ false _ ns) out = nodes-IsWithin ns out

  -- A signature that holds the result covers the live requests, and the calls as the calls do.
  module _ (r : Effects) (C : Expr → Type 0)
      (called : (e : Expr) (out : Effects) → IsWithin (calls e out) r → C e) where
    mutual
      unfolding into_kind

      kind-Covers :
          (k : NodeKind) (out : Effects)
          → IsWithin (into_kind calls k out) r
          → LiveKind (Covers r) C k
      kind-Covers (Ir.fetch f) out h = add_fetch-Covers f out r h
      kind-Covers (Ir.expr e) out h = called e out h
      kind-Covers (Ir.match_node _ arms _) out h = arms-Covers arms out h
      kind-Covers (Ir.for_each _ _ b _ _) out h = stored-Covers b out h
      kind-Covers _ out h = tt

      arms-Covers :
          (arms : Arms) (out : Effects)
          → IsWithin (into_arms calls arms out) r
          → LiveArms (Covers r) C arms
      arms-Covers Ir.no_arms out h = tt
      arms-Covers (Ir.arm_and _ b arms) out h = (
        arm-Covers b out (IsWithin-trans _ _ r (arms-IsWithin arms (into_arm calls b out)) h),
        arms-Covers arms (into_arm calls b out) h,
      )

      arm-Covers :
          (b : ArmBodyIr) (out : Effects)
          → IsWithin (into_arm calls b out) r
          → LiveArm (Covers r) C b
      arm-Covers (Ir.body b) out h = stored-Covers b out h
      arm-Covers _ out h = tt

      pub stored-Covers :
          (s : Stored) (out : Effects)
          → IsWithin (into_stored calls s out) r
          → LiveStored (Covers r) C s
      stored-Covers (stored ns _) out h = nodes-Covers ns out h

      nodes-Covers :
          (ns : StoredNodes) (out : Effects)
          → IsWithin (into_nodes calls ns out) r
          → LiveNodes (Covers r) C ns
      nodes-Covers no_nodes out h = tt
      nodes-Covers (node_and _ k _ _ _ _ true _ ns) out h = (
        λ _. kind-Covers k out (IsWithin-trans _ _ r (nodes-IsWithin ns (into_kind calls k out)) h),
        nodes-Covers ns (into_kind calls k out) h,
      )
      nodes-Covers (node_and _ k _ _ _ _ false _ ns) out h = (λ q. cc, nodes-Covers ns out h)
