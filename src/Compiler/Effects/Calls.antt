-- ===== src/Compiler/Effects/Calls.antt =====
-- The effect signature with its calls of flows.
use tired.Prelude.{
  ℕ, zero, suc, Bool, true, false, String, List, [], ◌∷◌, Option, none, some, ◌≡◌, ap, ◌∙◌, subst,
  contains, length,
}
use tired.Syntax.Ast.{Expr}
use tired.Compiler.Ir.{Body, Flow, store}
use tired.Compiler.Cost.{call_name, find_flow}
use tired.Compiler.Effects.{
  Effects, nothing_yet, into_stored, into_flow, into_call, call_effects, effects,
}
use tired.Compiler.Effects.Covered.{
  IsWithin, IsWithin-same, Covers, LiveStored, stored-IsWithin, stored-Covers,
}

into_flow-IsWithin :
    (calls : Expr → Effects → Effects)
    → ((e : Expr) (out : Effects) → IsWithin out (calls e out))
    → (visited : Bool) (found : Option Flow) (out : Effects)
    → IsWithin out (into_flow calls visited found out)
unfolding into_flow
into_flow-IsWithin calls adds true found out = IsWithin-same out
into_flow-IsWithin calls adds false none out = IsWithin-same out
into_flow-IsWithin calls adds false (some f) out = stored-IsWithin calls adds (store f.body) out

into_call-IsWithin :
    (inside : String → Expr → Effects → Effects) (flows : List Flow) (visiting : List String)
    → ((name : String) (e : Expr) (out : Effects) → IsWithin out (inside name e out))
    → (o : Option String) (out : Effects) → IsWithin out (into_call inside flows visiting o out)
unfolding into_call
into_call-IsWithin inside flows visiting adds none out = IsWithin-same out
into_call-IsWithin inside flows visiting adds (some name) out =
    into_flow-IsWithin (inside name) (adds name) (contains name visiting) (find_flow name flows) out

module _ (flows : List Flow) where
  call_effects-IsWithin :
      (fuel : ℕ) (visiting : List String) (e : Expr) (out : Effects)
      → IsWithin out (call_effects fuel flows visiting e out)
  unfolding call_effects
  call_effects-IsWithin zero visiting e out = IsWithin-same out
  call_effects-IsWithin (suc fuel) visiting e out =
      into_call-IsWithin (λ name. call_effects fuel flows (name ∷ visiting)) flows visiting
        (λ name. call_effects-IsWithin fuel (name ∷ visiting)) (call_name e) out

  module _ (r : Effects) where
    -- The flow that a call names, if it is not being visited, has its live requests covered, and its
    -- calls in turn, as many in a row as there is fuel.
    abbrev pub CallCovered : ℕ → List String → Expr → Type 0
    CallCovered zero visiting e = Unit
    CallCovered (suc fuel) visiting e =
        (name : String) (f : Flow)
        → call_name e ≡ some name
        → contains name visiting ≡ false
        → find_flow name flows ≡ some f
        → LiveStored (Covers r) (CallCovered fuel (name ∷ visiting)) (store f.body)

    call_effects-unfold :
        (fuel : ℕ) (visiting : List String) (e : Expr) (out : Effects) (name : String) (f : Flow)
        → call_name e ≡ some name
        → contains name visiting ≡ false
        → find_flow name flows ≡ some f
        → call_effects (suc fuel) flows visiting e out
          ≡ into_stored (call_effects fuel flows (name ∷ visiting)) (store f.body) out
    unfolding call_effects into_call into_flow
    call_effects-unfold fuel visiting e out name f q v g =
        let inside = λ (n : String). call_effects fuel flows (n ∷ visiting) in
        ap (λ o. into_call inside flows visiting o out) q
        ∙ ap (λ c. into_flow (inside name) c (find_flow name flows) out) v
        ∙ ap (λ o. into_flow (inside name) false o out) g

    call_effects-CallCovered :
        (fuel : ℕ) (visiting : List String) (e : Expr) (out : Effects)
        → IsWithin (call_effects fuel flows visiting e out) r
        → CallCovered fuel visiting e
    call_effects-CallCovered zero visiting e out h = tt
    call_effects-CallCovered (suc fuel) visiting e out h = λ name f q v g.
        stored-Covers (call_effects fuel flows (name ∷ visiting))
          (call_effects-IsWithin fuel (name ∷ visiting)) r (CallCovered fuel (name ∷ visiting))
          (call_effects-CallCovered fuel (name ∷ visiting)) (store f.body) out
          (subst (λ a. IsWithin a r) (call_effects-unfold fuel visiting e out name f q v g) h)

-- The effect signature of a body names the endpoint of every live request, and admits changes if the
-- request is neither a GET nor a HEAD, wherever the request stands: in the body, in a body nested in it,
-- or in a flow reached by a chain of calls of different flows, as long as there are flows at most.
pub effects-Covers :
    (b : Body) (flows : List Flow)
    → let r = effects b flows in
      LiveStored (Covers r) (CallCovered flows r (length flows) []) (store b)
unfolding effects
effects-Covers b flows =
    let calls = call_effects (length flows) flows [] in
    let r = into_stored calls (store b) nothing_yet in
    stored-Covers calls (call_effects-IsWithin flows (length flows) []) r
      (CallCovered flows r (length flows) []) (call_effects-CallCovered flows r (length flows) [])
      (store b) nothing_yet (IsWithin-same r)
