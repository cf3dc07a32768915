-- ===== src/Runtime/Eval/Agree.antt =====
-- Environments that agree on some of the names.
use tired.Prelude.{
  String, some, Bool, true, false, not, ◌&&◌, ◌||◌, ◌≡◌, refl, List, [], ◌∷◌, contains, lookup,
  str_eq, arith,
}
use tired.Runtime.Value.{Value}
use tired.Runtime.Patterns.{Bindings}
use tired.Runtime.Patterns.Bound.{bound_names, BindsAll}
use tired.Runtime.Eval.{Env, bind_all}

-- The two give the same value, or none, to each of `names` and to each name that passes `f`.
pub data Agree (names : List String) (f : String → Bool) (env env' : Env) : Type 0 where
  agree :
      ((x : String) → contains x names || f x ≡ true → lookup x env ≡ lookup x env')
      → Agree names f env env'

pub agreed :
    {names : List String} {f : String → Bool} {env env' : Env} (x : String)
    → Agree names f env env'
    → contains x names || f x ≡ true
    → lookup x env ≡ lookup x env'
agreed x (agree a) = a x

module _ {names : List String} (f g : String → Bool) {env env' : Env} where
  pub Agree-left : Agree names (λ x. f x || g x) env env' → Agree names f env env'
  Agree-left (agree a) = agree λ x h. a x (ground arith)

  pub Agree-right : Agree names (λ x. f x || g x) env env' → Agree names g env env'
  Agree-right (agree a) = agree λ x h. a x (ground arith)

module _ {names : List String} {f : String → Bool} {env env' : Env} where
  pub Agree-bind :
      (n : String) (v : Value)
      → Agree names (λ x. not (str_eq n x) && f x) env env'
      → Agree names f ((n, v) ∷ env) ((n, v) ∷ env')
  Agree-bind n v (agree a) = agree λ x h. ground (arith, a x)

  pub Agree-push :
      (n : String) (v : Value)
      → Agree names f env env'
      → Agree names f ((n, v) ∷ env) ((n, v) ∷ env')
  Agree-push n v (agree a) = agree λ x h. ground (arith, a x h)

bind_all-lookup :
    (bs : Bindings) (x : String) (env env' : Env)
    → (contains x (bound_names bs) ≡ false → lookup x env ≡ lookup x env')
    → lookup x (bind_all bs env) ≡ lookup x (bind_all bs env')
unfolding bind_all
bind_all-lookup [] x env env' h = h refl
bind_all-lookup ((n, v) ∷ bs) x env env' h =
    bind_all-lookup bs x ((n, v) ∷ env) ((n, v) ∷ env') (λ hb. ground (arith, h))

-- Behind a match that binds `bound`.
pub Agree-match :
    {names : List String} {f : String → Bool} {env env' : Env} (bound : List String) (bs : Bindings)
    → BindsAll bound (some bs)
    → Agree names (λ x. not (contains x bound) && f x) env env'
    → Agree names f (bind_all bs env) (bind_all bs env')
Agree-match bound bs b (agree a) =
    agree λ x h. bind_all-lookup bs x _ _ (λ hb. ground (arith, a x, b x))
