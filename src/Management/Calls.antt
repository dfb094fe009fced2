-- ===== src/Management/Calls.antt =====
-- What the clients below management/ share: a GET whose body is decoded, a write that is waited for,
-- and a look-up of the first match. An error that comes with a value is modelled by the error alone.
use azure_sdk_for_go.Common.{
  ℕ, [], ◌∷◌, if◌then◌else◌, ◌⊎◌, inl, inr, false, ◌≡◌, refl, sym, ap, subst, ◌∙◌,
}
use azure_sdk_for_go.Common.Text.{Text, is_empty}
use azure_sdk_for_go.Go.{
  Result, ok, err, panic, stuck, History, Call, ◌>>=◌, return, lift, proceed, proceed_ok,
  Outcome-cases, same_result, same_history, err-ne-ok, ◌>>◌,
}
use azure_sdk_for_go.Management.{GoError, Client, Env, param_not_specified}
use azure_sdk_for_go.Management.Http.{send_azure_get_request}
use azure_sdk_for_go.Management.Operations.{wait_async_operation}
use azure_sdk_for_go.Management.Operations.Polling.{Ended, wait_async_operation_ok}

-- `if value == "" { return fmt.Errorf(errParamNotSpecified, name) }`
unfoldable pub require : Text → Text → Call GoError (Unit {0})
require name value =
    if is_empty value then return (err (param_not_specified name)) else return (ok tt)

-- `SendAzureGetRequest`, then `xml.Unmarshal`.
unfoldable pub get_xml : {A : Type 0} → (Text → GoError ⊎ A) → Env → Client → Text → Call GoError A
get_xml unmarshal env client url = do
  response ← send_azure_get_request env client url
  lift (unmarshal response)

-- A request that writes, then `WaitAsyncOperation` with the id that it returned.
unfoldable pub and_wait : Env → Client → ℕ → Call GoError Text → Call GoError (Unit {0})
and_wait env client fuel write = do
  request_id ← write
  wait_async_operation env client fuel request_id

-- What stands behind a write that was waited for and returned no error: the id that it returned, and
-- the end of the operation with that id.
abbrev pub Completed : Env → Client → Call GoError Text → History → History → Type 0
Completed env client write h h' =
    (id : Text) × ((write h).0 ≡ ok id) × Ended env client id (write h).1 h'

pub whole : {A B : Type 0} (p : A × B) {a : A} → p.0 ≡ a → p ≡ (a, p.1)
whole (x, y) e = ap (λ t. (t, y)) e

pub and_wait-Completed :
    (env : Env) (client : Client) (fuel : ℕ) (write : Call GoError Text) (h : History)
    → (and_wait env client fuel write h).0 ≡ ok tt
    → Completed env client write h (and_wait env client fuel write h).1
unfolding and_wait
and_wait-Completed env client fuel write h e = elim (Outcome-cases (write h)) [
  | inr bad ↦
      let (id, w, _) = proceed_ok (write h) (λ id. wait_async_operation env client fuel id) e in
      absurd (bad id w)
  | inl (id, (g, w)) ↦
      let k = λ (id : Text). wait_async_operation env client fuel id in
      let waits : (wait_async_operation env client fuel id g).0 ≡ ok tt =
        ap (λ (t : Result GoError Text × History). (proceed t k).0) (sym w) ∙ e in
      (
        id,
        same_result w,
        subst (λ t. Ended env client id t (proceed (write h) k).1) (sym (same_history w))
            (wait_async_operation_ok env client id fuel g (proceed (write h) k).1 (
              whole (wait_async_operation env client fuel id g) waits
              ∙ ap (λ (t : Result GoError Text × History). (ok tt, (proceed t k).1)) (sym w))),
      )
]

pub waited-Completed :
    (env : Env) (client : Client) (fuel : ℕ) (write : Call GoError Text) (h : History)
    {h' : History}
    → and_wait env client fuel write h ≡ (ok tt, h')
    → Completed env client write h h'
waited-Completed env client fuel write h e =
    subst (Completed env client write h) (same_history e)
      (and_wait-Completed env client fuel write h (same_result e))

-- What stands behind a call that follows a test of a parameter, or a library function.
pub require_then :
    {A : Type 0} (name value : Text) (k : Call GoError A) (h : History) {a : A}
    → ((require name value >> k) h).0 ≡ ok a
    → (is_empty value ≡ false) × ((k h).0 ≡ ok a)
unfolding require
require_then name [] k h e = absurd (err-ne-ok e)
require_then name (c ∷ cs) k h e = (refl, e)

pub require-history :
    {A : Type 0} (name value : Text) (k : Call GoError A) (h : History)
    → is_empty value ≡ false
    → (require name value >> k) h ≡ k h
unfolding require
require-history name [] k h e = cc
require-history name (c ∷ cs) k h e = refl

pub lift_then :
    {A B : Type 0} (r : GoError ⊎ A) (k : A → Call GoError B) (h : History) {b : B}
    → (proceed (lift r h) k).0 ≡ ok b
    → (a : A) × (r ≡ inr a) × ((k a h).0 ≡ ok b)
lift_then (inl x) k h e = absurd (err-ne-ok e)
lift_then (inr a) k h e = (a, refl, e)

-- The same with the history that the calls lead to.
pub proceeds :
    {A B : Type 0} (p : Result GoError A × History) (f : A → Call GoError B) {b : B} {h' : History}
    → proceed p f ≡ (ok b, h')
    → (a : A) × (g : History) × (p ≡ (ok a, g)) × (f a g ≡ (ok b, h'))
proceeds (ok a, g) f e = (a, g, refl, e)
proceeds (err x, g) f e = absurd (err-ne-ok (same_result e))
proceeds (panic, g) f e = cc
proceeds (stuck, g) f e = cc

pub requires :
    {A : Type 0} (name value : Text) (k : Call GoError A) (h : History) {a : A} {h' : History}
    → (require name value >> k) h ≡ (ok a, h')
    → (is_empty value ≡ false) × (k h ≡ (ok a, h'))
unfolding require
requires name [] k h e = absurd (err-ne-ok (same_result e))
requires name (c ∷ cs) k h e = (refl, e)

pub lifts :
    {A B : Type 0} (r : GoError ⊎ A) (k : A → Call GoError B) (h : History) {b : B} {h' : History}
    → proceed (lift r h) k ≡ (ok b, h')
    → (a : A) × (r ≡ inr a) × (k a h ≡ (ok b, h'))
lifts (inl x) k h e = absurd (err-ne-ok (same_result e))
lifts (inr a) k h e = (a, refl, e)

pub inr-injective : {A : Type 0} {a b : A} → ◌≡◌ {A = GoError ⊎ A} (inr a) (inr b) → a ≡ b
inr-injective p = cc

pub inl-ne-inr : {A : Type 0} {e : GoError} {a : A} → ◌≡◌ {A = GoError ⊎ A} (inl e) (inr a) → ⊥
inl-ne-inr p = cc

pub ok-injective : {A : Type 0} {a b : A} → ◌≡◌ {A = Result GoError A} (ok a) (ok b) → a ≡ b
ok-injective p = cc
