-- ===== src/Management/Http/Retries.antt =====
-- The retries of `sendRequest` in management/http.go.
use azure_sdk_for_go.Common.{
  ℕ, zero, suc, ◌+◌, ◌≤◌, ◌<◌, [], ◌∷◌, ◌++◌, Option, ◌⊎◌, inl, inr, ◌≡◌, refl, sym, ap, ◌∙◌, arith,
  replicate, append_assoc, Sum-cases,
}
use azure_sdk_for_go.Common.Text.{Text}
use azure_sdk_for_go.Go.{
  ok, err, Request, Response, Reply, failed, replied, sent, History, ◌▷◌, Event, same_result,
  same_history, err-ne-ok,
}
use azure_sdk_for_go.Management.{
  GoError, azure, AzureError, Outcome, Client, Env, get_response_body,
}
use azure_sdk_for_go.Management.Http.{create_azure_request, Round, done, again, judge, send_request}

-- A round that returns a response returns one with a status below 400.
judge_ok :
    (env : Env) (reply : Reply GoError) {response : Response GoError}
    → judge env reply ≡ done (ok response)
    → response.status < 400
unfolding judge
judge_ok env (failed e) h = cc
judge_ok env (replied r) h = ground arith

-- A reply that makes `sendRequest` try again: no reply at all, or an error status with a body.
pub data Refuses (env : Env) : Reply GoError → GoError → Type 0 where
  no_reply : {e : GoError} → Refuses env (failed e) e
  not_xml :
      {r : Response GoError} {content : Text} {e : GoError}
      → 400 ≤ r.status
      → get_response_body r ≡ ok content
      → env.unmarshal_azure_error content ≡ inl e
      → Refuses env (replied r) e
  azure_says :
      {r : Response GoError} {content : Text} {e : AzureError}
      → 400 ≤ r.status
      → get_response_body r ≡ ok content
      → env.unmarshal_azure_error content ≡ inr e
      → Refuses env (replied r) (azure e)

pub judge-Refuses :
    {env : Env} {reply : Reply GoError} {e : GoError}
    → Refuses env reply e
    → judge env reply ≡ again e
unfolding judge
judge-Refuses no_reply = refl
judge-Refuses (not_xml s b x) = ground arith
judge-Refuses (azure_says s b x) = ground arith

judge_accepted :
    (env : Env) (r : Response GoError) → r.status < 400 → judge env (replied r) ≡ done (ok r)
unfolding judge
judge_accepted env r h = ground arith

Round-cases :
    (r : Round)
    → ((o : Outcome (Response GoError)) × (r ≡ done o)) ⊎ ((e : GoError) × (r ≡ again e))
Round-cases (done o) = inl (o, refl)
Round-cases (again e) = inr (e, refl)

module _ (env : Env) (client : Client) (cert : env.Certificate) (url verb ct : Text)
    (content : Option Text) where
  abbrev created : GoError ⊎ Request
  created = create_azure_request env client url verb ct content

  abbrev round : Request → History → Round
  round q h = judge env (env.answer cert h q)

  abbrev sending : ℕ → History → Outcome (Response GoError) × History
  sending = send_request env client cert url verb ct content

  sending_not_created :
      (n : ℕ) (h : History) {e : GoError} → created ≡ inl e → sending n h ≡ (err e, h)
  unfolding send_request
  sending_not_created zero h c = ground arith
  sending_not_created (suc n) h c = ground arith

  sending_done :
      (n : ℕ) (h : History) {q : Request} {o : Outcome (Response GoError)}
      → created ≡ inr q
      → round q h ≡ done o
      → sending n h ≡ (o, h ▷ sent q)
  unfolding send_request
  sending_done zero h c d = ground arith
  sending_done (suc n) h c d = ground arith

  sending_last :
      (h : History) {q : Request} {e : GoError}
      → created ≡ inr q
      → round q h ≡ again e
      → sending zero h ≡ (err e, h ▷ sent q)
  unfolding send_request
  sending_last h c d = ground arith

  sending_again :
      (n : ℕ) (h : History) {q : Request} {e : GoError}
      → created ≡ inr q
      → round q h ≡ again e
      → sending (suc n) h ≡ sending n (h ▷ sent q)
  unfolding send_request
  sending_again n h c d = ground arith

  sending-status :
      (n : ℕ) (h : History) (q : Request) {response : Response GoError}
      → created ≡ inr q
      → (sending n h).0 ≡ ok response
      → response.status < 400
  sending-status zero h q c e = elim (Round-cases (round q h)) [
    | inl (o, d) ↦ judge_ok env _ (d ∙ ap done (sym (same_result (sending_done zero h c d)) ∙ e))
    | inr (x, d) ↦ absurd (err-ne-ok (sym (same_result (sending_last h c d)) ∙ e))
  ]
  sending-status (suc n) h q c e = elim (Round-cases (round q h)) [
    | inl (o, d) ↦ judge_ok env _ (d ∙ ap done (sym (same_result (sending_done (suc n) h c d)) ∙ e))
    | inr (x, d) ↦ sending-status n (h ▷ sent q) q c (sym (same_result (sending_again n h c d)) ∙ e)
  ]

  -- Whatever the service answers and however many retries are allowed, a response that
  -- `sendRequest` returns without error has a status below 400.
  pub send_request-status :
      (n : ℕ) (h : History) {response : Response GoError}
      → (send_request env client cert url verb ct content n h).0 ≡ ok response
      → response.status < 400
  send_request-status n h e = elim (Sum-cases created) [
    | inl (x, c) ↦ absurd (err-ne-ok (sym (same_result (sending_not_created n h c)) ∙ e))
    | inr (q, c) ↦ sending-status n h q c e
  ]

  -- After `k` rounds that each asked for another, the history has come from `h` to the last index.
  pub data Retried (q : Request) : ℕ → History → History → Type 0 where
    start : {h : History} → Retried q zero h h
    next :
        {k : ℕ} {h h' : History} {e : GoError}
        → Refuses env (env.answer cert h q) e
        → Retried q k (h ▷ sent q) h'
        → Retried q (suc k) h h'

  sending-Retried :
      {q : Request} {k : ℕ} {h h' : History} (n : ℕ)
      → created ≡ inr q
      → Retried q k h h'
      → sending (k + n) h ≡ sending n h'
  sending-Retried n c start = ap (λ (m : ℕ). sending m _) (omega arith)
  sending-Retried n c (next {k} {h} r t) =
      ap (λ (m : ℕ). sending m h) (omega arith)
      ∙ sending_again (k + n) h c (judge-Refuses r)
      ∙ sending-Retried n c t

  -- If the service refuses the request `k` times in a row and then replies with a status below
  -- 400, and `k` is at most the number of retries, then `sendRequest` returns that reply, and it
  -- has sent the same request once more than it was refused.
  pub send_request_recovers :
      {q : Request} {k : ℕ} {h h' : History} (n : ℕ) {response : Response GoError}
      → create_azure_request env client url verb ct content ≡ inr q
      → Retried q k h h'
      → env.answer cert h' q ≡ replied response
      → response.status < 400
      → send_request env client cert url verb ct content (k + n) h ≡ (ok response, h' ▷ sent q)
  send_request_recovers n {response} c t a s =
      sending-Retried n c t ∙ sending_done n _ c (ap (judge env) a ∙ judge_accepted env response s)

  -- If every round is refused, `sendRequest` with `n` retries returns the last round's error after
  -- `n + 1` requests.
  pub send_request_gives_up :
      {q : Request} {n : ℕ} {h h' : History} {e : GoError}
      → create_azure_request env client url verb ct content ≡ inr q
      → Retried q n h h'
      → Refuses env (env.answer cert h' q) e
      → send_request env client cert url verb ct content n h ≡ (err e, h' ▷ sent q)
  send_request_gives_up {n} {h} c t r =
      ap (λ (m : ℕ). sending m h) (omega arith)
      ∙ sending-Retried zero c t
      ∙ sending_last _ c (judge-Refuses r)

  ▷-replicate :
      (h : History) (k : ℕ) (e : Event) → (h ▷ e) ++ replicate k e ≡ h ++ replicate (suc k) e
  ▷-replicate h k e = append_assoc h (e ∷ []) (replicate k e)

  -- Whatever the service answers, `sendRequest` with `n` retries sends the request that it builds
  -- at least once and at most `n + 1` times, and nothing else.
  pub send_request-history :
      {q : Request} (n : ℕ) (h : History)
      → create_azure_request env client url verb ct content ≡ inr q
      → (k : ℕ) × (1 ≤ k)
        × (k ≤ n + 1)
        × ((send_request env client cert url verb ct content n h).1 ≡ h ++ replicate k (sent q))
  send_request-history {q} zero h c = elim (Round-cases (round q h)) [
    | inl (o, d) ↦ (1, omega arith, omega arith, same_history (sending_done zero h c d))
    | inr (x, d) ↦ (1, omega arith, omega arith, same_history (sending_last h c d))
  ]
  send_request-history {q} (suc n) h c = elim (Round-cases (round q h)) [
    | inl (o, d) ↦ (1, omega arith, omega arith, same_history (sending_done (suc n) h c d))
    | inr (x, d) ↦
        let (k, one, most, e) = send_request-history n (h ▷ sent q) c in
        (
          suc k,
          omega arith,
          omega arith,
          same_history (sending_again n h c d) ∙ e ∙ ▷-replicate h k (sent q),
        )
  ]
