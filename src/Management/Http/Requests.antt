-- ===== src/Management/Http/Requests.antt =====
-- `sendAzureRequest` and the GET requests of management/http.go, over `sendRequest`.
use azure_sdk_for_go.Common.{
  ℕ, ◌≤◌, ◌<◌, [], ◌++◌, Option, some, none, ◌⊎◌, inl, inr, true, false, ◌≡◌, sym, ◌∙◌, arith,
  replicate, append-nil, Bool-cases, Option-cases, take, length, ◌-◌,
}
use azure_sdk_for_go.Common.Text.{Text, is_empty, codes}
use azure_sdk_for_go.Go.{
  ok, err, Request, Response, sent, History, proceed-history, proceed_ok, same_result, err-ne-ok,
  panic-ne-ok, return,
}
use azure_sdk_for_go.Management.{
  GoError, Outcome, param_not_specified, Client, Env, get_response_body,
}
use azure_sdk_for_go.Management.Http.{
  create_azure_request, send_azure_request, send_request, create_http_client,
  send_azure_get_request,
}
use azure_sdk_for_go.Management.Http.Retries.{send_request-history, send_request-status}

-- A history to which a request was added at most eight times.
abbrev pub AtMostEight : Request → History → History → Type 0
AtMostEight q h h' = (k : ℕ) × (k ≤ 8) × (h' ≡ h ++ replicate k (sent q))

nothing_sent : (q : Request) (h : History) → AtMostEight q h h
nothing_sent q h = (0, omega arith, sym (append-nil h))

module _ (env : Env) (client : Client) (url verb ct : Text) (content : Option Text)
    (h : History) where
  -- What `sendAzureRequest` does when it has a URL and a request type.
  pub send_azure_request_lem :
      is_empty url ≡ false
      → is_empty verb ≡ false
      → send_azure_request env client url verb ct content h
        ≡ send_request env client (create_http_client env client) url verb ct content 7 h
  unfolding send_azure_request
  send_azure_request_lem u v = rw (u, v)

  send_azure_request_idle :
      (is_empty url ≡ true) ⊎ (is_empty verb ≡ true)
      → (e : GoError) × (send_azure_request env client url verb ct content h ≡ (err e, h))
  unfolding send_azure_request
  send_azure_request_idle (inl u) = (param_not_specified (codes "url"), rw u)
  send_azure_request_idle (inr v) = elim (Bool-cases (is_empty url)) [
    | inl u ↦ (param_not_specified (codes "url"), rw u)
    | inr u ↦ (param_not_specified (codes "requestType"), rw (u, v))
  ]

  params-cases :
      ((is_empty url ≡ true) ⊎ (is_empty verb ≡ true))
      ⊎ ((is_empty url ≡ false) × (is_empty verb ≡ false))
  params-cases = elim (Bool-cases (is_empty url)) [
    | inl u ↦ inl (inl u)
    | inr u ↦ elim (Bool-cases (is_empty verb)) [ inl v ↦ inl (inr v) | inr v ↦ inr (u, v) ]
  ]

  pub send_azure_request-history :
      {q : Request}
      → create_azure_request env client url verb ct content ≡ inr q
      → AtMostEight q h (send_azure_request env client url verb ct content h).1
  send_azure_request-history {q} c = elim params-cases [
    | inl e ↦ rw (send_azure_request_idle e).1 (nothing_sent q h)
    | inr (u, v) ↦
        let (k, one, most, e) =
          send_request-history env client (create_http_client env client) url verb ct content 7 h
            c in
        rw (send_azure_request_lem u v) (k, omega arith, e)
  ]

  pub send_azure_request-status :
      {response : Response GoError}
      → (send_azure_request env client url verb ct content h).0 ≡ ok response
      → response.status < 400
  send_azure_request-status e = elim params-cases [
    | inl i ↦ absurd (err-ne-ok (sym (same_result (send_azure_request_idle i).1) ∙ e))
    | inr (u, v) ↦
        send_request-status env client (create_http_client env client) url verb ct content 7 h
          (sym (same_result (send_azure_request_lem u v)) ∙ e)
  ]

pub ok_injective : {s t : Text} → ◌≡◌ {A = Outcome Text} (ok s) (ok t) → s ≡ t
ok_injective p = cc

body_of :
    (response : Response GoError) {content : Text}
    → get_response_body response ≡ ok content
    → (n : ℕ) × (response.content_length ≡ some n)
      × (content ≡ take n response.body ++ replicate (n - length response.body) 0)
unfolding get_response_body
body_of response e = elim (Option-cases response.content_length) [
  | inl u ↦ absurd (panic-ne-ok (rw (u, get_response_body) at e))
  | inr (n, k) ↦ (n, k, ok_injective (sym (rw (k, get_response_body) at e)))
]

module _ (env : Env) (client : Client) (url : Text) (h : History) where
  pub send_azure_get_request-history :
      {q : Request}
      → create_azure_request env client url (codes "GET") [] none ≡ inr q
      → AtMostEight q h (send_azure_get_request env client url h).1
  unfolding send_azure_get_request
  send_azure_get_request-history {q} c = elim (Bool-cases (is_empty url)) [
    | inl u ↦ rw u (nothing_sent q h)
    | inr u ↦ rw u (
        rw
          (proceed-history (send_azure_request env client url (codes "GET") [] none h)
            get_response_body)
          (send_azure_request-history env client url (codes "GET") [] none h c))
  ]

  -- If a GET request returns a body, then `sendAzureRequest` returned a response with a status below
  -- 400, whose declared length is known, and the body is that response's, cut to the declared
  -- length, or filled up with zeros.
  pub send_azure_get_request_ok :
      {content : Text}
      → (send_azure_get_request env client url h).0 ≡ ok content
      → (response : Response GoError) × (n : ℕ) × ((send_azure_request env client url
            (codes "GET")
            []
            none
            h).0
          ≡ ok response)
        × (response.status < 400)
        × (response.content_length ≡ some n)
        × (content ≡ take n response.body ++ replicate (n - length response.body) 0)
  unfolding send_azure_get_request
  send_azure_get_request_ok e = elim (Bool-cases (is_empty url)) [
    | inl u ↦ absurd (refused u e)
    | inr u ↦
        let (response, sent_ok, body_ok) =
          proceed_ok (send_azure_request env client url (codes "GET") [] none h)
            (λ r. return (get_response_body r)) (rw (u, send_azure_get_request) at e) in
        let (n, len, body) = body_of response body_ok in
        (
          response,
          n,
          sent_ok,
          send_azure_request-status env client url (codes "GET") [] none h sent_ok,
          len,
          body,
        )
  ]
    where
      refused :
          {content : Text}
          → is_empty url ≡ true
          → (send_azure_get_request env client url h).0 ≡ ok content
          → ⊥
      refused u p = err-ne-ok (rw (u, send_azure_get_request) at p)
