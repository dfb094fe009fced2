-- ===== src/Management/Http/Writes.antt =====
-- The requests of management/http.go that write: POST, PUT and DELETE return the id of an operation.
use azure_sdk_for_go.Common.{
  ℕ, ◌≤◌, ◌-◌, refl, subst, arith, ◌<◌, List, [], ◌∷◌, Option, some, none, inl, inr, true, false,
  ◌≡◌, sym, ap, ◌∙◌, Bool-cases, Option-cases,
}
use azure_sdk_for_go.Common.Text.{Text, is_empty, codes}
use azure_sdk_for_go.Go.{
  panic, Request, replied, sent, ◌▷◌, Result, ok, err, Response, History, proceed, proceed_ok,
  same_result, err-ne-ok, panic-ne-ok, return, lookup, Call,
}
use azure_sdk_for_go.Management.{GoError, Outcome, param_not_specified, Client, Env}
use azure_sdk_for_go.Management.Http.{
  create_azure_request, create_http_client, send_request, send_azure_request, first_request_id,
  put_url_not_specified, send_azure_post_request, send_azure_put_request, send_azure_delete_request,
}
use azure_sdk_for_go.Management.Http.Retries.{Retried, send_request_recovers}
use azure_sdk_for_go.Management.Http.Requests.{
  send_azure_request_lem, send_azure_request-status, ok_injective,
}

-- The id of a request is the first value of the header "X-Ms-Request-Id" of the response.
abbrev pub HasRequestId : Response GoError → Text → Type 0
HasRequestId response id =
    (ids : List Text) × (lookup (codes "X-Ms-Request-Id") response.header ≡ some (id ∷ ids))

-- What a successful POST, PUT or DELETE has: a response, and in it an id.
abbrev pub Answered : Result GoError (Response GoError) × History → Text → Type 0
Answered call id =
    (response : Response GoError) × (call.0 ≡ ok response)
    × (response.status < 400)
    × HasRequestId response id

abbrev request_ids : Response GoError → Option (List Text)
request_ids response = lookup (codes "X-Ms-Request-Id") response.header

first_request_id_ok :
    (response : Response GoError) {id : Text}
    → first_request_id response ≡ ok id
    → HasRequestId response id
unfolding first_request_id
first_request_id_ok response e = elim (Option-cases (request_ids response)) [
  | inl u ↦ absurd (panic-ne-ok (rw (u, first_request_id) at e))
  | inr ([], u) ↦ absurd (panic-ne-ok (rw (u, first_request_id) at e))
  | inr (x ∷ ids, u) ↦
      (ids, u ∙ ap (λ (t : Text). some (t ∷ ids)) (ok_injective (rw (u, first_request_id) at e)))
]

-- The three requests that write, with what each of them sends.
pub data Write : Type 0 where
  posts : Option Text → Write
  puts : Text → Option Text → Write
  deletes : Write

abbrev pub write : Env → Client → Text → Write → Call GoError Text
write env client url (posts content) = send_azure_post_request env client url content
write env client url (puts ct content) = send_azure_put_request env client url ct content
write env client url deletes = send_azure_delete_request env client url

abbrev pub write_sends : Env → Client → Text → Write → Call GoError (Response GoError)
write_sends env client url (posts content) =
    send_azure_request env client url (codes "POST") [] content
write_sends env client url (puts ct content) =
    send_azure_request env client url (codes "PUT") ct content
write_sends env client url deletes = send_azure_request env client url (codes "DELETE") [] none

write_refused :
    (env : Env) (client : Client) (url : Text) (w : Write) (h : History)
    → is_empty url ≡ true
    → (e : GoError) × (write env client url w h ≡ (err e, h))
unfolding send_azure_post_request send_azure_put_request send_azure_delete_request
write_refused env client url (posts content) h u = (param_not_specified (codes "url"), rw u)
write_refused env client url (puts ct content) h u = (put_url_not_specified ct, rw u)
write_refused env client url deletes h u = (param_not_specified (codes "url"), rw u)

write_goes_on :
    (env : Env) (client : Client) (url : Text) (w : Write) (h : History)
    → is_empty url ≡ false
    → write env client url w h
      ≡ proceed (write_sends env client url w h) (λ r. return (first_request_id r))
unfolding send_azure_post_request send_azure_put_request send_azure_delete_request
write_goes_on env client url (posts content) h u = rw u
write_goes_on env client url (puts ct content) h u = rw u
write_goes_on env client url deletes h u = rw u

write_sends-status :
    (env : Env) (client : Client) (url : Text) (w : Write) (h : History) {r : Response GoError}
    → (write_sends env client url w h).0 ≡ ok r
    → r.status < 400
write_sends-status env client url (posts content) h =
    send_azure_request-status env client url (codes "POST") [] content h
write_sends-status env client url (puts ct content) h =
    send_azure_request-status env client url (codes "PUT") ct content h
write_sends-status env client url deletes h =
    send_azure_request-status env client url (codes "DELETE") [] none h

module _ (env : Env) (client : Client) (url : Text) (w : Write) (h : History) where
  -- If a POST, a PUT or a DELETE returns an id, then the service replied with a status below 400 and
  -- with that id as the first value of "X-Ms-Request-Id".
  pub send_azure_write_ok :
      {id : Text}
      → (write env client url w h).0 ≡ ok id
      → Answered (write_sends env client url w h) id
  send_azure_write_ok e = elim (Bool-cases (is_empty url)) [
    | inl u ↦ absurd (err-ne-ok (sym (same_result (write_refused env client url w h u).1) ∙ e))
    | inr u ↦
        let (response, sent_ok, id_ok) =
          proceed_ok (write_sends env client url w h) (λ r. return (first_request_id r))
            (sym (same_result (write_goes_on env client url w h u)) ∙ e) in
        (
          response,
          sent_ok,
          write_sends-status env client url w h sent_ok,
          first_request_id_ok response id_ok,
        )
  ]

-- What each request sends: its verb, its content type, where one is given, and its body.
abbrev pub verb_of : Write → Text
verb_of (posts content) = codes "POST"
verb_of (puts ct content) = codes "PUT"
verb_of deletes = codes "DELETE"

abbrev pub type_of : Write → Text
type_of (posts content) = []
type_of (puts ct content) = ct
type_of deletes = []

abbrev pub content_of : Write → Option Text
content_of (posts content) = content
content_of (puts ct content) = content
content_of deletes = none

-- How a write ends that is answered with these values of "X-Ms-Request-Id": with the first of them, or
-- with a panic where there is none.
abbrev pub EndsWith : Option (List Text) → Outcome Text × History → History → Type 0
EndsWith none o h = o ≡ (panic, h)
EndsWith (some []) o h = o ≡ (panic, h)
EndsWith (some (id ∷ ids)) o h = o ≡ (ok id, h)

has_verb : (w : Write) → is_empty (verb_of w) ≡ false
has_verb (posts content) = refl
has_verb (puts ct content) = refl
has_verb deletes = refl

write_sends_lem :
    (env : Env) (client : Client) (url : Text) (w : Write) (h : History)
    → write_sends env client url w h
      ≡ send_azure_request env client url (verb_of w) (type_of w) (content_of w) h
write_sends_lem env client url (posts content) h = refl
write_sends_lem env client url (puts ct content) h = refl
write_sends_lem env client url deletes h = refl

first_request_id-EndsWith :
    (response : Response GoError) (h : History)
    → EndsWith (request_ids response) (first_request_id response, h) h
unfolding first_request_id
first_request_id-EndsWith response h = elim (Option-cases (request_ids response)) [
  | inl u ↦ rw (u, first_request_id) refl
  | inr ([], u) ↦ rw (u, first_request_id) refl
  | inr (x ∷ ids, u) ↦ rw (u, first_request_id) refl
]

module _ (env : Env) (client : Client) (url : Text) (w : Write) {q : Request} {k : ℕ}
    {h h' : History} {response : Response GoError} where
  -- If the URL is not empty and the request of a POST, a PUT or a DELETE can be built, and the service
  -- refuses it `k` times, at most seven, and then replies with a status below 400, then the call ends
  -- after `k + 1` copies of this request: with the first value of "X-Ms-Request-Id" of that reply, and
  -- with a panic where the reply has no such value.
  pub send_azure_write-EndsWith :
      is_empty url ≡ false
      → create_azure_request env client url (verb_of w) (type_of w) (content_of w) ≡ inr q
      → Retried env client
          (create_http_client env client)
          url
          (verb_of w)
          (type_of w)
          (content_of w)
          q
          k
          h
          h'
      → k ≤ 7
      → env.answer (create_http_client env client) h' q ≡ replied response
      → response.status < 400
      → EndsWith
          (lookup (codes "X-Ms-Request-Id") response.header)
          (write env client url w h)
          (h' ▷ sent q)
  send_azure_write-EndsWith u c t p a s =
      subst (λ o. EndsWith (request_ids response) o (h' ▷ sent q)) (sym ends)
        (first_request_id-EndsWith response (h' ▷ sent q))
    where
      cert : env.Certificate
      cert = create_http_client env client

      sends : write_sends env client url w h ≡ (ok response, h' ▷ sent q)
      sends =
          write_sends_lem env client url w h
          ∙ send_azure_request_lem env client url (verb_of w) (type_of w) (content_of w) h u
              (has_verb w)
          ∙ ap
              (λ (n : ℕ).
                send_request env client cert url (verb_of w) (type_of w) (content_of w) n h)
              (omega arith)
          ∙ send_request_recovers env client cert url (verb_of w) (type_of w) (content_of w) (7 - k)
              c t a s

      ends : write env client url w h ≡ (first_request_id response, h' ▷ sent q)
      ends =
          write_goes_on env client url w h u
          ∙ ap
              (λ (r : Outcome (Response GoError) × History).
                proceed r (λ x. return (first_request_id x)))
              sends
