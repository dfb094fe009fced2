-- ===== src/Storage/Exec/Replies.antt =====
-- How `exec` of storage/client.go tells errors from responses.
use azure_sdk_for_go.Common.{
  ℕ, ◌≤◌, [], ◌∷◌, Option, some, none, ◌⊎◌, inl, inr, true, false, leb, ◌&&◌, ◌≡◌, refl, sym, ap,
  subst, ◌∙◌, arith, Bool-cases, Option-cases, Sum-cases,
}
use azure_sdk_for_go.Common.Text.{Text, codes}
use azure_sdk_for_go.Go.{
  Result, ok, err, panic, stuck, insert, same_result, same_history, err-ne-ok, panic-ne-ok, Request,
  Response, Reply, failed, replied, sent, History, ◌▷◌, Headers,
}
use azure_sdk_for_go.Storage.{GoError, StorageClient, StorageResponse, Env}
use azure_sdk_for_go.Storage.Canonical.{get_authorization_header}
use azure_sdk_for_go.Storage.Exec.{read_response_body, error_response, receive, exec}

-- A status that `exec` takes for an error.
abbrev pub IsErrorStatus : ℕ → Type 0
IsErrorStatus status = (400 ≤ status) × (status ≤ 505)

-- An outcome that carries an error: alone, or with a response that has the reply's status.
abbrev pub CarriesError :
    Response GoError → Result GoError (StorageResponse × Option GoError) → Type 0
CarriesError resp (err e) = Unit
CarriesError resp (ok (r, some e)) = r.status_code ≡ resp.status
CarriesError resp (ok (r, none)) = ⊥
CarriesError resp panic = ⊥
CarriesError resp stuck = ⊥

error_response-CarriesError :
    (env : Env) (resp : Response GoError) (read : GoError ⊎ Text)
    → CarriesError resp (error_response env resp read)
unfolding error_response
error_response-CarriesError env resp (inl e) = tt
error_response-CarriesError env resp (inr []) = refl
error_response-CarriesError env resp (inr (x ∷ xs)) = refl

receive-CarriesError :
    (env : Env) (resp : Response GoError)
    → IsErrorStatus resp.status
    → CarriesError resp (receive env (replied resp))
unfolding receive
receive-CarriesError env resp s =
    rw (within resp.status s) (error_response-CarriesError env resp (read_response_body resp))
  where
    within : (n : ℕ) → IsErrorStatus n → (leb 400 n && leb n 505) ≡ true
    within n s = ground arith

pub receive_plain :
    (env : Env) (resp : Response GoError)
    → ¬ IsErrorStatus resp.status
    → receive env (replied resp)
      ≡ ok (
        record {
          status_code = resp.status;
          headers = resp.header;
          body = resp.body;
          body_error = resp.body_error;
        },
        none,
      )
unfolding receive
receive_plain env resp s = elim (Bool-cases (leb 400 resp.status && leb resp.status 505)) [
  | inl t ↦ absurd (s (ground arith))
  | inr t ↦ rw (t, receive)
]

abbrev Received : Type 0
Received = Result GoError (StorageResponse × Option GoError)

ok_injective : {r s : StorageResponse} → ◌≡◌ {A = Received} (ok (r, none)) (ok (s, none)) → r ≡ s
ok_injective p = cc

Reply-cases :
    (r : Reply GoError)
    → ((e : GoError) × (r ≡ failed e)) ⊎ ((resp : Response GoError) × (r ≡ replied resp))
Reply-cases (failed e) = inl (e, refl)
Reply-cases (replied resp) = inr (resp, refl)

no_error :
    (env : Env) (resp : Response GoError) {r : StorageResponse}
    → receive env (replied resp) ≡ ok (r, none)
    → ¬ IsErrorStatus resp.status
no_error env resp e s = subst (CarriesError resp) e (receive-CarriesError env resp s)

module _ (env : Env) (c : StorageClient) (verb url : Text) (headers : Headers)
    (body : Option Text) where
  -- The request that `exec` sends with a given authorization.
  abbrev pub signed_request : Text → Request
  signed_request auth = record {
    verb = verb;
    url = url;
    headers = insert (codes "Authorization") auth headers;
    body = body;
  }

  pub exec_sends :
      (h : History) {auth : Text}
      → get_authorization_header env c verb url headers ≡ inr auth
      → env.new_request verb url ≡ none
      → exec env c verb url headers body h
        ≡ (receive env (env.answer h (signed_request auth)), h ▷ sent (signed_request auth))
  unfolding exec
  exec_sends h a n = ground arith

  -- A reply with a status from 400 to 505 always comes back with an error: alone, or with a response
  -- of that status.
  pub exec-CarriesError :
      (h : History) {auth : Text} {resp : Response GoError}
      → get_authorization_header env c verb url headers ≡ inr auth
      → env.new_request verb url ≡ none
      → env.answer h (signed_request auth) ≡ replied resp
      → IsErrorStatus resp.status
      → CarriesError resp (exec env c verb url headers body h).0
  exec-CarriesError h {auth} {resp} a n r s =
      rw (exec_sends h a n) (rw r (receive-CarriesError env resp s))

  -- What stands behind a response that comes back with no error.
  pub record Accepted (h : History) (r : StorageResponse) (h' : History) : Type 0 where
    pub auth : Text
    pub reply : Response GoError
    pub authorized : get_authorization_header env c verb url headers ≡ inr auth
    pub answered : env.answer h (signed_request auth) ≡ replied reply
    pub plain : ¬ IsErrorStatus reply.status
    pub status_is : r.status_code ≡ reply.status
    pub headers_are : r.headers ≡ reply.header
    pub body_is : r.body ≡ reply.body
    pub body_error_is : r.body_error ≡ reply.body_error
    pub history_is : h' ≡ h ▷ sent (signed_request auth)

  received :
      {h h' : History} {auth : Text} {r : StorageResponse}
      → get_authorization_header env c verb url headers ≡ inr auth
      → ◌≡◌ {A = Received × History}
          (receive env (env.answer h (signed_request auth)), h ▷ sent (signed_request auth))
          (ok (r, none), h')
      → Accepted h r h'
  received {h} {h'} {auth} {r} a e = elim (Reply-cases (env.answer h (signed_request auth))) [
    | inl (x, p) ↦ absurd (unfold receive in err-ne-ok (rw (p, receive) at (same_result e)))
    | inr (resp, p) ↦
        let got = rw p at (same_result e) in
        let good = no_error env resp got in
        let same = ok_injective (sym (receive_plain env resp good) ∙ got) in
        record {
          auth = auth;
          reply = resp;
          authorized = a;
          answered = p;
          plain = good;
          status_is = sym (ap (λ (t : StorageResponse). t.status_code) same);
          headers_are = sym (ap (λ (t : StorageResponse). t.headers) same);
          body_is = sym (ap (λ (t : StorageResponse). t.body) same);
          body_error_is = sym (ap (λ (t : StorageResponse). t.body_error) same);
          history_is = sym (same_history e);
        }
  ]

  -- If `exec` returns a response and no error, then it sent one request, with an authorization
  -- header computed for it, and the response is the service's reply: its status, which is not one from
  -- 400 to 505, its headers, its body, and the error with which reading the body ends.
  pub exec-Accepted :
      (h h' : History) {r : StorageResponse}
      → exec env c verb url headers body h ≡ (ok (r, none), h')
      → Accepted h r h'
  unfolding exec
  exec-Accepted h h' e = elim (Sum-cases (get_authorization_header env c verb url headers)) [
    | inl (x, a) ↦ absurd (err-ne-ok (rw (a, exec) at (same_result e)))
    | inr (auth, a) ↦ elim (Option-cases (env.new_request verb url)) [
      | inl n ↦ received a (sym (exec_sends h a n) ∙ e)
      | inr (x, n) ↦ absurd (panic-ne-ok (rw (a, n, exec) at (same_result e)))
    ]
  ]

readable_error :
    (env : Env) (resp : Response GoError) (read : Text)
    → (r : StorageResponse) × (e : GoError) × (error_response env resp (inr read) ≡ ok (r, some e))
      × (r.status_code ≡ resp.status)
unfolding error_response
readable_error env resp [] = (_, _, refl, refl)
readable_error env resp (x ∷ xs) = (_, _, refl, refl)

pub in_range : (n : ℕ) → (leb 400 n && leb n 505) ≡ true → IsErrorStatus n
in_range n t = (ground arith, ground arith)

pub out_of_range : (n : ℕ) → (leb 400 n && leb n 505) ≡ false → IsErrorStatus n → ⊥
out_of_range n t s = ground arith

-- A reply whose body can be read to its end gives a response with its status, and an error exactly if
-- the status is one from 400 to 505.
pub receive_readable :
    (env : Env) (resp : Response GoError)
    → resp.body_error ≡ none
    → (r : StorageResponse) × (o : Option GoError) × (receive env (replied resp) ≡ ok (r, o))
      × (r.status_code ≡ resp.status)
      × (IsErrorStatus resp.status → (e : GoError) × (o ≡ some e))
      × (¬ IsErrorStatus resp.status → o ≡ none)
unfolding receive readable_error
receive_readable env resp b = elim (Bool-cases (leb 400 resp.status && leb resp.status 505)) [
  | inl t ↦
      let (r, e, p, q) = readable_error env resp resp.body in
      (
        r,
        some e,
        rw (t, receive) (rw (b, read_response_body) p),
        q,
        λ s. (e, refl),
        λ n. absurd (n (in_range resp.status t)),
      )
  | inr t ↦ (
    record {
      status_code = resp.status;
      headers = resp.header;
      body = resp.body;
      body_error = resp.body_error;
    },
    none,
    rw (t, receive),
    refl,
    λ s. absurd (out_of_range resp.status t s),
    λ n. refl,
  )
]
