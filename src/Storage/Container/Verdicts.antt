-- ===== src/Storage/Container/Verdicts.antt =====
-- The operations of storage/blob.go that tell two statuses apart: what each of them returns for each
-- reply of the service.
use azure_sdk_for_go.Common.{
  ℕ, Option, some, none, inl, inr, Bool, true, false, ◌≡◌, ◌≢◌, sym, ap, subst, ◌∙◌, arith,
  Bool-cases, leb, ◌==◌, ◌&&◌,
}
use azure_sdk_for_go.Common.Text.{Text, codes}
use azure_sdk_for_go.Go.{Result, ok, err, Response, replied, History, Headers, same_result}
use azure_sdk_for_go.Storage.{
  GoError, StorageClient, StorageResponse, Env, Values, get_standard_headers,
}
use azure_sdk_for_go.Storage.Address.{get_endpoint}
use azure_sdk_for_go.Storage.Canonical.{get_authorization_header}
use azure_sdk_for_go.Storage.Exec.{receive}
use azure_sdk_for_go.Storage.Exec.Replies.{
  IsErrorStatus, signed_request, exec_sends, receive_readable, in_range, out_of_range,
}
use azure_sdk_for_go.Storage.Container.{
  blob_service_name, path_for_container, blob_exec, either_status, restype_container, put_container,
  put_container_headers, create_container_if_not_exists, container_exists, send_delete_container,
  delete_container_if_exists,
}

-- The service's reply to a request of the blob service, whose body can be read to its end.
pub record Answered (env : Env) (c : StorageClient) (verb path : Text) (params : Values)
    (headers : Headers) (body : Option Text) (h : History) (reply : Response GoError) : Type 0 where
  pub uri : Text
  pub auth : Text
  pub endpoint : get_endpoint env c blob_service_name path params ≡ ok uri
  pub authorized : get_authorization_header env c verb uri headers ≡ inr auth
  pub built : env.new_request verb uri ≡ none
  pub answered : env.answer h (signed_request env c verb uri headers body auth) ≡ replied reply
  pub readable : reply.body_error ≡ none

blob_exec-Answered :
    (env : Env) (c : StorageClient) (verb path : Text) (params : Values) (headers : Headers)
    (body : Option Text) (h : History) {reply : Response GoError}
    → Answered env c verb path params headers body h reply
    → (blob_exec env c verb path params headers body h).0 ≡ receive env (replied reply)
unfolding blob_exec
blob_exec-Answered env c verb path params headers body h a =
    rw (a.endpoint, blob_exec)
      (same_result (exec_sends env c verb a.uri headers body h a.authorized a.built)
        ∙ ap (receive env) a.answered)

-- One status for true and one for false; an error for the other statuses from 400 to 505; and for
-- the rest false with no error.
pub data Verdict (hit miss status : ℕ) (r : Result GoError Bool) : Type 0 where
  yes : status ≡ hit → r ≡ ok true → Verdict hit miss status r
  no : status ≡ miss → r ≡ ok false → Verdict hit miss status r
  fails : IsErrorStatus status → (e : GoError) → r ≡ err e → Verdict hit miss status r
  unknown :
      status ≢ hit
      → status ≢ miss
      → ¬ IsErrorStatus status
      → r ≡ ok false
      → Verdict hit miss status r

either_status_table :
    (hit miss : ℕ) (r : StorageResponse) (o : Option GoError)
    → hit ≢ miss
    → (IsErrorStatus r.status_code → (e : GoError) × (o ≡ some e))
    → (¬ IsErrorStatus r.status_code → o ≡ none)
    → Verdict hit miss r.status_code (either_status hit miss (ok (r, o)))
unfolding either_status
either_status_table hit miss r o ne u v = elim (Bool-cases (r.status_code == hit)) [
  | inl t ↦ yes (ground arith) (ground arith)
  | inr t ↦ elim (Bool-cases (r.status_code == miss)) [
    | inl s ↦ no (ground arith) (ground arith)
    | inr s ↦ elim (Bool-cases (leb 400 r.status_code && leb r.status_code 505)) [
      | inl w ↦
          let (x, m) = u (in_range r.status_code w) in
          fails (in_range r.status_code w) x (rw m (ground arith))
      | inr w ↦
          unknown (ground arith) (ground arith) (out_of_range r.status_code w)
            (rw (v (out_of_range r.status_code w)) (ground arith))
    ]
  ]
]

either_status-Verdict :
    (env : Env) (hit miss : ℕ) (reply : Response GoError)
    → hit ≢ miss
    → reply.body_error ≡ none
    → Verdict hit miss reply.status (either_status hit miss (receive env (replied reply)))
either_status-Verdict env hit miss reply ne b =
    let (r, o, p, q, u, v) = receive_readable env reply b in
    rw p (
      subst (λ s. Verdict hit miss s (either_status hit miss (ok (r, o)))) q
        (either_status_table hit miss r o ne (λ s. u (subst IsErrorStatus q s))
          (λ n. v (λ s. n (subst IsErrorStatus (sym q) s)))))

module _ (env : Env) (c : StorageClient) (verb path : Text) (params : Values) (headers : Headers)
    (h : History) {reply : Response GoError}
    (a : Answered env c verb path params headers none h reply) where
  pub either_status-Verdict_of_request :
      (hit miss : ℕ)
      → hit ≢ miss
      → Verdict hit miss reply.status
          (either_status hit miss (blob_exec env c verb path params headers none h).0)
  either_status-Verdict_of_request hit miss ne =
      rw (blob_exec-Answered env c verb path params headers none h a)
        (either_status-Verdict env hit miss reply ne a.readable)

module _ (env : Env) (c : StorageClient) (name : Text) (h : History)
    {reply : Response GoError} where
  -- For every reply whose body can be read, `CreateContainerIfNotExists` returns true for 201 and
  -- false for 409, an error for the other statuses from 400 to 505, and false with no error for the
  -- rest.
  pub create_container_if_not_exists-Verdict :
      (access : Text)
      → Answered env c
          (codes "PUT")
          (path_for_container name)
          restype_container
          (put_container_headers access (get_standard_headers env c h))
          none
          h
          reply
      → Verdict 201 409 reply.status (create_container_if_not_exists env c name access h).0
  unfolding create_container_if_not_exists put_container
  create_container_if_not_exists-Verdict access a =
      either_status-Verdict_of_request env c _ _ _ _ h a 201 409 (λ e. omega arith)

  -- For every reply whose body can be read, `ContainerExists` returns true for 200 and false for 404,
  -- an error for the other statuses from 400 to 505, and false with no error for the rest.
  pub container_exists-Verdict :
      Answered env c
        (codes "HEAD")
        (path_for_container name)
        restype_container
        (get_standard_headers env c h)
        none
        h
        reply
      → Verdict 200 404 reply.status (container_exists env c name h).0
  unfolding container_exists
  container_exists-Verdict a =
      either_status-Verdict_of_request env c _ _ _ _ h a 200 404 (λ e. omega arith)

  -- For every reply whose body can be read, `DeleteContainerIfExists` returns true for 202 and false
  -- for 404, an error for the other statuses from 400 to 505, and false with no error for the rest.
  pub delete_container_if_exists-Verdict :
      Answered env c
        (codes "DELETE")
        (path_for_container name)
        restype_container
        (get_standard_headers env c h)
        none
        h
        reply
      → Verdict 202 404 reply.status (delete_container_if_exists env c name h).0
  unfolding delete_container_if_exists send_delete_container
  delete_container_if_exists-Verdict a =
      either_status-Verdict_of_request env c _ _ _ _ h a 202 404 (λ e. omega arith)
