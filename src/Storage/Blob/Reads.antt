-- ===== src/Storage/Blob/Reads.antt =====
-- What `GetBlob` and `GetBlobRange` of storage/blob.go return.
use azure_sdk_for_go.Common.{
  ℕ, [], ◌∷◌, ◌++◌, Option, some, none, inl, inr, ◌≡◌, sym, ap, ◌∙◌, arith, Bool-cases,
  if◌then◌else◌, ◌==◌,
}
use azure_sdk_for_go.Common.Text.{Text, codes, is_empty}
use azure_sdk_for_go.Go.{
  Result, ok, err, panic, stuck, Response, replied, sent, ◌▷◌, History, Headers, proceed, return,
  insert, same_result, same_history, err-ne-ok, panic-ne-ok, stuck-ne-ok,
}
use azure_sdk_for_go.Storage.{
  GoError, StorageClient, StorageResponse, Env, get_standard_headers, refuse_error,
}
use azure_sdk_for_go.Storage.Address.{get_endpoint}
use azure_sdk_for_go.Storage.Exec.Replies.{signed_request, exec-Accepted}
use azure_sdk_for_go.Storage.Canonical.{get_authorization_header}
use azure_sdk_for_go.Storage.Container.{path_for_blob, blob_exec}
use azure_sdk_for_go.Storage.Container.Stored.{blob_exec_ok}
use azure_sdk_for_go.Storage.Blob.{Stream, body_if, read_blob_range, get_blob, get_blob_range}

abbrev Answer : Type 0
Answer = Result GoError (StorageResponse × Option GoError)

body_if_ok :
    (expected : ℕ) (resp : StorageResponse) {stream : Stream}
    → body_if expected resp ≡ ok stream
    → (resp.status_code ≡ expected) × (stream ≡ (resp.body, resp.body_error))
unfolding body_if
body_if_ok expected resp e = elim (Bool-cases (resp.status_code == expected)) [
  | inl t ↦ (ground arith, sym (ok_injective (rw (t, body_if) at e)))
  | inr t ↦ absurd (err-ne-ok (rw (t, body_if) at e))
]
  where
    ok_injective : {x y : Stream} → ◌≡◌ {A = Result GoError Stream} (ok x) (ok y) → x ≡ y
    ok_injective p = cc

read_of :
    (expected : ℕ) (answer : Answer × History) {stream : Stream} {h' : History}
    → proceed (proceed answer refuse_error) (λ resp. return (body_if expected resp))
      ≡ (ok stream, h')
    → (resp : StorageResponse) × (answer ≡ (ok (resp, none), h'))
      × (resp.status_code ≡ expected)
      × (stream ≡ (resp.body, resp.body_error))
read_of expected (ok (r, none), g) e =
    let (status, stream) = body_if_ok expected r (same_result e) in
    (r, ap (λ (t : History). (ok (r, none), t)) (same_history e), status, stream)
read_of expected (ok (r, some x), g) e = absurd (err-ne-ok (same_result e))
read_of expected (err x, g) e = absurd (err-ne-ok (same_result e))
read_of expected (panic, g) e = absurd (panic-ne-ok (same_result e))
read_of expected (stuck, g) e = absurd (stuck-ne-ok (same_result e))

module _ (env : Env) (c : StorageClient) (container name : Text) where
  -- The headers of a read: the standard ones, and the range where there is one.
  abbrev pub range_headers : Text → History → Headers
  range_headers bytes_range h =
      if is_empty bytes_range
      then get_standard_headers env c h
      else insert (codes "Range") (codes "bytes=" ++ bytes_range) (get_standard_headers env c h)

  -- One GET request was sent, with an authorization computed for it; the service replied to it with the
  -- expected status; and the stream is the body of this reply, with the error with which it ends.
  pub record Received (headers : Headers) (expected : ℕ) (h : History) (stream : Stream)
      (h' : History) : Type 0 where
    pub uri : Text
    pub auth : Text
    pub reply : Response GoError
    pub endpoint :
        get_endpoint env c (codes "blob") (b'/' ∷ (container ++ (b'/' ∷ name))) [] ≡ ok uri
    pub authorized : get_authorization_header env c (codes "GET") uri headers ≡ inr auth
    pub answered :
        env.answer h (signed_request env c (codes "GET") uri headers none auth) ≡ replied reply
    pub status_is : reply.status ≡ expected
    pub stream_is : stream ≡ (reply.body, reply.body_error)
    pub history_is : h' ≡ h ▷ sent (signed_request env c (codes "GET") uri headers none auth)

  received :
      (headers : Headers) (expected : ℕ) (h : History) {stream : Stream} {h' : History}
      → proceed
          (proceed
            (blob_exec env c (codes "GET") (path_for_blob container name) [] headers none h)
            refuse_error)
          (λ resp. return (body_if expected resp))
        ≡ (ok stream, h')
      → Received headers expected h stream h'
  received headers expected h {h' = h'} e =
      let (resp, executed, status, carried) = read_of expected _ e in
      let (uri, endpoint, exchange) =
        blob_exec_ok env c (codes "GET") (path_for_blob container name) [] headers none h
          executed in
      let accepted = exec-Accepted env c (codes "GET") uri headers none h h' exchange in
      record {
        uri = uri;
        auth = accepted.auth;
        reply = accepted.reply;
        endpoint = endpoint;
        authorized = accepted.authorized;
        answered = accepted.answered;
        status_is = sym accepted.status_is ∙ status;
        stream_is =
            carried
            ∙ ap (λ (t : Text). (t, resp.body_error)) accepted.body_is
            ∙ ap (λ (t : Option GoError). (accepted.reply.body, t)) accepted.body_error_is;
        history_is = accepted.history_is;
      }

  -- The whole blob, or a range of it.
  pub data Read : Type 0 where
    whole : Read
    range : Text → Read

  abbrev pub perform : Read → History → Result GoError Stream × History
  perform whole = get_blob env c container name
  perform (range bytes_range) = get_blob_range env c container name bytes_range

  abbrev pub asked : Read → Text
  asked whole = []
  asked (range bytes_range) = bytes_range

  abbrev pub expected_status : Read → ℕ
  expected_status whole = 200
  expected_status (range bytes_range) = 206

  -- If `GetBlob` or `GetBlobRange` returns a stream, then one GET request for the blob was sent, with the
  -- range in a header where one is asked for, the service replied with the status 200, or 206 for
  -- `GetBlobRange`, and the stream is the body of this reply, with the error, if any, with which reading
  -- it ends.
  pub perform-Received :
      (read : Read) (h : History) {stream : Stream} {h' : History}
      → perform read h ≡ (ok stream, h')
      → Received (range_headers (asked read) h) (expected_status read) h stream h'
  unfolding get_blob get_blob_range read_blob_range
  perform-Received whole h e = received (range_headers [] h) 200 h e
  perform-Received (range bytes_range) h e = received (range_headers bytes_range h) 206 h e
