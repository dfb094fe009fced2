-- ===== src/Storage/Container/Stored.antt =====
-- What stands behind an operation of storage/blob.go that asks for one status and returned no error.
use azure_sdk_for_go.Common.{ℕ, Option, some, none, ◌≡◌, ap, arith, inl, inr}
use azure_sdk_for_go.Common.Text.{Text}
use azure_sdk_for_go.Go.{
  Result, ok, err, panic, stuck, History, Headers, proceed, return, same_result, same_history,
  Result-cases, err-ne-ok, panic-ne-ok, stuck-ne-ok,
}
use azure_sdk_for_go.Storage.{GoError, StorageClient, StorageResponse, refuse_error, Env, Values}
use azure_sdk_for_go.Storage.Address.{get_endpoint}
use azure_sdk_for_go.Storage.Exec.{exec}
use azure_sdk_for_go.Storage.Exec.Replies.{Accepted, exec-Accepted}
use azure_sdk_for_go.Storage.Container.{blob_service_name, blob_exec, expect, expect_status}

abbrev Answer : Type 0
Answer = Result GoError (StorageResponse × Option GoError)

expect_ok :
    (expected : ℕ) (e : GoError) (resp : StorageResponse)
    → expect expected e resp ≡ ok tt
    → resp.status_code ≡ expected
unfolding expect
expect_ok expected e resp p = ground arith

expected_of :
    (expected : ℕ) (e : GoError) (answer : Answer × History) (h' : History)
    → ◌≡◌ {A = Result GoError (Unit {0}) × History}
        (proceed answer
          (λ both. (λ g. proceed (refuse_error both g) (λ resp. return (expect expected e resp)))))
        (ok tt, h')
    → (resp : StorageResponse) × (answer ≡ (ok (resp, none), h')) × (resp.status_code ≡ expected)
expected_of expected e (ok (r, none), g) h' p = (
  r,
  ap (λ (t : History). (ok (r, none), t)) (same_history p),
  expect_ok expected e r (same_result p),
)
expected_of expected e (ok (r, some x), g) h' p = absurd (err-ne-ok (same_result p))
expected_of expected e (err x, g) h' p = absurd (err-ne-ok (same_result p))
expected_of expected e (panic, g) h' p = absurd (panic-ne-ok (same_result p))
expected_of expected e (stuck, g) h' p = absurd (stuck-ne-ok (same_result p))

module _ (env : Env) (c : StorageClient) (verb path : Text) (params : Values) (headers : Headers)
    (body : Option Text) where
  pub blob_exec_ok :
      (h : History) {h' : History} {x : StorageResponse × Option GoError}
      → blob_exec env c verb path params headers body h ≡ (ok x, h')
      → (uri : Text) × (get_endpoint env c blob_service_name path params ≡ ok uri)
        × (exec env c verb uri headers body h ≡ (ok x, h'))
  unfolding blob_exec
  blob_exec_ok h e = elim (Result-cases (get_endpoint env c blob_service_name path params)) [
    | inl (uri, u) ↦ (uri, u, rw (u, blob_exec) at e)
    | inr (inl (x, u)) ↦ absurd (err-ne-ok (same_result (rw (u, blob_exec) at e)))
    | inr (inr (inl u)) ↦ absurd (panic-ne-ok (same_result (rw (u, blob_exec) at e)))
    | inr (inr (inr u)) ↦ absurd (stuck-ne-ok (same_result (rw (u, blob_exec) at e)))
  ]

  -- One request was sent to the address of the path and the parameters, and the service replied with
  -- the expected status.
  pub record Stored (expected : ℕ) (h h' : History) : Type 0 where
    pub uri : Text
    pub response : StorageResponse
    pub endpoint : get_endpoint env c blob_service_name path params ≡ ok uri
    pub accepted : Accepted env c verb uri headers body h response h'
    pub status_is : response.status_code ≡ expected

  pub expect_status-Stored :
      (expected : ℕ) (e : GoError) (h h' : History)
      → expect_status expected e (blob_exec env c verb path params headers body) h ≡ (ok tt, h')
      → Stored expected h h'
  unfolding expect_status
  expect_status-Stored expected e h h' p =
      let (resp, sent, status) =
        expected_of expected e (blob_exec env c verb path params headers body h) h' p in
      let (uri, endpoint, executed) = blob_exec_ok h sent in
      record {
        uri = uri;
        response = resp;
        endpoint = endpoint;
        accepted = exec-Accepted env c verb uri headers body h h' executed;
        status_is = status;
      }
