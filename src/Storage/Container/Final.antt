-- ===== src/Storage/Container/Final.antt =====
-- The end of requests of the blob service, storage/blob.go.
use azure_sdk_for_go.Common.{ℕ, Option, some, none, inl, inr, Sum-cases, Bool-cases, ◌==◌}
use azure_sdk_for_go.Common.Text.{Text}
use azure_sdk_for_go.Go.{History, Headers}
use azure_sdk_for_go.Storage.{GoError, StorageClient, StorageResponse, Env, Values, refuse_error}
use azure_sdk_for_go.Storage.Address.{get_base_url, get_endpoint}
use azure_sdk_for_go.Storage.Exec.Final.{
  IsFinal, ok-IsFinal, err-IsFinal, panic-IsFinal, proceed-IsFinal, exec-IsFinal,
}
use azure_sdk_for_go.Storage.Container.{blob_service_name, blob_exec, expect, expect_status}

expect-IsFinal :
    (expected : ℕ) (e : GoError) (resp : StorageResponse) → IsFinal (expect expected e resp)
unfolding expect
expect-IsFinal expected e resp = elim (Bool-cases (resp.status_code == expected)) [
  | inl t ↦ rw t ok-IsFinal
  | inr t ↦ rw t err-IsFinal
]

module _ (env : Env) (c : StorageClient) where
  endpoint-IsFinal :
      (path : Text) (params : Values) → IsFinal (get_endpoint env c blob_service_name path params)
  unfolding get_endpoint
  endpoint-IsFinal path params =
      elim (Sum-cases (env.parse_url (get_base_url c blob_service_name))) [
        | inl (x, p) ↦ rw (p, get_endpoint) panic-IsFinal
        | inr (u, p) ↦ rw (p, get_endpoint) ok-IsFinal
      ]

  blob_exec-IsFinal :
      (verb path : Text) (params : Values) (headers : Headers) (body : Option Text) (h : History)
      → IsFinal (blob_exec env c verb path params headers body h).0
  unfolding blob_exec
  blob_exec-IsFinal verb path params headers body h =
      proceed-IsFinal (get_endpoint env c blob_service_name path params, h) _
        (endpoint-IsFinal path params) (λ uri g. exec-IsFinal env c verb uri headers body g)

  refused :
      (both : StorageResponse × Option GoError) (h : History) → IsFinal (refuse_error both h).0
  refused (r, none) h = ok-IsFinal
  refused (r, some e) h = err-IsFinal

  pub expect_status-IsFinal :
      (expected : ℕ) (e : GoError) (verb path : Text) (params : Values) (headers : Headers)
      (body : Option Text) (h : History)
      → IsFinal (expect_status expected e (blob_exec env c verb path params headers body) h).0
  unfolding expect_status
  expect_status-IsFinal expected e verb path params headers body h =
      proceed-IsFinal (blob_exec env c verb path params headers body h) _
        (blob_exec-IsFinal verb path params headers body h)
        (λ both g.
          proceed-IsFinal (refuse_error both g) _ (refused both g)
            (λ resp f. expect-IsFinal expected e resp))
