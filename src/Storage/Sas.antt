-- ===== src/Storage/Sas.antt =====
-- Shared access signatures, storage/blob.go: `GetBlobSASURI` and `blobSASStringToSign`.
pub mod Signed
use azure_sdk_for_go.Common.{List, [], ◌∷◌, if◌then◌else◌, ◌⊎◌, inl, inr, Bool, true, false}
use azure_sdk_for_go.Common.Text.{Text, codes, le, join}
use azure_sdk_for_go.Go.{Result, ok, err, panic, stuck}
use azure_sdk_for_go.Storage.{GoError, message, library, StorageClient, Env, Values}
use azure_sdk_for_go.Storage.Address.{encode, url_string}
use azure_sdk_for_go.Storage.Canonical.{build_canonicalized_resource, compute_hmac256}
use azure_sdk_for_go.Storage.Blob.{get_blob_url}

-- The fields that the code leaves empty are written as such.
unfoldable pub blob_sas_string_to_sign : Text → Text → Text → Text → GoError ⊎ Text
unfolding le join
blob_sas_string_to_sign signed_version canonicalized_resource signed_expiry signed_permissions =
    if le (codes "2013-08-15") signed_version
    then inr (
        join (b'\n' ∷ []) (
          signed_permissions ∷ [] ∷ signed_expiry ∷ canonicalized_resource ∷ [] ∷ signed_version
          ∷ [] ∷ [] ∷ [] ∷ [] ∷ [] ∷ []))
    else inl (message (codes "storage: not implemented SAS for versions earlier than 2013-08-15"))

abbrev pub sas_params : StorageClient → Text → Text → Text → Values
sas_params c signed_expiry signed_permissions sig =
    (codes "sv", c.api_version ∷ [])
    ∷ (codes "se", signed_expiry ∷ [])
    ∷ (codes "sr", codes "b" ∷ [])
    ∷ (codes "sp", signed_permissions ∷ [])
    ∷ (codes "sig", sig ∷ [])
    ∷ []

-- Behind `GetBlobUrl`.
unfoldable pub sign_blob_url : Env → StorageClient → Text → Text → Text → GoError ⊎ Text
unfolding blob_sas_string_to_sign encode url_string
sign_blob_url env c blob_url signed_expiry signed_permissions =
    elim (build_canonicalized_resource env c blob_url) [
      | inl e ↦ inl e
      | inr canonicalized_resource ↦
          elim (blob_sas_string_to_sign c.api_version canonicalized_resource signed_expiry
            signed_permissions) [
              | inl e ↦ inl e
              | inr string_to_sign ↦ elim (env.parse_url blob_url) [
                | inl e ↦ inl (library e)
                | inr sas_url ↦ inr (
                    url_string (record sas_url {
                      raw_query = encode (
                          sas_params c signed_expiry signed_permissions
                            (compute_hmac256 env c string_to_sign));
                    }))
              ]
            ]
    ]

-- The expiry is given in the form that `Format(time.RFC3339)` writes.
unfoldable pub get_blob_sas_uri :
    Env → StorageClient → Text → Text → Text → Text → Result GoError Text
get_blob_sas_uri env c container name signed_expiry signed_permissions =
    elim (get_blob_url env c container name) [
      | ok blob_url ↦ elim (sign_blob_url env c blob_url signed_expiry signed_permissions) [
        | inl e ↦ err e
        | inr uri ↦ ok uri
      ]
      | err e ↦ err e
      | panic ↦ panic
      | stuck ↦ stuck
    ]
