-- ===== src/Storage/Canonical/Maps.antt =====
-- The authorization header of storage/client.go does not depend on the order in which the entries of
-- the map of headers come.
use mathlib.Core.List.{Perm}
use mathlib.Core.Logic.{∥∥₁_elim}
use azure_sdk_for_go.Common.{[], ◌∷◌, inl, inr, ◌≡◌, refl, ap, fun_ext, ◌∙◌, Sum-cases}
use azure_sdk_for_go.Common.Text.{Text, codes, join}
use azure_sdk_for_go.Go.{Headers}
use azure_sdk_for_go.Storage.{StorageClient, Env}
use azure_sdk_for_go.Storage.Address.{keys}
use azure_sdk_for_go.Storage.Canonical.{
  value_of, build_canonicalized_header, build_canonicalized_string, build_canonicalized_resource,
  create_authorization_header, get_authorization_header,
}
use azure_sdk_for_go.Storage.Canonical.Order.{
  Text-set, signed, Distinct, value_of-Perm, build_canonicalized_header-Perm,
}

abbrev strings : Text → (Text → Text) → Text → Text → Text
strings verb value canonical resource = join (b'\n' ∷ []) (
    verb
    ∷ value (codes "Content-Encoding")
    ∷ value (codes "Content-Language")
    ∷ value (codes "Content-Length")
    ∷ value (codes "Content-MD5")
    ∷ value (codes "Content-Type")
    ∷ value (codes "Date")
    ∷ value (codes "If-Modified-Singe")
    ∷ value (codes "If-Match")
    ∷ value (codes "If-None-Match")
    ∷ value (codes "If-Unmodified-Singe")
    ∷ value (codes "Range")
    ∷ canonical
    ∷ resource
    ∷ [])

build_canonicalized_string-Perm :
    (verb resource : Text) {m n : Headers}
    → Perm m n
    → Distinct (keys m)
    → Distinct (keys (signed m))
    → build_canonicalized_string verb m resource ≡ build_canonicalized_string verb n resource
unfolding build_canonicalized_string
build_canonicalized_string-Perm verb resource {m} {n} p d e = ∥∥₁_elim p (Text-set _ _) (λ q.
    ap (λ value. strings verb value (build_canonicalized_header m) resource)
      (fun_ext (λ k. value_of-Perm k q d))
    ∙ ap (λ canonical. strings verb (λ k. value_of k n) canonical resource)
        (build_canonicalized_header-Perm p e))

module _ (env : Env) (c : StorageClient) (verb url : Text) where
  -- If the names of the headers are distinct, and so are the canonical names of those that are signed,
  -- then the authorization header, or the error instead of it, is the same for every order in which the
  -- map's entries are handed out.
  pub get_authorization_header-Perm :
      {headers headers' : Headers}
      → Perm headers headers'
      → Distinct (keys headers)
      → Distinct (keys (signed headers))
      → get_authorization_header env c verb url headers
        ≡ get_authorization_header env c verb url headers'
  unfolding get_authorization_header
  get_authorization_header-Perm p d e = elim (Sum-cases (build_canonicalized_resource env c url)) [
    | inl (x, r) ↦ rw (r, get_authorization_header) refl
    | inr (resource, r) ↦
        rw (r, get_authorization_header)
          (ap (λ text. inr (create_authorization_header env c text))
            (build_canonicalized_string-Perm verb resource p d e))
  ]
