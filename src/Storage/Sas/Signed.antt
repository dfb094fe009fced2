-- ===== src/Storage/Sas/Signed.antt =====
-- What a shared access signature of storage/blob.go consists of.
use azure_sdk_for_go.Common.{
  ◌∷◌, ◌++◌, ◌⊎◌, inl, inr, true, ◌≡◌, refl, sym, ap, ◌∙◌, Bool-cases, Sum-cases,
}
use azure_sdk_for_go.Common.Base64.{base64_encode}
use azure_sdk_for_go.Common.Text.{Text, codes, eq, le, join}
use azure_sdk_for_go.Go.{lookup, Result, ok, Result-cases, err-ne-ok, panic-ne-ok, stuck-ne-ok}
use azure_sdk_for_go.Storage.{GoError, StorageClient, Env, Url}
use azure_sdk_for_go.Storage.Address.{query_escape, encode, url_string}
use azure_sdk_for_go.Storage.Canonical.{build_canonicalized_resource, compute_hmac256}
use azure_sdk_for_go.Storage.Blob.{get_blob_url}
use azure_sdk_for_go.Storage.Sas.{
  blob_sas_string_to_sign, sas_params, sign_blob_url, get_blob_sas_uri,
}

inl-ne-inr : {x : GoError} {y : Text} → ◌≡◌ {A = GoError ⊎ Text} (inl x) (inr y) → ⊥
inl-ne-inr e = cc

inr_injective : {x y : Text} → ◌≡◌ {A = GoError ⊎ Text} (inr x) (inr y) → x ≡ y
inr_injective e = cc

new_version :
    (version resource expiry permissions : Text) {s : Text}
    → blob_sas_string_to_sign version resource expiry permissions ≡ inr s
    → le (codes "2013-08-15") version ≡ true
unfolding blob_sas_string_to_sign
new_version version resource expiry permissions e =
    elim (Bool-cases (le (codes "2013-08-15") version)) [
      | inl t ↦ t
      | inr t ↦ absurd (inl-ne-inr (rw t at e))
    ]

-- The text to sign: the permissions, the expiry, the resource and the version, each on its line; the
-- lines of the fields that the code does not set are empty.
abbrev pub text_to_sign : Text → Text → Text → Text → Text
text_to_sign permissions expiry resource version =
    permissions
    ++ (codes "\n\n"
        ++ (expiry ++ (b'\n' ∷ (resource ++ (codes "\n\n" ++ (version ++ codes "\n\n\n\n\n"))))))

-- The query of a signed address.
abbrev pub signed_query : Text → Text → Text → Text → Text
signed_query version permissions expiry signature =
    codes "se="
    ++ (query_escape expiry
        ++ (codes "&sig="
            ++ (query_escape signature
                ++ (codes "&sp="
                    ++ (query_escape permissions ++ (codes "&sr=b&sv=" ++ query_escape version))))))

signed_text :
    (version resource expiry permissions : Text) {s : Text}
    → blob_sas_string_to_sign version resource expiry permissions ≡ inr s
    → s ≡ text_to_sign permissions expiry resource version
unfolding blob_sas_string_to_sign join
signed_text version resource expiry permissions e = sym (
    inr_injective
      (rw (new_version version resource expiry permissions e, blob_sas_string_to_sign) at e))

module _ (env : Env) (c : StorageClient) where
  -- The parts of a signed address: the blob's own address, the resource that it canonicalizes to, and
  -- the parsed address, which is given the query that carries the signature of the text to sign.
  pub record SignedUri (container name expiry permissions uri : Text) : Type 0 where
    pub blob_url : Text
    pub resource : Text
    pub parsed : Url
    pub address : get_blob_url env c container name ≡ ok blob_url
    pub canonicalized : build_canonicalized_resource env c blob_url ≡ inr resource
    pub version_known : le (codes "2013-08-15") c.api_version ≡ true
    pub parses : env.parse_url blob_url ≡ inr parsed
    pub uri_is :
        uri
        ≡ url_string (record parsed {
          raw_query = signed_query c.api_version permissions expiry (
              base64_encode (
                env.hmac_sha256 c.account_key
                  (text_to_sign permissions expiry resource c.api_version)));
        })

  params-Query :
      (expiry permissions signature : Text)
      → encode (sas_params c expiry permissions signature)
        ≡ signed_query c.api_version permissions expiry signature
  unfolding encode eq le lookup join
  params-Query expiry permissions signature = refl

  signed_uri :
      (container name expiry permissions blob_url : Text) {uri : Text}
      → get_blob_url env c container name ≡ ok blob_url
      → sign_blob_url env c blob_url expiry permissions ≡ inr uri
      → SignedUri container name expiry permissions uri
  unfolding sign_blob_url compute_hmac256
  signed_uri container name expiry permissions blob_url a e =
      elim (Sum-cases (build_canonicalized_resource env c blob_url)) [
        | inl (x, r) ↦ absurd (inl-ne-inr (rw (r, sign_blob_url) at e))
        | inr (resource, r) ↦
            elim (Sum-cases (blob_sas_string_to_sign c.api_version resource expiry permissions)) [
              | inl (x, s) ↦ absurd (inl-ne-inr (rw (r, s, sign_blob_url) at e))
              | inr (to_sign, s) ↦ elim (Sum-cases (env.parse_url blob_url)) [
                | inl (x, p) ↦ absurd (inl-ne-inr (rw (r, s, p, sign_blob_url) at e))
                | inr (parsed, p) ↦ record {
                  blob_url = blob_url;
                  resource = resource;
                  parsed = parsed;
                  address = a;
                  canonicalized = r;
                  version_known = new_version c.api_version resource expiry permissions s;
                  parses = p;
                  uri_is =
                      sym (inr_injective (rw (r, s, p, sign_blob_url) at e))
                      ∙ ap (λ (q : Text). url_string (record parsed { raw_query = q }))
                          (params-Query expiry permissions (compute_hmac256 env c to_sign)
                            ∙ ap
                                (λ (t : Text).
                                  signed_query c.api_version permissions expiry
                                    (base64_encode (env.hmac_sha256 c.account_key t)))
                                (signed_text c.api_version resource expiry permissions s));
                }
              ]
            ]
      ]

  ok_injective : {x y : Text} → ◌≡◌ {A = Result GoError Text} (ok x) (ok y) → x ≡ y
  ok_injective e = cc

  -- If `GetBlobSASURI` returns an address, then the client's version is not before 2013-08-15, and the
  -- address is the blob's own, parsed, with the query `se=..&sig=..&sp=..&sr=b&sv=..` of the expiry, the
  -- signature, the permissions and the version, each escaped. The signature is the HMAC of the text that
  -- has the permissions, the expiry, the blob's canonicalized resource and the version on its lines.
  pub get_blob_sas_uri-SignedUri :
      (container name expiry permissions : Text) {uri : Text}
      → get_blob_sas_uri env c container name expiry permissions ≡ ok uri
      → SignedUri container name expiry permissions uri
  unfolding get_blob_sas_uri
  get_blob_sas_uri-SignedUri container name expiry permissions e =
      elim (Result-cases (get_blob_url env c container name)) [
        | inl (blob_url, a) ↦ elim (Sum-cases (sign_blob_url env c blob_url expiry permissions)) [
          | inl (x, s) ↦ absurd (err-ne-ok (rw (a, s, get_blob_sas_uri) at e))
          | inr (signed, s) ↦
              signed_uri container name expiry permissions blob_url a
                (s ∙ ap inr (ok_injective (rw (a, s, get_blob_sas_uri) at e)))
        ]
        | inr (inl (x, a)) ↦ absurd (err-ne-ok (rw (a, get_blob_sas_uri) at e))
        | inr (inr (inl a)) ↦ absurd (panic-ne-ok (rw (a, get_blob_sas_uri) at e))
        | inr (inr (inr a)) ↦ absurd (stuck-ne-ok (rw (a, get_blob_sas_uri) at e))
      ]
