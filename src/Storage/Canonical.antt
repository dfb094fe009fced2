-- ===== src/Storage/Canonical.antt =====
-- What is signed: `buildCanonicalizedHeader`, `buildCanonicalizedResource`,
-- `buildCanonicalizedString` and the authorization header of storage/client.go, and `computeHmac256`
-- of storage/util.go.
pub mod Order
pub mod Sorted
pub mod Maps
use azure_sdk_for_go.Common.{
  ℕ, ◌+◌, ◌-◌, ◌*◌, ◌/◌, ◌%◌, List, [], ◌∷◌, ◌++◌, Option, some, none, if◌then◌else◌, ◌⊎◌, inl, inr,
  Bool, true, false, ltb, ◌==◌,
}
use azure_sdk_for_go.Common.Text.{
  Text, codes, is_empty, to_lower, trim_space, contains, join, sort_strings,
}
use azure_sdk_for_go.Common.Base64.{base64_encode}
use azure_sdk_for_go.Go.{lookup, insert, Headers}
use azure_sdk_for_go.Storage.{GoError, message, library, Values, StorageClient, Env}
use azure_sdk_for_go.Storage.Address.{keys}

-- `strings.TrimSpace(strings.ToLower(k))`
unfoldable pub header_name : Text → Text
unfolding to_lower trim_space
header_name k = trim_space (to_lower k)

-- `regexp.MatchString("x-ms-", headerName)`
unfoldable pub is_signed : Text → Bool
unfolding contains
is_signed name = contains name (codes "x-ms-")

-- The first loop: the list is what the iteration over the map has not reached.
pub collect : Headers → Headers → Headers
unfolding header_name is_signed insert
collect cm [] = cm
collect cm ((k, v) ∷ headers) =
    collect (if is_signed (header_name k) then insert (header_name k) v cm else cm) headers

-- `m[k]`, where a missing key gives the zero value.
pub value_of : Text → Headers → Text
unfolding lookup
value_of k m = elim (lookup k m) [ none ↦ [] | some v ↦ v ]

-- The second loop.
pub header_lines : Headers → List Text → Text
unfolding value_of
header_lines cm [] = []
header_lines cm (key ∷ []) = key ++ (b':' ∷ value_of key cm)
header_lines cm (key ∷ k ∷ ks) =
    (key ++ (b':' ∷ (value_of key cm ++ (b'\n' ∷ [])))) ++ header_lines cm (k ∷ ks)

unfoldable pub build_canonicalized_header : Headers → Text
unfolding collect header_lines sort_strings
build_canonicalized_header headers =
    let cm = collect [] headers in
    if is_empty cm then [] else header_lines cm (sort_strings (keys cm))

-- The values of one parameter: sorted, and joined by commas.
pub joined_values : Values → Text → Text
unfolding lookup join sort_strings
joined_values params key =
    join (b',' ∷ []) (elim (lookup key params) [ none ↦ [] | some vs ↦ sort_strings vs ])

pub resource_lines : Values → List Text → Text
unfolding joined_values
resource_lines params [] = []
resource_lines params (key ∷ []) = key ++ (b':' ∷ joined_values params key)
resource_lines params (key ∷ k ∷ ks) =
    (key ++ (b':' ∷ (joined_values params key ++ (b'\n' ∷ [])))) ++ resource_lines params (k ∷ ks)

resource_error : Text → GoError
resource_error text = message (codes "buildCanonicalizedResource error: " ++ text)

unfoldable pub build_canonicalized_resource : Env → StorageClient → Text → GoError ⊎ Text
unfolding resource_lines sort_strings resource_error
build_canonicalized_resource env c uri = elim (env.parse_url uri) [
  | inl e ↦ inl (resource_error e)
  | inr u ↦ elim (env.parse_query u.raw_query) [
    | inl e ↦ inl (resource_error e)
    | inr params ↦ inr (
        (b'/' ∷ c.account_name)
        ++ (u.path
            ++ (if is_empty params
                then []
                else b'\n' ∷ resource_lines params (sort_strings (keys params)))))
  ]
]

-- Lines with a line feed between them.
abbrev lines : List Text → Text
lines = join (b'\n' ∷ [])

unfoldable pub build_canonicalized_string : Text → Headers → Text → Text
unfolding value_of join build_canonicalized_header
build_canonicalized_string verb headers canonicalized_resource = lines (
    verb
    ∷ value_of (codes "Content-Encoding") headers
    ∷ value_of (codes "Content-Language") headers
    ∷ value_of (codes "Content-Length") headers
    ∷ value_of (codes "Content-MD5") headers
    ∷ value_of (codes "Content-Type") headers
    ∷ value_of (codes "Date") headers
    ∷ value_of (codes "If-Modified-Singe") headers
    ∷ value_of (codes "If-Match") headers
    ∷ value_of (codes "If-None-Match") headers
    ∷ value_of (codes "If-Unmodified-Singe") headers
    ∷ value_of (codes "Range") headers
    ∷ build_canonicalized_header headers
    ∷ canonicalized_resource
    ∷ [])

unfoldable pub compute_hmac256 : Env → StorageClient → Text → Text
unfolding base64_encode
compute_hmac256 env c text = base64_encode (env.hmac_sha256 c.account_key text)

pub create_authorization_header : Env → StorageClient → Text → Text
unfolding compute_hmac256
create_authorization_header env c canonicalized_string =
    codes "SharedKey " ++ (c.account_name ++ (b':' ∷ compute_hmac256 env c canonicalized_string))

unfoldable pub get_authorization_header :
    Env → StorageClient → Text → Text → Headers → GoError ⊎ Text
unfolding build_canonicalized_resource build_canonicalized_string create_authorization_header
get_authorization_header env c verb url headers = elim (build_canonicalized_resource env c url) [
  | inl e ↦ inl e
  | inr resource ↦
      inr (create_authorization_header env c (build_canonicalized_string verb headers resource))
]
