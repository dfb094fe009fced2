-- ===== src/Storage/Address.antt =====
-- Addresses: `getBaseUrl` and `getEndpoint` of storage/client.go, `mergeParams` of storage/util.go,
-- and what they use of net/url: `URL.String`, `Values.Encode` and the escapes.
use azure_sdk_for_go.Common.{
  ℕ, ◌+◌, ◌/◌, ◌%◌, List, [], ◌∷◌, ◌++◌, some, none, if◌then◌else◌, inl, inr, Bool, false, ◌&&◌,
  ◌||◌, not, ◌==◌, leb, ltb,
}
use azure_sdk_for_go.Common.Text.{Text, codes, is_empty, join, sort_strings}
use azure_sdk_for_go.Go.{Result, ok, panic, lookup, insert}
use azure_sdk_for_go.Storage.{GoError, Url, Values, StorageClient, Env}

-- `upperhex`
abbrev hex_digit : ℕ → ℕ
hex_digit n = if ltb n 10 then n + 48 else n + 55

abbrev percent : ℕ → Text
percent c = b'%' ∷ hex_digit (c / 16) ∷ hex_digit (c % 16) ∷ []

is_unreserved : ℕ → Bool
is_unreserved c =
    (leb b'a' c && leb c b'z')
    || (leb b'A' c && leb c b'Z')
    || (leb b'0' c && leb c b'9')
    || c == b'-'
    || c == b'_'
    || c == b'.'
    || c == b'~'

-- The reserved bytes that a path keeps: `$ & + , / : ; = @`.
is_path_reserved : ℕ → Bool
is_path_reserved c =
    c == b'$'
    || c == b'&'
    || c == b'+'
    || c == b','
    || c == b'/'
    || c == b':'
    || c == b';'
    || c == b'='
    || c == b'@'

-- `escape(s, encodePath)`
escape_path : Text → Text
unfolding is_unreserved is_path_reserved
escape_path [] = []
escape_path (c ∷ cs) =
    (if is_unreserved c || is_path_reserved c then c ∷ [] else percent c) ++ escape_path cs

-- `QueryEscape`
unfoldable pub query_escape : Text → Text
unfolding is_unreserved
query_escape [] = []
query_escape (c ∷ cs) =
    (if is_unreserved c then c ∷ [] else if c == b' ' then b'+' ∷ [] else percent c)
    ++ query_escape cs

starts_with_slash : Text → Bool
starts_with_slash [] = false
starts_with_slash (c ∷ cs) = c == b'/'

-- `URL.String` of an address with a scheme and a host.
unfoldable pub url_string : Url → Text
unfolding escape_path starts_with_slash
url_string u =
    let slash = if not (is_empty u.path) && not (starts_with_slash u.path) then b'/' ∷ [] else [] in
    let query = if is_empty u.raw_query then [] else b'?' ∷ u.raw_query in
    u.scheme ++ (codes "://" ++ (u.host ++ (slash ++ (escape_path u.path ++ query))))

-- The pairs of one key, each `key=value`.
encode_pairs : Text → List Text → List Text
unfolding query_escape
encode_pairs k [] = []
encode_pairs k (v ∷ vs) = (query_escape k ++ (b'=' ∷ query_escape v)) ∷ encode_pairs k vs

encode_keys : Values → List Text → List Text
unfolding encode_pairs lookup
encode_keys vs [] = []
encode_keys vs (k ∷ ks) =
    (elim (lookup k vs) [ none ↦ [] | some xs ↦ encode_pairs k xs ]) ++ encode_keys vs ks

abbrev pub keys {ℓ} : {V : Type ℓ} → List (Text × V) → List Text
keys [] = []
keys ((k, v) ∷ m) = k ∷ keys m

-- `Values.Encode`: sorted by key.
unfoldable pub encode : Values → Text
unfolding encode_keys join sort_strings
encode vs = join (b'&' ∷ []) (encode_keys vs (sort_strings (keys vs)))

-- The loops of `mergeParams`.
unfoldable pub copy_params : Values → Values → Values
unfolding insert
copy_params out [] = out
copy_params out ((k, v) ∷ v1) = copy_params (insert k v out) v1

unfoldable pub append_params : Values → Values → Values
unfolding insert lookup
append_params out [] = out
append_params out ((k, v) ∷ v2) =
    append_params (insert k (elim (lookup k out) [ none ↦ v | some vals ↦ vals ++ v ]) out) v2

unfoldable pub merge_params : Values → Values → Values
unfolding copy_params append_params
merge_params v1 v2 = append_params (copy_params [] v1) v2

unfoldable pub get_base_url : StorageClient → Text → Text
unfolding url_string
get_base_url c service = url_string (record {
  scheme = if c.use_https then codes "https" else codes "http";
  host = c.account_name ++ (b'.' ∷ (service ++ (b'.' ∷ c.base_url)));
  path = [];
  raw_query = [];
})

unfoldable pub get_endpoint : Env → StorageClient → Text → Text → Values → Result GoError Text
unfolding get_base_url encode
get_endpoint env c service path params = elim (env.parse_url (get_base_url c service)) [
  | inl e ↦ panic
  | inr u ↦ ok (
      url_string
        (record u { path = if is_empty path then b'/' ∷ [] else path; raw_query = encode params }))
]
