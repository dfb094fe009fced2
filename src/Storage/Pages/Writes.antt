-- ===== src/Storage/Pages/Writes.antt =====
-- What stands behind a write to a page blob that returned no error: `PutPage`
-- of storage/blob.go.
use azure_sdk_for_go.Common.{
  [], ◌∷◌, ◌++◌, some, false, ◌≡◌, ◌≢◌, refl, ap, subst, ◌∙◌, arith, length,
}
use azure_sdk_for_go.Common.Int.{ℤ}
use azure_sdk_for_go.Common.Text.{Text, codes, decimal, eq, eq_iff}
use azure_sdk_for_go.Go.{
  ok, History, Headers, lookup, insert, lookup-insert_same, lookup-insert_other,
}
use azure_sdk_for_go.Storage.{not_created, StorageClient, Env, get_standard_headers}
use azure_sdk_for_go.Storage.Container.Stored.{Stored, expect_status-Stored}
use azure_sdk_for_go.Storage.Pages.{
  PageWriteType, update, clear, page_write_text, signed_decimal, page_data, page_headers, put_page,
}

-- What a write of each kind sends: the name of the kind, and the body.
abbrev pub kind_name : PageWriteType → Text
kind_name update = codes "update"
kind_name clear = codes "clear"

abbrev pub body_sent : PageWriteType → Text → Text
body_sent update chunk = chunk
body_sent clear chunk = []

-- The four headers of a write, and behind them the standard ones.
pub record PageHeaders (start_byte end_byte : ℤ) (write_type : PageWriteType) (chunk : Text)
    (standard headers : Headers) : Type 0 where
  pub range_is :
      lookup (codes "x-ms-range") headers
      ≡ some (codes "bytes=" ++ (signed_decimal start_byte ++ (b'-' ∷ signed_decimal end_byte)))
  pub kind_is : lookup (codes "x-ms-page-write") headers ≡ some (kind_name write_type)
  pub blob_is : lookup (codes "x-ms-blob-type") headers ≡ some (codes "PageBlob")
  pub length_is :
      lookup (codes "Content-Length") headers ≡ some (decimal (length (body_sent write_type chunk)))
  pub others :
      (name : Text)
      → name ≢ codes "x-ms-range"
      → name ≢ codes "x-ms-page-write"
      → name ≢ codes "x-ms-blob-type"
      → name ≢ codes "Content-Length"
      → lookup name headers ≡ lookup name standard

-- What `PutPage` has done: one PUT request for the pages, which the service answered with 201.
pub record Paged (env : Env) (c : StorageClient) (container name : Text) (start_byte end_byte : ℤ)
    (write_type : PageWriteType) (chunk : Text) (h h' : History) : Type 0 where
  pub headers : Headers
  pub headers_are :
      PageHeaders start_byte end_byte write_type chunk (get_standard_headers env c h) headers
  pub stored :
      Stored env c
        (codes "PUT")
        (container ++ (b'/' ∷ name))
        ((codes "comp", codes "page" ∷ []) ∷ [])
        headers
        (some (body_sent write_type chunk))
        201
        h
        h'

content_sent :
    (write_type : PageWriteType) (chunk : Text)
    → page_data write_type chunk ≡ body_sent write_type chunk
unfolding page_data
content_sent update chunk = refl
content_sent clear chunk = refl

kind_text : (write_type : PageWriteType) → page_write_text write_type ≡ kind_name write_type
unfolding page_write_text
kind_text update = refl
kind_text clear = refl

differ : (at other : Text) → other ≢ at → eq at other ≡ false
differ at other n = ground (arith, eq_iff at other)

page_headers-PageHeaders :
    (start_byte end_byte : ℤ) (write_type : PageWriteType) (chunk : Text) (standard : Headers)
    → PageHeaders start_byte end_byte write_type chunk standard
        (page_headers start_byte end_byte write_type (page_data write_type chunk) standard)
unfolding page_headers page_write_text page_data eq
page_headers-PageHeaders start_byte end_byte write_type chunk standard =
    let content = page_data write_type chunk in
    let range_text =
      codes "bytes=" ++ (signed_decimal start_byte ++ (b'-' ∷ signed_decimal end_byte)) in
    let typed = insert (codes "x-ms-blob-type") (codes "PageBlob") standard in
    let kinded = insert (codes "x-ms-page-write") (page_write_text write_type) typed in
    let ranged = insert (codes "x-ms-range") range_text kinded in
    let size = decimal (length content) in
    record {
      range_is =
          lookup-insert_other (codes "Content-Length") (codes "x-ms-range") size ranged refl
          ∙ lookup-insert_same (codes "x-ms-range") range_text kinded;
      kind_is =
          lookup-insert_other (codes "Content-Length") (codes "x-ms-page-write") size ranged refl
          ∙ lookup-insert_other (codes "x-ms-range") (codes "x-ms-page-write") range_text kinded
              refl
          ∙ lookup-insert_same (codes "x-ms-page-write") (page_write_text write_type) typed
          ∙ ap some (kind_text write_type);
      blob_is =
          lookup-insert_other (codes "Content-Length") (codes "x-ms-blob-type") size ranged refl
          ∙ lookup-insert_other (codes "x-ms-range") (codes "x-ms-blob-type") range_text kinded refl
          ∙ lookup-insert_other (codes "x-ms-page-write") (codes "x-ms-blob-type")
              (page_write_text write_type) typed refl
          ∙ lookup-insert_same (codes "x-ms-blob-type") (codes "PageBlob") standard;
      length_is =
          lookup-insert_same (codes "Content-Length") size ranged
          ∙ ap (λ (t : Text). some (decimal (length t))) (content_sent write_type chunk);
      others = λ name r k b l.
          lookup-insert_other (codes "Content-Length") name size ranged (differ _ name l)
          ∙ lookup-insert_other (codes "x-ms-range") name range_text kinded (differ _ name r)
          ∙ lookup-insert_other (codes "x-ms-page-write") name (page_write_text write_type) typed
              (differ _ name k)
          ∙ lookup-insert_other (codes "x-ms-blob-type") name (codes "PageBlob") standard
              (differ _ name b);
    }

-- If `PutPage` returns no error, then the service replied with 201 to one PUT request for the pages,
-- whose body is the chunk for an update and nothing for a clear, and whose headers state the range, the
-- kind of write, the kind of blob and the length of that body, and are the standard ones otherwise.
pub put_page-Paged :
    (env : Env) (c : StorageClient) (container name : Text) (start_byte end_byte : ℤ)
    (write_type : PageWriteType) (chunk : Text) (h h' : History)
    → put_page env c container name start_byte end_byte write_type chunk h ≡ (ok tt, h')
    → Paged env c container name start_byte end_byte write_type chunk h h'
unfolding put_page
put_page-Paged env c container name start_byte end_byte write_type chunk h h' e = record {
  headers =
      page_headers start_byte end_byte write_type (page_data write_type chunk)
        (get_standard_headers env c h);
  headers_are =
      page_headers-PageHeaders start_byte end_byte write_type chunk (get_standard_headers env c h);
  stored =
      subst
        (λ t.
          Stored env c (codes "PUT") (container ++ (b'/' ∷ name))
            ((codes "comp", codes "page" ∷ []) ∷ [])
            (page_headers start_byte end_byte write_type (page_data write_type chunk)
              (get_standard_headers env c h))
            (some t) 201 h h')
        (content_sent write_type chunk)
        (expect_status-Stored env c (codes "PUT") (container ++ (b'/' ∷ name))
          ((codes "comp", codes "page" ∷ []) ∷ []) _ _ 201 not_created h h' e);
}
