-- ===== src/Storage/Tests/Transfers.antt =====
-- Tests of uploads by blocks and of copies, storage/blob.go, and their theorems at concrete inputs.
use azure_sdk_for_go.Common.{
  ℕ, zero, suc, ◌+◌, ◌<◌, ◌≤◌, ◌^◌, List, [], ◌∷◌, ◌++◌, Option, some, none, ◌⊎◌, inl, inr, Bool,
  true, false, ◌≡◌, ◌≢◌, refl, arith, length, take, if◌then◌else◌,
}
use azure_sdk_for_go.Common.Text.{Text, codes, eq, le}
use azure_sdk_for_go.Go.{Result, ok, err, Reply, replied, History, HeaderLists, header_get}
use azure_sdk_for_go.Storage.{GoError, Env, get_standard_headers}
use azure_sdk_for_go.Storage.Address.{get_endpoint}
use azure_sdk_for_go.Storage.Canonical.{get_authorization_header}
use azure_sdk_for_go.Storage.Exec.{exec, receive}
use azure_sdk_for_go.Storage.Container.{blob_exec, expect_status, either_status}
use azure_sdk_for_go.Storage.Blob.{
  unexpected_status, BlobProperties, blob_exists, get_blob_url, get_blob, get_blob_range,
  read_blob_range, get_blob_properties, delete_blob, delete_blob_if_exists, send_delete_blob,
}
use azure_sdk_for_go.Storage.Block.{
  latest, block_id, put_block, put_block_with_length, put_single_block_blob, create_block_blob,
  prepare_block_list_request,
}
use azure_sdk_for_go.Storage.Block.Ids.{block_id-injective}
use azure_sdk_for_go.Storage.Block.Upload.{
  more, eof, ReadResult, Reader, effective_size, put_block_blob_sized, put_block_blob,
}
use azure_sdk_for_go.Storage.Copy.{start_blob_copy, judge_copy, wait_for_blob_copy, copy_blob}
use azure_sdk_for_go.Storage.Copy.Judged.{Verdict}
use azure_sdk_for_go.Storage.Copy.Wait.{Pending, wait_for_blob_copy_ends, Copied, copy_blob-Copied}
use azure_sdk_for_go.Storage.Tests.{client, reply, scripted, answering}

block_ids : block_id 7 ≡ codes "MDAwMDAwMDAwMDc="
unfolding block_id
block_ids = refl

block_id-injective_example : ◌≡◌ {A = ℕ} 7 7
block_id-injective_example = block_id-injective 7 7 (omega arith) (omega arith) refl

block_list_text :
    prepare_block_list_request (record { id = codes "i"; status = latest } ∷ [])
    ≡ codes "<?xml version=\"1.0\" encoding=\"utf-8\"?><BlockList><Latest>i</Latest></BlockList>"
unfolding prepare_block_list_request
block_list_text = refl

abbrev pub two_chunks : List Text
two_chunks = codes "ab" ∷ codes "c" ∷ []

-- A reader that gives its chunks one by one, and then `io.EOF` with nothing.
abbrev pop : List Text → ℕ → ReadResult (List Text)
pop [] n = record { bytes = []; ended = eof; reader = [] }
pop (x ∷ xs) n = record { bytes = x; ended = more; reader = xs }

abbrev pub chunks_reader : Reader (List Text)
chunks_reader = record { read = pop }

abbrev pub created : Env
created = answering (reply 201 [] [])

abbrev after_first : History
after_first = (put_block created client (codes "c") (codes "b") (block_id 0) (codes "ab") []).1

abbrev after_second : History
after_second =
    (put_block created client (codes "c") (codes "b") (block_id 1) (codes "c") after_first).1

first_accepted :
    put_block created client (codes "c") (codes "b") (block_id 0) (codes "ab") []
    ≡ (ok tt, after_first)
unfolding put_block put_block_with_length expect_status blob_exec get_endpoint
    get_authorization_header exec receive get_standard_headers block_id eq le
first_accepted = refl

second_accepted :
    put_block created client (codes "c") (codes "b") (block_id 1) (codes "c") after_first
    ≡ (ok tt, after_second)
unfolding put_block put_block_with_length expect_status blob_exec get_endpoint
    get_authorization_header exec receive get_standard_headers block_id eq le
second_accepted = refl

single_upload :
    (put_block_blob chunks_reader created client (codes "c") (codes "b") 5 [] []).0 ≡ ok tt
unfolding put_block_blob put_block_blob_sized effective_size put_single_block_blob expect_status
    blob_exec get_endpoint get_authorization_header exec receive get_standard_headers eq le
single_upload = refl

empty_blob : (create_block_blob created client (codes "c") (codes "b") []).0 ≡ ok tt
unfolding create_block_blob expect_status blob_exec get_endpoint get_authorization_header exec
    receive get_standard_headers eq le
empty_blob = refl

-- The headers of a blob with a copy in some state.
abbrev copy_headers : Text → HeaderLists
copy_headers status =
    (codes "X-Ms-Copy-Id", codes "id1" ∷ []) ∷ (codes "X-Ms-Copy-Status", status ∷ []) ∷ []

-- The copy is accepted, then pending, then in a last state.
abbrev copy_replies : Text → ℕ → Reply GoError
copy_replies status zero = replied (reply 202 [] (copy_headers (codes "pending")))
copy_replies status (suc zero) = replied (reply 200 [] (copy_headers (codes "pending")))
copy_replies status n = replied (reply 200 [] (copy_headers status))

abbrev copying : Text → Env
copying status = scripted (copy_replies status)

abbrev after_start : Text → History
after_start status =
    (start_blob_copy (copying status) client (codes "c") (codes "b") (codes "src") []).1

abbrev first_report : Text → Result GoError BlobProperties × History
first_report status =
    get_blob_properties (copying status) client (codes "c") (codes "b") (after_start status)

abbrev second_report : Text → Result GoError BlobProperties × History
second_report status =
    get_blob_properties (copying status) client (codes "c") (codes "b") (first_report status).1

abbrev properties : Text → BlobProperties
properties status = record {
  last_modified = [];
  etag = [];
  content_md5 = [];
  content_length = azure_sdk_for_go.Common.Int.pos 0;
  content_type = [];
  content_encoding = [];
  blob_type = [];
  sequence_number = azure_sdk_for_go.Common.Int.pos 0;
  copy_id = codes "id1";
  copy_status = status;
  copy_source = [];
  copy_progress = [];
  copy_completion_time = [];
  copy_status_description = [];
}

pending_report :
    first_report (codes "aborted")
    ≡ (ok (properties (codes "pending")), (first_report (codes "aborted")).1)
unfolding start_blob_copy get_blob_properties blob_exec get_endpoint get_authorization_header exec
    receive get_standard_headers header_get eq le
pending_report = refl

aborted_report :
    second_report (codes "aborted")
    ≡ (ok (properties (codes "aborted")), (second_report (codes "aborted")).1)
unfolding start_blob_copy get_blob_properties blob_exec get_endpoint get_authorization_header exec
    receive get_standard_headers header_get eq le
aborted_report = refl

same_head : {x y : ℕ} {xs ys : Text} → ◌≡◌ {A = Text} (x ∷ xs) (y ∷ ys) → x ≡ y
same_head e = cc

aborted-ne-pending : (codes "aborted") ≢ codes "pending"
aborted-ne-pending e = omega (arith, same_head e)

wait_for_blob_copy_ends_example :
    (outcome : Result GoError (Unit {0})) × (wait_for_blob_copy
        (copying (codes "aborted"))
        client
        (codes "c")
        (codes "b")
        (codes "id1")
        2
        (after_start (codes "aborted"))
      ≡ (outcome, (second_report (codes "aborted")).1))
    × Verdict (codes "id1") (properties (codes "aborted")) outcome
wait_for_blob_copy_ends_example =
    wait_for_blob_copy_ends (copying (codes "aborted")) client (codes "c") (codes "b") (codes "id1")
      0 (Pending.next pending_report (refl, refl) Pending.start) aborted_report
      (λ p. aborted-ne-pending p.1)

copy_blob-Copied_example :
    (copy_id : Text) × ((start_blob_copy
        (copying (codes "success"))
        client
        (codes "c")
        (codes "b")
        (codes "src")
        []).0
      ≡ ok copy_id)
    × Copied
        (copying (codes "success"))
        client
        (codes "c")
        (codes "b")
        copy_id
        (after_start (codes "success"))
        (copy_blob (copying (codes "success")) client 5 (codes "c") (codes "b") (codes "src") []).1
unfolding copy_blob wait_for_blob_copy judge_copy start_blob_copy get_blob_properties blob_exec
    get_endpoint get_authorization_header exec receive get_standard_headers header_get eq le
copy_blob-Copied_example =
    copy_blob-Copied (copying (codes "success")) client 5 (codes "c") (codes "b") (codes "src") [] _
      refl

-- The operations on one blob.
abbrev fine : Env
fine = answering (reply 200 (codes "body") [])

blob_url : get_blob_url fine client [] (codes "b") ≡ ok (codes "https://acct.blob.core.net/$root/b")
unfolding get_blob_url get_endpoint eq le
blob_url = refl

blob_found : (blob_exists fine client (codes "c") (codes "b") []).0 ≡ ok true
unfolding blob_exists either_status blob_exec get_endpoint get_authorization_header exec receive
    get_standard_headers eq le
blob_found = refl

blob_read : (get_blob fine client (codes "c") (codes "b") []).0 ≡ ok (codes "body", none)
unfolding get_blob read_blob_range blob_exec get_endpoint get_authorization_header exec receive
    get_standard_headers eq le
blob_read = refl

range_refused :
    (get_blob_range fine client (codes "c") (codes "b") (codes "0-9") []).0
    ≡ err (GoError.message (codes "storage: was expecting status code: 206, got: 200"))
unfolding unexpected_status get_blob_range read_blob_range blob_exec get_endpoint
    get_authorization_header exec receive get_standard_headers eq le
range_refused = refl

blob_deleted :
    (delete_blob (answering (reply 202 [] [])) client (codes "c") (codes "b") []).0 ≡ ok tt
unfolding delete_blob send_delete_blob expect_status blob_exec get_endpoint get_authorization_header
    exec receive get_standard_headers eq le
blob_deleted = refl

no_blob_to_delete :
    (delete_blob_if_exists
      (answering (reply 404 (codes "x") []))
      client
      (codes "c")
      (codes "b")
      []).0
    ≡ ok false
unfolding delete_blob_if_exists send_delete_blob either_status blob_exec get_endpoint
    get_authorization_header exec receive get_standard_headers eq le
no_blob_to_delete = refl
