-- ===== src/Storage/Tests/Uploads.antt =====
-- Tests of uploads against the documented service, of reads, and of the operations with a Boolean
-- answer, storage/blob.go.
use azure_sdk_for_go.Common.{◌≡◌, [], ◌∷◌, some, ◌≢◌, refl, arith}
use azure_sdk_for_go.Common.Text.{codes, eq, le}
use azure_sdk_for_go.Go.{ok, stuck, History}
use azure_sdk_for_go.Storage.{get_standard_headers}
use azure_sdk_for_go.Storage.Address.{get_endpoint}
use azure_sdk_for_go.Storage.Canonical.{get_authorization_header}
use azure_sdk_for_go.Storage.Exec.{exec, receive}
use azure_sdk_for_go.Storage.Container.{blob_exec, expect_status, delete_container_if_exists}
use azure_sdk_for_go.Storage.Container.Verdicts.{Verdict}
use azure_sdk_for_go.Storage.{Env}
use azure_sdk_for_go.Storage.Blob.{get_blob_range, read_blob_range}
use azure_sdk_for_go.Storage.Blob.Reads.{Received, range_headers, range, perform-Received}
use azure_sdk_for_go.Storage.Blob.Queries.{drop_container, ask-Verdict}
use azure_sdk_for_go.Storage.Block.{block_id, put_block, put_block_with_length, put_block_list}
use azure_sdk_for_go.Storage.Block.Upload.{
  effective_size, put_blocks, put_block_blob_sized, ReadEnd, eof, more,
}
use azure_sdk_for_go.Storage.Block.Upload.Loop.{at_eof, chunk}
use azure_sdk_for_go.Storage.Block.Upload.Ends.{at_end, later, put_block_blob_ends}
use azure_sdk_for_go.Storage.Container.Accepts.{Accepts}
use azure_sdk_for_go.Storage.Block.Upload.Success.{put_block_blob_succeeds}
use azure_sdk_for_go.Storage.Service.{BlobState, Run}
use azure_sdk_for_go.Storage.Service.Uploads.{put_block_blob-Run}
use azure_sdk_for_go.Storage.{message}
use azure_sdk_for_go.Storage.Tests.{client, reply, answering, missing, delete_answered}
use azure_sdk_for_go.Storage.Tests.Transfers.{two_chunks, chunks_reader, created}

-- The service has an older blob, and a block that was never committed.
abbrev older : BlobState
older = record { staged = (codes "old", codes "x") ∷ []; content = some (codes "y") }

abbrev newer : BlobState
newer = record { staged = []; content = some (codes "abc") }

put_block_blob-Run_example :
    Run created client
      (codes "c")
      (codes "b")
      []
      older
      (put_block_blob_sized chunks_reader created client
        (codes "c")
        (codes "b")
        5
        10
        two_chunks
        []).1
      newer
unfolding put_block_blob_sized effective_size put_blocks put_block_list put_block
    put_block_with_length expect_status blob_exec get_endpoint get_authorization_header exec receive
    get_standard_headers block_id eq le
put_block_blob-Run_example =
    put_block_blob-Run created client (codes "c") (codes "b") chunks_reader 5 10 two_chunks
      two_chunks [] [] _ older (chunk refl (chunk refl (at_eof refl refl))) (omega arith) refl

no_more : ◌≢◌ {A = ReadEnd} eof more
no_more e = cc

put_block_blob_ends_example :
    (put_block_blob_sized chunks_reader created client (codes "c") (codes "b") 2 10 two_chunks []).0
    ≢ stuck
put_block_blob_ends_example =
    put_block_blob_ends chunks_reader created client (codes "c") (codes "b") 2 10 []
      (later refl (later refl (at_end no_more))) (omega arith)

accepts : Accepts created client
unfolding get_endpoint get_authorization_header
accepts = record {
  endpoint = λ path params. (_, refl);
  authorized = λ verb uri headers. (_, refl);
  built = λ verb uri. refl;
  created = λ h q. (reply 201 [] [], refl, refl);
}

put_block_blob_succeeds_example :
    (h' : History) × (put_block_blob_sized chunks_reader created client
        (codes "c")
        (codes "b")
        2
        10
        two_chunks
        []
      ≡ (ok tt, h'))
put_block_blob_succeeds_example =
    put_block_blob_succeeds chunks_reader created client accepts (codes "c") (codes "b") 2 10
      two_chunks [] (chunk refl (chunk refl (at_eof refl refl))) (omega arith) (omega arith)

ask-Verdict_example :
    Verdict 202 404 404 (delete_container_if_exists (answering missing) client (codes "c") []).0
ask-Verdict_example =
    ask-Verdict (answering missing) client (drop_container (codes "c")) [] delete_answered

-- A service whose reply breaks off.
abbrev partial : Env
partial =
    answering (record (reply 206 (codes "bo") []) { body_error = some (message (codes "reset")) })

perform-Received_example :
    Received partial client
      (codes "c")
      (codes "b")
      (range_headers partial client (codes "c") (codes "b") (codes "0-3") [])
      206
      []
      (codes "bo", some (message (codes "reset")))
      (get_blob_range partial client (codes "c") (codes "b") (codes "0-3") []).1
unfolding get_blob_range read_blob_range blob_exec get_endpoint get_authorization_header exec
    receive get_standard_headers eq le
perform-Received_example =
    perform-Received partial client (codes "c") (codes "b") (range (codes "0-3")) [] refl
