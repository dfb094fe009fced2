-- ===== src/Storage/Blob/Queries.antt =====
-- The operations of storage/blob.go whose answer is a Boolean: on containers and on blobs.
use azure_sdk_for_go.Common.{ℕ, [], none, Bool, arith}
use azure_sdk_for_go.Common.Text.{Text, codes}
use azure_sdk_for_go.Go.{Response, Call, History, Headers}
use azure_sdk_for_go.Storage.{GoError, StorageClient, Env, Values, get_standard_headers}
use azure_sdk_for_go.Storage.Container.{
  path_for_container, path_for_blob, restype_container, put_container_headers,
  create_container_if_not_exists, container_exists, delete_container_if_exists,
}
use azure_sdk_for_go.Storage.Container.Verdicts.{
  Answered, Verdict, either_status-Verdict_of_request, create_container_if_not_exists-Verdict,
  container_exists-Verdict, delete_container_if_exists-Verdict,
}
use azure_sdk_for_go.Storage.Blob.{blob_exists, send_delete_blob, delete_blob_if_exists}

pub data Query : Type 0 where
  create_container : Text → Text → Query
  find_container : Text → Query
  drop_container : Text → Query
  find_blob : Text → Text → Query
  drop_blob : Text → Text → Query

-- The one request: its verb, its path and its parameters.
abbrev pub verb : Query → Text
verb (create_container name access) = codes "PUT"
verb (find_container name) = codes "HEAD"
verb (drop_container name) = codes "DELETE"
verb (find_blob container name) = codes "HEAD"
verb (drop_blob container name) = codes "DELETE"

abbrev pub path : Query → Text
path (create_container name access) = path_for_container name
path (find_container name) = path_for_container name
path (drop_container name) = path_for_container name
path (find_blob container name) = path_for_blob container name
path (drop_blob container name) = path_for_blob container name

abbrev pub params : Query → Values
params (create_container name access) = restype_container
params (find_container name) = restype_container
params (drop_container name) = restype_container
params (find_blob container name) = []
params (drop_blob container name) = []

-- The statuses for true and for false.
abbrev pub hit : Query → ℕ
hit (create_container name access) = 201
hit (find_container name) = 200
hit (drop_container name) = 202
hit (find_blob container name) = 200
hit (drop_blob container name) = 202

abbrev pub miss : Query → ℕ
miss (create_container name access) = 409
miss (find_container name) = 404
miss (drop_container name) = 404
miss (find_blob container name) = 404
miss (drop_blob container name) = 404

module _ (env : Env) (c : StorageClient) where
  abbrev pub headers : Query → History → Headers
  headers (create_container name access) h =
      put_container_headers access (get_standard_headers env c h)
  headers (find_container name) h = get_standard_headers env c h
  headers (drop_container name) h = get_standard_headers env c h
  headers (find_blob container name) h = get_standard_headers env c h
  headers (drop_blob container name) h = get_standard_headers env c h

  -- The operation of the client.
  abbrev pub ask : Query → Call GoError Bool
  ask (create_container name access) = create_container_if_not_exists env c name access
  ask (find_container name) = container_exists env c name
  ask (drop_container name) = delete_container_if_exists env c name
  ask (find_blob container name) = blob_exists env c container name
  ask (drop_blob container name) = delete_blob_if_exists env c container name

  -- `CreateContainerIfNotExists`, `ContainerExists`, `DeleteContainerIfExists`, `BlobExists` and
  -- `DeleteBlobIfExists`: for every reply whose body can be read, true for 201, 200 or 202, as the
  -- operation wants it; false for 409 or 404; an error for the other statuses from 400 to 505; and false
  -- with no error for the rest.
  pub ask-Verdict :
      (query : Query) (h : History) {reply : Response GoError}
      → Answered env c (verb query) (path query) (params query) (headers query h) none h reply
      → Verdict (hit query) (miss query) reply.status (ask query h).0
  unfolding blob_exists delete_blob_if_exists send_delete_blob
  ask-Verdict (create_container name access) h a =
      create_container_if_not_exists-Verdict env c name h access a
  ask-Verdict (find_container name) h a = container_exists-Verdict env c name h a
  ask-Verdict (drop_container name) h a = delete_container_if_exists-Verdict env c name h a
  ask-Verdict (find_blob container name) h a =
      either_status-Verdict_of_request env c _ _ _ _ h a 200 404 (λ e. omega arith)
  ask-Verdict (drop_blob container name) h a =
      either_status-Verdict_of_request env c _ _ _ _ h a 202 404 (λ e. omega arith)
