-- ===== src/Lib.antt =====
-- Azure SDK for Go: the two clients of this repository.
--
-- The program has two parts that share no code. The storage client, storage/, signs requests to the
-- blob service with the account's key and turns replies into responses and errors. The management
-- client, management/, sends requests with a client certificate, tries again when the service refuses,
-- and waits for operations that go on in the background. Both act on the world by requests and pauses
-- only, so a call is a function from the history of what was done so far to an outcome and a longer
-- history, and the service's answers are any function of that history.
--
-- Files, and the code that they model:
--   Common, Common/Tests, Common/Lists, Common/Text, Common/Int, Common/Base64: library names, tests, lists,
--     strings as lists of bytes, integers, base64.
--   Go: outcomes of calls (a value, an error, a panic), requests, responses, histories, and string
--     maps as lists of pairs in the order in which an iteration hands them out.
--   Management: management/client.go and management/util.go (makeClient, getResponseBody).
--   Management/Http: management/http.go (createAzureRequest, sendRequest, sendAzureRequest and the
--     four kinds of request). Management/Http/Retries, Requests and Writes prove what they do.
--   Management/Operations: management/operations.go (getOperationStatus, WaitAsyncOperation), with
--     proofs in Management/Operations/Polling.
--   Storage: the data of storage/client.go (NewClient, getStandardHeaders).
--   Storage/Address: getBaseUrl, getEndpoint of storage/client.go, mergeParams of storage/util.go.
--   Storage/Canonical: the buildCanonicalized functions and the authorization header of
--     storage/client.go, computeHmac256 of storage/util.go. Proofs in Storage/Canonical/Order and
--     Storage/Canonical/Sorted.
--   Storage/Exec: exec, readResponseBody, serviceErrFromXml. Proofs in Storage/Exec/Replies.
--   Storage/Container: the container operations of storage/blob.go. Proofs in
--     Storage/Container/Verdicts.
--   Storage/Blob: BlobExists, GetBlobUrl, GetBlob, GetBlobRange, GetBlobProperties and the deletes.
--   Storage/Block: CreateBlockBlob, PutBlock, PutBlockList, putSingleBlockBlob, block ids. Proofs in
--     Storage/Block/Ids.
--   Storage/Block/Upload: PutBlockBlob over any reader. Proofs in Storage/Block/Upload/Content and
--     Storage/Block/Upload/Loop.
--   Storage/Copy: CopyBlob and its wait. Proofs in Storage/Copy/Judged and Wait.
--   Storage/Container/Stored: what an operation that asks for one status has done when it succeeds.
--   Storage/Listing, Storage/Pages, Storage/Sas: ListContainers, ListBlobs, GetBlockList and
--     GetPageRanges; PutPageBlob and PutPage; GetBlobSASURI. Proofs in Storage/Listing/Outcomes, Tables and Query,
--     Storage/Pages/Writes, Storage/Block/Writes and Storage/Sas/Signed.
--   Management/Calls: what the clients below management/ share.
--   Management/Location, Management/StorageService, Management/HostedService, Management/Image,
--     Management/Disk, Management/Network: management/location, storageservice, hostedservice,
--     virtualmachineimage, virtualmachinedisk and virtualnetwork, with proofs in their child modules.
--   Management/VirtualMachine: the structs of management/virtualmachine/entities.go and the parameters; below
--     it, the parts of its client.go: Endpoints (createNetworkConfig, addDockerPort), Provisioning
--     (verifyPassword, createSshConfig, AddAzureLinuxProvisioningConfig), Extensions (SetAzureVMExtension,
--     SetAzureDockerVMExtension), Media (CreateAzureVMConfiguration and what it calls, newUUID), Creation
--     (CreateAzureVM, uploadServiceCert) and RoleOperations (the operations on deployments and roles, and
--     the role sizes), each with its proofs in child modules.
--   Management/Changes: the operations of these clients that send one request and wait, as one data type.
--   Management/Subscription: management/publishSettings.go, and executeCommand of management/util.go.
--     Proofs in Management/Subscription/Import and Command.
--   Storage/Exec/Final, Storage/Container/Final, Storage/Block/Upload/Ends: about the end of calls;
--     Storage/Container/Accepts and Storage/Block/Upload/Success: about a service that accepts.
--   Storage/Canonical/Maps: the authorization header for the entries of the map of headers in any order.
--   Storage/Blob/Queries, Storage/Blob/Reads: the operations with a Boolean answer and the reads, as data types.
--   Storage/Service: the blob service as its documentation describes it: the uploads of a block blob are
--     steps on the uncommitted blocks and the content. Storage/Service/BlockLists is about the body of
--     PutBlockList, Storage/Service/Uploads about PutBlockBlob.
--   Management/Tests, Storage/Tests and their child modules: runs against scripted services.
--
-- Bounds and fuel. The loop of WaitAsyncOperation, the loop of waitForBlobCopy and the loop over the
-- blocks of putBlockBlob have no bound in the code; here they take fuel, and give the outcome `stuck`
-- when it is used up. One unit more than the number of rounds is enough. The retries of sendRequest
-- are a number in the code, and it is the recursion's argument here. Block numbers are natural
-- numbers; the ids are written with eleven digits, and get longer from 10^11 on.
--
-- What stands outside: core/http and core/tls are copies of packages of the Go library. They, the XML
-- decoder, the URL parser, HMAC, base64 decoding and the clock are the fields of `Management.Env` and
-- `Storage.Env`, about which nothing is assumed. What the clients use of `strings`, `sort`, `fmt` and
-- of the URL encoder is written out, on ASCII text where case or spaces matter. Closing bodies has no
-- effect here.
-- The XML codecs of the clients below management/ are parameters too, and so are the file system, PEM,
-- SHA-1, the random bytes, the tables of unicode and the processes that executeCommand runs. Where the
-- code returns a value together with an error, these clients are modelled by the error alone. The
-- functions NewClient below management/ and GetBlobService only wrap a client. core/http and core/tls
-- are not modelled: they are copies of packages of the Go library.
pub mod Common
pub mod Go
pub mod Management
pub mod Storage
