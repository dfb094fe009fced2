-- ===== src/Management/Tests.antt =====
-- Tests of the management client, management/: runs against scripted services, and the theorems at
-- concrete inputs.
mod Resources
mod Machines
mod Roles
mod Settings
use azure_sdk_for_go.Common.{
  ℕ, zero, suc, ◌+◌, ◌≤◌, ◌<◌, [], ◌∷◌, ◌++◌, some, none, inl, inr, ◌≡◌, refl, arith, length,
  replicate, take, ◌-◌, if◌then◌else◌,
}
use azure_sdk_for_go.Common.Text.{Text, codes, is_empty, eq}
use azure_sdk_for_go.Go.{
  Result, ok, err, panic, Request, Response, Reply, failed, replied, sent, slept, History, ◌▷◌,
  lookup,
}
use azure_sdk_for_go.Management.{
  GoError, message, azure, AzureError, Client, Env, Operation, make_client, new_client,
  new_client_from_config, get_response_body,
}
use azure_sdk_for_go.Management.Http.{
  create_azure_request, judge, send_request, send_azure_request, first_request_id,
  send_azure_get_request, send_azure_post_request, send_azure_put_request,
  send_azure_delete_request,
}
use azure_sdk_for_go.Management.Http.Retries.{
  Refuses, no_reply, azure_says, send_request-status, Retried, start, next, send_request_recovers,
  send_request_gives_up, send_request-history,
}
use azure_sdk_for_go.Management.Http.Requests.{send_azure_get_request_ok}
use azure_sdk_for_go.Management.Http.Writes.{
  posts, puts, write_sends, Answered, send_azure_write_ok, send_azure_write-EndsWith,
}
use azure_sdk_for_go.Management.Operations.{
  get_operation_status, conclude, poll, wait_async_operation, operation_failed, in_progress,
}
use azure_sdk_for_go.Management.Operations.Polling.{
  Running, Conclusion, wait_async_operation_ends, Ended, wait_async_operation_ok, Paced,
  wait_async_operation-Paced,
}

abbrev client : Client
client = record {
  management_url = codes "https://host";
  publish_settings = record {
    subscription_id = codes "sub";
    subscription_cert = codes "cert";
    subscription_key = codes "key";
  };
}

abbrev replying : Text → ℕ → Reply GoError
replying body status = replied (record {
  status = status;
  status_line = [];
  header = (codes "X-Ms-Request-Id", codes "id1" ∷ []) ∷ [];
  content_length = some (length body);
  body = body;
  body_error = none;
})

-- A service that gives its replies by the number of things done before. Every body that is not
-- empty is an error's code or an operation's status.
abbrev scripted : (ℕ → Reply GoError) → Env
scripted replies = record {
  Certificate = Text;
  x509_key_pair = λ cert key. cert;
  new_request = λ verb url. none;
  answer = λ cert h q. replies (length h);
  unmarshal_azure_error = λ body.
      if is_empty body
      then inl (message (codes "EOF"))
      else inr (record { code = body; message = [] });
  unmarshal_operation = λ body. inr (record {
    id = codes "op";
    status = body;
    http_status_code = [];
    error = record { code = codes "Oops"; message = codes "no" };
  });
}

abbrev busy : AzureError
busy = record { code = codes "Busy"; message = [] }

abbrev done_reply : Response GoError
done_reply = record {
  status = 200;
  status_line = [];
  header = (codes "X-Ms-Request-Id", codes "id1" ∷ []) ∷ [];
  content_length = some 4;
  body = codes "done";
  body_error = none;
}

abbrev bare_reply : Response GoError
bare_reply = record {
  status = 202;
  status_line = [];
  header = [];
  content_length = some 0;
  body = [];
  body_error = none;
}

-- No reply, then an error, then success.
abbrev flaky_replies : ℕ → Reply GoError
flaky_replies zero = failed (message (codes "reset"))
flaky_replies (suc zero) = replying (codes "Busy") 503
flaky_replies n = replied done_reply

abbrev flaky : Env
flaky = scripted flaky_replies

abbrev bare : Env
bare = scripted (λ n. replied bare_reply)

abbrev always_busy : Env
always_busy = scripted (λ n. replying (codes "Busy") 503)

abbrev request : Request
request = record {
  verb = codes "GET";
  url = codes "https://host/sub/x";
  headers =
      (codes "x-ms-version", codes "2014-05-01")
      ∷ (codes "Content-Type", codes "application/xml")
      ∷ [];
  body = none;
}

abbrev sent_times : ℕ → History
sent_times n = replicate n (sent request)

new_client_without_cert :
    new_client (codes "sub") [] ≡ inl (message (codes "azure: management certificate required"))
unfolding new_client new_client_from_config make_client
new_client_without_cert = refl

recovers :
    send_request flaky client (codes "cert") (codes "x") (codes "GET") [] none 7 []
    ≡ (ok done_reply, sent_times 3)
unfolding send_request create_azure_request judge get_response_body
recovers = refl

created : create_azure_request flaky client (codes "x") (codes "GET") [] none ≡ inr request
unfolding create_azure_request
created = refl

send_request-status_example : done_reply.status < 400
unfolding send_request create_azure_request judge get_response_body
send_request-status_example =
    send_request-status flaky client (codes "cert") (codes "x") (codes "GET") [] none 7 [] refl

busy_refused : Refuses always_busy (replying (codes "Busy") 503) (azure busy)
unfolding get_response_body
busy_refused = azure_says (omega arith) refl refl

flaky-Retried :
    Retried flaky client
      (codes "cert")
      (codes "x")
      (codes "GET")
      []
      none
      request
      2
      []
      (sent_times 2)
unfolding get_response_body
flaky-Retried = next no_reply (next (azure_says (omega arith) refl refl) start)

send_request_recovers_example :
    send_request flaky client (codes "cert") (codes "x") (codes "GET") [] none 7 []
    ≡ (ok done_reply, sent_times 3)
send_request_recovers_example =
    send_request_recovers flaky client (codes "cert") (codes "x") (codes "GET") [] none 5 created
      flaky-Retried refl (omega arith)

busy_created :
    create_azure_request always_busy client (codes "x") (codes "GET") [] none ≡ inr request
unfolding create_azure_request
busy_created = refl

busy-Retried :
    Retried always_busy client
      (codes "cert")
      (codes "x")
      (codes "GET")
      []
      none
      request
      1
      []
      (sent_times 1)
busy-Retried = next busy_refused start

send_request_gives_up_example :
    send_request always_busy client (codes "cert") (codes "x") (codes "GET") [] none 1 []
    ≡ (err (azure busy), sent_times 2)
send_request_gives_up_example =
    send_request_gives_up always_busy client (codes "cert") (codes "x") (codes "GET") [] none
      busy_created busy-Retried busy_refused

send_request-history_example :
    (k : ℕ) × (1 ≤ k)
    × (k ≤ 7 + 1)
    × ((send_request flaky client (codes "cert") (codes "x") (codes "GET") [] none 7 []).1
        ≡ [] ++ replicate k (sent request))
send_request-history_example =
    send_request-history flaky client (codes "cert") (codes "x") (codes "GET") [] none 7 [] created

send_azure_get_request_ok_example :
    (response : Response GoError) × (n : ℕ) × ((send_azure_request flaky client
        (codes "x")
        (codes "GET")
        []
        none
        []).0
      ≡ ok response)
    × (response.status < 400)
    × (response.content_length ≡ some n)
    × (codes "done" ≡ take n response.body ++ replicate (n - length response.body) 0)
unfolding send_azure_get_request send_azure_request send_request create_azure_request judge
    get_response_body
send_azure_get_request_ok_example = send_azure_get_request_ok flaky client (codes "x") [] refl

send_azure_write_ok_example :
    Answered (write_sends flaky client (codes "x") (posts (some (codes "c"))) []) (codes "id1")
unfolding send_azure_post_request send_azure_request send_request create_azure_request judge
    get_response_body first_request_id eq
send_azure_write_ok_example =
    send_azure_write_ok flaky client (codes "x") (posts (some (codes "c"))) [] refl

-- No reply, and then one without an id.
abbrev losing_replies : ℕ → Reply GoError
losing_replies zero = failed (message (codes "reset"))
losing_replies (suc n) = replied bare_reply

abbrev losing : Env
losing = scripted losing_replies

abbrev put_request : Request
put_request = record {
  verb = codes "PUT";
  url = codes "https://host/sub/x";
  headers =
      (codes "x-ms-version", codes "2014-05-01") ∷ (codes "Content-Type", codes "text/plain") ∷ [];
  body = some (codes "c");
}

put_created :
    create_azure_request losing client
      (codes "x")
      (codes "PUT")
      (codes "text/plain")
      (some (codes "c"))
    ≡ inr put_request
unfolding create_azure_request
put_created = refl

send_azure_write-EndsWith_example :
    send_azure_put_request losing client (codes "x") (codes "text/plain") (some (codes "c")) []
    ≡ (panic, sent put_request ∷ sent put_request ∷ [])
unfolding lookup eq
send_azure_write-EndsWith_example =
    send_azure_write-EndsWith losing client (codes "x")
      (puts (codes "text/plain") (some (codes "c"))) {h = []} {response = bare_reply} refl
      put_created (next no_reply start) (omega arith) refl (omega arith)

-- An operation in progress at the first poll, and then with another status.
abbrev operation_replies : Text → ℕ → Reply GoError
operation_replies status zero = replying in_progress 200
operation_replies status (suc zero) = replying in_progress 200
operation_replies status n = replying status 200

abbrev ending : Text → Env
ending status = scripted (operation_replies status)

abbrev operation : Text → Operation
operation status = record {
  id = codes "op";
  status = status;
  http_status_code = [];
  error = record { code = codes "Oops"; message = codes "no" };
}

abbrev poll_request : Request
poll_request = record {
  verb = codes "GET";
  url = codes "https://host/sub/operations/7";
  headers =
      (codes "x-ms-version", codes "2014-05-01")
      ∷ (codes "Content-Type", codes "application/xml")
      ∷ [];
  body = none;
}

abbrev polled_once : History
polled_once = slept 2000 ∷ sent poll_request ∷ []

abbrev polled_twice : History
polled_twice = slept 2000 ∷ sent poll_request ∷ slept 2000 ∷ sent poll_request ∷ []

first_poll :
    get_operation_status (ending (codes "Failed")) client (codes "7") ([] ▷ slept 2000)
    ≡ (ok (operation in_progress), polled_once)
unfolding get_operation_status send_azure_get_request send_azure_request send_request
    create_azure_request judge get_response_body
first_poll = refl

second_poll :
    get_operation_status (ending (codes "Failed")) client (codes "7") (polled_once ▷ slept 2000)
    ≡ (ok (operation (codes "Failed")), polled_twice)
unfolding get_operation_status send_azure_get_request send_azure_request send_request
    create_azure_request judge get_response_body
second_poll = refl

wait_async_operation_ends_example :
    (outcome : Result GoError (Unit {0})) × (wait_async_operation
        (ending (codes "Failed"))
        client
        (1 + 1)
        (codes "7")
        []
      ≡ (outcome, polled_twice))
    × Conclusion (codes "7") (operation (codes "Failed")) outcome
wait_async_operation_ends_example =
    wait_async_operation_ends (ending (codes "Failed")) client (codes "7") 0 (λ e. cc)
      (Running.next first_poll refl Running.start) second_poll (λ e. cc)

wait_async_operation-Paced_example :
    Paced
      (ending (codes "Failed"))
      client
      (codes "7")
      poll_request
      []
      (wait_async_operation (ending (codes "Failed")) client 3 (codes "7") []).1
unfolding create_azure_request
wait_async_operation-Paced_example =
    wait_async_operation-Paced (ending (codes "Failed")) client (codes "7") 3 [] refl

failed_wait :
    (wait_async_operation (ending (codes "Failed")) client 5 (codes "7") []).0
    ≡ err (message (codes "Azure operation 7 failed. Code: Oops, Message: no"))
unfolding wait_async_operation poll conclude operation_failed get_operation_status
    send_azure_get_request send_azure_request send_request create_azure_request judge
    get_response_body eq
failed_wait = refl

delete_without_url :
    (send_azure_delete_request flaky client [] []).0
    ≡ err (message (codes "Parameter url is not specified."))
unfolding send_azure_delete_request
delete_without_url = refl
