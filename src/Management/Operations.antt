-- ===== src/Management/Operations.antt =====
-- management/operations.go: polling an asynchronous operation.
pub mod Polling
use azure_sdk_for_go.Common.{ℕ, zero, suc, ◌++◌, ◌∷◌, [], if◌then◌else◌, ◌⊎◌, inl, inr, true, false}
use azure_sdk_for_go.Common.Text.{Text, codes, is_empty, eq}
use azure_sdk_for_go.Go.{ok, err, panic, stuck, History, ◌▷◌, slept, Call, ◌>>=◌, return, lift}
use azure_sdk_for_go.Management.{
  GoError, message, Outcome, param_not_specified, Client, Env, Operation,
}
use azure_sdk_for_go.Management.Http.{send_azure_get_request}

unfoldable pub get_operation_status : Env → Client → Text → Call GoError Operation
get_operation_status env client operation_id =
    if is_empty operation_id then return (err (param_not_specified (codes "operationId"))) else do
      response ← send_azure_get_request env client (codes "operations/" ++ operation_id)
      lift (env.unmarshal_operation response)

-- The message of a failed operation.
unfoldable pub operation_failed : Text → Operation → GoError
operation_failed operation_id operation = message (
    codes "Azure operation "
    ++ (operation_id
        ++ (codes " failed. Code: "
            ++ (operation.error.code ++ (codes ", Message: " ++ operation.error.message)))))

abbrev pub in_progress : Text
in_progress = codes "InProgress"

-- Behind the loop.
unfoldable pub conclude : Text → Operation → Outcome (Unit {0})
conclude operation_id operation =
    if eq operation.status (codes "Failed")
    then err (operation_failed operation_id operation)
    else ok tt

-- The loop, which runs while the status is "InProgress", on fuel.
unfoldable pub poll : Env → Client → Text → ℕ → Call GoError (Unit {0})
poll env client operation_id zero h = (stuck, h)
poll env client operation_id (suc fuel) h =
    let (polled, h') = get_operation_status env client operation_id (h ▷ slept 2000) in
    elim polled [
      | ok operation ↦ elim (eq operation.status in_progress) [
        | true ↦ poll env client operation_id fuel h'
        | false ↦ (conclude operation_id operation, h')
      ]
      | err e ↦ (err e, h')
      | panic ↦ (panic, h')
      | stuck ↦ (stuck, h')
    ]

unfoldable pub wait_async_operation : Env → Client → ℕ → Text → Call GoError (Unit {0})
wait_async_operation env client fuel operation_id =
    if is_empty operation_id
    then return (err (param_not_specified (codes "operationId")))
    else poll env client operation_id fuel
