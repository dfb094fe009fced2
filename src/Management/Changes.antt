-- ===== src/Management/Changes.antt =====
-- The operations of the clients below management/ that send one request which writes, and wait for the
-- operation that it starts.
use azure_sdk_for_go.Common.{
  ℕ, List, [], ◌∷◌, ◌++◌, some, ◌⊎◌, inl, inr, false, ◌≡◌, refl, subst, ◌∙◌, All,
}
use azure_sdk_for_go.Common.Text.{Text, codes, is_empty}
use azure_sdk_for_go.Go.{
  ok, History, Call, ◌>>=◌, lift, proceed, err-ne-ok, same_result, same_history,
}
use azure_sdk_for_go.Management.{GoError, Client, Env}
use azure_sdk_for_go.Management.Http.{
  send_azure_post_request, send_azure_put_request, send_azure_delete_request,
}
use azure_sdk_for_go.Management.Calls.{require, and_wait, Completed, and_wait-Completed}
use azure_sdk_for_go.Management.Disk.{delete_disk}
use azure_sdk_for_go.Management.HostedService.{delete_hosted_service}
use azure_sdk_for_go.Management.Network.{
  NetworkConfiguration, set_xml_namespaces, azure_network_configuration_url,
  set_virtual_network_configuration,
}
use azure_sdk_for_go.Management.VirtualMachine.{Codec, Host}
use azure_sdk_for_go.Management.VirtualMachine.Provisioning.{◌then_try◌}
use azure_sdk_for_go.Management.VirtualMachine.RoleOperations.{
  deployment_url, role_url, operations_url, create_start_role_operation,
  create_shutdown_role_operation, create_restart_role_operation, delete_vm_deployment, start_role,
  shutdown_role, restart_role, delete_role,
}
use azure_sdk_for_go.Management.VirtualMachine.Creation.{
  create_service_cert_deployment_conf, upload_service_cert,
}

lift_twice :
    {A B C : Type 0} (r : GoError ⊎ A) (f : A → GoError ⊎ B) (k : B → Call GoError C) (h : History)
    → proceed (lift (r then_try f) h) k ≡ proceed (lift r h) (λ a. lift (f a) >>= k)
lift_twice (inl x) f k h = refl
lift_twice (inr a) f k h = refl

-- One of these operations, with its arguments.
pub data Change : Type 0 where
  delete_disk_of : Text → Change
  delete_service : Text → Change
  set_network : NetworkConfiguration → Change
  upload_certificate : Text → Text → Change
  delete_deployment : Text → Text → Change
  start : Text → Text → Text → Change
  shutdown : Text → Text → Text → Change
  restart : Text → Text → Text → Change
  delete_role_of : Text → Text → Text → Change

-- The names that must not be empty.
abbrev pub names : Change → List Text
names (delete_disk_of disk) = disk ∷ []
names (delete_service service) = service ∷ []
names (set_network c) = []
names (upload_certificate service path) = []
names (delete_deployment service deployment) = service ∷ deployment ∷ []
names (start service deployment role) = service ∷ deployment ∷ role ∷ []
names (shutdown service deployment role) = service ∷ deployment ∷ role ∷ []
names (restart service deployment role) = service ∷ deployment ∷ role ∷ []
names (delete_role_of service deployment role) = service ∷ deployment ∷ role ∷ []

module _ (codec : Codec) (host : Host)
    (marshal_network : NetworkConfiguration → GoError ⊎ Text) where
  -- The encoded body. The requests that delete have none; the empty text stands for it.
  abbrev pub body : Change → GoError ⊎ Text
  body (set_network c) = marshal_network (set_xml_namespaces c)
  body (upload_certificate service path) =
      create_service_cert_deployment_conf host path then_try codec.marshal_certificate
  body (start service deployment role) = codec.marshal_start create_start_role_operation
  body (shutdown service deployment role) = codec.marshal_shutdown create_shutdown_role_operation
  body (restart service deployment role) = codec.marshal_restart create_restart_role_operation
  body (delete_disk_of disk) = inr []
  body (delete_service service) = inr []
  body (delete_deployment service deployment) = inr []
  body (delete_role_of service deployment role) = inr []

  module _ (env : Env) (client : Client) where
    -- The one request, with its body.
    abbrev pub request : Change → Text → Call GoError Text
    request (delete_disk_of disk) bytes =
        send_azure_delete_request env client (codes "services/disks/" ++ disk)
    request (delete_service service) bytes =
        send_azure_delete_request env client
          (codes "services/hostedservices/" ++ (service ++ codes "?comp=media"))
    request (set_network c) bytes =
        send_azure_put_request env client azure_network_configuration_url (codes "text/plain")
          (some bytes)
    request (upload_certificate service path) bytes =
        send_azure_post_request env client
          (codes "services/hostedservices/" ++ (service ++ codes "/certificates")) (some bytes)
    request (delete_deployment service deployment) bytes =
        send_azure_delete_request env client
          (deployment_url service deployment ++ codes "?comp=media")
    request (start service deployment role) bytes =
        send_azure_post_request env client (operations_url service deployment role) (some bytes)
    request (shutdown service deployment role) bytes =
        send_azure_post_request env client (operations_url service deployment role) (some bytes)
    request (restart service deployment role) bytes =
        send_azure_post_request env client (operations_url service deployment role) (some bytes)
    request (delete_role_of service deployment role) bytes =
        send_azure_delete_request env client (role_url service deployment role)

    -- The operation of the client.
    abbrev pub perform : ℕ → Change → Call GoError (Unit {0})
    perform fuel (delete_disk_of disk) = delete_disk env client fuel disk
    perform fuel (delete_service service) =
        delete_hosted_service codec.hosted env client fuel service
    perform fuel (set_network c) =
        set_virtual_network_configuration marshal_network env client fuel c
    perform fuel (upload_certificate service path) =
        upload_service_cert codec host env client fuel service path
    perform fuel (delete_deployment service deployment) =
        delete_vm_deployment codec env client fuel service deployment
    perform fuel (start service deployment role) =
        start_role codec env client fuel service deployment role
    perform fuel (shutdown service deployment role) =
        shutdown_role codec env client fuel service deployment role
    perform fuel (restart service deployment role) =
        restart_role codec env client fuel service deployment role
    perform fuel (delete_role_of service deployment role) =
        delete_role codec env client fuel service deployment role

    -- What stands behind an operation that returned no error.
    pub record Performed (change : Change) (h h' : History) : Type 0 where
      pub named : All (λ name. is_empty name ≡ false) (names change)
      pub bytes : Text
      pub encoded : body change ≡ inr bytes
      pub completed : Completed env client (request change bytes) h h'

    -- Behind the tests of the names: the body is encoded, and the request is waited for.
    sends : ℕ → GoError ⊎ Text → (Text → Call GoError Text) → Call GoError (Unit {0})
    sends fuel encoded post = lift encoded >>= λ bytes. and_wait env client fuel (post bytes)

    sends-Performed :
        (fuel : ℕ) (change : Change) (h : History) (encoded : GoError ⊎ Text)
        → All (λ name. is_empty name ≡ false) (names change)
        → body change ≡ encoded
        → (sends fuel encoded (request change) h).0 ≡ ok tt
        → Performed change h (sends fuel encoded (request change) h).1
    unfolding sends
    sends-Performed fuel change h (inl x) named b e = absurd (err-ne-ok e)
    sends-Performed fuel change h (inr bytes) named b e = record {
      named = named;
      bytes = bytes;
      encoded = b;
      completed = and_wait-Completed env client fuel (request change bytes) h e;
    }

    -- Each of the operations that send one request and wait: if it returns no error, then the names that
    -- it was given are not empty, the body was encoded, the request with this body returned an id, and the
    -- operation with this id ended with a status that is neither "InProgress" nor "Failed".
    pub perform-Performed :
        (fuel : ℕ) (change : Change) (h : History)
        → (perform fuel change h).0 ≡ ok tt
        → Performed change h (perform fuel change h).1
    unfolding sends require delete_disk delete_hosted_service set_virtual_network_configuration
        upload_service_cert delete_vm_deployment start_role shutdown_role restart_role delete_role
    perform-Performed fuel (delete_disk_of []) h e = absurd (err-ne-ok e)
    perform-Performed fuel (delete_disk_of (c ∷ cs)) h e =
        sends-Performed fuel (delete_disk_of (c ∷ cs)) h (inr []) (refl, tt) refl e
    perform-Performed fuel (delete_service []) h e = absurd (err-ne-ok e)
    perform-Performed fuel (delete_service (c ∷ cs)) h e =
        sends-Performed fuel (delete_service (c ∷ cs)) h (inr []) (refl, tt) refl e
    perform-Performed fuel (set_network c) h e = sends-Performed fuel (set_network c) h _ tt refl e
    perform-Performed fuel (upload_certificate service path) h e =
        let conf = create_service_cert_deployment_conf host path in
        let change = upload_certificate service path in
        let twice =
          lift_twice conf codec.marshal_certificate
            (λ bytes. and_wait env client fuel (request change bytes)) h in
        subst (Performed change h) (same_history twice) (
          sends-Performed fuel change h (conf then_try codec.marshal_certificate) tt refl
            (same_result twice ∙ e))
    perform-Performed fuel (delete_deployment [] deployment) h e = absurd (err-ne-ok e)
    perform-Performed fuel (delete_deployment (c ∷ cs) []) h e = absurd (err-ne-ok e)
    perform-Performed fuel (delete_deployment (c ∷ cs) (d ∷ ds)) h e =
        sends-Performed fuel (delete_deployment (c ∷ cs) (d ∷ ds)) h (inr []) (refl, (refl, tt))
          refl e
    perform-Performed fuel (start [] deployment role) h e = absurd (err-ne-ok e)
    perform-Performed fuel (start (c ∷ cs) [] role) h e = absurd (err-ne-ok e)
    perform-Performed fuel (start (c ∷ cs) (d ∷ ds) []) h e = absurd (err-ne-ok e)
    perform-Performed fuel (start (c ∷ cs) (d ∷ ds) (r ∷ rs)) h e =
        sends-Performed fuel (start (c ∷ cs) (d ∷ ds) (r ∷ rs)) h _ (refl, (refl, (refl, tt))) refl
          e
    perform-Performed fuel (shutdown [] deployment role) h e = absurd (err-ne-ok e)
    perform-Performed fuel (shutdown (c ∷ cs) [] role) h e = absurd (err-ne-ok e)
    perform-Performed fuel (shutdown (c ∷ cs) (d ∷ ds) []) h e = absurd (err-ne-ok e)
    perform-Performed fuel (shutdown (c ∷ cs) (d ∷ ds) (r ∷ rs)) h e =
        sends-Performed fuel (shutdown (c ∷ cs) (d ∷ ds) (r ∷ rs)) h _ (refl, (refl, (refl, tt)))
          refl e
    perform-Performed fuel (restart [] deployment role) h e = absurd (err-ne-ok e)
    perform-Performed fuel (restart (c ∷ cs) [] role) h e = absurd (err-ne-ok e)
    perform-Performed fuel (restart (c ∷ cs) (d ∷ ds) []) h e = absurd (err-ne-ok e)
    perform-Performed fuel (restart (c ∷ cs) (d ∷ ds) (r ∷ rs)) h e =
        sends-Performed fuel (restart (c ∷ cs) (d ∷ ds) (r ∷ rs)) h _ (refl, (refl, (refl, tt)))
          refl e
    perform-Performed fuel (delete_role_of [] deployment role) h e = absurd (err-ne-ok e)
    perform-Performed fuel (delete_role_of (c ∷ cs) [] role) h e = absurd (err-ne-ok e)
    perform-Performed fuel (delete_role_of (c ∷ cs) (d ∷ ds) []) h e = absurd (err-ne-ok e)
    perform-Performed fuel (delete_role_of (c ∷ cs) (d ∷ ds) (r ∷ rs)) h e =
        sends-Performed fuel (delete_role_of (c ∷ cs) (d ∷ ds) (r ∷ rs)) h (inr [])
          (refl, (refl, (refl, tt))) refl e
