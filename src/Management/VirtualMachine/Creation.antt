-- ===== src/Management/VirtualMachine/Creation.antt =====
-- Creating a virtual machine, management/virtualmachine: `CreateAzureVM`, `uploadServiceCert`,
-- `createServiceCertDeploymentConf` and `createVMDeploymentConfig`.
pub mod Attempts
pub mod Success
use azure_sdk_for_go.Common.{
  ℕ, List, [], ◌∷◌, ◌++◌, Option, some, none, ◌⊎◌, inl, inr, if◌then◌else◌, Bool, true, false,
}
use azure_sdk_for_go.Common.Base64.{base64_encode}
use azure_sdk_for_go.Common.Text.{Text, codes, is_empty}
use azure_sdk_for_go.Go.{
  Result, ok, err, panic, stuck, History, Call, ◌>>=◌, ◌>>◌, return, lift, proceed,
}
use azure_sdk_for_go.Management.{GoError, Client, Env, param_not_specified}
use azure_sdk_for_go.Management.Http.{send_azure_post_request}
use azure_sdk_for_go.Management.Operations.{wait_async_operation}
use azure_sdk_for_go.Management.Calls.{require, and_wait}
use azure_sdk_for_go.Management.HostedService.{create_hosted_service, delete_hosted_service}
use azure_sdk_for_go.Management.VirtualMachine.{
  Role, VmDeployment, ServiceCertificate, Codec, Host, azure_xmlns,
}

unfoldable pub create_service_cert_deployment_conf : Host → Text → GoError ⊎ ServiceCertificate
unfolding base64_encode
create_service_cert_deployment_conf host cert_path = elim (host.read_file cert_path) [
  | inl e ↦ inl e
  | inr content ↦ inr (record {
    xmlns = azure_xmlns;
    encoded = base64_encode content;
    certificate_format = codes "pfx";
    password = [];
  })
]

unfoldable pub create_vm_deployment_config : Role → VmDeployment
create_vm_deployment_config role = record {
  xmlns = azure_xmlns;
  name = role.role_name;
  deployment_slot = codes "Production";
  status = [];
  label = role.role_name;
  url = [];
  role_list = role ∷ [];
  role_instance_list = [];
  virtual_ips = [];
}

-- The error goes to the caller, whatever the deletion returned; but a panic of it is one of the caller.
abbrev pub after_cleanup : GoError → Result GoError (Unit {0}) → Result GoError (Unit {0})
after_cleanup e (ok u) = err e
after_cleanup e (err x) = err e
after_cleanup e panic = panic
after_cleanup e stuck = stuck

module _ (codec : Codec) (host : Host) (env : Env) (client : Client) (fuel : ℕ) where
  unfoldable pub upload_service_cert : Text → Text → Call GoError (Unit {0})
  unfolding create_service_cert_deployment_conf
  upload_service_cert dns_name cert_path = do
    certificate_config ← lift (create_service_cert_deployment_conf host cert_path)
    certificate_config_bytes ← lift (codec.marshal_certificate certificate_config)
    and_wait env client fuel (
        send_azure_post_request env client
          (codes "services/hostedservices/" ++ (dns_name ++ codes "/certificates"))
          (some certificate_config_bytes))

  -- `if err != nil { hostedServiceClient.DeleteHostedService(dnsName); return err }`, and what comes
  -- behind it otherwise.
  unfoldable pub settle :
      {A : Type 0}
      → Text
      → Result GoError A × History
      → (A → Call GoError (Unit {0}))
      → Result GoError (Unit {0}) × History
  settle dns_name (ok a, g) next = next a g
  settle dns_name (err e, g) next =
      let (deleted, g') = delete_hosted_service codec.hosted env client fuel dns_name g in
      (after_cleanup e deleted, g')
  settle dns_name (panic, g) next = (panic, g)
  settle dns_name (stuck, g) next = (stuck, g)

  abbrev pub or_delete :
      {A : Type 0} → Text → Call GoError A → (A → Call GoError (Unit {0})) → Call GoError (Unit {0})
  or_delete dns_name step next h = settle dns_name (step h) next

  -- `if azureVMConfiguration.UseCertAuth`
  unfoldable pub upload_if_needed : Role → Text → Call GoError (Unit {0})
  upload_if_needed role dns_name =
      if role.use_cert_auth then upload_service_cert dns_name role.cert_path else return (ok tt)

  -- The name of the role stands where the name of the hosted service belongs.
  unfoldable pub post_deployment : Role → Text → Call GoError Text
  post_deployment role bytes =
      send_azure_post_request env client
        (codes "services/hostedservices/" ++ (role.role_name ++ codes "/deployments")) (some bytes)

  -- Behind the creation of the hosted service.
  unfoldable pub deploy : Role → Text → Call GoError (Unit {0})
  deploy role dns_name = or_delete dns_name (upload_if_needed role dns_name) (λ u.
      or_delete dns_name (lift (codec.marshal_deployment (create_vm_deployment_config role)))
        (λ bytes.
          or_delete dns_name (post_deployment role bytes) (wait_async_operation env client fuel)))

  -- The hosted service that the machine is deployed to.
  unfoldable pub create_service : Text → Text → Call GoError (Unit {0})
  create_service dns_name location =
      and_wait env client fuel
        (create_hosted_service codec.hosted env client dns_name location [] dns_name [])

  unfoldable pub create_azure_vm : Option Role → Text → Text → Call GoError (Unit {0})
  create_azure_vm none dns_name location =
      return (err (param_not_specified (codes "azureVMConfiguration")))
  create_azure_vm (some role) dns_name location = do
    require (codes "dnsName") dns_name
    require (codes "location") location
    create_service dns_name location
    deploy role dns_name
