-- ===== src/Management/VirtualMachine/Creation/Success.antt =====
-- What stands behind a virtual machine that was created, management/virtualmachine: `CreateAzureVM`.
use azure_sdk_for_go.Common.{
  ℕ, [], ◌∷◌, ◌++◌, some, inl, inr, true, false, ◌≡◌, ◌≢◌, sym, ap, ◌∙◌, Bool-cases, Sum-cases,
}
use azure_sdk_for_go.Common.Base64.{base64_encode}
use azure_sdk_for_go.Common.Text.{Text, codes}
use azure_sdk_for_go.Go.{
  Result, ok, err, panic, stuck, History, same_result, same_history, err-ne-ok,
}
use azure_sdk_for_go.Management.{GoError, Client, Env}
use azure_sdk_for_go.Management.Calls.{
  Completed, waited-Completed, whole, lifts, inl-ne-inr, inr-injective,
}
use azure_sdk_for_go.Management.Http.{send_azure_post_request}
use azure_sdk_for_go.Management.HostedService.Creation.{Created, create_hosted_service-Created}
use azure_sdk_for_go.Management.Operations.Polling.{Ended, wait_async_operation_ok}
use azure_sdk_for_go.Management.HostedService.{create_hosted_service}
use azure_sdk_for_go.Management.VirtualMachine.{Role, ServiceCertificate, Codec, Host}
use azure_sdk_for_go.Management.VirtualMachine.Creation.{
  after_cleanup, create_service, create_azure_vm, upload_if_needed, upload_service_cert,
  post_deployment, create_vm_deployment_config, create_service_cert_deployment_conf,
}
use azure_sdk_for_go.Management.VirtualMachine.Creation.Attempts.{
  IsFatal, Outcome, Attempt, compensated, submitted, fatal, Creation, parameter_missing,
  not_created, attempted, create_azure_vm-Creation,
}

module _ (codec : Codec) (host : Host) (env : Env) (client : Client) (fuel : ℕ) where
  after_cleanup-ne-ok : (e : GoError) (r : Result GoError (Unit {0})) → after_cleanup e r ≢ ok tt
  after_cleanup-ne-ok e (ok u) p = cc
  after_cleanup-ne-ok e (err x) p = cc
  after_cleanup-ne-ok e panic p = cc
  after_cleanup-ne-ok e stuck p = cc

  fatal-ne-ok : (r : Result GoError (Unit {0})) → IsFatal r → r ≢ ok tt
  fatal-ne-ok panic f p = cc
  fatal-ne-ok stuck f p = cc
  fatal-ne-ok (ok u) f p = elim f [ ]
  fatal-ne-ok (err e) f p = elim f [ ]

  -- What the steps between the creation of the hosted service and the post of the deployment leave: a
  -- role without a certificate asks for nothing; otherwise the file of the certificate was read, posted
  -- to the hosted service as a pfx in base64, and the operation ended without failing.
  pub data Certified (role : Role) (dns_name : Text) (h h' : History) : Type 0 where
    no_certificate : role.use_cert_auth ≡ false → h ≡ h' → Certified role dns_name h h'
    certificate :
        (content bytes : Text)
        → role.use_cert_auth ≡ true
        → host.read_file role.cert_path ≡ inr content
        → codec.marshal_certificate (record {
          xmlns = codes "http://schemas.microsoft.com/windowsazure";
          encoded = base64_encode content;
          certificate_format = codes "pfx";
          password = [];
        })
          ≡ inr bytes
        → Completed env client
            (send_azure_post_request env client
              (codes "services/hostedservices/" ++ (dns_name ++ codes "/certificates"))
              (some bytes))
            h
            h'
        → Certified role dns_name h h'

  -- What stands behind a virtual machine that was created. Each step starts in the history that the
  -- one before it left.
  pub record Running (role : Role) (dns_name location : Text) (h h' : History) : Type 0 where
    pub service_id : Text
    pub posted_service : History
    pub service_created :
        Created codec.hosted env client dns_name location [] dns_name [] h service_id posted_service
    pub created : History
    pub service_ended : Ended env client service_id posted_service created
    pub uploaded : History
    pub certified : Certified role dns_name created uploaded
    pub bytes : Text
    pub encoded :
        codec.marshal_deployment (record {
          xmlns = codes "http://schemas.microsoft.com/windowsazure";
          name = role.role_name;
          deployment_slot = codes "Production";
          status = [];
          label = role.role_name;
          url = [];
          role_list = role ∷ [];
          role_instance_list = [];
          virtual_ips = [];
        })
        ≡ inr bytes
    pub id : Text
    pub accepted : History
    pub posted :
        send_azure_post_request env client
          (codes "services/hostedservices/" ++ (role.role_name ++ codes "/deployments"))
          (some bytes)
          uploaded
        ≡ (ok id, accepted)
    pub ended : Ended env client id accepted h'

  read_certificate :
      (cert_path : Text) {certificate : ServiceCertificate}
      → create_service_cert_deployment_conf host cert_path ≡ inr certificate
      → (content : Text) × (host.read_file cert_path ≡ inr content)
        × (certificate ≡ record {
          xmlns = codes "http://schemas.microsoft.com/windowsazure";
          encoded = base64_encode content;
          certificate_format = codes "pfx";
          password = [];
        })
  unfolding create_service_cert_deployment_conf
  read_certificate cert_path e = elim (Sum-cases (host.read_file cert_path)) [
    | inl (x, r) ↦ absurd (inl-ne-inr (rw (r, create_service_cert_deployment_conf) at e))
    | inr (content, r) ↦
        (content, r, sym (inr-injective (rw (r, create_service_cert_deployment_conf) at e)))
  ]

  upload-Certified :
      (role : Role) (dns_name : Text) (h : History) {h' : History}
      → upload_if_needed codec host env client fuel role dns_name h ≡ (ok tt, h')
      → Certified role dns_name h h'
  unfolding upload_if_needed upload_service_cert
  upload-Certified role dns_name h e = elim (Bool-cases role.use_cert_auth) [
    | inr u ↦ no_certificate u (same_history (rw (u, upload_if_needed) at e))
    | inl u ↦
        let (certificate_config, read, e₁) = lifts _ _ h (rw (u, upload_if_needed) at e) in
        let (bytes, encoded, e₂) = lifts _ _ h e₁ in
        let (content, file, conf) = read_certificate role.cert_path read in
        certificate content bytes u file (ap codec.marshal_certificate (sym conf) ∙ encoded)
          (waited-Completed env client fuel _ h e₂)
  ]

  Attempt-ok :
      {role : Role} {dns_name location : Text} {h g h' : History} {o : Outcome}
      → create_service codec host env client fuel dns_name location h ≡ (ok tt, g)
      → o ≡ (ok tt, h')
      → Attempt codec host env client fuel role dns_name g o
      → Running role dns_name location h h'
  unfolding create_service post_deployment create_vm_deployment_config
  Attempt-ok c q (compensated e g f p) = absurd (after_cleanup-ne-ok e _ (same_result (sym p ∙ q)))
  Attempt-ok {role} {dns_name} {location} {h} {g} {h'} c q (submitted id f s p) =
      let (service_id, posted, over) = waited-Completed env client fuel _ h c in
      record {
        service_id = service_id;
        posted_service =
            (create_hosted_service codec.hosted env client dns_name location [] dns_name [] h).1;
        service_created =
            create_hosted_service-Created codec.hosted env client dns_name location [] dns_name [] h
              (whole _ posted);
        created = g;
        service_ended = over;
        uploaded = s.between;
        certified = upload-Certified role dns_name g s.uploaded;
        bytes = s.bytes;
        encoded = s.encoded;
        id = id;
        accepted = f;
        posted = s.posted;
        ended = wait_async_operation_ok env client id fuel f h' (sym p ∙ q);
      }
  Attempt-ok {o = o} c q (fatal f) = absurd (fatal-ne-ok o.0 f (same_result q))

  parameter-ne-ok :
      {e : GoError} {h h' : History} {o : Outcome} → o ≡ (err e, h) → o ≡ (ok tt, h') → ⊥
  parameter-ne-ok p q = err-ne-ok (same_result (sym p ∙ q))

  Creation-ok :
      {role : Role} {dns_name location : Text} {h h' : History} {o : Outcome}
      → o ≡ (ok tt, h')
      → Creation codec host env client fuel role dns_name location h o
      → Running role dns_name location h h'
  Creation-ok q (parameter_missing m e p) = absurd (parameter-ne-ok p q)
  Creation-ok q (not_created p n) = absurd (n (same_result q))
  Creation-ok q (attempted g c a) = Attempt-ok c q a

  -- If `CreateAzureVM` returns no error, then the hosted service was created under the name in the
  -- location, by an operation that ended without failing; behind that, if the role asks for a
  -- certificate, its file was read and posted to the hosted service, by an operation that ended without
  -- failing, and otherwise nothing was done; behind that the encoded deployment, whose one role is the
  -- given one, was posted to the deployments of the service that has the role's name; and the operation
  -- with the id that this returned ended without failing.
  pub create_azure_vm-Running :
      (role : Role) (dns_name location : Text) (h h' : History)
      → create_azure_vm codec host env client fuel (some role) dns_name location h ≡ (ok tt, h')
      → Running role dns_name location h h'
  create_azure_vm-Running role dns_name location h h' e =
      Creation-ok e (create_azure_vm-Creation codec host env client fuel role dns_name location h)
