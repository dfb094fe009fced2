-- ===== src/Management/VirtualMachine/Creation/Attempts.antt =====
-- How an attempt to create a virtual machine goes, management/virtualmachine: `CreateAzureVM`.
use azure_sdk_for_go.Common.{
  ℕ, some, ◌⊎◌, inl, inr, true, ◌≡◌, ◌≢◌, refl, sym, Bool-cases, Sum-cases,
}
use azure_sdk_for_go.Common.Text.{Text, is_empty}
use azure_sdk_for_go.Go.{Result, ok, err, panic, stuck, History, lift, proceed}
use azure_sdk_for_go.Management.{GoError, Client, Env}
use azure_sdk_for_go.Management.Operations.{wait_async_operation}
use azure_sdk_for_go.Management.Calls.{require}
use azure_sdk_for_go.Management.HostedService.{delete_hosted_service}
use azure_sdk_for_go.Management.VirtualMachine.{Role, Codec, Host}
use azure_sdk_for_go.Management.VirtualMachine.Creation.{
  create_vm_deployment_config, after_cleanup, settle, or_delete, upload_if_needed, post_deployment,
  deploy, create_service, create_azure_vm,
}

-- Outcomes that end a Go program, or the model's fuel.
abbrev pub IsFatal : Result GoError (Unit {0}) → Type 0
IsFatal panic = Unit
IsFatal stuck = Unit
IsFatal (ok u) = ⊥
IsFatal (err e) = ⊥

abbrev pub Outcome : Type 0
Outcome = Result GoError (Unit {0}) × History

module _ (codec : Codec) (host : Host) (env : Env) (client : Client) (fuel : ℕ) where
  -- Between the creation of the hosted service and the wait for the deployment a step failed with an
  -- error, and the steps before it succeeded.
  pub data Fails (role : Role) (dns_name : Text) (h : History) (e : GoError) (g : History)
      : Type 0 where
    upload_fails :
        upload_if_needed codec host env client fuel role dns_name h ≡ (err e, g)
        → Fails role dns_name h e g
    encoding_fails :
        upload_if_needed codec host env client fuel role dns_name h ≡ (ok tt, g)
        → codec.marshal_deployment (create_vm_deployment_config role) ≡ inl e
        → Fails role dns_name h e g
    posting_fails :
        (bytes : Text) (f : History)
        → upload_if_needed codec host env client fuel role dns_name h ≡ (ok tt, f)
        → codec.marshal_deployment (create_vm_deployment_config role) ≡ inr bytes
        → post_deployment codec host env client fuel role bytes f ≡ (err e, g)
        → Fails role dns_name h e g

  -- All three steps succeeded: the certificate was uploaded if there is one, and the service accepted
  -- the encoded deployment as the operation `id`.
  pub record Submits (role : Role) (dns_name : Text) (h : History) (id : Text) (g : History)
      : Type 0 where
    pub bytes : Text
    pub between : History
    pub uploaded : upload_if_needed codec host env client fuel role dns_name h ≡ (ok tt, between)
    pub encoded : codec.marshal_deployment (create_vm_deployment_config role) ≡ inr bytes
    pub posted : post_deployment codec host env client fuel role bytes between ≡ (ok id, g)

  -- A step failed, and the hosted service was deleted right behind it; or all succeeded, and the
  -- outcome is that of the wait for the deployment; or a step was fatal.
  pub data Attempt (role : Role) (dns_name : Text) (h : History) (o : Outcome) : Type 0 where
    compensated :
        (e : GoError) (g : History)
        → Fails role dns_name h e g
        → o ≡ (
          after_cleanup e (delete_hosted_service codec.hosted env client fuel dns_name g).0,
          (delete_hosted_service codec.hosted env client fuel dns_name g).1,
        )
        → Attempt role dns_name h o
    submitted :
        (id : Text) (g : History)
        → Submits role dns_name h id g
        → o ≡ wait_async_operation env client fuel id g
        → Attempt role dns_name h o
    fatal : IsFatal o.0 → Attempt role dns_name h o

  -- How a step ended.
  Step-cases :
      {A : Type 0} (p : Result GoError A × History)
      → ((a : A) × (g : History) × (p ≡ (ok a, g)))
        ⊎ (((e : GoError) × (g : History) × (p ≡ (err e, g)))
            ⊎ (((g : History) × (p ≡ (panic, g))) ⊎ ((g : History) × (p ≡ (stuck, g)))))
  Step-cases (ok a, g) = inl (a, g, refl)
  Step-cases (err e, g) = inr (inl (e, g, refl))
  Step-cases (panic, g) = inr (inr (inl (g, refl)))
  Step-cases (stuck, g) = inr (inr (inr (g, refl)))

  module _ (role : Role) (dns_name : Text) (h g : History)
      (u : upload_if_needed codec host env client fuel role dns_name h ≡ (ok tt, g)) where
    posting-Attempt :
        (bytes : Text)
        → codec.marshal_deployment (create_vm_deployment_config role) ≡ inr bytes
        → Attempt role dns_name h (
            or_delete codec host env client fuel dns_name
              (post_deployment codec host env client fuel role bytes)
              (wait_async_operation env client fuel)
              g)
    unfolding settle
    posting-Attempt bytes m =
        elim (Step-cases (post_deployment codec host env client fuel role bytes g)) [
          | inl (id, f, p) ↦
              submitted id f
                (record { bytes = bytes; between = g; uploaded = u; encoded = m; posted = p })
                (rw (p, settle) refl)
          | inr (inl (e, f, p)) ↦
              compensated e f (posting_fails bytes g u m p) (rw (p, settle) refl)
          | inr (inr (inl (f, p))) ↦ rw (p, settle) (fatal tt)
          | inr (inr (inr (f, p))) ↦ rw (p, settle) (fatal tt)
        ]

    encoding-Attempt : Attempt role dns_name h (
        or_delete codec host env client fuel dns_name
          (lift (codec.marshal_deployment (create_vm_deployment_config role)))
          (λ bytes.
            or_delete codec host env client fuel dns_name
              (post_deployment codec host env client fuel role bytes)
              (wait_async_operation env client fuel))
          g)
    unfolding settle
    encoding-Attempt =
        elim (Sum-cases (codec.marshal_deployment (create_vm_deployment_config role))) [
          | inl (e, m) ↦ rw (m, settle) (compensated e g (encoding_fails u m) refl)
          | inr (bytes, m) ↦ rw (m, settle) (posting-Attempt bytes m)
        ]

  deploy-Attempt :
      (role : Role) (dns_name : Text) (h : History)
      → Attempt role dns_name h (deploy codec host env client fuel role dns_name h)
  unfolding deploy settle
  deploy-Attempt role dns_name h =
      elim (Step-cases (upload_if_needed codec host env client fuel role dns_name h)) [
        | inr (inl (e, g, u)) ↦ rw (u, settle) (compensated e g (upload_fails u) refl)
        | inr (inr (inl (g, u))) ↦ rw (u, settle) (fatal tt)
        | inr (inr (inr (g, u))) ↦ rw (u, settle) (fatal tt)
        | inl (t, g, u) ↦ rw (u, settle) (encoding-Attempt role dns_name h g u)
      ]

  -- The whole call: a parameter is missing and nothing is done; or the hosted service was not created
  -- and that is the outcome; or it was, and the attempt to deploy to it is made.
  pub data Creation (role : Role) (dns_name location : Text) (h : History) (o : Outcome)
      : Type 0 where
    parameter_missing :
        (is_empty dns_name ≡ true) ⊎ (is_empty location ≡ true)
        → (e : GoError) → o ≡ (err e, h)
        → Creation role dns_name location h o
    not_created :
        o ≡ create_service codec host env client fuel dns_name location h
        → o.0 ≢ ok tt
        → Creation role dns_name location h o
    attempted :
        (g : History)
        → create_service codec host env client fuel dns_name location h ≡ (ok tt, g)
        → Attempt role dns_name g o
        → Creation role dns_name location h o

  after_service :
      (role : Role) (dns_name location : Text) (h : History)
      → Creation role dns_name location h (
          proceed
            (create_service codec host env client fuel dns_name location h)
            (λ u. deploy codec host env client fuel role dns_name))
  after_service role dns_name location h =
      elim (Step-cases (create_service codec host env client fuel dns_name location h)) [
        | inl (t, g, c) ↦ rw c (attempted g c (deploy-Attempt role dns_name g))
        | inr (inl (e, g, c)) ↦ rw c (not_created (sym c) (λ q. cc))
        | inr (inr (inl (g, c))) ↦ rw c (not_created (sym c) (λ q. cc))
        | inr (inr (inr (g, c))) ↦ rw c (not_created (sym c) (λ q. cc))
      ]

  -- `CreateAzureVM` with a configuration ends in one of these ways: with an error and nothing done, where
  -- a parameter is empty; with the outcome of creating the hosted service, where that did not succeed;
  -- and otherwise, if uploading the certificate, encoding or posting the deployment fails, with that
  -- error, the hosted service being deleted right behind the failure; or with the outcome of the wait
  -- for the posted deployment; or with a panic or the end of the fuel.
  pub create_azure_vm-Creation :
      (role : Role) (dns_name location : Text) (h : History)
      → Creation role dns_name location h
          (create_azure_vm codec host env client fuel (some role) dns_name location h)
  unfolding create_azure_vm require
  create_azure_vm-Creation role dns_name location h = elim (Bool-cases (is_empty dns_name)) [
    | inl d ↦ rw d (parameter_missing (inl d) _ refl)
    | inr d ↦ elim (Bool-cases (is_empty location)) [
      | inl l ↦ rw (d, l) (parameter_missing (inr l) _ refl)
      | inr l ↦ rw (d, l) (after_service role dns_name location h)
    ]
  ]
