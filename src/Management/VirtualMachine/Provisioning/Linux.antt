-- ===== src/Management/VirtualMachine/Provisioning/Linux.antt =====
-- The configuration of a Linux machine with Docker, management/virtualmachine:
-- `AddAzureLinuxProvisioningConfig` followed by `SetAzureDockerVMExtension`.
use azure_sdk_for_go.Common.{
  List, [], ◌∷◌, some, ◌⊎◌, inl, inr, Bool, true, false, ◌≡◌, ◌≢◌, refl, sym, ap, ◌∙◌,
  if◌then◌else◌,
}
use azure_sdk_for_go.Common.Int.{ℤ, pos}
use azure_sdk_for_go.Common.Text.{Text, codes, is_empty, eq}
use azure_sdk_for_go.Management.{GoError}
use azure_sdk_for_go.Management.VirtualMachine.{
  InputEndpoint, PublicKey, ConfigurationSet, Role, Host,
}
use azure_sdk_for_go.Management.VirtualMachine.Endpoints.{create_endpoint, create_network_config}
use azure_sdk_for_go.Management.VirtualMachine.Provisioning.{
  ◌then_try◌, verify_password, choose_password, choose_ssh, provisioned,
  create_linux_provisioning_config, add_azure_linux_provisioning_config,
}

-- What stands behind two steps that succeeded.
pub then_try_ok :
    {A B : Type 0} (r : GoError ⊎ A) (k : A → GoError ⊎ B) {b : B}
    → (r then_try k) ≡ inr b
    → (a : A) × (r ≡ inr a) × (k a ≡ inr b)
then_try_ok (inl x) k e = cc
then_try_ok (inr a) k e = (a, refl, e)

-- The password that the machine gets: the dummy one, with the log-in by password switched off, where
-- the caller gives none; otherwise the caller's, which was accepted.
pub data Password (host : Host) (given used : Text) (disabled : Bool) : Type 0 where
  dummy :
      given ≡ [] → used ≡ codes "P@ssword1" → disabled ≡ true → Password host given used disabled
  verified :
      given ≢ []
      → verify_password host given ≡ inr tt
      → used ≡ given
      → disabled ≡ false
      → Password host given used disabled

inr-injective :
    {A B : Type 0} {a c : A} {b d : B}
    → ◌≡◌ {A = GoError ⊎ (A × B)} (inr (a, b)) (inr (c, d))
    → (c ≡ a) × (d ≡ b)
inr-injective e = (cc, cc)

choose_password-Password :
    (host : Host) (given : Text) {used : Text} {disabled : Bool}
    → choose_password host given ≡ inr (used, disabled)
    → Password host given used disabled
unfolding choose_password
choose_password-Password host [] e = let (u, d) = inr-injective e in dummy refl u d
choose_password-Password host (c ∷ cs) e =
    let (t, v, p) = then_try_ok (verify_password host (c ∷ cs)) (λ u. inr (c ∷ cs, false)) e in
    let (u, d) = inr-injective p in verified (λ q. cc) v u d

-- The configuration set for Linux.
abbrev pub linux_set : Role → Text → Text → Bool → List PublicKey → ConfigurationSet
linux_set role user_name used disabled ssh = record {
  configuration_set_type = codes "LinuxProvisioningConfiguration";
  host_name = role.role_name;
  user_name = user_name;
  user_password = used;
  disable_ssh_password_authentication = disabled;
  input_endpoints = [];
  ssh = ssh;
  custom_data = [];
}

-- A network configuration set with these endpoints.
abbrev pub network_set : List InputEndpoint → ConfigurationSet
network_set endpoints = record {
  configuration_set_type = codes "NetworkConfiguration";
  host_name = [];
  user_name = [];
  user_password = [];
  disable_ssh_password_authentication = false;
  input_endpoints = endpoints;
  ssh = [];
  custom_data = [];
}

-- The endpoint under which the machine's port 22 is reached.
abbrev pub ssh_endpoint : ℤ → InputEndpoint
ssh_endpoint port = record {
  local_port = pos 22;
  name = codes "ssh";
  port = port;
  protocol = codes "tcp";
  vip = [];
}

-- The role with these configuration sets; with a certificate path, it authenticates by it.
abbrev pub configured : Role → Text → List ConfigurationSet → Role
configured role cert_path sets = record {
  role_name = role.role_name;
  role_type = role.role_type;
  configuration_sets = sets;
  resource_extension_references = role.resource_extension_references;
  os_virtual_hard_disk = role.os_virtual_hard_disk;
  role_size = role.role_size;
  provision_guest_agent = role.provision_guest_agent;
  use_cert_auth = if is_empty cert_path then role.use_cert_auth else true;
  cert_path = if is_empty cert_path then role.cert_path else cert_path;
}

-- A role that was provisioned for Linux.
pub record Provisioned (host : Host) (role : Role) (user_name password cert_path : Text)
    (ssh_port : ℤ) (role' : Role) : Type 0 where
  pub used : Text
  pub disabled : Bool
  pub ssh : List PublicKey
  pub named : is_empty user_name ≡ false
  pub chosen : Password host password used disabled
  pub keys : choose_ssh host cert_path user_name ≡ inr ssh
  pub result :
      role'
      ≡ configured role cert_path (
          linux_set role user_name used disabled ssh
          ∷ network_set (ssh_endpoint ssh_port ∷ [])
          ∷ [])

provisioned-configured :
    (role : Role) (cert_path : Text) (s t : ConfigurationSet)
    → provisioned cert_path role s t ≡ configured role cert_path (s ∷ t ∷ [])
provisioned-configured role [] s t = refl
provisioned-configured role (c ∷ cs) s t = refl

-- If `AddAzureLinuxProvisioningConfig` returns no error, then there is a user name; the password is the
-- caller's, which was accepted, or, without one, the dummy password with the log-in by password switched
-- off; the SSH keys are those for the certificate; and the role has exactly the Linux configuration with
-- these and a network configuration with the one endpoint of SSH, the rest of it being as it was.
pub add_azure_linux_provisioning_config-Provisioned :
    (host : Host) (role : Role) (user_name password cert_path : Text) (ssh_port : ℤ) (role' : Role)
    → add_azure_linux_provisioning_config host (some role) user_name password cert_path ssh_port
      ≡ inr role'
    → Provisioned host role user_name password cert_path ssh_port role'
unfolding add_azure_linux_provisioning_config create_linux_provisioning_config create_network_config
    create_endpoint eq
add_azure_linux_provisioning_config-Provisioned host role [] password cert_path ssh_port role' e =
    cc
add_azure_linux_provisioning_config-Provisioned host role (c ∷ cs) password cert_path ssh_port role'
      e =
    let (set, made, rest) =
      then_try_ok (create_linux_provisioning_config host role.role_name (c ∷ cs) password cert_path)
        _ e in
    let (pair, chosen, rest') = then_try_ok (choose_password host password) _ made in
    let (ssh, keys, filled) = then_try_ok (choose_ssh host cert_path (c ∷ cs)) _ rest' in
    record {
      used = pair.0;
      disabled = pair.1;
      ssh = ssh;
      named = refl;
      chosen = choose_password-Password host password chosen;
      keys = keys;
      result =
          inr-lem (sym rest)
          ∙ (provisioned-configured role cert_path set _
              ∙ ap
                  (λ s.
                    configured role cert_path (s ∷ network_set (ssh_endpoint ssh_port ∷ []) ∷ []))
                  (inr-lem (sym filled)));
    }
  where
    inr-lem : {A : Type 0} {a b : A} → ◌≡◌ {A = GoError ⊎ A} (inr a) (inr b) → a ≡ b
    inr-lem p = cc
