-- ===== src/Management/VirtualMachine/Provisioning.antt =====
-- The provisioning of a role, management/virtualmachine: `verifyPassword`, the certificate's checks,
-- `createLinuxProvisioningConfig` and `AddAzureLinuxProvisioningConfig`.
pub mod Password
pub mod Linux
use azure_sdk_for_go.Common.{
  ℕ, ◌+◌, ◌/◌, ◌%◌, List, [], ◌∷◌, ◌++◌, Option, some, none, ◌⊎◌, inl, inr, if◌then◌else◌, Bool,
  true, false, ltb, length, ◌||◌, ◌==◌,
}
use azure_sdk_for_go.Common.Int.{ℤ}
use azure_sdk_for_go.Common.Text.{Text, codes, eq, is_empty}
use azure_sdk_for_go.Management.{GoError, message, param_not_specified}
use azure_sdk_for_go.Management.VirtualMachine.{PublicKey, ConfigurationSet, Role, Host}
use azure_sdk_for_go.Management.VirtualMachine.Endpoints.{
  os_linux, empty_configuration_set, create_network_config,
}

-- The errors of a Go function that does not act on the world, in sequence.
infixl 5 ◌then_try◌
abbrev pub ◌then_try◌ : {A B : Type 0} → GoError ⊎ A → (A → GoError ⊎ B) → GoError ⊎ B
inl e then_try f = inl e
inr a then_try f = f a

abbrev pub invalid_password_length : GoError
invalid_password_length = message (codes "Password must be between 4 and 30 characters.")

abbrev pub invalid_password : GoError
invalid_password =
    message (codes "Password must have at least one upper case, lower case and numeric character.")

-- The inner loop: does one rune belong to the class?
unfoldable pub has_class : (ℕ → Bool) → List ℕ → Bool
has_class is_one_of [] = false
has_class is_one_of (r ∷ rs) = is_one_of r || has_class is_one_of rs

-- The outer loop, over the classes in the order in which the map hands them out.
unfoldable pub check_classes : List (ℕ → Bool) → List ℕ → GoError ⊎ Unit {0}
unfolding has_class
check_classes [] password = inr tt
check_classes (c ∷ classes) password =
    if has_class c password then check_classes classes password else inl invalid_password

-- The length is that of the bytes.
unfoldable pub verify_password : Host → Text → GoError ⊎ Unit {0}
unfolding check_classes
verify_password host password =
    if ltb (length password) 4 || ltb 30 (length password)
    then inl invalid_password_length
    else check_classes (host.is_upper ∷ host.is_lower ∷ host.is_number ∷ []) (host.runes password)

-- `certParts[len(certParts)-1]` of `strings.Split(certPath, ".")`: what stands behind the last dot.
unfoldable pub cert_extension : Text → Text → Text
cert_extension part [] = part
cert_extension part (c ∷ cs) = cert_extension (if c == b'.' then [] else part ++ (c ∷ [])) cs

unfoldable pub check_service_cert_extension : Text → GoError ⊎ Unit {0}
unfolding cert_extension eq
check_service_cert_extension cert_path =
    if eq (cert_extension [] cert_path) (codes "pem")
    then inr tt
    else inl (
        message (
          codes "Certificate "
          ++ (cert_path ++ codes " is invalid. Please specify pem certificate.")))

abbrev upper_hex : ℕ → ℕ
upper_hex n = if ltb n 10 then n + 48 else n + 55

-- `%X` of bytes
unfoldable pub upper_hex_text : Text → Text
upper_hex_text [] = []
upper_hex_text (b ∷ bs) = upper_hex (b / 16) ∷ upper_hex (b % 16) ∷ upper_hex_text bs

unfoldable pub get_service_cert_fingerprint : Host → Text → GoError ⊎ Text
unfolding upper_hex_text
get_service_cert_fingerprint host cert_path = host.read_file cert_path then_try λ cert_data.
    let (block, rest) = host.pem_decode cert_data in
    elim block [
      | none ↦ inl (message rest)
      | some bytes ↦ inr (upper_hex_text (host.sha1_sum bytes))
    ]

unfoldable pub create_ssh_config : Host → Text → Text → GoError ⊎ List PublicKey
unfolding check_service_cert_extension
create_ssh_config host cert_path user_name = check_service_cert_extension cert_path then_try λ u.
    get_service_cert_fingerprint host cert_path then_try λ fingerprint. inr (
      record {
        fingerprint = fingerprint;
        path = codes "/home/" ++ (user_name ++ codes "/.ssh/authorized_keys");
      }
      ∷ [])

-- The password that is used, and whether logging in by it is switched off.
unfoldable pub choose_password : Host → Text → GoError ⊎ (Text × Bool)
choose_password host [] = inr (codes "P@ssword1", true)
choose_password host (c ∷ cs) = verify_password host (c ∷ cs) then_try λ u. inr (c ∷ cs, false)

-- `if len(certPath) > 0`
unfoldable pub choose_ssh : Host → Text → Text → GoError ⊎ List PublicKey
choose_ssh host cert_path user_name =
    if is_empty cert_path then inr [] else create_ssh_config host cert_path user_name

unfoldable pub create_linux_provisioning_config :
    Host → Text → Text → Text → Text → GoError ⊎ ConfigurationSet
create_linux_provisioning_config host dns_name user_name user_password cert_path =
    choose_password host user_password then_try λ (chosen : Text × Bool).
    choose_ssh host cert_path user_name then_try λ ssh. inr (record empty_configuration_set {
      configuration_set_type = codes "LinuxProvisioningConfiguration";
      host_name = dns_name;
      user_name = user_name;
      user_password = chosen.0;
      disable_ssh_password_authentication = chosen.1;
      ssh = ssh;
    })

-- The role with the two configuration sets, and with the certificate if there is one.
abbrev provisioned : Text → Role → ConfigurationSet → ConfigurationSet → Role
provisioned cert_path role provisioning_config network_config =
    let set : Role = record role {
      configuration_sets = provisioning_config ∷ network_config ∷ [];
    } in
    if is_empty cert_path then set else record set { use_cert_auth = true; cert_path = cert_path }

-- The role is changed in place, behind the last error; the result is the changed role. The network
-- configuration for Linux has no error; the code would return the nil `err` for it.
unfoldable pub add_azure_linux_provisioning_config :
    Host → Option Role → Text → Text → Text → ℤ → GoError ⊎ Role
add_azure_linux_provisioning_config host none user_name password cert_path ssh_port =
    inl (param_not_specified (codes "azureVMConfiguration"))
add_azure_linux_provisioning_config host (some role) user_name password cert_path ssh_port =
    if is_empty user_name
    then inl (param_not_specified (codes "userName"))
    else (create_linux_provisioning_config host role.role_name user_name password cert_path
        then_try λ provisioning_config.
            create_network_config os_linux ssh_port then_try λ network_config.
            inr (provisioned cert_path role provisioning_config network_config))
