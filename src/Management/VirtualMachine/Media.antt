-- ===== src/Management/VirtualMachine/Media.antt =====
-- The configuration of a new role, management/virtualmachine: `CreateAzureVMConfiguration`,
-- `createAzureVMRole`, `createOSVirtualHardDisk`, `getVHDMediaLink` and `newUUID`.
pub mod Names
pub mod Disk
pub mod Configuration
use azure_sdk_for_go.Common.{
  ℕ, zero, suc, ◌+◌, ◌/◌, ◌%◌, List, [], ◌∷◌, ◌++◌, Option, some, none, ◌⊎◌, inl, inr,
  if◌then◌else◌, Bool, true, false, drop, ltb, ◌||◌,
}
use azure_sdk_for_go.Common.Text.{Text, codes, is_empty, eq}
use azure_sdk_for_go.Go.{
  Result, ok, err, panic, stuck, History, Call, ◌>>=◌, ◌>>◌, return, lift, proceed,
}
use azure_sdk_for_go.Management.{GoError, message, Client, Env, param_not_specified}
use azure_sdk_for_go.Management.Calls.{require}
use azure_sdk_for_go.Management.Location.{Location, get_location}
use azure_sdk_for_go.Management.StorageService.{
  Account, get_storage_service_by_location, create_storage_service, get_blob_endpoint,
}
use azure_sdk_for_go.Management.Image.{resolve_image_name}
use azure_sdk_for_go.Management.VirtualMachine.{OsVirtualHardDisk, Role, Codec, Host}

-- `uuid[n] = f(uuid[n])`
abbrev pub update_byte : ℕ → (ℕ → ℕ) → Text → Text
update_byte n f [] = []
update_byte zero f (b ∷ bs) = f b ∷ bs
update_byte (suc n) f (b ∷ bs) = b ∷ update_byte n f bs

abbrev lower_hex : ℕ → ℕ
lower_hex n = if ltb n 10 then n + 48 else n + 87

-- `%x` of bytes
unfoldable pub lower_hex_text : Text → Text
lower_hex_text [] = []
lower_hex_text (b ∷ bs) = lower_hex (b / 16) ∷ lower_hex (b % 16) ∷ lower_hex_text bs

-- `newUUID` on the 16 bytes that were read. `x &^ 0xc0 | 0x80` keeps the low six bits and sets the
-- highest; `x &^ 0xf0 | 0x40` keeps the low four.
unfoldable pub uuid_text : Text → Text
unfolding lower_hex_text
uuid_text bytes =
    lower_hex_text
      (drop 10 (update_byte 6 (λ b. b % 16 + 64) (update_byte 8 (λ b. b % 64 + 128) bytes)))

unfoldable pub storage_service_name : Text → Text
unfolding uuid_text
storage_service_name bytes = codes "portalvhds" ++ uuid_text bytes

-- `isInstanceSizeAvailableInLocation` behind its test of the size.
unfoldable pub is_listed : Text → List Text → Bool
unfolding eq
is_listed instance_size [] = false
is_listed instance_size (size ∷ sizes) = eq size instance_size || is_listed instance_size sizes

unfoldable pub is_instance_size_available_in_location : Location → Text → GoError ⊎ Bool
unfolding is_listed
is_instance_size_available_in_location location instance_size =
    if is_empty instance_size
    then inl (param_not_specified (codes "vmSize"))
    else inr (is_listed instance_size location.virtual_machine_role_sizes)

abbrev pub not_in_location : Text → Text → GoError
not_in_location instance_size location = message (
    codes "Role size: "
    ++ (instance_size ++ (codes " not available in location: " ++ (location ++ codes "."))))

-- `if sizeAvailable == false`
abbrev pub refuse_size : Text → Text → Bool → Call GoError (Unit {0})
refuse_size instance_size location available =
    return (if available then ok tt else err (not_in_location instance_size location))

module _ (codec : Codec) (host : Host) (env : Env) (client : Client) where
  -- The account in the location, or a new one with a random name. `random_16` reads the random bytes.
  unfoldable pub account_in : ℕ → Text → Call GoError Account
  unfolding storage_service_name
  account_in fuel location = do
    existing ← get_storage_service_by_location codec.storage env client location
    elim existing [
      | some account ↦ return (ok account)
      | none ↦ λ h.
          (do
            bytes ← lift (host.random_16 h)
            create_storage_service codec.storage env client fuel (storage_service_name bytes)
                location)
            h
    ]

  unfoldable pub get_vhd_media_link : ℕ → Text → Text → Call GoError Text
  get_vhd_media_link fuel dns_name location = do
    account ← account_in fuel location
    blob_endpoint ← lift (get_blob_endpoint account)
    λ h. (
      ok (
          blob_endpoint
          ++ (codes "vhds/" ++ (dns_name ++ (b'-' ∷ (host.local_time h ++ codes ".vhd"))))),
      h,
    )

  unfoldable pub create_os_virtual_hard_disk :
      ℕ → Text → Text → Text → Call GoError OsVirtualHardDisk
  create_os_virtual_hard_disk fuel dns_name image_name location = do
    resolve_image_name codec.unmarshal_images env client image_name
    media_link ← get_vhd_media_link fuel dns_name location
    return (
        ok (record {
          media_link = media_link;
          source_image_name = image_name;
          host_caching = [];
          disk_name = [];
          os = [];
        }))

  unfoldable pub create_azure_vm_role : ℕ → Text → Text → Text → Text → Call GoError Role
  create_azure_vm_role fuel name instance_size image_name location = do
    disk ← create_os_virtual_hard_disk fuel name image_name location
    return (
        ok (record {
          role_name = name;
          role_type = codes "PersistentVMRole";
          configuration_sets = [];
          resource_extension_references = [];
          os_virtual_hard_disk = disk;
          role_size = instance_size;
          provision_guest_agent = true;
          use_cert_auth = false;
          cert_path = [];
        }))

  unfoldable pub create_azure_vm_configuration : ℕ → Text → Text → Text → Text → Call GoError Role
  unfolding is_instance_size_available_in_location
  create_azure_vm_configuration fuel dns_name instance_size image_name location = do
    require (codes "dnsName") dns_name
    require (codes "instanceSize") instance_size
    require (codes "imageName") image_name
    require (codes "location") location
    location_info ← get_location codec.hosted.unmarshal_locations env client location
    size_available ← lift (is_instance_size_available_in_location location_info instance_size)
    refuse_size instance_size location size_available
    create_azure_vm_role fuel dns_name instance_size image_name location
