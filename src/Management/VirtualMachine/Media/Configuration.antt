-- ===== src/Management/VirtualMachine/Media/Configuration.antt =====
-- The configuration that `CreateAzureVMConfiguration` of management/virtualmachine makes.
use azure_sdk_for_go.Common.{
  ℕ, List, [], ◌∷◌, ◌++◌, inl, inr, Bool, true, false, ◌≡◌, refl, sym, ap, subst, ◌∙◌, Bool-cases,
  arith,
}
use azure_sdk_for_go.Common.Text.{Text, codes, eq, eq_iff}
use azure_sdk_for_go.Go.{ok, History, Call, ◌>>◌, same_result, same_history, err-ne-ok}
use azure_sdk_for_go.Management.{GoError, Client, Env}
use azure_sdk_for_go.Management.Location.{Location, get_location}
use azure_sdk_for_go.Management.VirtualMachine.{OsVirtualHardDisk, Role, Codec, Host}
use azure_sdk_for_go.Management.VirtualMachine.Media.{
  is_listed, is_instance_size_available_in_location, create_os_virtual_hard_disk,
  create_azure_vm_role, refuse_size, create_azure_vm_configuration,
}
use azure_sdk_for_go.Management.Calls.{proceeds, requires, lifts, inr-injective, ok-injective}
use azure_sdk_for_go.Management.VirtualMachine.Media.Disk.{DiskMade, disk_made}

-- The text is one of the list.
abbrev pub IsOneOf : Text → List Text → Type 0
IsOneOf t ts = (before : List Text) × (after : List Text) × (ts ≡ before ++ (t ∷ after))

IsOneOf-cons : {t : Text} {ts : List Text} (s : Text) → IsOneOf t ts → IsOneOf t (s ∷ ts)
IsOneOf-cons s (before, after, e) = (s ∷ before, after, ap (◌∷◌ s) e)

is_listed-IsOneOf : (t : Text) (ts : List Text) → is_listed t ts ≡ true → IsOneOf t ts
unfolding is_listed
is_listed-IsOneOf t [] e = cc
is_listed-IsOneOf t (s ∷ ts) e = elim (Bool-cases (eq s t)) [
  | inl q ↦ ([], ts, ap (λ x. x ∷ ts) ((eq_iff s t).0 q))
  | inr q ↦ IsOneOf-cons s (is_listed-IsOneOf t ts (ground arith))
]

size_is_listed :
    (location : Location) (size : Text) {available : Bool}
    → is_instance_size_available_in_location location size ≡ inr available
    → available ≡ true
    → IsOneOf size location.virtual_machine_role_sizes
unfolding is_instance_size_available_in_location
size_is_listed location [] e t = cc
size_is_listed location (c ∷ cs) e t =
    is_listed-IsOneOf (c ∷ cs) location.virtual_machine_role_sizes (inr-injective e ∙ t)

refuse_size_ok :
    (size location : Text) (available : Bool) (k : Call GoError Role) (h : History) {role : Role}
    {h' : History}
    → (refuse_size size location available >> k) h ≡ (ok role, h')
    → (available ≡ true) × (k h ≡ (ok role, h'))
refuse_size_ok size location true k h e = (refl, e)
refuse_size_ok size location false k h e = absurd (err-ne-ok (same_result e))

module _ (codec : Codec) (host : Host) (env : Env) (client : Client) (fuel : ℕ) where
  -- What stands behind a configuration that was made.
  pub record Configuration (dns_name instance_size image_name location : Text) (h : History)
      (role : Role) (h' : History) : Type 0 where
    pub info : Location
    pub located_at : History
    pub located :
        get_location codec.hosted.unmarshal_locations env client location h ≡ (ok info, located_at)
    pub offered : IsOneOf instance_size info.virtual_machine_role_sizes
    pub disk : OsVirtualHardDisk
    pub made : DiskMade codec host env client fuel dns_name image_name location located_at disk h'
    pub result : role ≡ record {
      role_name = dns_name;
      role_type = codes "PersistentVMRole";
      configuration_sets = [];
      resource_extension_references = [];
      os_virtual_hard_disk = disk;
      role_size = instance_size;
      provision_guest_agent = true;
      use_cert_auth = false;
      cert_path = [];
    }

  -- If `CreateAzureVMConfiguration` returns a role, then the location was found and offers the size; the
  -- image was found; the account for the disk is one in the location, or a new one with a random name,
  -- and has a blob endpoint; and the role has the name, the size, and a disk for the image that is kept
  -- below that endpoint, under the name and the time, and no configuration set or extension yet.
  pub create_azure_vm_configuration_ok :
      (dns_name instance_size image_name location : Text) (h : History) (role : Role) (h' : History)
      → create_azure_vm_configuration codec host env client fuel dns_name instance_size image_name
          location h
        ≡ (ok role, h')
      → Configuration dns_name instance_size image_name location h role h'
  unfolding create_azure_vm_configuration create_azure_vm_role
  create_azure_vm_configuration_ok dns_name instance_size image_name location h role h' e =
      let (n1, e1) = requires (codes "dnsName") dns_name _ h e in
      let (n2, e2) = requires (codes "instanceSize") instance_size _ h e1 in
      let (n3, e3) = requires (codes "imageName") image_name _ h e2 in
      let (n4, e4) = requires (codes "location") location _ h e3 in
      let (info, g1, located, e5) =
        proceeds (get_location codec.hosted.unmarshal_locations env client location h) _ e4 in
      let (available, tested, e6) =
        lifts (is_instance_size_available_in_location info instance_size) _ g1 e5 in
      let (offered, e7) = refuse_size_ok instance_size location available _ g1 e6 in
      let (disk, g2, made, e8) =
        proceeds
          (create_os_virtual_hard_disk codec host env client fuel dns_name image_name location g1) _
          e7 in
      record {
        info = info;
        located_at = g1;
        located = located;
        offered = size_is_listed info instance_size tested offered;
        disk = disk;
        made =
            subst (DiskMade codec host env client fuel dns_name image_name location g1 disk)
              (same_history e8)
              (disk_made codec host env client fuel dns_name image_name location g1 made);
        result = sym (ok-injective (same_result e8));
      }
