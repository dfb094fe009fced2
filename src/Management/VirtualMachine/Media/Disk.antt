-- ===== src/Management/VirtualMachine/Media/Disk.antt =====
-- The disk of a new role, management/virtualmachine: `createOSVirtualHardDisk` and `getVHDMediaLink`.
use azure_sdk_for_go.Common.{ℕ, [], ◌++◌, Option, some, none, inr, ◌≡◌, sym, ap, subst, ◌∙◌}
use azure_sdk_for_go.Common.Text.{Text, codes}
use azure_sdk_for_go.Go.{Result, ok, History, same_result, same_history}
use azure_sdk_for_go.Management.{GoError, Client, Env}
use azure_sdk_for_go.Management.StorageService.{
  Account, get_storage_service_by_location, create_storage_service, get_blob_endpoint,
}
use azure_sdk_for_go.Management.Image.{resolve_image_name}
use azure_sdk_for_go.Management.VirtualMachine.{OsVirtualHardDisk, Codec, Host}
use azure_sdk_for_go.Management.VirtualMachine.Media.{
  storage_service_name, account_in, get_vhd_media_link, create_os_virtual_hard_disk,
}
use azure_sdk_for_go.Management.Calls.{proceeds, lifts, ok-injective}

module _ (codec : Codec) (host : Host) (env : Env) (client : Client) (fuel : ℕ) where
  -- The account for the disk: the one found in the location; or else a new one, named by random bytes.
  pub data Chosen (location : Text) (h : History) (account : Account) (h' : History) : Type 0 where
    existing :
        get_storage_service_by_location codec.storage env client location h
          ≡ (ok (some account), h')
        → Chosen location h account h'
    new :
        (bytes : Text) (g : History)
        → get_storage_service_by_location codec.storage env client location h ≡ (ok none, g)
        → host.random_16 g ≡ inr bytes
        → create_storage_service codec.storage env client fuel
            (storage_service_name bytes)
            location
            g
          ≡ (ok account, h')
        → Chosen location h account h'

  choose :
      (location : Text) (h g : History) (found : Option Account) {account : Account} {h' : History}
      → get_storage_service_by_location codec.storage env client location h ≡ (ok found, g)
      → account_in codec host env client fuel location h ≡ (ok account, h')
      → Chosen location h account h'
  unfolding account_in
  choose location h g (some a) {account = account} {h' = h'} p e =
      let q : ◌≡◌ {A = Result GoError Account × History} (ok a, g) (ok account, h') = rw p at e in
      let x : a ≡ account = ok-injective (same_result q) in
      let y : g ≡ h' = same_history q in existing (rw (x, y) at p)
  choose location h g none p e =
      let (bytes, random, made) = lifts (host.random_16 g) _ g (rw p at e) in
      new bytes g p random made

  account_in-Chosen :
      (location : Text) (h : History) {account : Account} {h' : History}
      → account_in codec host env client fuel location h ≡ (ok account, h')
      → Chosen location h account h'
  unfolding account_in
  account_in-Chosen location h e =
      let (found, g, p, rest) =
        proceeds (get_storage_service_by_location codec.storage env client location h) _ e in
      choose location h g found p e

  -- What stands behind the disk of a new role.
  pub record DiskMade (dns_name image_name location : Text) (h : History) (disk : OsVirtualHardDisk)
      (h' : History) : Type 0 where
    pub account : Account
    pub endpoint : Text
    pub resolved_at : History
    pub resolved :
        resolve_image_name codec.unmarshal_images env client image_name h ≡ (ok tt, resolved_at)
    pub chosen : Chosen location resolved_at account h'
    pub stored : get_blob_endpoint account ≡ inr endpoint
    pub result : disk ≡ record {
      media_link =
          endpoint
          ++ (codes "vhds/" ++ (dns_name ++ (codes "-" ++ (host.local_time h' ++ codes ".vhd"))));
      source_image_name = image_name;
      host_caching = [];
      disk_name = [];
      os = [];
    }

  pub disk_made :
      (dns_name image_name location : Text) (h : History) {disk : OsVirtualHardDisk} {h' : History}
      → create_os_virtual_hard_disk codec host env client fuel dns_name image_name location h
        ≡ (ok disk, h')
      → DiskMade dns_name image_name location h disk h'
  unfolding create_os_virtual_hard_disk get_vhd_media_link
  disk_made dns_name image_name location h {disk = disk} {h' = h'} e =
      let (u, g1, resolved, e1) =
        proceeds (resolve_image_name codec.unmarshal_images env client image_name h) _ e in
      let (link, g2, linked, e2) =
        proceeds (get_vhd_media_link codec host env client fuel dns_name location g1) _ e1 in
      let (account, g3, chosen, e3) =
        proceeds (account_in codec host env client fuel location g1) _ linked in
      let (endpoint, stored, e4) = lifts (get_blob_endpoint account) _ g3 e3 in
      let history : g3 ≡ h' = same_history e4 ∙ same_history e2 in
      record {
        account = account;
        endpoint = endpoint;
        resolved_at = g1;
        resolved = resolved;
        chosen = subst (Chosen location g1 account) history (account_in-Chosen location g1 chosen);
        stored = stored;
        result =
            sym (ok-injective (same_result e2))
            ∙ (ap (disk_at image_name) (sym (ok-injective (same_result e4)))
                ∙ ap
                    (λ (t : History). disk_at image_name (
                      endpoint
                      ++ (codes "vhds/"
                          ++ (dns_name ++ (codes "-" ++ (host.local_time t ++ codes ".vhd"))))))
                    history);
      }
    where
      disk_at : Text → Text → OsVirtualHardDisk
      disk_at image link = record {
        media_link = link;
        source_image_name = image;
        host_caching = [];
        disk_name = [];
        os = [];
      }
