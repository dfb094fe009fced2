-- ===== src/Management/Network/Configuration.antt =====
-- What stands behind a network configuration that was set, management/virtualnetwork.
use azure_sdk_for_go.Common.{ℕ, some, ◌⊎◌, inl, inr, ◌≡◌, Sum-cases}
use azure_sdk_for_go.Common.Text.{Text, codes}
use azure_sdk_for_go.Go.{ok, History, err-ne-ok}
use azure_sdk_for_go.Management.{GoError, Client, Env}
use azure_sdk_for_go.Management.Http.{send_azure_put_request}
use azure_sdk_for_go.Management.Calls.{Completed, and_wait-Completed}
use azure_sdk_for_go.Management.Network.{
  NetworkConfiguration, set_xml_namespaces, azure_network_configuration_url,
  set_virtual_network_configuration,
}

-- If `SetVirtualNetworkConfiguration` returns no error, then the configuration with its name spaces
-- set was encoded, the PUT request with these bytes returned an id, and the operation with this id
-- ended with a status that is neither "InProgress" nor "Failed".
pub set_virtual_network_configuration-Completed :
    (marshal : NetworkConfiguration → GoError ⊎ Text) (env : Env) (client : Client) (fuel : ℕ)
    (c : NetworkConfiguration) (h : History)
    → (set_virtual_network_configuration marshal env client fuel c h).0 ≡ ok tt
    → (bytes : Text) × (marshal (set_xml_namespaces c) ≡ inr bytes)
      × Completed env client
          (send_azure_put_request env client azure_network_configuration_url
            (codes "text/plain")
            (some bytes))
          h
          (set_virtual_network_configuration marshal env client fuel c h).1
unfolding set_virtual_network_configuration
set_virtual_network_configuration-Completed marshal env client fuel c h e =
    elim (Sum-cases (marshal (set_xml_namespaces c))) [
      | inl (x, m) ↦ absurd (err-ne-ok (rw m at e))
      | inr (bytes, m) ↦ (
        bytes,
        m,
        rw m (
            and_wait-Completed env client fuel
              (send_azure_put_request env client azure_network_configuration_url
                (codes "text/plain") (some bytes))
              h (rw m at e)),
      )
    ]
