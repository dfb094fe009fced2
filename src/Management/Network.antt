-- ===== src/Management/Network.antt =====
-- The virtual networks of a subscription, management/virtualnetwork.
pub mod Configuration
use azure_sdk_for_go.Common.{ℕ, List, [], ◌∷◌, Option, some, none, ◌⊎◌, inl, inr, if◌then◌else◌}
use azure_sdk_for_go.Common.Text.{Text, codes}
use azure_sdk_for_go.Go.{Result, ok, err, panic, stuck, Call, ◌>>=◌, return, lift, proceed}
use azure_sdk_for_go.Management.{GoError, Client, Env}
use azure_sdk_for_go.Management.Http.{send_azure_get_request, send_azure_put_request}
use azure_sdk_for_go.Management.Calls.{and_wait}

pub record DnsServer : Type 0 where
  pub name : Text
  pub ip_address : Text

pub record AddressSpace : Type 0 where
  pub address_prefix : List Text

pub record Subnet : Type 0 where
  pub name : Text
  pub address_prefix : Text

pub record LocalNetworkSite : Type 0 where
  pub name : Text
  pub vpn_gateway_address : Text
  pub address_space : AddressSpace

-- The references to DNS servers are given by their names.
pub record VirtualNetworkSite : Type 0 where
  pub name : Text
  pub location : Text
  pub address_space : AddressSpace
  pub subnets : List Subnet
  pub dns_servers_ref : List Text

pub record VirtualNetworkConfiguration : Type 0 where
  pub dns_servers : List DnsServer
  pub local_network_sites : List LocalNetworkSite
  pub virtual_network_sites : List VirtualNetworkSite

pub record NetworkConfiguration : Type 0 where
  pub xml_namespace_xsd : Text
  pub xml_namespace_xsi : Text
  pub xmlns : Text
  pub configuration : VirtualNetworkConfiguration

-- `setXmlNamespaces`
unfoldable pub set_xml_namespaces : NetworkConfiguration → NetworkConfiguration
set_xml_namespaces c = record c {
  xml_namespace_xsd = codes "http://www.w3.org/2001/XMLSchema";
  xml_namespace_xsi = codes "http://www.w3.org/2001/XMLSchema-instance";
  xmlns = codes "http://schemas.microsoft.com/ServiceHosting/2011/07/NetworkConfiguration";
}

unfoldable pub new_network_configuration : NetworkConfiguration
unfolding set_xml_namespaces
new_network_configuration = set_xml_namespaces (record {
  xml_namespace_xsd = [];
  xml_namespace_xsi = [];
  xmlns = [];
  configuration = record { dns_servers = []; local_network_sites = []; virtual_network_sites = [] };
})

abbrev pub azure_network_configuration_url : Text
azure_network_configuration_url = codes "services/networking/media"

-- The body is decoded into a configuration whose name spaces are set already, so the decoder is given
-- that too.
unfoldable pub get_virtual_network_configuration :
    (NetworkConfiguration → Text → GoError ⊎ NetworkConfiguration)
    → Env
    → Client
    → Call GoError NetworkConfiguration
unfolding new_network_configuration
get_virtual_network_configuration unmarshal env client = do
  response ← send_azure_get_request env client azure_network_configuration_url
  lift (unmarshal new_network_configuration response)

unfoldable pub set_virtual_network_configuration :
    (NetworkConfiguration → GoError ⊎ Text)
    → Env
    → Client
    → ℕ
    → NetworkConfiguration
    → Call GoError (Unit {0})
unfolding set_xml_namespaces
set_virtual_network_configuration marshal env client fuel network_configuration = do
  network_configuration_bytes ← lift (marshal (set_xml_namespaces network_configuration))
  and_wait env client fuel (
      send_azure_put_request env client azure_network_configuration_url (codes "text/plain")
        (some network_configuration_bytes))
