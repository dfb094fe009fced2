-- ===== src/Management/VirtualMachine/Endpoints.antt =====
-- Endpoints of a role, management/virtualmachine: `createEndpoint`, `createNetworkConfig` and
-- `addDockerPort`.
pub mod Docker
use azure_sdk_for_go.Common.{
  List, [], ◌∷◌, ◌++◌, ◌⊎◌, inl, inr, if◌then◌else◌, Bool, true, false, map,
}
use azure_sdk_for_go.Common.Int.{ℤ, pos}
use azure_sdk_for_go.Common.Text.{Text, codes, eq, is_empty}
use azure_sdk_for_go.Management.{GoError, message}
use azure_sdk_for_go.Management.VirtualMachine.{InputEndpoint, ConfigurationSet}

abbrev pub os_linux : Text
os_linux = codes "Linux"

abbrev pub os_windows : Text
os_windows = codes "Windows"

unfoldable pub create_endpoint : Text → Text → ℤ → ℤ → InputEndpoint
create_endpoint name protocol external_port internal_port = record {
  local_port = internal_port;
  name = name;
  port = external_port;
  protocol = protocol;
  vip = [];
}

-- `var endpoint InputEndpoint`
abbrev pub no_endpoint : InputEndpoint
no_endpoint = record { local_port = pos 0; name = []; port = pos 0; protocol = []; vip = [] }

-- `ConfigurationSet{}`
abbrev pub empty_configuration_set : ConfigurationSet
empty_configuration_set = record {
  configuration_set_type = [];
  host_name = [];
  user_name = [];
  user_password = [];
  disable_ssh_password_authentication = false;
  input_endpoints = [];
  ssh = [];
  custom_data = [];
}

abbrev pub network_configuration : Text
network_configuration = codes "NetworkConfiguration"

abbrev network_with : InputEndpoint → ConfigurationSet
network_with endpoint = record empty_configuration_set {
  configuration_set_type = network_configuration;
  input_endpoints = endpoint ∷ [];
}

-- For Windows the endpoint is left at its zero value, and is still appended.
unfoldable pub create_network_config : Text → ℤ → GoError ⊎ ConfigurationSet
unfolding eq create_endpoint
create_network_config os ssh_port =
    if eq os os_linux
    then inr (network_with (create_endpoint (codes "ssh") (codes "tcp") ssh_port (pos 22)))
    else if eq os os_windows
    then inr (network_with no_endpoint)
    else inl (
        message (codes "You must specify correct OS param. Valid values are 'Linux' and 'Windows'"))

-- The body of the loop of `addDockerPort`.
unfoldable pub with_docker_port : ℤ → ConfigurationSet → ConfigurationSet
unfolding eq create_endpoint
with_docker_port docker_port set =
    if eq set.configuration_set_type network_configuration
    then record set {
      input_endpoints =
          set.input_endpoints
          ++ (create_endpoint (codes "docker") (codes "tcp") docker_port docker_port ∷ []);
    }
    else set

-- The loop writes to the elements of the caller's slice: the result is what the slice holds then.
unfoldable pub add_docker_port : List ConfigurationSet → ℤ → GoError ⊎ List ConfigurationSet
add_docker_port [] docker_port =
    inl (message (codes "You should set azure VM provisioning config first"))
add_docker_port (s ∷ sets) docker_port = inr (map (with_docker_port docker_port) (s ∷ sets))
