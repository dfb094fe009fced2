-- ===== src/Management/VirtualMachine/Endpoints/Docker.antt =====
-- The endpoints of a role once the Docker port is added, management/virtualmachine.
use azure_sdk_for_go.Common.{
  List, [], ◌∷◌, ◌++◌, ◌⊎◌, inl, inr, Bool, true, false, ◌≡◌, ◌≢◌, refl, Bool-cases, map,
}
use azure_sdk_for_go.Common.Int.{ℤ}
use azure_sdk_for_go.Common.Text.{codes, eq, eq_iff}
use azure_sdk_for_go.Management.{GoError}
use azure_sdk_for_go.Management.VirtualMachine.{InputEndpoint, ConfigurationSet}
use azure_sdk_for_go.Management.VirtualMachine.Endpoints.{with_docker_port, add_docker_port}

-- The endpoint that opens a TCP port of the machine under the same number.
abbrev pub docker_endpoint : ℤ → InputEndpoint
docker_endpoint port = record {
  local_port = port;
  name = codes "docker";
  port = port;
  protocol = codes "tcp";
  vip = [];
}

-- Each network configuration has one endpoint more, behind the ones it had; the other sets are the same.
pub data Opened (port : ℤ) : List ConfigurationSet → List ConfigurationSet → Type 0 where
  none_left : Opened port [] []
  network :
      {s : ConfigurationSet} {ss ts : List ConfigurationSet}
      → s.configuration_set_type ≡ codes "NetworkConfiguration"
      → Opened port ss ts
      → Opened port
          (s ∷ ss)
          (record s { input_endpoints = s.input_endpoints ++ (docker_endpoint port ∷ []) } ∷ ts)
  other :
      {s : ConfigurationSet} {ss ts : List ConfigurationSet}
      → s.configuration_set_type ≢ codes "NetworkConfiguration"
      → Opened port ss ts
      → Opened port (s ∷ ss) (s ∷ ts)

differ : {b : Bool} → b ≡ false → b ≡ true → ⊥
differ p q = cc

map-Opened :
    (port : ℤ) (sets : List ConfigurationSet) → Opened port sets (map (with_docker_port port) sets)
unfolding with_docker_port
map-Opened port [] = none_left
map-Opened port (s ∷ sets) =
    elim (Bool-cases (eq s.configuration_set_type (codes "NetworkConfiguration"))) [
      | inl t ↦ rw t (
          network ((eq_iff s.configuration_set_type (codes "NetworkConfiguration")).0 t)
            (map-Opened port sets))
      | inr t ↦ rw t (
          other
            (λ q. differ t ((eq_iff s.configuration_set_type (codes "NetworkConfiguration")).1 q))
            (map-Opened port sets))
    ]

-- What `addDockerPort` makes of configuration sets.
pub data Ported (port : ℤ) (sets : List ConfigurationSet) (o : GoError ⊎ List ConfigurationSet)
    : Type 0 where
  no_sets : sets ≡ [] → (e : GoError) → o ≡ inl e → Ported port sets o
  opened :
      (sets' : List ConfigurationSet)
      → sets ≢ []
      → Opened port sets sets'
      → o ≡ inr sets'
      → Ported port sets o

-- `addDockerPort` fails exactly where there are no configuration sets, and otherwise adds the Docker
-- endpoint to each network configuration, and to nothing else.
pub add_docker_port-Ported :
    (port : ℤ) (sets : List ConfigurationSet) → Ported port sets (add_docker_port sets port)
unfolding add_docker_port
add_docker_port-Ported port [] = no_sets refl _ refl
add_docker_port-Ported port (s ∷ sets) = opened _ (λ q. cc) (map-Opened port (s ∷ sets)) refl
