-- ===== src/Management/Tests/Settings.antt =====
-- Tests of the settings of a subscription, management/publishSettings.go, and of `executeCommand`.
use azure_sdk_for_go.Common.{[], ◌∷◌, some, none, inl, inr, ◌≡◌, ◌≢◌, ◌↔◌, refl, All, true}
use azure_sdk_for_go.Common.Text.{codes, is_space}
use azure_sdk_for_go.Go.{ok, panic}
use azure_sdk_for_go.Management.{message}
use azure_sdk_for_go.Management.Subscription.{
  Subscription, PublishProfile, Tools, execute_command, get_subscription_cert,
  get_active_subscription, import_publish_settings, import_publish_settings_file, with_settings,
}
use azure_sdk_for_go.Management.Subscription.Command.{execute_command_panics_iff}
use azure_sdk_for_go.Management.Subscription.Import.{Outcome, import_publish_settings_file-Outcome}
use azure_sdk_for_go.Management.Tests.{client}

-- A subscription without a certificate of its own.
abbrev subscription : Subscription
subscription = record {
  service_management_url = [];
  id = codes "id7";
  name = codes "n";
  management_certificate = [];
}

abbrev profile : PublishProfile
profile = record {
  schema_version = codes "1.0";
  publish_method = [];
  url = codes "https://host";
  management_certificate = codes "Q0VSVA==";
  subscriptions = subscription ∷ [];
}

-- Files hold "xml", and the program prints its input.
abbrev tools : Tools
tools = record {
  read_file = λ path. inr (codes "xml");
  unmarshal_publish_data = λ body. inr (record { publish_profiles = profile ∷ [] });
  decode_base64 = λ s. inr s;
  run = λ head parts input. elim input [ none ↦ inl (message head) | some bytes ↦ inr bytes ];
}

execute_command_panics_iff_example :
    (execute_command tools (codes "  ") none ≡ panic)
    ↔ ((codes "  " ≢ []) × All (λ c. is_space c ≡ true) (codes "  "))
execute_command_panics_iff_example = execute_command_panics_iff tools (codes "  ") none

import_publish_settings_file-Outcome_example :
    Outcome tools client (codes "f") (import_publish_settings_file tools client (codes "f"))
import_publish_settings_file-Outcome_example =
    import_publish_settings_file-Outcome tools client (codes "f")

settings_from_file :
    import_publish_settings_file tools client (codes "f")
    ≡ ok (with_settings client (codes "id7") (codes "Q0VSVA=="))
unfolding import_publish_settings_file get_active_subscription get_subscription_cert execute_command
settings_from_file = refl

settings_from_certificate :
    import_publish_settings tools client (codes "id8") (codes "c")
    ≡ ok (with_settings client (codes "id8") (codes "xml"))
unfolding import_publish_settings
settings_from_certificate = refl
