-- ===== src/Management/Subscription.antt =====
-- The settings of a subscription, management/publishSettings.go, and `executeCommand` of
-- management/util.go.
pub mod Command
pub mod Import
use azure_sdk_for_go.Common.{
  List, [], ◌∷◌, ◌++◌, Option, some, none, if◌then◌else◌, ◌⊎◌, inl, inr, true, false,
}
use azure_sdk_for_go.Common.Text.{Text, codes, is_empty, fields}
use azure_sdk_for_go.Go.{Result, ok, err, panic, stuck}
use azure_sdk_for_go.Management.{GoError, message, param_not_specified, Client, PublishSettings}

-- `subscription`, `publishProfile` and `publishData`, without the XML names.
pub record Subscription : Type 0 where
  pub service_management_url : Text
  pub id : Text
  pub name : Text
  pub management_certificate : Text

pub record PublishProfile : Type 0 where
  pub schema_version : Text
  pub publish_method : Text
  pub url : Text
  pub management_certificate : Text
  pub subscriptions : List Subscription

pub record PublishData : Type 0 where
  pub publish_profiles : List PublishProfile

-- What this code uses of libraries: reading a file, encoding/xml, encoding/base64, and running a
-- program with its arguments and its input, which gives its output.
pub record Tools : Type 0 where
  pub read_file : Text → GoError ⊎ Text
  pub unmarshal_publish_data : Text → GoError ⊎ PublishData
  pub decode_base64 : Text → GoError ⊎ Text
  pub run : Text → List Text → Option Text → GoError ⊎ Text

-- The outcome of a library function, as that of the caller.
abbrev pub of_sum : {A : Type 0} → GoError ⊎ A → Result GoError A
of_sum (inl e) = err e
of_sum (inr a) = ok a

-- `if err != nil { return err }`
infixl 5 ◌and_then◌
abbrev pub ◌and_then◌ :
    {A B : Type 0} → Result GoError A → (A → Result GoError B) → Result GoError B
ok a and_then f = f a
err e and_then f = err e
panic and_then f = panic
stuck and_then f = stuck

-- `parts[0]` panics where there are no parts.
abbrev pub run_parts : Tools → List Text → Option Text → Result GoError Text
run_parts tools [] input = panic
run_parts tools (head ∷ parts) input = of_sum (tools.run head parts input)

unfoldable pub execute_command : Tools → Text → Option Text → Result GoError Text
unfolding fields
execute_command tools command input =
    if is_empty command
    then err (param_not_specified (codes "command"))
    else run_parts tools (fields command) input

unfoldable pub get_subscription_cert : Tools → Subscription → Result GoError Text
get_subscription_cert tools subscription =
    of_sum (tools.decode_base64 subscription.management_certificate) and_then λ pfx_cert.
    execute_command tools (codes "openssl pkcs12 -nodes -passin pass:") (some pfx_cert)

-- The first subscription, with the certificate and the address of the profile where it has no
-- certificate of its own.
abbrev pub with_fallback : PublishProfile → Subscription → Subscription
with_fallback profile subscription =
    if is_empty subscription.management_certificate
    then record subscription {
      management_certificate = profile.management_certificate;
      service_management_url = profile.url;
    }
    else subscription

abbrev pub first_subscription : PublishProfile → List Subscription → GoError ⊎ Subscription
first_subscription profile [] = inl (message (codes "No subscriptions were found"))
first_subscription profile (subscription ∷ subscriptions) = inr (with_fallback profile subscription)

abbrev pub first_profile : List PublishProfile → GoError ⊎ Subscription
first_profile [] = inl (message (codes "No publish profiles were found"))
first_profile (profile ∷ profiles) = first_subscription profile profile.subscriptions

unfoldable pub get_active_subscription : Tools → Text → Result GoError Subscription
get_active_subscription tools publish_settings_content =
    of_sum (tools.unmarshal_publish_data publish_settings_content) and_then λ publish_data.
    of_sum (first_profile publish_data.publish_profiles)

-- The client with new settings: the certificate is the key too.
abbrev pub with_settings : Client → Text → Text → Client
with_settings client id cert = record client {
  publish_settings = record {
    subscription_id = id;
    subscription_cert = cert;
    subscription_key = cert;
  };
}

-- The settings are written behind the last error: a call that fails leaves the client as it is.
unfoldable pub import_publish_settings : Tools → Client → Text → Text → Result GoError Client
import_publish_settings tools client id cert_path =
    if is_empty id
    then err (param_not_specified (codes "id"))
    else if is_empty cert_path
    then err (param_not_specified (codes "certPath"))
    else (of_sum (tools.read_file cert_path) and_then λ cert. ok (with_settings client id cert))

unfoldable pub import_publish_settings_file : Tools → Client → Text → Result GoError Client
import_publish_settings_file tools client file_path =
    if is_empty file_path
    then err (param_not_specified (codes "filePath"))
    else (of_sum (tools.read_file file_path) and_then λ publish_settings_content.
        get_active_subscription tools publish_settings_content and_then λ active_subscription.
        get_subscription_cert tools active_subscription and_then λ cert.
        ok (with_settings client active_subscription.id cert))
