-- ===== src/Management/Subscription/Import.antt =====
-- What `importPublishSettingsFile` of management/publishSettings.go takes from the file.
use azure_sdk_for_go.Common.{
  List, [], ◌∷◌, Option, some, ◌⊎◌, inl, inr, ◌≡◌, ◌≢◌, refl, sym, ap, subst, ◌∙◌, Sum-cases,
}
use azure_sdk_for_go.Common.Text.{Text, codes, Text-cases}
use azure_sdk_for_go.Go.{Result, ok, err}
use azure_sdk_for_go.Management.{GoError, Client}
use azure_sdk_for_go.Management.Subscription.{
  Subscription, PublishProfile, Tools, of_sum, ◌and_then◌, execute_command, get_subscription_cert,
  with_fallback, first_subscription, first_profile, get_active_subscription, with_settings,
  import_publish_settings_file,
}

-- The certificate that is used: the subscription's own, or, where it has none, its profile's.
pub data Certificate (profile : PublishProfile) (subscription : Subscription) (used : Text)
    : Type 0 where
  own :
      subscription.management_certificate ≢ []
      → used ≡ subscription.management_certificate
      → Certificate profile subscription used
  inherited :
      subscription.management_certificate ≡ []
      → used ≡ profile.management_certificate
      → Certificate profile subscription used

-- What stands behind settings that were imported from a file.
pub record Imported (tools : Tools) (client : Client) (file_path : Text) (client' : Client)
    : Type 0 where
  pub content : Text
  pub profile : PublishProfile
  pub profiles : List PublishProfile
  pub subscription : Subscription
  pub subscriptions : List Subscription
  pub certificate : Text
  pub pfx_cert : Text
  pub cert : Text
  pub file_read : tools.read_file file_path ≡ inr content
  pub decoded :
      tools.unmarshal_publish_data content ≡ inr (record { publish_profiles = profile ∷ profiles })
  pub first : profile.subscriptions ≡ subscription ∷ subscriptions
  pub chosen : Certificate profile subscription certificate
  pub plain : tools.decode_base64 certificate ≡ inr pfx_cert
  pub converted :
      tools.run
        (codes "openssl")
        (codes "pkcs12" ∷ codes "-nodes" ∷ codes "-passin" ∷ codes "pass:" ∷ [])
        (some pfx_cert)
      ≡ inr cert
  pub result : client' ≡ record {
    management_url = client.management_url;
    publish_settings = record {
      subscription_id = subscription.id;
      subscription_cert = cert;
      subscription_key = cert;
    };
  }

-- The call returns an error, or the client with the settings from the file.
pub data Outcome (tools : Tools) (client : Client) (file_path : Text) (o : Result GoError Client)
    : Type 0 where
  refused : (e : GoError) → o ≡ err e → Outcome tools client file_path o
  imported :
      (client' : Client)
      → Imported tools client file_path client'
      → o ≡ ok client'
      → Outcome tools client file_path o

with_fallback-Certificate :
    (profile : PublishProfile) (s : Subscription)
    → Certificate profile s (with_fallback profile s).management_certificate
with_fallback-Certificate profile s = elim (Text-cases s.management_certificate) [
  | inl e ↦ inherited e (rw e refl)
  | inr (c, (cs, e)) ↦ own (λ q. cc) (rw e refl)
]

with_fallback-id :
    (profile : PublishProfile) (s : Subscription) → (with_fallback profile s).id ≡ s.id
with_fallback-id profile s = elim (Text-cases s.management_certificate) [
  | inl e ↦ rw e refl
  | inr (c, (cs, e)) ↦ rw e refl
]

-- How a call that follows a library function goes on.
sum_then :
    {A B : Type 0} (r : GoError ⊎ A) (f : A → Result GoError B)
    → ((e : GoError) × ((of_sum r and_then f) ≡ err e))
      ⊎ ((a : A) × (r ≡ inr a) × ((of_sum r and_then f) ≡ f a))
sum_then (inl e) f = inl (e, refl)
sum_then (inr a) f = inr (a, refl, refl)

abbrev arguments : List Text
arguments = codes "pkcs12" ∷ codes "-nodes" ∷ codes "-passin" ∷ codes "pass:" ∷ []

openssl :
    (tools : Tools) (input : Option Text)
    → execute_command tools (codes "openssl pkcs12 -nodes -passin pass:") input
      ≡ of_sum (tools.run (codes "openssl") arguments input)
unfolding execute_command
openssl tools input = refl

-- How the certificate comes out.
get_subscription_cert-cases :
    (tools : Tools) (s : Subscription)
    → ((e : GoError) × (get_subscription_cert tools s ≡ err e))
      ⊎ ((pfx : Text) × (cert : Text) × (tools.decode_base64 s.management_certificate ≡ inr pfx)
          × (tools.run (codes "openssl") arguments (some pfx) ≡ inr cert)
          × (get_subscription_cert tools s ≡ ok cert))
unfolding get_subscription_cert
get_subscription_cert-cases tools s =
    elim (sum_then (tools.decode_base64 s.management_certificate)
      (λ pfx. execute_command tools (codes "openssl pkcs12 -nodes -passin pass:") (some pfx))) [
        | inl (e, q) ↦ inl (e, q)
        | inr (pfx, b, q) ↦ elim (Sum-cases (tools.run (codes "openssl") arguments (some pfx))) [
          | inl (e, x) ↦ inl (e, q ∙ (openssl tools (some pfx) ∙ ap of_sum x))
          | inr (cert, x) ↦ inr (pfx, cert, b, x, q ∙ (openssl tools (some pfx) ∙ ap of_sum x))
        ]
      ]

-- What follows the choice of the subscription.
abbrev rest : Tools → Client → Subscription → Result GoError Client
rest tools client s =
    get_subscription_cert tools s and_then λ cert. ok (with_settings client s.id cert)

module _ (tools : Tools) (client : Client) (path content : Text)
    (r : tools.read_file path ≡ inr content) where
  conversion :
      (profile : PublishProfile) (profiles : List PublishProfile) (s : Subscription)
      (ss : List Subscription)
      → tools.unmarshal_publish_data content
        ≡ inr (record { publish_profiles = profile ∷ profiles })
      → profile.subscriptions ≡ s ∷ ss
      → Outcome tools client path (rest tools client (with_fallback profile s))
  conversion profile profiles s ss d f =
      elim (get_subscription_cert-cases tools (with_fallback profile s)) [
        | inl (e, q) ↦ refused e (ap (λ x. x and_then settings) q)
        | inr (pfx, cert, b, x, q) ↦
            imported (with_settings client (with_fallback profile s).id cert)
              (record {
                content = content;
                profile = profile;
                profiles = profiles;
                subscription = s;
                subscriptions = ss;
                certificate = (with_fallback profile s).management_certificate;
                pfx_cert = pfx;
                cert = cert;
                file_read = r;
                decoded = d;
                first = f;
                chosen = with_fallback-Certificate profile s;
                plain = b;
                converted = x;
                result = ap (λ id. with_settings client id cert) (with_fallback-id profile s);
              })
              (ap (λ x. x and_then settings) q)
      ]
    where
      settings : Text → Result GoError Client
      settings cert = ok (with_settings client (with_fallback profile s).id cert)

  choice :
      (profile : PublishProfile) (profiles : List PublishProfile) (ss : List Subscription)
      → tools.unmarshal_publish_data content
        ≡ inr (record { publish_profiles = profile ∷ profiles })
      → profile.subscriptions ≡ ss
      → Outcome tools client path
          (of_sum (first_subscription profile ss) and_then rest tools client)
  choice profile profiles [] d f = refused _ refl
  choice profile profiles (s ∷ ss) d f = conversion profile profiles s ss d f

  decoding :
      (ps : List PublishProfile)
      → tools.unmarshal_publish_data content ≡ inr (record { publish_profiles = ps })
      → Outcome tools client path (of_sum (first_profile ps) and_then rest tools client)
  decoding [] d = refused _ refl
  decoding (profile ∷ profiles) d = choice profile profiles profile.subscriptions d refl

  activation :
      Outcome tools client path (get_active_subscription tools content and_then rest tools client)
  unfolding get_active_subscription
  activation = elim (Sum-cases (tools.unmarshal_publish_data content)) [
    | inl (e, d) ↦ refused e (
        ap
          (λ x.
            (of_sum x and_then λ p. of_sum (first_profile p.publish_profiles))
            and_then rest tools client)
          d)
    | inr (p, d) ↦
        subst
          (λ x. Outcome tools client path (
            (of_sum x and_then λ p. of_sum (first_profile p.publish_profiles))
            and_then rest tools client))
          (sym d) (decoding p.publish_profiles d)
  ]

-- `importPublishSettingsFile` returns an error, and never panics; or the file was read and decoded, and
-- the client gets the id of the first subscription of the first profile and, as certificate and as key,
-- what openssl makes of the certificate of this subscription or, where it has none, of its profile.
pub import_publish_settings_file-Outcome :
    (tools : Tools) (client : Client) (file_path : Text)
    → Outcome tools client file_path (import_publish_settings_file tools client file_path)
unfolding import_publish_settings_file
import_publish_settings_file-Outcome tools client [] = refused _ refl
import_publish_settings_file-Outcome tools client (c ∷ cs) =
    elim (sum_then (tools.read_file (c ∷ cs))
      (λ content. get_active_subscription tools content and_then rest tools client)) [
        | inl (e, q) ↦ refused e q
        | inr (content, r, q) ↦
            subst (Outcome tools client (c ∷ cs)) (sym q)
              (activation tools client (c ∷ cs) content r)
      ]
