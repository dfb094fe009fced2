-- ===== src/Management/HostedService/Creation.antt =====
-- What stands behind the creation and the deletion of a hosted service, management/hostedservice.
use azure_sdk_for_go.Common.{
  ℕ, ◌++◌, some, inr, Bool, true, false, ◌≡◌, refl, sym, ap, subst, ◌∙◌, IsFirst,
}
use azure_sdk_for_go.Common.Text.{Text, codes, is_empty}
use azure_sdk_for_go.Go.{ok, History, Call, ◌>>◌, err-ne-ok, same_result, same_history}
use azure_sdk_for_go.Management.{GoError, Client, Env}
use azure_sdk_for_go.Management.Http.{send_azure_post_request, send_azure_delete_request}
use azure_sdk_for_go.Management.Calls.{
  Completed, and_wait, and_wait-Completed, require_then, require-history, get_xml, proceeds,
  requires, lifts, ok-injective,
}
use azure_sdk_for_go.Management.Location.{Location, LocationList, has_name, resolve_location}
use azure_sdk_for_go.Management.Location.Lookup.{resolve_location_ok}
use azure_sdk_for_go.Common.Base64.{base64_encode}
use azure_sdk_for_go.Management.HostedService.{
  Codec, AvailabilityResponse, refuse_taken, create_hosted_service_deployment_config,
  check_hosted_service_name_availability, post_hosted_service, create_hosted_service,
  delete_hosted_service,
}

free :
    {A : Type 0} (dns_name : Text) (answer : Bool × Text) (k : Call GoError A) (h : History) {a : A}
    {h' : History}
    → (refuse_taken dns_name answer >> k) h ≡ (ok a, h')
    → (answer.0 ≡ true) × (k h ≡ (ok a, h'))
free dns_name (true, reason) k h e = (refl, e)
free dns_name (false, reason) k h e = absurd (err-ne-ok (same_result e))

module _ (codec : Codec) (env : Env) (client : Client) where
  -- What a creation that returned an id has gone through. Each step starts in the history that the
  -- one before it left: the name was asked for and is free, the list of locations was read and has the
  -- location, and the encoded service was posted.
  pub record Created (dns_name location reverse_dns_fqdn label description : Text) (h : History)
      (id : Text) (h' : History) : Type 0 where
    pub response : AvailabilityResponse
    pub checked : History
    pub locations : LocationList
    pub place : Location
    pub resolved : History
    pub bytes : Text
    pub name_given : is_empty dns_name ≡ false
    pub location_given : is_empty location ≡ false
    pub asked :
        get_xml codec.unmarshal_availability env client
          (codes "services/hostedservices/operations/isavailable/" ++ dns_name)
          h
        ≡ (ok response, checked)
    pub is_free : response.result ≡ true
    pub listed :
        get_xml codec.unmarshal_locations env client (codes "locations") checked
        ≡ (ok locations, resolved)
    pub location_known : IsFirst (has_name location) locations.locations place
    pub encoded :
        codec.marshal_service (record {
          xmlns = codes "http://schemas.microsoft.com/windowsazure";
          service_name = dns_name;
          label = base64_encode label;
          description = description;
          location = location;
          reverse_dns_fqdn = reverse_dns_fqdn;
        })
        ≡ inr bytes
    pub posted :
        send_azure_post_request env client (codes "services/hostedservices") (some bytes) resolved
        ≡ (ok id, h')

  check_ok :
      (dns_name : Text) (h : History) {answer : Bool × Text} {h' : History}
      → check_hosted_service_name_availability codec env client dns_name h ≡ (ok answer, h')
      → (response : AvailabilityResponse) × (response.result ≡ answer.0)
        × (get_xml codec.unmarshal_availability env client
              (codes "services/hostedservices/operations/isavailable/" ++ dns_name)
              h
            ≡ (ok response, h'))
  unfolding check_hosted_service_name_availability
  check_ok dns_name h e =
      let (named, asks) = requires (codes "dnsName") dns_name _ h e in
      let (response, g, asked, answered) =
        proceeds
          (get_xml codec.unmarshal_availability env client
            (codes "services/hostedservices/operations/isavailable/" ++ dns_name) h)
          _ asks in
      (
        response,
        ap (λ (t : Bool × Text). t.0) (ok-injective (same_result answered)),
        asked ∙ ap (λ (t : History). (ok response, t)) (same_history answered),
      )

  -- If `CreateHostedService` returns an id, then the names are not empty; the service was asked for the
  -- name and said that it is free; behind that the list of locations was read and has the location;
  -- and behind that the POST request with the encoded service returned that id.
  pub create_hosted_service-Created :
      (dns_name location reverse_dns_fqdn label description : Text) (h : History) {id : Text}
      {h' : History}
      → create_hosted_service codec env client dns_name location reverse_dns_fqdn label description
          h
        ≡ (ok id, h')
      → Created dns_name location reverse_dns_fqdn label description h id h'
  unfolding create_hosted_service post_hosted_service create_hosted_service_deployment_config
  create_hosted_service-Created dns_name location reverse_dns_fqdn label description h e =
      let (named, e₁) = requires (codes "dnsName") dns_name _ h e in
      let (placed, e₂) = requires (codes "location") location _ h e₁ in
      let (answer, g, checks, e₃) =
        proceeds (check_hosted_service_name_availability codec env client dns_name h) _ e₂ in
      let (is_free, e₄) = free dns_name answer _ g e₃ in
      let (u, g₂, resolves, e₅) =
        proceeds (resolve_location codec.unmarshal_locations env client location g) _ e₄ in
      let (bytes, encoded, posted) = lifts _ _ g₂ e₅ in
      let (response, says, asked) = check_ok dns_name h checks in
      let (locations, given, listed, (place, known)) =
        resolve_location_ok codec.unmarshal_locations env client location g resolves in
      record {
        response = response;
        checked = g;
        locations = locations;
        place = place;
        resolved = g₂;
        bytes = bytes;
        name_given = named;
        location_given = placed;
        asked = asked;
        is_free = says ∙ is_free;
        listed = listed;
        location_known = known;
        encoded = encoded;
        posted = posted;
      }

  -- If `DeleteHostedService` returns no error, then the name is not empty, the DELETE request for the
  -- service and its media returned an id, and the operation with this id ended with a status that is
  -- neither "InProgress" nor "Failed".
  pub delete_hosted_service-Completed :
      (fuel : ℕ) (dns_name : Text) (h : History)
      → (delete_hosted_service codec env client fuel dns_name h).0 ≡ ok tt
      → (is_empty dns_name ≡ false)
        × Completed env client
            (send_azure_delete_request env client
              (codes "services/hostedservices/" ++ (dns_name ++ codes "?comp=media")))
            h
            (delete_hosted_service codec env client fuel dns_name h).1
  unfolding delete_hosted_service
  delete_hosted_service-Completed fuel dns_name h e =
      let write =
        send_azure_delete_request env client
          (codes "services/hostedservices/" ++ (dns_name ++ codes "?comp=media")) in
      let rest = and_wait env client fuel write in
      let (named, waited) = require_then (codes "dnsName") dns_name rest h e in
      (
        named,
        subst (λ t. Completed env client write h t)
            (sym (same_history (require-history (codes "dnsName") dns_name rest h named)))
            (and_wait-Completed env client fuel write h waited),
      )
