-- ===== src/Management/Location/Lookup.antt =====
-- What the look-ups of management/location find.
use azure_sdk_for_go.Common.{
  some, none, ◌⊎◌, inl, inr, false, ◌≡◌, refl, sym, ap, ◌∙◌, find_first, IsFirst,
  find_first-IsFirst, Option-cases, Bool-cases,
}
use azure_sdk_for_go.Common.Text.{Text, codes, is_empty}
use azure_sdk_for_go.Go.{
  Result, ok, err, panic, stuck, History, proceed, proceed_ok, err-ne-ok, return, same_result,
  same_history,
}
use azure_sdk_for_go.Management.{GoError, Client, Env}
use azure_sdk_for_go.Management.Calls.{require, get_xml, proceeds, requires}
use azure_sdk_for_go.Management.Location.{
  Location, LocationList, has_name, get_location_list, get_location, resolve_location,
  invalid_location,
}

-- `GetLocation` behind the list, and `ResolveLocation` behind it.
abbrev chosen : Text → LocationList → Result GoError Location
chosen location list = elim (find_first (has_name location) list.locations) [
  | none ↦ err (invalid_location location list)
  | some existing ↦ ok existing
]

abbrev found : Text → LocationList → Result GoError (Unit {0})
found location list = elim (find_first (has_name location) list.locations) [
  | none ↦ err (invalid_location location list)
  | some existing ↦ ok tt
]

ok_injective : {a b : Location} → ◌≡◌ {A = Result GoError Location} (ok a) (ok b) → a ≡ b
ok_injective e = cc

chosen-IsFirst :
    (location : Text) (list : LocationList) {l : Location}
    → chosen location list ≡ ok l
    → IsFirst (has_name location) list.locations l
chosen-IsFirst location list {l} e =
    elim (Option-cases (find_first (has_name location) list.locations)) [
      | inl n ↦ absurd (err-ne-ok (rw (n, chosen) at e))
      | inr (x, s) ↦
          find_first-IsFirst (has_name location) list.locations
            (s ∙ ap some (ok_injective (rw (s, chosen) at e)))
    ]

found-IsFirst :
    (location : Text) (list : LocationList)
    → found location list ≡ ok tt
    → (l : Location) × IsFirst (has_name location) list.locations l
found-IsFirst location list e =
    elim (Option-cases (find_first (has_name location) list.locations)) [
      | inl n ↦ absurd (err-ne-ok (rw (n, found) at e))
      | inr (x, s) ↦ (x, find_first-IsFirst (has_name location) list.locations s)
    ]

-- An outcome without its value.
abbrev pub forget : {A : Type 0} → Result GoError A × History → Result GoError (Unit {0}) × History
forget (ok a, h) = (ok tt, h)
forget (err e, h) = (err e, h)
forget (panic, h) = (panic, h)
forget (stuck, h) = (stuck, h)

forget-chosen :
    (location : Text) (list : LocationList) (h : History)
    → forget (chosen location list, h) ≡ (found location list, h)
forget-chosen location list h =
    elim (Option-cases (find_first (has_name location) list.locations)) [
      | inl n ↦ rw (n, forget, chosen, found)
      | inr (x, s) ↦ rw (s, forget, chosen, found)
    ]

forget-proceed :
    (location : Text) (r : Result GoError LocationList × History)
    → forget (proceed r (λ list. return (chosen location list)))
      ≡ proceed r (λ list. return (found location list))
forget-proceed location (ok list, h) = forget-chosen location list h
forget-proceed location (err e, h) = refl
forget-proceed location (panic, h) = refl
forget-proceed location (stuck, h) = refl

module _ (unmarshal : Text → GoError ⊎ LocationList) (env : Env) (client : Client) (location : Text)
    (h : History) where
  -- `ResolveLocation` does and returns what `GetLocation` does, but for the location.
  pub resolve_location-get_location :
      resolve_location unmarshal env client location h
      ≡ forget (get_location unmarshal env client location h)
  unfolding resolve_location get_location require
  resolve_location-get_location = elim (Bool-cases (is_empty location)) [
    | inl u ↦ rw u
    | inr u ↦ rw u (sym (forget-proceed location (get_location_list unmarshal env client h)))
  ]

  -- If `GetLocation` returns a location, then the service's list was read, and the location is the
  -- first of that list with the given name, which is not empty.
  pub get_location_ok :
      {l : Location}
      → (get_location unmarshal env client location h).0 ≡ ok l
      → (list : LocationList) × (is_empty location ≡ false)
        × ((get_location_list unmarshal env client h).0 ≡ ok list)
        × IsFirst (has_name location) list.locations l
  unfolding get_location require
  get_location_ok e = elim (Bool-cases (is_empty location)) [
    | inl u ↦ absurd (err-ne-ok (rw u at e))
    | inr u ↦
        let (list, p, q) =
          proceed_ok (get_location_list unmarshal env client h)
            (λ list. return (chosen location list)) (rw u at e) in
        (list, u, p, chosen-IsFirst location list q)
  ]

  -- If `ResolveLocation` returns no error, then one GET request read the list, and the list has a
  -- location with the given name, which is not empty.
  pub resolve_location_ok :
      {h' : History}
      → resolve_location unmarshal env client location h ≡ (ok tt, h')
      → (list : LocationList) × (is_empty location ≡ false)
        × (get_xml unmarshal env client (codes "locations") h ≡ (ok list, h'))
        × ((l : Location) × IsFirst (has_name location) list.locations l)
  unfolding resolve_location get_location_list
  resolve_location_ok e =
      let (named, waits) = requires (codes "location") location _ h e in
      let (list, g, read, answered) = proceeds (get_location_list unmarshal env client h) _ waits in
      (
        list,
        named,
        read ∙ ap (λ (t : History). (ok list, t)) (same_history answered),
        found-IsFirst location list (same_result answered),
      )
