-- ===== src/Management/Location.antt =====
-- Locations, management/location.
pub mod Lookup
use azure_sdk_for_go.Common.{
  ℕ, List, [], ◌∷◌, ◌++◌, Option, some, none, if◌then◌else◌, ◌⊎◌, inl, inr, Bool, true, false,
  find_first, ◌==◌, ◌||◌,
}
use azure_sdk_for_go.Common.Text.{Text, codes, is_empty, eq, trim_set}
use azure_sdk_for_go.Go.{Result, ok, err, panic, stuck, History, Call, ◌>>=◌, ◌>>◌, return, proceed}
use azure_sdk_for_go.Management.{GoError, message, Client, Env}
use azure_sdk_for_go.Management.Calls.{require, get_xml}

pub record Location : Type 0 where
  pub name : Text
  pub display_name : Text
  pub available_services : List Text
  pub web_worker_role_sizes : List Text
  pub virtual_machine_role_sizes : List Text

-- `LocationList`, without the XML name.
pub record LocationList : Type 0 where
  pub xmlns : Text
  pub locations : List Location

-- The loop of `String`: each name with a comma and a blank behind it.
names_text : List Location → Text
names_text [] = []
names_text (l ∷ ls) = l.name ++ (codes ", " ++ names_text ls)

-- `LocationList.String`
unfoldable pub location_list_text : LocationList → Text
unfolding names_text trim_set
location_list_text list = trim_set (codes ", ") (names_text list.locations)

unfoldable pub invalid_location : Text → LocationList → GoError
unfolding location_list_text
invalid_location location locations = message (
    codes "Invalid location: "
    ++ (location ++ (codes ". Available locations: " ++ location_list_text locations)))

abbrev pub has_name : Text → Location → Bool
has_name location l = eq l.name location

module _ (unmarshal : Text → GoError ⊎ LocationList) (env : Env) (client : Client) where
  unfoldable pub get_location_list : Call GoError LocationList
  unfolding get_xml
  get_location_list = get_xml unmarshal env client (codes "locations")

  unfoldable pub get_location : Text → Call GoError Location
  unfolding invalid_location require
  get_location location = do
    require (codes "location") location
    locations ← get_location_list
    return (elim (find_first (has_name location) locations.locations) [
      | none ↦ err (invalid_location location locations)
      | some existing ↦ ok existing
    ])

  unfoldable pub resolve_location : Text → Call GoError (Unit {0})
  unfolding invalid_location require
  resolve_location location = do
    require (codes "location") location
    locations ← get_location_list
    return (elim (find_first (has_name location) locations.locations) [
      | none ↦ err (invalid_location location locations)
      | some existing ↦ ok tt
    ])
