-- ===== src/Management/Image.antt =====
-- Images of virtual machines, management/virtualmachineimage.
pub mod Lookup
use azure_sdk_for_go.Common.{
  ℕ, List, [], ◌∷◌, ◌++◌, Option, some, none, if◌then◌else◌, ◌⊎◌, inl, inr, Bool, true, false, ◌||◌,
  find_first,
}
use azure_sdk_for_go.Common.Text.{Text, codes, is_empty, eq}
use azure_sdk_for_go.Go.{Result, ok, err, panic, stuck, History, Call, ◌>>=◌, ◌>>◌, return, proceed}
use azure_sdk_for_go.Management.{GoError, message, Client, Env}
use azure_sdk_for_go.Management.Calls.{require, get_xml}

pub record OsImage : Type 0 where
  pub category : Text
  pub label : Text
  pub logical_size_in_gb : Text
  pub name : Text
  pub os : Text
  pub eula : Text
  pub description : Text
  pub location : Text

pub record ImageList : Type 0 where
  pub xmlns : Text
  pub os_images : List OsImage

-- The loop goes on where both the name and the label differ.
abbrev pub is_called : Text → OsImage → Bool
is_called image_name image = eq image.name image_name || eq image.label image_name

unfoldable pub invalid_image : Text → GoError
invalid_image image_name = message (
    codes "Can not find image "
    ++ (image_name ++ codes " in specified subscription, please specify another image name."))

module _ (unmarshal : Text → GoError ⊎ ImageList) (env : Env) (client : Client) where
  unfoldable pub get_image_list : Call GoError ImageList
  unfolding get_xml
  get_image_list = get_xml unmarshal env client (codes "services/images")

  unfoldable pub resolve_image_name : Text → Call GoError (Unit {0})
  unfolding invalid_image require
  resolve_image_name image_name = do
    require (codes "imageName") image_name
    image_list ← get_image_list
    return (elim (find_first (is_called image_name) image_list.os_images) [
      | none ↦ err (invalid_image image_name)
      | some image ↦ ok tt
    ])
