-- ===== src/Management/Image/Lookup.antt =====
-- What the look-up of management/virtualmachineimage finds.
use azure_sdk_for_go.Common.{
  ◌⊎◌, inl, inr, ◌≡◌, some, none, find_first, IsFirst, find_first-IsFirst, Option-cases, false,
}
use azure_sdk_for_go.Common.Text.{Text, codes, is_empty}
use azure_sdk_for_go.Go.{Result, ok, err, History, return, proceed_ok, err-ne-ok}
use azure_sdk_for_go.Management.{GoError, Client, Env}
use azure_sdk_for_go.Management.Calls.{require_then}
use azure_sdk_for_go.Management.Image.{
  OsImage, ImageList, is_called, invalid_image, get_image_list, resolve_image_name,
}

abbrev found : Text → ImageList → Result GoError (Unit {0})
found image_name list = elim (find_first (is_called image_name) list.os_images) [
  | none ↦ err (invalid_image image_name)
  | some image ↦ ok tt
]

found-IsFirst :
    (image_name : Text) (list : ImageList)
    → found image_name list ≡ ok tt
    → (image : OsImage) × IsFirst (is_called image_name) list.os_images image
found-IsFirst image_name list e =
    elim (Option-cases (find_first (is_called image_name) list.os_images)) [
      | inl n ↦ absurd (err-ne-ok (rw (n, found) at e))
      | inr (image, s) ↦ (image, find_first-IsFirst (is_called image_name) list.os_images s)
    ]

-- If `ResolveImageName` returns no error, then the name is not empty, the service's list was read, and
-- an image of that list has this name or this label.
pub resolve_image_name_ok :
    (unmarshal : Text → GoError ⊎ ImageList) (env : Env) (client : Client) (image_name : Text)
    (h : History)
    → (resolve_image_name unmarshal env client image_name h).0 ≡ ok tt
    → (list : ImageList) × (image : OsImage) × (is_empty image_name ≡ false)
      × ((get_image_list unmarshal env client h).0 ≡ ok list)
      × IsFirst (is_called image_name) list.os_images image
unfolding resolve_image_name
resolve_image_name_ok unmarshal env client image_name h e =
    let (named, rest) = require_then (codes "imageName") image_name _ h e in
    let (list, read, f) =
      proceed_ok (get_image_list unmarshal env client h) (λ list. return (found image_name list))
        rest in
    let (image, first) = found-IsFirst image_name list f in (list, image, named, read, first)
