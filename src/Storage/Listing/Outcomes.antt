-- ===== src/Storage/Listing/Outcomes.antt =====
-- What stands behind a listing of storage/blob.go that returned no error.
use azure_sdk_for_go.Common.{
  [], ◌∷◌, ◌++◌, Option, some, none, ◌≡◌, refl, ap, arith, Bool-cases, Option-cases, ◌⊎◌, inl, inr,
  ◌==◌,
}
use azure_sdk_for_go.Common.Text.{Text, codes}
use azure_sdk_for_go.Go.{Result, ok, err, panic, stuck, History, panic-ne-ok, stuck-ne-ok}
use azure_sdk_for_go.Storage.{
  GoError, StorageClient, StorageResponse, Responds, Env, Values, get_standard_headers,
}
use azure_sdk_for_go.Storage.Container.{blob_exec, status_ok}
use azure_sdk_for_go.Storage.Listing.{
  Listed, GetPageRangesResponse, xml_unmarshal, read_listing, get_listing, read_page_ranges,
  get_page_ranges,
}

abbrev Answer : Type 0
Answer = Result GoError (StorageResponse × Option GoError)

Answer-cases :
    (r : Answer)
    → ((resp : StorageResponse) × (r ≡ ok (resp, none)))
      ⊎ ((resp : StorageResponse) × (e : GoError) × (r ≡ ok (resp, some e)))
      ⊎ ((e : GoError) × (r ≡ err e))
      ⊎ (r ≡ panic)
      ⊎ (r ≡ stuck)
Answer-cases (ok (resp, none)) = inl (resp, refl)
Answer-cases (ok (resp, some e)) = inr (inl (resp, e, refl))
Answer-cases (err e) = inr (inr (inl (e, refl)))
Answer-cases panic = inr (inr (inr (inl refl)))
Answer-cases stuck = inr (inr (inr (inr refl)))

module _ {A : Type 0} where
  some-ne-none :
      {out zero : A} {e : GoError}
      → ◌≡◌ {A = Result GoError (Listed A)} (ok (zero, some e)) (ok (out, none))
      → ⊥
  some-ne-none p = cc

  ok_injective : {x y : Listed A} → ◌≡◌ {A = Result GoError (Listed A)} (ok x) (ok y) → x ≡ y
  ok_injective p = cc

  with_error : {out zero : A} {e : GoError} → ◌≡◌ {A = Listed A} (zero, some e) (out, none) → ⊥
  with_error p = some-ne-none (ap ok p)

  module _ (unmarshal : Text → Listed A) (zero : A) where
    xml_unmarshal_ok :
        (resp : StorageResponse) {out : A}
        → xml_unmarshal unmarshal zero resp ≡ (out, none)
        → (resp.body_error ≡ none) × (unmarshal resp.body ≡ (out, none))
    unfolding xml_unmarshal
    xml_unmarshal_ok resp e = elim (Option-cases resp.body_error) [
      | inl n ↦ (n, rw (n, xml_unmarshal) at e)
      | inr (x, n) ↦ absurd (with_error (rw (n, xml_unmarshal) at e))
    ]

    read_listing_ok :
        (use_response : StorageResponse → Listed A) (call : Responds) (h : History) {out : A}
        → (read_listing unmarshal zero use_response call h).0 ≡ ok (out, none)
        → (resp : StorageResponse) × ((call h).0 ≡ ok (resp, none))
          × (use_response resp ≡ (out, none))
    unfolding read_listing
    read_listing_ok use_response call h e = elim (Answer-cases (call h).0) [
      | inl (resp, p) ↦ (resp, p, ok_injective (rw (p, read_listing) at e))
      | inr (inl (resp, x, p)) ↦ absurd (some-ne-none (rw (p, read_listing) at e))
      | inr (inr (inl (x, p))) ↦ absurd (some-ne-none (rw (p, read_listing) at e))
      | inr (inr (inr (inl p))) ↦ absurd (panic-ne-ok (rw (p, read_listing) at e))
      | inr (inr (inr (inr p))) ↦ absurd (stuck-ne-ok (rw (p, read_listing) at e))
    ]

    -- If a listing comes with no error, then the GET request brought a response with no error, whose
    -- body could be read to its end, and the listing is what the XML decoder made of the whole body,
    -- with no error either.
    pub get_listing_ok :
        (env : Env) (c : StorageClient) (path : Text) (q : Values) (h : History) {out : A}
        → (get_listing unmarshal zero env c path q h).0 ≡ ok (out, none)
        → (resp : StorageResponse) × ((blob_exec env c
              (codes "GET")
              path
              q
              (get_standard_headers env c h)
              none
              h).0
            ≡ ok (resp, none))
          × (resp.body_error ≡ none)
          × (unmarshal resp.body ≡ (out, none))
    unfolding get_listing
    get_listing_ok env c path q h e =
        let (resp, p, u) =
          read_listing_ok (xml_unmarshal unmarshal zero)
            (blob_exec env c (codes "GET") path q (get_standard_headers env c h) none) h e in
        let (b, d) = xml_unmarshal_ok resp u in (resp, p, b, d)

read_page_ranges_ok :
    (unmarshal : Text → Listed GetPageRangesResponse) (resp : StorageResponse)
    {out : GetPageRangesResponse}
    → read_page_ranges unmarshal resp ≡ (out, none)
    → (resp.status_code ≡ 200) × (resp.body_error ≡ none) × (unmarshal resp.body ≡ (out, none))
unfolding read_page_ranges
read_page_ranges_ok unmarshal resp e = elim (Bool-cases (resp.status_code == status_ok)) [
  | inl t ↦
      let (b, d) =
        xml_unmarshal_ok unmarshal (record { page_list = [] }) resp
          (rw (t, read_page_ranges) at e) in
      (ground arith, b, d)
  | inr t ↦ absurd (with_error (rw (t, read_page_ranges) at e))
]

-- If `GetPageRanges` returns no error, then the GET request brought a response with the status 200,
-- whose body could be read to its end, and the ranges are what the XML decoder made of it.
pub get_page_ranges_ok :
    (unmarshal : Text → Listed GetPageRangesResponse) (env : Env) (c : StorageClient)
    (container name : Text) (h : History) {out : GetPageRangesResponse}
    → (get_page_ranges unmarshal env c container name h).0 ≡ ok (out, none)
    → (resp : StorageResponse) × ((blob_exec env c
          (codes "GET")
          (container ++ (b'/' ∷ name))
          ((codes "comp", codes "pagelist" ∷ []) ∷ [])
          (get_standard_headers env c h)
          none
          h).0
        ≡ ok (resp, none))
      × (resp.status_code ≡ 200)
      × (resp.body_error ≡ none)
      × (unmarshal resp.body ≡ (out, none))
unfolding get_page_ranges
get_page_ranges_ok unmarshal env c container name h e =
    let (resp, p, u) =
      read_listing_ok unmarshal (record { page_list = [] }) (read_page_ranges unmarshal)
        (blob_exec env c (codes "GET") (container ++ (b'/' ∷ name))
          ((codes "comp", codes "pagelist" ∷ []) ∷ []) (get_standard_headers env c h) none)
        h e in
    let (s, b, d) = read_page_ranges_ok unmarshal resp u in (resp, p, s, b, d)
