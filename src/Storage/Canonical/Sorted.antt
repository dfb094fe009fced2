-- ===== src/Storage/Canonical/Sorted.antt =====
-- The lines that `buildCanonicalizedHeader` of storage/client.go writes.
use mathlib.Core.List.{Permᴰ}
use mathlib.Core.List.Permᴰ
use azure_sdk_for_go.Common.{
  List, [], ◌∷◌, ◌++◌, map, inl, inr, true, false, ◌≡◌, ◌≢◌, refl, ap, subst, ◌∙◌, arith, All,
  Bool-cases, append_assoc,
}
use azure_sdk_for_go.Common.Text.{
  Text, eq_iff, le, le_total, le_trans, insert_sorted, sort_strings, join,
}
use azure_sdk_for_go.Go.{Headers}
use azure_sdk_for_go.Storage.Address.{keys}
use azure_sdk_for_go.Storage.Canonical.{value_of, header_lines, build_canonicalized_header}
use azure_sdk_for_go.Storage.Canonical.Order.{signed, Avoids, Distinct, value_of_cons, build_lem}

abbrev pub Ascending : List Text → Type 0
Ascending [] = Unit
Ascending (k ∷ ks) = All (λ j. le k j ≡ true) ks × Ascending ks

-- The line of a header.
abbrev pub entry : Text × Text → Text
entry p = p.0 ++ (b':' ∷ p.1)

insert_sorted-Perm : (x : Text) (ys : List Text) → Permᴰ (insert_sorted x ys) (x ∷ ys)
unfolding insert_sorted
insert_sorted-Perm x [] = Permᴰ.refl _
insert_sorted-Perm x (y ∷ ys) = elim (Bool-cases (le x y)) [
  | inl t ↦ rw t (Permᴰ.refl _)
  | inr t ↦ rw t (Permᴰ.trans (Permᴰ.cons refl (insert_sorted-Perm x ys)) (Permᴰ.swap refl refl))
]

pub sort_strings-Permᴰ : (xs : List Text) → Permᴰ (sort_strings xs) xs
unfolding sort_strings
sort_strings-Permᴰ [] = Permᴰ.nil
sort_strings-Permᴰ (x ∷ xs) =
    Permᴰ.trans (insert_sorted-Perm x (sort_strings xs)) (Permᴰ.cons refl (sort_strings-Permᴰ xs))

All-le_trans :
    (x y : Text) (zs : List Text)
    → le x y ≡ true
    → All (λ j. le y j ≡ true) zs
    → All (λ j. le x j ≡ true) zs
All-le_trans x y [] p a = tt
All-le_trans x y (z ∷ zs) p a = (le_trans x y z p a.0, All-le_trans x y zs p a.1)

All-insert_sorted :
    (x k : Text) (ys : List Text)
    → le k x ≡ true
    → All (λ j. le k j ≡ true) ys
    → All (λ j. le k j ≡ true) (insert_sorted x ys)
unfolding insert_sorted
All-insert_sorted x k [] p a = (p, tt)
All-insert_sorted x k (y ∷ ys) p a = elim (Bool-cases (le x y)) [
  | inl t ↦ rw t (p, a)
  | inr t ↦ rw t (a.0, All-insert_sorted x k ys p a.1)
]

flip_le : (x y : Text) → le x y ≡ false → le y x ≡ true
flip_le x y e = ground (arith, le_total x y)

insert_sorted-Ascending :
    (x : Text) (ys : List Text) → Ascending ys → Ascending (insert_sorted x ys)
unfolding insert_sorted
insert_sorted-Ascending x [] a = (tt, tt)
insert_sorted-Ascending x (y ∷ ys) a = elim (Bool-cases (le x y)) [
  | inl t ↦ rw t ((t, All-le_trans x y ys t a.0), a)
  | inr t ↦ rw t (All-insert_sorted x y ys (flip_le x y t) a.0, insert_sorted-Ascending x ys a.1)
]

pub sort_strings-Ascending : (xs : List Text) → Ascending (sort_strings xs)
unfolding sort_strings
sort_strings-Ascending [] = tt
sort_strings-Ascending (x ∷ xs) =
    insert_sorted-Ascending x (sort_strings xs) (sort_strings-Ascending xs)

-- The headers of given names.
abbrev pairs : Headers → List Text → Headers
pairs cm = map (λ k. (k, value_of k cm))

pairs_cons :
    (p : Text × Text) (m : Headers) (ks : List Text) → Avoids p.0 ks → pairs (p ∷ m) ks ≡ pairs m ks
pairs_cons p m [] a = refl
pairs_cons p m (k ∷ ks) a =
    ap (λ (v : Text). (k, v) ∷ pairs (p ∷ m) ks) (value_of_other p m k a.0)
    ∙ ap (◌∷◌ (k, value_of k m)) (pairs_cons p m ks a.1)
  where
    value_of_other :
        (p : Text × Text) (m : Headers) (k : Text) → k ≢ p.0 → value_of k (p ∷ m) ≡ value_of k m
    value_of_other p m k ne = ground (arith, value_of_cons k p m, eq_iff p.0 k)

pairs-keys : (cm : Headers) → Distinct (keys cm) → pairs cm (keys cm) ≡ cm
pairs-keys [] d = refl
pairs-keys ((k, v) ∷ m) d =
    ap (λ (w : Text). (k, w) ∷ pairs ((k, v) ∷ m) (keys m)) (value_of_head k v m)
    ∙ ap (◌∷◌ (k, v)) (pairs_cons (k, v) m (keys m) d.0 ∙ pairs-keys m d.1)
  where
    value_of_head : (k v : Text) (m : Headers) → value_of k ((k, v) ∷ m) ≡ v
    value_of_head k v m = ground (arith, value_of_cons k (k, v) m, eq_iff k k)

keys-pairs : (cm : Headers) (ks : List Text) → keys (pairs cm ks) ≡ ks
keys-pairs cm [] = refl
keys-pairs cm (k ∷ ks) = ap (◌∷◌ k) (keys-pairs cm ks)

header_lines-join :
    (cm : Headers) (ks : List Text)
    → header_lines cm ks ≡ join (b'\n' ∷ []) (map entry (pairs cm ks))
unfolding header_lines join
header_lines-join cm [] = refl
header_lines-join cm (k ∷ []) = refl
header_lines-join cm (k ∷ j ∷ ks) = rw (header_lines-join cm (j ∷ ks)) (simp append_assoc)

-- If no two signed headers have one canonical name, then the canonicalized header is the lines
-- `name:value` of the signed headers, in ascending order of the names.
pub build_canonicalized_header_lem :
    (headers : Headers)
    → Distinct (keys (signed headers))
    → (m : Headers) × Permᴰ m (signed headers)
      × Ascending (keys m)
      × (build_canonicalized_header headers ≡ join (b'\n' ∷ []) (map entry m))
build_canonicalized_header_lem headers d =
    let cm = signed headers in
    (
      pairs cm (sort_strings (keys cm)),
      subst (λ t. Permᴰ (pairs cm (sort_strings (keys cm))) t) (pairs-keys cm d)
          (Permᴰ.map (λ k. (k, value_of k cm)) (sort_strings-Permᴰ (keys cm))),
      rw keys-pairs (sort_strings-Ascending (keys cm)),
      build_lem headers d ∙ header_lines-join cm (sort_strings (keys cm)),
    )
