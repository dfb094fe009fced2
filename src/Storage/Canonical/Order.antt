-- ===== src/Storage/Canonical/Order.antt =====
-- `buildCanonicalizedHeader` of storage/client.go and the order in which a map is iterated over.
use mathlib.Core.List.{Perm, Permᴰ}
use mathlib.Core.List.Permᴰ
use mathlib.Core.Logic.{∥∥₁_elim}
use azure_sdk_for_go.Common.{
  List, [], ◌∷◌, ◌++◌, if◌then◌else◌, inl, inr, ◌≡◌, ◌≢◌, refl, sym, ap, subst, ◌∙◌, arith, All,
  Bool-cases, append_assoc, append-nil,
}
use azure_sdk_for_go.Common.Text.{
  Text, is_empty, eq, eq_iff, le_total, le_trans, le_antisymm, insert_sorted, sort_strings,
}
use azure_sdk_for_go.Go.{insert, Headers}
use azure_sdk_for_go.Storage.Address.{keys}
use azure_sdk_for_go.Storage.Canonical.{
  header_name, is_signed, collect, value_of, header_lines, build_canonicalized_header,
}

pub Text-set : IsSet Text
Text-set = hlevel

abbrev name_of : Text × Text → Text
name_of p = p.0

-- The headers that are signed, under their canonical names.
abbrev pub signed : Headers → Headers
signed [] = []
signed ((k, v) ∷ headers) =
    if is_signed (header_name k) then (header_name k, v) ∷ signed headers else signed headers

abbrev pub Avoids : Text → List Text → Type 0
Avoids k = All (λ j. j ≢ k)

abbrev pub Distinct : List Text → Type 0
Distinct [] = Unit
Distinct (k ∷ ks) = Avoids k ks × Distinct ks

keys-append : (m n : Headers) → keys (m ++ n) ≡ keys m ++ keys n
keys-append [] n = refl
keys-append ((k, v) ∷ m) n = ap (◌∷◌ k) (keys-append m n)

-- A key in the middle of a list of distinct keys is avoided by those before it.
Avoids-middle :
    (ks : List Text) (k : Text) (bs : List Text) → Distinct (ks ++ (k ∷ bs)) → Avoids k ks
Avoids-middle [] k bs d = tt
Avoids-middle (a ∷ ks) k bs d = (λ e. middle ks d.0 (sym e), Avoids-middle ks k bs d.1)
  where
    middle : (xs : List Text) → Avoids a (xs ++ (k ∷ bs)) → k ≢ a
    middle [] p = p.0
    middle (x ∷ xs) p = middle xs p.1

insert-Avoids : (k v : Text) (m : Headers) → Avoids k (keys m) → insert k v m ≡ m ++ ((k, v) ∷ [])
unfolding insert
insert-Avoids k v [] a = refl
insert-Avoids k v ((j, w) ∷ m) a = ground (arith, eq_iff j k, insert-Avoids k v m)

collect-signed :
    (cm headers : Headers)
    → Distinct (keys (cm ++ signed headers))
    → collect cm headers ≡ cm ++ signed headers
unfolding collect
collect-signed cm [] d = sym (append-nil cm)
collect-signed cm ((k, v) ∷ headers) d = elim (Bool-cases (is_signed (header_name k))) [
  | inr out ↦ rw (out, collect) (collect-signed cm headers (rw out at d))
  | inl in_it ↦
      let d' = rw in_it at d in
      let a = Avoids-middle (keys cm) (header_name k) _ (rw keys-append at d') in
      rw (in_it, collect)
        (rw (insert-Avoids (header_name k) v cm a) (
          collect-signed (cm ++ ((header_name k, v) ∷ [])) headers (rw append_assoc d')
          ∙ append_assoc cm ((header_name k, v) ∷ []) (signed headers)))
]

-- Sorting forgets the order: inserting commutes.
insert_sorted_comm :
    (x y : Text) (zs : List Text)
    → insert_sorted x (insert_sorted y zs) ≡ insert_sorted y (insert_sorted x zs)
unfolding insert_sorted
insert_sorted_comm x y [] = ground (arith, le_total x y, le_antisymm x y)
insert_sorted_comm x y (z ∷ zs) = ground (
  arith,
  le_total x y,
  le_total y z,
  le_total x z,
  le_antisymm x y,
  le_trans x y z,
  le_trans y x z,
  insert_sorted_comm x y zs,
)

sort_strings-Perm : {xs ys : List Text} → Permᴰ xs ys → sort_strings xs ≡ sort_strings ys
unfolding sort_strings
sort_strings-Perm Permᴰ.nil = refl
sort_strings-Perm (Permᴰ.cons {a} {b} {l₁} {l₂} e p) =
    ap (λ (t : Text). insert_sorted t (sort_strings l₁)) e
    ∙ ap (insert_sorted b) (sort_strings-Perm p)
sort_strings-Perm (Permᴰ.swap {a} {b} {a'} {b'} {l} e f) =
    insert_sorted_comm a b (sort_strings l)
    ∙ ap (λ (t : Text). insert_sorted t (insert_sorted a (sort_strings l))) f
    ∙ ap (λ (t : Text). insert_sorted a' (insert_sorted t (sort_strings l))) e
sort_strings-Perm (Permᴰ.trans p q) = sort_strings-Perm p ∙ sort_strings-Perm q

Avoids-Perm : {xs ys : List Text} (k : Text) → Permᴰ xs ys → Avoids k xs → Avoids k ys
Avoids-Perm k Permᴰ.nil a = tt
Avoids-Perm k (Permᴰ.cons e p) a = (λ f. a.0 (e ∙ f), Avoids-Perm k p a.1)
Avoids-Perm k (Permᴰ.swap e f) a = (λ g. a.1.0 (f ∙ g), (λ g. a.0 (e ∙ g), a.1.1))
Avoids-Perm k (Permᴰ.trans p q) a = Avoids-Perm k q (Avoids-Perm k p a)

pub Distinct-Perm : {xs ys : List Text} → Permᴰ xs ys → Distinct xs → Distinct ys
Distinct-Perm Permᴰ.nil d = tt
Distinct-Perm (Permᴰ.cons {a} {b} {l₁} {l₂} e p) d =
    (subst (λ t. Avoids t l₂) e (Avoids-Perm a p d.0), Distinct-Perm p d.1)
Distinct-Perm (Permᴰ.swap {a} {b} {a'} {b'} {l} e f) d = (
  ((λ g. d.0.0 (f ∙ sym g ∙ sym e)), subst (λ t. Avoids t l) f d.1.0),
  (subst (λ t. Avoids t l) e d.0.1, d.1.1),
)
Distinct-Perm (Permᴰ.trans p q) d = Distinct-Perm q (Distinct-Perm p d)

pub keys-Perm : {m n : Headers} → Permᴰ m n → Permᴰ (keys m) (keys n)
keys-Perm Permᴰ.nil = Permᴰ.nil
keys-Perm (Permᴰ.cons e p) = Permᴰ.cons (ap name_of e) (keys-Perm p)
keys-Perm (Permᴰ.swap e f) = Permᴰ.swap (ap name_of e) (ap name_of f)
keys-Perm (Permᴰ.trans p q) = Permᴰ.trans (keys-Perm p) (keys-Perm q)

pub value_of_cons :
    (k : Text) (p : Text × Text) (m : Headers)
    → value_of k (p ∷ m) ≡ (if eq p.0 k then p.1 else value_of k m)
unfolding value_of
value_of_cons k (j, v) m = ground arith

value_of_swap :
    (k : Text) (a b : Text × Text) (m : Headers)
    → b.0 ≢ a.0
    → value_of k (a ∷ b ∷ m) ≡ value_of k (b ∷ a ∷ m)
value_of_swap k a b m differ = ground (
  arith,
  value_of_cons k a (b ∷ m),
  value_of_cons k b m,
  value_of_cons k b (a ∷ m),
  value_of_cons k a m,
  eq_iff a.0 k,
  eq_iff b.0 k,
)

pub value_of-Perm :
    (k : Text) {m n : Headers} → Permᴰ m n → Distinct (keys m) → value_of k m ≡ value_of k n
value_of-Perm k Permᴰ.nil d = refl
value_of-Perm k (Permᴰ.cons {a} {b} {l₁} {l₂} e p) d =
    ap (λ (t : Text × Text). value_of k (t ∷ l₁)) e
    ∙ value_of_cons k b l₁
    ∙ ap (λ (t : Text). if eq b.0 k then b.1 else t) (value_of-Perm k p d.1)
    ∙ sym (value_of_cons k b l₂)
value_of-Perm k (Permᴰ.swap {a} {b} {a'} {b'} {l} e f) d =
    value_of_swap k a b l d.0.0
    ∙ ap (λ (t : Text × Text). value_of k (t ∷ a ∷ l)) f
    ∙ ap (λ (t : Text × Text). value_of k (a' ∷ t ∷ l)) e
value_of-Perm k (Permᴰ.trans p q) d =
    value_of-Perm k p d ∙ value_of-Perm k q (Distinct-Perm (keys-Perm p) d)

header_lines_ext :
    (m n : Headers) (ks : List Text)
    → ((k : Text) → value_of k m ≡ value_of k n)
    → header_lines m ks ≡ header_lines n ks
unfolding header_lines
header_lines_ext m n [] h = refl
header_lines_ext m n (k ∷ []) h = rw (h k)
header_lines_ext m n (k ∷ j ∷ ks) h = rw (h k) (rw (header_lines_ext m n (j ∷ ks) h))

-- One step of `signed`.
abbrev kept : Text × Text → Headers → Headers
kept p m = if is_signed (header_name p.0) then (header_name p.0, p.1) ∷ m else m

kept-Perm : (p : Text × Text) {m n : Headers} → Permᴰ m n → Permᴰ (kept p m) (kept p n)
kept-Perm p q = elim (Bool-cases (is_signed (header_name p.0))) [
  | inl t ↦ rw t (Permᴰ.cons refl q)
  | inr t ↦ rw t q
]

kept_swap : (p q : Text × Text) (m : Headers) → Permᴰ (kept p (kept q m)) (kept q (kept p m))
kept_swap p q m = elim (Bool-cases (is_signed (header_name p.0))) [
  | inr t ↦ rw t (Permᴰ.refl (kept q m))
  | inl t ↦ elim (Bool-cases (is_signed (header_name q.0))) [
    | inr u ↦ rw (t, u) (Permᴰ.refl _)
    | inl u ↦ rw (t, u) (Permᴰ.swap refl refl)
  ]
]

signed-Perm : {m n : Headers} → Permᴰ m n → Permᴰ (signed m) (signed n)
signed-Perm Permᴰ.nil = Permᴰ.nil
signed-Perm (Permᴰ.cons {a} {b} {l₁} {l₂} e p) =
    subst (λ t. Permᴰ (kept a (signed l₁)) (kept t (signed l₂))) e (kept-Perm a (signed-Perm p))
signed-Perm (Permᴰ.swap {a} {b} {a'} {b'} {l} e f) =
    subst (λ t. Permᴰ (kept a (kept b (signed l))) (kept a' (kept t (signed l)))) e
      (subst (λ t. Permᴰ (kept a (kept b (signed l))) (kept t (kept a (signed l)))) f
        (kept_swap a b (signed l)))
signed-Perm (Permᴰ.trans p q) = Permᴰ.trans (signed-Perm p) (signed-Perm q)

-- What the two loops come to, for headers with distinct canonical names.
pub build_lem :
    (headers : Headers)
    → Distinct (keys (signed headers))
    → build_canonicalized_header headers
      ≡ header_lines (signed headers) (sort_strings (keys (signed headers)))
unfolding build_canonicalized_header
build_lem headers d = rw (collect-signed [] headers d) (if_empty (signed headers))
  where
    if_empty :
        (m : Headers)
        → (if is_empty m then [] else header_lines m (sort_strings (keys m)))
          ≡ header_lines m (sort_strings (keys m))
    if_empty [] = refl
    if_empty (p ∷ m) = refl

-- If no two signed headers have one canonical name, the canonicalized header is the same for every
-- order in which the map's entries are handed out.
pub build_canonicalized_header-Perm :
    {headers headers' : Headers}
    → Perm headers headers'
    → Distinct (keys (signed headers))
    → build_canonicalized_header headers ≡ build_canonicalized_header headers'
build_canonicalized_header-Perm {headers} {headers'} p d = ∥∥₁_elim p (Text-set _ _) (λ q.
    let s = signed-Perm q in
    build_lem headers d
    ∙ header_lines_ext _ _ _ (λ k. value_of-Perm k s d)
    ∙ ap (header_lines (signed headers')) (sort_strings-Perm (keys-Perm s))
    ∙ sym (build_lem headers' (Distinct-Perm (keys-Perm s) d)))
