-- ===== src/Storage/Listing/Tables.antt =====
-- `mergeParams` of storage/util.go on queries that are given by tables.
use azure_sdk_for_go.Common.{
  ℕ, List, [], ◌∷◌, ◌++◌, Option, some, none, Bool, true, ◌≡◌, refl, sym, ap, ◌∙◌, not, ◌&&◌,
  if◌then◌else◌, ◌==◌, arith, append_assoc, append-nil, Bool-cases, inl, inr,
}
use azure_sdk_for_go.Common.Text.{Text, is_empty, eq, decimal}
use azure_sdk_for_go.Go.{lookup, insert}
use azure_sdk_for_go.Storage.{Values}
use azure_sdk_for_go.Storage.Address.{copy_params, append_params, merge_params}
use azure_sdk_for_go.Storage.Listing.{set_text, set_number}

-- A key with its values, where it is present.
abbrev pub Table : Type 0
Table = List (Text × Option (List Text))

abbrev pub present : Table → Values
present [] = []
present ((k, none) ∷ t) = present t
present ((k, some vs) ∷ t) = (k, vs) ∷ present t

-- A text that is not empty, and a number that is not 0, are present.
abbrev pub text_value : Text → Option (List Text)
text_value s = if is_empty s then none else some (s ∷ [])

abbrev pub number_value : ℕ → Option (List Text)
number_value n = if n == 0 then none else some (decimal n ∷ [])

present-append : (s t : Table) → present (s ++ t) ≡ present s ++ present t
present-append [] t = refl
present-append ((k, none) ∷ s) t = present-append s t
present-append ((k, some vs) ∷ s) t = ap (◌∷◌ (k, vs)) (present-append s t)

pub set_text-present :
    (k s : Text) (t : Table) → set_text k s (present t) ≡ present (t ++ ((k, text_value s) ∷ []))
unfolding set_text
set_text-present k [] t = sym (append-nil (present t)) ∙ sym (present-append t ((k, none) ∷ []))
set_text-present k (c ∷ cs) t = sym (present-append t ((k, some ((c ∷ cs) ∷ [])) ∷ []))

pub set_number-present :
    (k : Text) (n : ℕ) (t : Table)
    → set_number k n (present t) ≡ present (t ++ ((k, number_value n) ∷ []))
unfolding set_number
set_number-present k n t = elim (Bool-cases (n == 0)) [
  | inl e ↦ rw e (sym (append-nil (present t)) ∙ sym (present-append t ((k, none) ∷ [])))
  | inr e ↦ rw e (sym (present-append t ((k, some (decimal n ∷ [])) ∷ [])))
]

-- None of these keys is the key.
abbrev pub avoids : Text → List Text → Bool
avoids k [] = true
avoids k (j ∷ js) = not (eq j k) && avoids k js

abbrev pub names : Table → List Text
names [] = []
names ((k, v) ∷ t) = k ∷ names t

-- The keys are none of the used ones, and differ from each other.
abbrev pub fresh : List Text → List Text → Bool
fresh used [] = true
fresh used (k ∷ ks) = avoids k used && fresh (used ++ (k ∷ [])) ks

names-append : (s t : Table) → names (s ++ t) ≡ names s ++ names t
names-append [] t = refl
names-append ((k, v) ∷ s) t = ap (◌∷◌ k) (names-append s t)

insert-present :
    (k : Text) (vs : List Text) (s : Table)
    → avoids k (names s) ≡ true
    → insert k vs (present s) ≡ present s ++ ((k, vs) ∷ [])
unfolding insert
insert-present k vs [] a = refl
insert-present k vs ((j, none) ∷ s) a = insert-present k vs s (ground arith)
insert-present k vs ((j, some ws) ∷ s) a = ground (arith, insert-present k vs s)

lookup-present : (k : Text) (s : Table) → avoids k (names s) ≡ true → lookup k (present s) ≡ none
unfolding lookup
lookup-present k [] a = refl
lookup-present k ((j, none) ∷ s) a = lookup-present k s (ground arith)
lookup-present k ((j, some ws) ∷ s) a = ground (arith, lookup-present k s)

module _ (s t : Table) (k : Text)
    (f : (avoids k (names s) && fresh (names s ++ (k ∷ [])) (names t)) ≡ true) where
  avoided : avoids k (names s) ≡ true
  avoided = ground arith

  still_fresh : (v : Option (List Text)) → fresh (names (s ++ ((k, v) ∷ []))) (names t) ≡ true
  still_fresh v = rw (names-append s ((k, v) ∷ [])) (ground arith)

  absent : present (s ++ ((k, none) ∷ [])) ≡ present s
  absent = present-append s ((k, none) ∷ []) ∙ append-nil (present s)

copy_params-present :
    (s t : Table)
    → fresh (names s) (names t) ≡ true
    → copy_params (present s) (present t) ≡ present (s ++ t)
unfolding copy_params
copy_params-present s [] f = sym (ap present (append-nil s))
copy_params-present s ((k, none) ∷ t) f =
    ap (λ out. copy_params out (present t)) (sym (absent s t k f))
    ∙ copy_params-present (s ++ ((k, none) ∷ [])) t (still_fresh s t k f none)
    ∙ ap present (append_assoc s ((k, none) ∷ []) t)
copy_params-present s ((k, some vs) ∷ t) f =
    ap (λ out. copy_params out (present t))
      (insert-present k vs s (avoided s t k f) ∙ sym (present-append s ((k, some vs) ∷ [])))
    ∙ copy_params-present (s ++ ((k, some vs) ∷ [])) t (still_fresh s t k f (some vs))
    ∙ ap present (append_assoc s ((k, some vs) ∷ []) t)

append_params-present :
    (s t : Table)
    → fresh (names s) (names t) ≡ true
    → append_params (present s) (present t) ≡ present (s ++ t)
unfolding append_params
append_params-present s [] f = sym (ap present (append-nil s))
append_params-present s ((k, none) ∷ t) f =
    ap (λ out. append_params out (present t)) (sym (absent s t k f))
    ∙ append_params-present (s ++ ((k, none) ∷ [])) t (still_fresh s t k f none)
    ∙ ap present (append_assoc s ((k, none) ∷ []) t)
append_params-present s ((k, some vs) ∷ t) f =
    ap
      (λ found.
        append_params (insert k (elim found [ none ↦ vs | some vals ↦ vals ++ vs ]) (present s))
          (present t))
      (lookup-present k s (avoided s t k f))
    ∙ ap (λ out. append_params out (present t))
        (insert-present k vs s (avoided s t k f) ∙ sym (present-append s ((k, some vs) ∷ [])))
    ∙ append_params-present (s ++ ((k, some vs) ∷ [])) t (still_fresh s t k f (some vs))
    ∙ ap present (append_assoc s ((k, some vs) ∷ []) t)

pub merge_params-present :
    (s t : Table)
    → fresh [] (names s) ≡ true
    → fresh (names s) (names t) ≡ true
    → merge_params (present s) (present t) ≡ present (s ++ t)
unfolding merge_params
merge_params-present s t d f =
    ap (λ out. append_params out (present t)) (copy_params-present [] s d)
    ∙ append_params-present s t f
