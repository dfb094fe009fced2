-- ===== src/Common/Text.antt =====
-- Go strings and byte slices as lists of bytes, with the functions of `strings`, `sort` and `fmt`
-- that the clients call. `lower`, `trim_space` are those of `strings` on ASCII text.
use Prim.Native.Nat.{ℕ, zero, suc, ◌+◌, ◌/◌, ◌%◌}
use Prim.Native.Char.{code}
use Prim.Native.String.{String}
use mathlib.Core.Path.{◌≡◌, refl}
use mathlib.Core.Logic.{◌↔◌, ◌⊎◌, inl, inr}
use mathlib.Core.Bool.{Bool, true, false, ◌&&◌, ◌||◌}
use mathlib.Core.List.{List, [], ◌∷◌, ◌++◌, map, reverse}
use native.Mathlib.Omega.{arith}
use azure_sdk_for_go.Common.Tests.{ltb, leb, ◌==◌, if◌then◌else◌}

abbrev pub Text : Type 0
Text = List ℕ

-- The bytes of a literal; every literal is ASCII.
abbrev pub codes : String → Text
codes String.[] = []
codes (String.◌∷◌ c s) = code c ∷ codes s

abbrev pub is_empty {ℓ} : {A : Type ℓ} → List A → Bool
is_empty [] = true
is_empty (x ∷ xs) = false

pub Text-cases : (s : Text) → (s ≡ []) ⊎ ((c : ℕ) × ((cs : Text) × (s ≡ c ∷ cs)))
Text-cases [] = inl refl
Text-cases (c ∷ cs) = inr (c, (cs, refl))

-- Equality of strings.
unfoldable pub eq : Text → Text → Bool
eq [] [] = true
eq [] (y ∷ ys) = false
eq (x ∷ xs) [] = false
eq (x ∷ xs) (y ∷ ys) = x == y && eq xs ys

pub eq_iff : (s t : Text) → (eq s t ≡ true) ↔ (s ≡ t)
unfolding eq
eq_iff [] [] = ground arith
eq_iff [] (y ∷ ys) = ground arith
eq_iff (x ∷ xs) [] = ground arith
eq_iff (x ∷ xs) (y ∷ ys) = ground (arith, eq_iff xs ys)

pub eq_refl : (s : Text) → eq s s ≡ true
eq_refl s = (eq_iff s s).1 refl

-- The order of Go strings: bytewise, a proper prefix first.
unfoldable pub le : Text → Text → Bool
le [] t = true
le (x ∷ xs) [] = false
le (x ∷ xs) (y ∷ ys) = ltb x y || (x == y && le xs ys)

pub le_total : (s t : Text) → (le s t ≡ true) ⊎ (le t s ≡ true)
unfolding le
le_total [] t = inl refl
le_total (x ∷ xs) [] = inr refl
le_total (x ∷ xs) (y ∷ ys) = ground (arith, le_total xs ys)

pub le_trans : (s t u : Text) → le s t ≡ true → le t u ≡ true → le s u ≡ true
unfolding le
le_trans [] t u p q = refl
le_trans (x ∷ xs) [] u p q = ground arith
le_trans (x ∷ xs) (y ∷ ys) [] p q = ground arith
le_trans (x ∷ xs) (y ∷ ys) (z ∷ zs) p q = ground (arith, le_trans xs ys zs)

pub le_antisymm : (s t : Text) → le s t ≡ true → le t s ≡ true → s ≡ t
unfolding le
le_antisymm [] [] p q = refl
le_antisymm [] (y ∷ ys) p q = ground arith
le_antisymm (x ∷ xs) [] p q = ground arith
le_antisymm (x ∷ xs) (y ∷ ys) p q = ground (arith, le_antisymm xs ys)

-- `strings.ToLower`
unfoldable pub to_lower_byte : ℕ → ℕ
to_lower_byte c = if leb b'A' c && leb c b'Z' then c + 32 else c

unfoldable pub to_lower : Text → Text
unfolding to_lower_byte
to_lower = map to_lower_byte

-- `strings.TrimSpace`: the ASCII white space is \t \n \v \f \r and the blank.
abbrev pub is_space : ℕ → Bool
is_space c = (leb 9 c && leb c 13) || c == 32

trim_left : Text → Text
trim_left [] = []
trim_left (c ∷ cs) = let rest = trim_left cs in if is_space c then rest else c ∷ cs

unfoldable pub trim_space : Text → Text
unfolding trim_left
trim_space s = reverse (trim_left (reverse (trim_left s)))

-- `strings.Fields` on ASCII text: the runs of bytes that are not white space. The scan gives the run
-- that the text begins with, and the runs behind it.
abbrev pub with_run : Text × List Text → List Text
with_run ([], runs) = runs
with_run (c ∷ cs, runs) = (c ∷ cs) ∷ runs

unfoldable pub scan_runs : Text → Text × List Text
scan_runs [] = ([], [])
scan_runs (c ∷ cs) =
    let rest = scan_runs cs in if is_space c then ([], with_run rest) else (c ∷ rest.0, rest.1)

unfoldable pub fields : Text → List Text
unfolding scan_runs
fields s = with_run (scan_runs s)

-- `strings.Trim(s, cutset)`
abbrev is_in : Text → ℕ → Bool
is_in [] c = false
is_in (x ∷ xs) c = x == c || is_in xs c

trim_set_left : Text → Text → Text
trim_set_left cutset [] = []
trim_set_left cutset (c ∷ cs) =
    let rest = trim_set_left cutset cs in if is_in cutset c then rest else c ∷ cs

unfoldable pub trim_set : Text → Text → Text
unfolding trim_set_left
trim_set cutset s = reverse (trim_set_left cutset (reverse (trim_set_left cutset s)))

abbrev pub has_prefix : Text → Text → Bool
has_prefix s [] = true
has_prefix [] (y ∷ ys) = false
has_prefix (x ∷ xs) (y ∷ ys) = x == y && has_prefix xs ys

-- `strings.Contains`, and `regexp.MatchString` of a literal pattern.
unfoldable pub contains : Text → Text → Bool
contains [] t = is_empty t
contains (x ∷ xs) t = has_prefix (x ∷ xs) t || contains xs t

-- `strings.Join`
unfoldable pub join : Text → List Text → Text
join sep [] = []
join sep (x ∷ []) = x
join sep (x ∷ y ∷ ys) = x ++ (sep ++ join sep (y ∷ ys))

-- `%d` and `%v` of a number that is not negative: the fuel `n + 1` is more than its digits.
unfoldable pub digits_onto : ℕ → ℕ → Text → Text
digits_onto zero n out = out
digits_onto (suc f) n out =
    let more = digits_onto f (n / 10) ((n % 10 + 48) ∷ out) in
    if ltb n 10 then (n + 48) ∷ out else more

unfoldable pub decimal : ℕ → Text
unfolding digits_onto
decimal n = digits_onto (n + 1) n []

-- `sort.Strings`: the sorted list is unique, so any sort gives it.
unfoldable pub insert_sorted : Text → List Text → List Text
insert_sorted x [] = x ∷ []
insert_sorted x (y ∷ ys) = if le x y then x ∷ y ∷ ys else y ∷ insert_sorted x ys

unfoldable pub sort_strings : List Text → List Text
unfolding insert_sorted
sort_strings [] = []
sort_strings (x ∷ xs) = insert_sorted x (sort_strings xs)
