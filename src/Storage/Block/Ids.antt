-- ===== src/Storage/Block/Ids.antt =====
-- The block ids of `putBlockBlob`, storage/blob.go.
use azure_sdk_for_go.Common.{
  ℕ, zero, suc, ◌+◌, ◌-◌, ◌*◌, ◌/◌, ◌%◌, ◌^◌, ◌≤◌, ◌<◌, [], ◌∷◌, ◌++◌, ◌≡◌, refl, sym, ap, ◌∙◌,
  arith, All, length, length-append, length-replicate, replicate, false, ltb, Bool-cases, inl, inr,
  ltb→lt,
}
use azure_sdk_for_go.Common.Text.{Text, digits_onto, decimal}
use azure_sdk_for_go.Common.Base64.{base64_digit, base64_encode}
use azure_sdk_for_go.Storage.Block.{padded, block_id}

abbrev IsByte : ℕ → Type 0
IsByte b = b < 256

-- The number that a text of digits stands for.
abbrev value_from : ℕ → Text → ℕ
value_from acc [] = acc
value_from acc (c ∷ cs) = value_from (acc * 10 + (c - 48)) cs

value-digits_onto :
    (f n : ℕ) (out : Text) → n < f → value_from 0 (digits_onto f n out) ≡ value_from n out
unfolding digits_onto
value-digits_onto zero n out h = absurd (omega arith)
value-digits_onto (suc f) n out h = elim (Bool-cases (ltb n 10)) [
  | inl t ↦ rw t (ap (λ (m : ℕ). value_from m out) (omega arith))
  | inr t ↦ rw t (
      value-digits_onto f (n / 10) ((n % 10 + 48) ∷ out) (ground arith)
      ∙ ap (λ (m : ℕ). value_from m out) (omega arith))
]

value-replicate : (k : ℕ) (s : Text) → value_from 0 (replicate k b'0' ++ s) ≡ value_from 0 s
value-replicate zero s = refl
value-replicate (suc k) s = value-replicate k s

value-padded : (n : ℕ) → value_from 0 (padded n) ≡ n
unfolding padded
value-padded n =
    value-replicate (11 - length (decimal n)) (decimal n)
    ∙ unfold decimal in value-digits_onto (n + 1) n [] (omega arith)

digit_test : (n : ℕ) → n < 10 → ltb n 10 ≡ false → ⊥
digit_test n h t = ground arith

length-digits_onto :
    (k f n : ℕ) (out : Text) → n < 10 ^ suc k → length (digits_onto f n out) ≤ suc k + length out
unfolding digits_onto
length-digits_onto k zero n out h = omega arith
length-digits_onto zero (suc f) n out h = elim (Bool-cases (ltb n 10)) [
  | inl t ↦ rw t (omega arith)
  | inr t ↦ absurd (digit_test n h t)
]
length-digits_onto (suc k) (suc f) n out h = elim (Bool-cases (ltb n 10)) [
  | inl t ↦ rw t (omega arith)
  | inr t ↦ rw t (omega (arith, length-digits_onto k f (n / 10) ((n % 10 + 48) ∷ out)))
]

-- A number below 10^11 is written with exactly eleven digits.
length-padded : (n : ℕ) → n < 10 ^ 11 → length (padded n) ≡ 11
unfolding padded
length-padded n h = omega (
  arith,
  length-append (replicate (11 - length (decimal n)) b'0') (decimal n),
  length-replicate {A = ℕ} (11 - length (decimal n)) b'0',
  decimal_short,
)
  where
    decimal_short : length (decimal n) ≤ 11
    decimal_short = unfold decimal in length-digits_onto 10 (n + 1) n [] h

IsByte-digits_onto : (f n : ℕ) (out : Text) → All IsByte out → All IsByte (digits_onto f n out)
unfolding digits_onto
IsByte-digits_onto zero n out a = a
IsByte-digits_onto (suc f) n out a = elim (Bool-cases (ltb n 10)) [
  | inl t ↦ rw t (omega (arith, ltb→lt n 10 t), a)
  | inr t ↦ rw t (IsByte-digits_onto f (n / 10) ((n % 10 + 48) ∷ out) (omega arith, a))
]

All-replicate : (k : ℕ) (s : Text) → All IsByte s → All IsByte (replicate k b'0' ++ s)
All-replicate zero s a = a
All-replicate (suc k) s a = (omega arith, All-replicate k s a)

IsByte-padded : (n : ℕ) → All IsByte (padded n)
unfolding padded
IsByte-padded n =
    All-replicate (11 - length (decimal n)) (decimal n)
      (unfold decimal in IsByte-digits_onto (n + 1) n [] tt)

base64_digit_injective : (a b : ℕ) → a < 64 → b < 64 → base64_digit a ≡ base64_digit b → a ≡ b
base64_digit_injective a b p q e = ground arith

same_byte :
    (a b x y : ℕ)
    → a < 256
    → b < 256
    → base64_digit (a / 4) ≡ base64_digit (b / 4)
    → base64_digit (a % 4 * 16 + x / 16) ≡ base64_digit (b % 4 * 16 + y / 16)
    → x < 256
    → y < 256
    → (a ≡ b) × (x / 16 ≡ y / 16)
same_byte a b x y p q e f r s = omega (
  arith,
  base64_digit_injective (a / 4) (b / 4) (omega arith) (omega arith) e,
  base64_digit_injective (a % 4 * 16 + x / 16) (b % 4 * 16 + y / 16) (omega arith) (omega arith) f,
)

same_one :
    (a b : ℕ)
    → a < 256
    → b < 256
    → base64_digit (a / 4) ≡ base64_digit (b / 4)
    → base64_digit (a % 4 * 16) ≡ base64_digit (b % 4 * 16)
    → a ≡ b
same_one a b p q e f = omega (
  arith,
  base64_digit_injective (a / 4) (b / 4) (omega arith) (omega arith) e,
  base64_digit_injective (a % 4 * 16) (b % 4 * 16) (omega arith) (omega arith) f,
)

same_last :
    (a b : ℕ)
    → a < 256
    → b < 256
    → a / 16 ≡ b / 16
    → base64_digit (a % 16 * 4) ≡ base64_digit (b % 16 * 4)
    → a ≡ b
same_last a b p q e f =
    omega (arith, base64_digit_injective (a % 16 * 4) (b % 16 * 4) (omega arith) (omega arith) f)

same_pair :
    (b b' c c' : ℕ)
    → b < 256
    → b' < 256
    → c < 256
    → c' < 256
    → b / 16 ≡ b' / 16
    → base64_digit (b % 16 * 4 + c / 64) ≡ base64_digit (b' % 16 * 4 + c' / 64)
    → base64_digit (c % 64) ≡ base64_digit (c' % 64)
    → (b ≡ b') × (c ≡ c')
same_pair b b' c c' p p' q q' e f g = omega (
  arith,
  base64_digit_injective (b % 16 * 4 + c / 64) (b' % 16 * 4 + c' / 64) (omega arith) (omega arith)
      f,
  base64_digit_injective (c % 64) (c' % 64) (omega arith) (omega arith) g,
)

head_of : {x y : ℕ} {xs ys : Text} → ◌≡◌ {A = Text} (x ∷ xs) (y ∷ ys) → x ≡ y
head_of e = cc

tail_of : {x y : ℕ} {xs ys : Text} → ◌≡◌ {A = Text} (x ∷ xs) (y ∷ ys) → xs ≡ ys
tail_of e = cc

cons_same : {x y : ℕ} {xs ys : Text} → x ≡ y → xs ≡ ys → ◌≡◌ {A = Text} (x ∷ xs) (y ∷ ys)
cons_same p q = cc

base64_encode-injective :
    (s t : Text)
    → length s ≡ length t
    → All IsByte s
    → All IsByte t
    → base64_encode s ≡ base64_encode t
    → s ≡ t
unfolding base64_encode
base64_encode-injective [] [] l p q e = refl
base64_encode-injective (a ∷ []) (x ∷ []) l p q e =
    cons_same (same_one a x p.0 q.0 (head_of e) (head_of (tail_of e))) refl
base64_encode-injective (a ∷ b ∷ []) (x ∷ y ∷ []) l p q e =
    let (first, high) = same_byte a x b y p.0 q.0 (head_of e) (head_of (tail_of e)) p.1.0 q.1.0 in
    cons_same first
      (cons_same (same_last b y p.1.0 q.1.0 high (head_of (tail_of (tail_of e)))) refl)
base64_encode-injective (a ∷ b ∷ c ∷ s) (x ∷ y ∷ z ∷ t) l p q e =
    let (first, high) = same_byte a x b y p.0 q.0 (head_of e) (head_of (tail_of e)) p.1.0 q.1.0 in
    let (second, third) =
      same_pair b y c z p.1.0 q.1.0 p.1.1.0 q.1.1.0 high (head_of (tail_of (tail_of e)))
        (head_of (tail_of (tail_of (tail_of e)))) in
    let rest =
      base64_encode-injective s t (omega arith) p.1.1.1 q.1.1.1
        (tail_of (tail_of (tail_of (tail_of e)))) in
    cons_same first (cons_same second (cons_same third rest))
base64_encode-injective _ _ l p q e = absurd (omega (arith, l))

-- Below 10^11 different block numbers have different ids.
pub block_id-injective : (m n : ℕ) → m < 10 ^ 11 → n < 10 ^ 11 → block_id m ≡ block_id n → m ≡ n
unfolding block_id
block_id-injective m n p q e =
    sym (value-padded m)
    ∙ ap (value_from 0) (
        base64_encode-injective (padded m) (padded n) (length-padded m p ∙ sym (length-padded n q))
          (IsByte-padded m) (IsByte-padded n) e)
    ∙ value-padded n
