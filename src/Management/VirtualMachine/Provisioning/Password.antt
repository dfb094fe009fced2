-- ===== src/Management/VirtualMachine/Provisioning/Password.antt =====
-- The passwords that `verifyPassword` of management/virtualmachine accepts.
use azure_sdk_for_go.Common.{
  ℕ, ◌≤◌, List, [], ◌∷◌, ◌++◌, ◌⊎◌, inl, inr, Bool, true, false, ◌≡◌, ◌↔◌, refl, ap, arith, All,
  length, ltb, ◌||◌, Bool-cases,
}
use azure_sdk_for_go.Common.Text.{Text}
use azure_sdk_for_go.Management.{GoError}
use azure_sdk_for_go.Management.VirtualMachine.{Host}
use azure_sdk_for_go.Management.VirtualMachine.Provisioning.{
  has_class, check_classes, verify_password,
}

-- Some rune of the text belongs to the class.
abbrev pub Has : List ℕ → (ℕ → Bool) → Type 0
Has rs c =
    (before : List ℕ) × (r : ℕ) × (after : List ℕ) × (rs ≡ before ++ (r ∷ after)) × (c r ≡ true)

Has-cons : (x : ℕ) (rs : List ℕ) (c : ℕ → Bool) → Has rs c → Has (x ∷ rs) c
Has-cons x rs c (before, r, after, e, t) = (x ∷ before, r, after, ap (◌∷◌ x) e, t)

has_class-Has : (c : ℕ → Bool) (rs : List ℕ) → has_class c rs ≡ true → Has rs c
unfolding has_class
has_class-Has c [] e = cc
has_class-Has c (x ∷ rs) e = elim (Bool-cases (c x)) [
  | inl t ↦ ([], x, rs, refl, t)
  | inr t ↦ Has-cons x rs c (has_class-Has c rs (ground arith))
]

has_class-append :
    (c : ℕ → Bool) (before : List ℕ) (r : ℕ) (after : List ℕ)
    → c r ≡ true
    → has_class c (before ++ (r ∷ after)) ≡ true
unfolding has_class
has_class-append c [] r after t = ground arith
has_class-append c (x ∷ before) r after t = ground (arith, has_class-append c before r after t)

Has-has_class : (c : ℕ → Bool) (rs : List ℕ) → Has rs c → has_class c rs ≡ true
Has-has_class c rs (before, r, after, e, t) = rw e (has_class-append c before r after t)

refused-ne-accepted : {e : GoError} → ◌≡◌ {A = GoError ⊎ Unit {0}} (inl e) (inr tt) → ⊥
refused-ne-accepted p = cc

check_classes-All :
    (classes : List (ℕ → Bool)) (rs : List ℕ)
    → check_classes classes rs ≡ inr tt
    → All (Has rs) classes
unfolding check_classes
check_classes-All [] rs e = tt
check_classes-All (c ∷ classes) rs e = elim (Bool-cases (has_class c rs)) [
  | inl t ↦ (has_class-Has c rs t, check_classes-All classes rs (rw t at e))
  | inr t ↦ absurd (refused-ne-accepted (rw t at e))
]

All-check_classes :
    (classes : List (ℕ → Bool)) (rs : List ℕ)
    → All (Has rs) classes
    → check_classes classes rs ≡ inr tt
unfolding check_classes
All-check_classes [] rs a = refl
All-check_classes (c ∷ classes) rs a =
    rw (Has-has_class c rs a.0) (All-check_classes classes rs a.1)

abbrev IsAccepted : Host → Text → Type 0
IsAccepted host password =
    (4 ≤ length password)
    × (length password ≤ 30)
    × Has (host.runes password) host.is_upper
    × Has (host.runes password) host.is_lower
    × Has (host.runes password) host.is_number

verify_password-IsAccepted :
    (host : Host) (password : Text)
    → verify_password host password ≡ inr tt
    → IsAccepted host password
unfolding verify_password
verify_password-IsAccepted host password e =
    elim (Bool-cases (ltb (length password) 4 || ltb 30 (length password))) [
      | inl t ↦ absurd (refused-ne-accepted (rw t at e))
      | inr t ↦
          let (upper, (lower, (number, u))) =
            check_classes-All (host.is_upper ∷ host.is_lower ∷ host.is_number ∷ [])
              (host.runes password) (rw t at e) in
          (ground arith, ground arith, upper, lower, number)
    ]

IsAccepted-verify_password :
    (host : Host) (password : Text)
    → IsAccepted host password
    → verify_password host password ≡ inr tt
unfolding verify_password
IsAccepted-verify_password host password (low, high, upper, lower, number) = rw in_range (
    All-check_classes (host.is_upper ∷ host.is_lower ∷ host.is_number ∷ []) (host.runes password)
      (upper, (lower, (number, tt))))
  where
    in_range : (ltb (length password) 4 || ltb 30 (length password)) ≡ false
    in_range = ground arith

-- `verifyPassword` accepts exactly the passwords of 4 to 30 bytes that have a rune of each of the three
-- classes: upper or title case, lower case, number.
pub verify_password_iff :
    (host : Host) (password : Text)
    → (verify_password host password ≡ inr tt) ↔ (
        (4 ≤ length password)
        × (length password ≤ 30)
        × Has (host.runes password) host.is_upper
        × Has (host.runes password) host.is_lower
        × Has (host.runes password) host.is_number)
verify_password_iff host password =
    (verify_password-IsAccepted host password, IsAccepted-verify_password host password)
