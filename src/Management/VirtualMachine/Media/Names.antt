-- ===== src/Management/VirtualMachine/Media/Names.antt =====
-- The names of new storage accounts, management/virtualmachine: `newUUID` and `getVHDMediaLink`.
use azure_sdk_for_go.Common.{
  ℕ, zero, suc, ◌+◌, ◌*◌, ◌/◌, ◌%◌, ◌≤◌, ◌<◌, [], ◌∷◌, ◌⊎◌, inl, inr, ◌≡◌, refl, ap, ◌∙◌, arith,
  All, length, drop, length-drop, ltb, Bool-cases, if◌then◌else◌,
}
use azure_sdk_for_go.Common.Text.{Text}
use azure_sdk_for_go.Management.VirtualMachine.Media.{
  update_byte, lower_hex_text, uuid_text, storage_service_name,
}

-- The bytes of an account's name: digits and small letters.
abbrev pub IsNameByte : ℕ → Type 0
IsNameByte b = ((b'0' ≤ b) × (b ≤ b'9')) ⊎ ((b'a' ≤ b) × (b ≤ b'z'))

abbrev pub IsByte : ℕ → Type 0
IsByte b = b < 256

hex-IsNameByte : (n : ℕ) → n < 16 → IsNameByte (if ltb n 10 then n + 48 else n + 87)
hex-IsNameByte n h = elim (Bool-cases (ltb n 10)) [
  | inl t ↦ rw t (inl (ground arith, ground arith))
  | inr t ↦ rw t (inr (ground arith, ground arith))
]

All-hex : (bs : Text) → All IsByte bs → All IsNameByte (lower_hex_text bs)
unfolding lower_hex_text
All-hex [] a = tt
All-hex (b ∷ bs) a =
    (hex-IsNameByte (b / 16) (omega arith), (hex-IsNameByte (b % 16) (omega arith), All-hex bs a.1))

length-hex : (bs : Text) → length (lower_hex_text bs) ≡ 2 * length bs
unfolding lower_hex_text
length-hex [] = refl
length-hex (b ∷ bs) = omega (arith, length-hex bs)

length-update_byte : (n : ℕ) (f : ℕ → ℕ) (bs : Text) → length (update_byte n f bs) ≡ length bs
length-update_byte n f [] = refl
length-update_byte zero f (b ∷ bs) = refl
length-update_byte (suc n) f (b ∷ bs) = ap suc (length-update_byte n f bs)

All-drop : (n : ℕ) (bs : Text) → All IsByte bs → All IsByte (drop n bs)
All-drop zero bs a = a
All-drop (suc n) [] a = tt
All-drop (suc n) (b ∷ bs) a = All-drop n bs a.1

-- A byte that is updated in front of what is kept does not matter.
drop-update_byte :
    (k n : ℕ) (f : ℕ → ℕ) (bs : Text) → n < k → drop k (update_byte n f bs) ≡ drop k bs
drop-update_byte zero n f bs h = absurd (omega arith)
drop-update_byte (suc k) n f [] h = refl
drop-update_byte (suc k) zero f (b ∷ bs) h = refl
drop-update_byte (suc k) (suc n) f (b ∷ bs) h = drop-update_byte k n f bs (omega arith)

-- The text of `newUUID` is the hexadecimal form of the last six of the 16 random bytes: setting the
-- version and the variant has no effect on it.
pub uuid_text-drop : (bytes : Text) → uuid_text bytes ≡ lower_hex_text (drop 10 bytes)
unfolding uuid_text
uuid_text-drop bytes = ap lower_hex_text (
    drop-update_byte 10 6 _ (update_byte 8 _ bytes) (omega arith)
    ∙ drop-update_byte 10 8 _ bytes (omega arith))

-- The name that `getVHDMediaLink` makes of 16 random bytes has 22 characters, all of them digits or
-- small letters.
pub storage_service_name-IsNameByte :
    (bytes : Text)
    → length bytes ≡ 16
    → All IsByte bytes
    → (length (storage_service_name bytes) ≡ 22) × All IsNameByte (storage_service_name bytes)
unfolding storage_service_name
storage_service_name-IsNameByte bytes n a = rw uuid_text-drop (
  omega (arith, length-hex (drop 10 bytes), length-drop 10 bytes, n),
  (
    ground arith,
    (
      ground arith,
      (
        ground arith,
        (
          ground arith,
          (
            ground arith,
            (
              ground arith,
              (
                ground arith,
                (
                  ground arith,
                  (ground arith, (ground arith, All-hex (drop 10 bytes) (All-drop 10 bytes a))),
                ),
              ),
            ),
          ),
        ),
      ),
    ),
  ),
)
