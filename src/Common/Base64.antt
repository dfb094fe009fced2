-- ===== src/Common/Base64.antt =====
-- `base64.StdEncoding` of encoding/base64, which the clients use.
use Prim.Native.Nat.{ℕ, ◌+◌, ◌-◌, ◌*◌, ◌/◌, ◌%◌}
use mathlib.Core.List.{[], ◌∷◌}
use azure_sdk_for_go.Common.Tests.{ltb, ◌==◌, if◌then◌else◌}
use azure_sdk_for_go.Common.Text.{Text}

-- `base64.StdEncoding.EncodeToString`
abbrev pub base64_digit : ℕ → ℕ
base64_digit n =
    if ltb n 26
    then n + 65
    else if ltb n 52
    then n + 71
    else if ltb n 62
    then (n + 48) - 52
    else if n == 62
    then b'+'
    else b'/'

unfoldable pub base64_encode : Text → Text
base64_encode [] = []
base64_encode (a ∷ []) = base64_digit (a / 4) ∷ base64_digit (a % 4 * 16) ∷ b'=' ∷ b'=' ∷ []
base64_encode (a ∷ b ∷ []) =
    base64_digit (a / 4)
    ∷ base64_digit (a % 4 * 16 + b / 16)
    ∷ base64_digit (b % 16 * 4)
    ∷ b'='
    ∷ []
base64_encode (a ∷ b ∷ c ∷ rest) =
    base64_digit (a / 4)
    ∷ base64_digit (a % 4 * 16 + b / 16)
    ∷ base64_digit (b % 16 * 4 + c / 64)
    ∷ base64_digit (c % 64)
    ∷ base64_encode rest
