-- ===== src/Go/Base64.antt =====
-- encoding/base64: StdEncoding.EncodeToString, which pads.
use k8s_ssh_gateway_controll.Prelude.{
  ℕ, ◌+◌, ◌-◌, ◌*◌, ◌/◌, ◌%◌, ◌≡◌, [], ◌∷◌, arith, ltb, eqb, length, if◌then◌else◌,
}
use k8s_ssh_gateway_controll.Go.Text.{Text}

abbrev pub base64_digit : ℕ → ℕ
base64_digit n =
    if ltb n 26
    then n + b'A'
    else if ltb n 52
    then n - 26 + b'a'
    else if ltb n 62
    then n - 52 + b'0'
    else if eqb n 62
    then b'+'
    else b'/'

-- base64.StdEncoding.EncodeToString(bytes)
unfoldable pub base64 : Text → Text
base64 [] = []
base64 (a ∷ []) = base64_digit (a / 4) ∷ base64_digit (a % 4 * 16) ∷ b'=' ∷ b'=' ∷ []
base64 (a ∷ b ∷ []) =
    base64_digit (a / 4)
    ∷ base64_digit (a % 4 * 16 + b / 16)
    ∷ base64_digit (b % 16 * 4)
    ∷ b'='
    ∷ []
base64 (a ∷ b ∷ c ∷ s) =
    base64_digit (a / 4)
    ∷ base64_digit (a % 4 * 16 + b / 16)
    ∷ base64_digit (b % 16 * 4 + c / 64)
    ∷ base64_digit (c % 64)
    ∷ base64 s

pub length-base64 : (s : Text) → length (base64 s) ≡ 4 * ((length s + 2) / 3)
unfolding base64
length-base64 [] = omega arith
length-base64 (a ∷ []) = omega arith
length-base64 (a ∷ b ∷ []) = omega arith
length-base64 (a ∷ b ∷ c ∷ s) = omega (arith, length-base64 s)
