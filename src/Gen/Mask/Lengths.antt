-- ===== src/Gen/Mask/Lengths.antt =====
-- The lengths of the tokens of `Mask`.
use Prim.Native.Nat.{min}
use edg.Prelude.{ℕ, Option, none, some, if◌then◌else◌, Result, ok, err, length, ◌≡◌}
use edg.Prelude.Text.{Bytes, codes, same}
use edg.Gen.Mask.{MaskError}

-- The number of characters of a token, for the modes that do not keep a part of the value.
unfoldable pub token_length : Bytes → ℕ → Option ℕ
token_length mode n =
    if same mode (codes "hex")
    then some (min n 64)
    else if same mode (codes "base64")
    then some (min n 44)
    else if same mode (codes "base32")
    then some (min n 56)
    else if same mode (codes "asterisk")
    then some n
    else if same mode (codes "redact")
    then some 10
    else none

-- A token has the length, if there is one.
Fits : Result MaskError Bytes → Option ℕ → Type 0
Fits r none = Unit
Fits (ok token) (some k) = length token ≡ k
Fits (err e) (some k) = ⊥
