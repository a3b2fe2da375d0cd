-- ===== src/Gen/Mask.antt =====
-- `Mask` (pkg/gen/mask.go). HMAC-SHA256 and the printing of any value with `%v` are the fields of
-- `Outside`. The key of the session is none until it is drawn or set.
pub mod Lengths
pub mod Email
use edg.Prelude.{
  ℕ, zero, suc, ◌+◌, ◌<◌, String, List, [], ◌∷◌, ◌++◌, Option, none, some, Bool, true, false, ◌==◌,
  if◌then◌else◌, ltb, str_eq, Result, ok, err, ◌>>=◌, length, take, drop, replicate, ◌≡◌,
}
use edg.Prelude.Int.{ℤ, pos, negsuc, pos_part, ltb_ℤ}
use edg.Prelude.Text.{Bytes, codes, same}
use edg.Prelude.Random.{Rng}
use edg.Convert.{Value, int, float, text}
use edg.Convert.Encoding.{encode_hex, encode_base64, encode_base32}

pub record Outside (F I O : Type 0) : Type 0 where
  -- `hmac.New(sha256.New, key)`, `Write` and `Sum`: 32 bytes
  pub hmac : Bytes → Bytes → Bytes
  pub hmac_length : (key input : Bytes) → length (hmac key input) ≡ 32
  -- `fmt.Sprintf("%v", value)` and `int(f)`
  pub sprint : Value F I O → Bytes
  pub to_int : F → ℤ

pub data MaskError : Type 0 where
  not_a_mode_or_length not_a_mode not_a_length : MaskError
  unknown_mode : Bytes → MaskError

-- `make([]byte, 32)`, filled with draws below 256
module _ (g : Rng) where
  draw_bytes : ℕ → g.State → Bytes × g.State
  draw_bytes zero s = ([], s)
  draw_bytes (suc n) s =
      let (b, s') = g.int_n 256 s in let (bs, s'') = draw_bytes n s' in (b ∷ bs, s'')

  unfoldable pub ensure_mask_key : Option Bytes → g.State → Bytes × g.State
  unfolding draw_bytes
  ensure_mask_key (some key) s = (key, s)
  ensure_mask_key none s = draw_bytes 32 s

-- `encoded[:length]`, with the length cut to that of the text
unfoldable pub cut : Bytes → ℕ → Bytes
cut encoded n = take (if ltb (length encoded) n then length encoded else n) encoded

-- `strings.Repeat("*", length)`
unfoldable pub stars : ℕ → Bytes
stars n = replicate n b'*'

-- `strings.LastIndex(input, "@")`
unfoldable pub last_index : ℕ → Bytes → ℕ → Option ℕ
last_index c [] i = none
last_index c (d ∷ s) i =
    let later = last_index c s (i + 1) in
    elim later [ some j ↦ some j | none ↦ if d == c then some i else none ]

unfoldable pub from_index : Option ℕ → Bytes → Bytes
from_index none input = []
from_index (some at) input = drop at input

unfoldable pub mask_email : Bytes → ℕ → Bytes
unfolding stars last_index from_index
mask_email input n = stars n ++ from_index (last_index b'@' input 0) input

-- `if length < 1 { length = 1 }`
unfoldable pub clamp : ℤ → ℕ
clamp n = if ltb_ℤ n (pos 1) then 1 else pos_part n

module _ {F I O : Type 0} (out : Outside F I O) where
  open out use {hmac, sprint, to_int}

  -- the mode and the length of the options
  unfoldable pub options : List (Value F I O) → Result MaskError (Bytes × ℤ)
  options [] = ok (codes "hex", pos 16)
  options (text mode ∷ []) = ok (mode, pos 16)
  options (int n ∷ []) = ok (codes "hex", n)
  options (float f ∷ []) = ok (codes "hex", to_int f)
  options (v ∷ []) = err not_a_mode_or_length
  options (text mode ∷ int n ∷ vs) = ok (mode, n)
  options (text mode ∷ float f ∷ vs) = ok (mode, to_int f)
  options (text mode ∷ v ∷ vs) = err not_a_length
  options (u ∷ v ∷ vs) = err not_a_mode

  unfoldable pub mask_as : Bytes → Bytes → Bytes → ℕ → Result MaskError Bytes
  unfolding cut stars mask_email
  mask_as key mode s n =
      if same mode (codes "hex")
      then ok (cut (encode_hex (hmac key s)) n)
      else if same mode (codes "base64")
      then ok (cut (encode_base64 (hmac key s)) n)
      else if same mode (codes "base32")
      then ok (cut (encode_base32 (hmac key s)) n)
      else if same mode (codes "asterisk")
      then ok (stars n)
      else if same mode (codes "redact")
      then ok (codes "[REDACTED]")
      else if same mode (codes "email")
      then ok (mask_email s n)
      else err (unknown_mode mode)

  -- the result with the key of the session
  unfoldable pub mask : Bytes → Value F I O → List (Value F I O) → Result MaskError Bytes
  unfolding options mask_as clamp
  mask key value args = options args >>= λ (mode, n). mask_as key mode (sprint value) (clamp n)
