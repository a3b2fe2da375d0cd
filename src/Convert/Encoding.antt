-- ===== src/Convert/Encoding.antt =====
-- The encodings that `pkg/convert` takes from Go's standard library: `hex.EncodeToString`,
-- `base64.StdEncoding.EncodeToString` and the string case of `json.Marshal`.
use edg.Prelude.{ℕ, ◌+◌, ◌-◌, ◌*◌, ◌/◌, ◌%◌, [], ◌∷◌, ◌++◌, ltb, ◌==◌, if◌then◌else◌, ◌||◌}
use edg.Prelude.Text.{Bytes, codes}

unfoldable pub hex_digit : ℕ → ℕ
hex_digit n = if ltb n 10 then b'0' + n else b'a' + (n - 10)

unfoldable pub encode_hex : Bytes → Bytes
unfolding hex_digit
encode_hex [] = []
encode_hex (b ∷ bs) = hex_digit (b / 16) ∷ hex_digit (b % 16) ∷ encode_hex bs

unfoldable base64_digit : ℕ → ℕ
base64_digit n =
    if ltb n 26
    then b'A' + n
    else if ltb n 52
    then b'a' + (n - 26)
    else if ltb n 62
    then b'0' + (n - 52)
    else if n == 62
    then b'+'
    else b'/'

unfoldable pub encode_base64 : Bytes → Bytes
unfolding base64_digit
encode_base64 [] = []
encode_base64 (a ∷ []) = base64_digit (a / 4) ∷ base64_digit (a % 4 * 16) ∷ codes "=="
encode_base64 (a ∷ b ∷ []) =
    base64_digit (a / 4)
    ∷ base64_digit (a % 4 * 16 + b / 16)
    ∷ base64_digit (b % 16 * 4)
    ∷ codes "="
encode_base64 (a ∷ b ∷ c ∷ bs) =
    base64_digit (a / 4)
    ∷ base64_digit (a % 4 * 16 + b / 16)
    ∷ base64_digit (b % 16 * 4 + c / 64)
    ∷ base64_digit (c % 64)
    ∷ encode_base64 bs

base32_digit : ℕ → ℕ
base32_digit n = if ltb n 26 then b'A' + n else b'2' + (n - 26)

-- `base32.StdEncoding.EncodeToString`
unfoldable pub encode_base32 : Bytes → Bytes
unfolding base32_digit
encode_base32 [] = []
encode_base32 (a ∷ []) = base32_digit (a / 8) ∷ base32_digit (a % 8 * 4) ∷ codes "======"
encode_base32 (a ∷ b ∷ []) =
    base32_digit (a / 8)
    ∷ base32_digit (a % 8 * 4 + b / 64)
    ∷ base32_digit (b / 2 % 32)
    ∷ base32_digit (b % 2 * 16)
    ∷ codes "===="
encode_base32 (a ∷ b ∷ c ∷ []) =
    base32_digit (a / 8)
    ∷ base32_digit (a % 8 * 4 + b / 64)
    ∷ base32_digit (b / 2 % 32)
    ∷ base32_digit (b % 2 * 16 + c / 16)
    ∷ base32_digit (c % 16 * 2)
    ∷ codes "==="
encode_base32 (a ∷ b ∷ c ∷ d ∷ []) =
    base32_digit (a / 8)
    ∷ base32_digit (a % 8 * 4 + b / 64)
    ∷ base32_digit (b / 2 % 32)
    ∷ base32_digit (b % 2 * 16 + c / 16)
    ∷ base32_digit (c % 16 * 2 + d / 128)
    ∷ base32_digit (d / 4 % 32)
    ∷ base32_digit (d % 4 * 8)
    ∷ codes "="
encode_base32 (a ∷ b ∷ c ∷ d ∷ e ∷ bs) =
    base32_digit (a / 8)
    ∷ base32_digit (a % 8 * 4 + b / 64)
    ∷ base32_digit (b / 2 % 32)
    ∷ base32_digit (b % 2 * 16 + c / 16)
    ∷ base32_digit (c % 16 * 2 + d / 128)
    ∷ base32_digit (d / 4 % 32)
    ∷ base32_digit (d % 4 * 8 + e / 32)
    ∷ base32_digit (e % 32)
    ∷ encode_base32 bs

-- `\u00XX` of a code point below 256, or of the two line separators
unicode : ℕ → Bytes
unfolding hex_digit
unicode c =
    codes "\\u"
    ++ hex_digit (c / 4096)
      ∷ hex_digit (c / 256 % 16)
      ∷ hex_digit (c / 16 % 16)
      ∷ hex_digit (c % 16)
      ∷ []

json_char : ℕ → Bytes
unfolding unicode
json_char c =
    if c == b'"' || c == b'\\'
    then b'\\' ∷ c ∷ []
    else if c == 8
    then codes "\\b"
    else if c == 12
    then codes "\\f"
    else if c == 10
    then codes "\\n"
    else if c == 13
    then codes "\\r"
    else if c == 9
    then codes "\\t"
    else if ltb c 32 || c == b'<' || c == b'>' || c == b'&' || c == 8232 || c == 8233
    then unicode c
    else c ∷ []

json_chars : Bytes → Bytes
unfolding json_char
json_chars [] = []
json_chars (c ∷ s) = json_char c ++ json_chars s

unfoldable pub json_string : Bytes → Bytes
unfolding json_chars
json_string s = b'"' ∷ json_chars s ++ b'"' ∷ []
