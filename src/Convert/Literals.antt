-- ===== src/Convert/Literals.antt =====
-- The literals of `SQLFormatValue` against a reader of SQL literals that is written from the rules
-- of SQL: a quote inside a text literal is doubled.
use edg.Prelude.{
  ℕ, zero, suc, ◌+◌, ◌-◌, ◌*◌, ◌/◌, ◌%◌, ◌<◌, String, [], ◌∷◌, ◌++◌, append-nil, append_assoc,
  Option, none, some, Bool, true, false, ◌&&◌, ◌==◌, ltb, if◌then◌else◌, str_eq, All, ◌≡◌, refl, ap,
  ◌∙◌, arith,
}
use edg.Prelude.Int.{ℤ, pos, negsuc, InRange64}
use edg.Prelude.Text.{Bytes, replace_from, has_prefix, atoi, show_int, show_nat, digits}
use edg.Prelude.Text.Numerals.{atoi-show_int}
use edg.Convert.Encoding.{hex_digit, encode_hex}
use edg.Convert.{
  Formats, int, text, blob, escape_quotes, quoted, quote, is_uuid, format_text, format_blob,
  sql_format_value, batch_format_value,
}

-- The inside of a text literal and what follows it; `pending` says that the last character was a
-- quote that either ends the literal or is the first of two.
read_text : Bytes → Bool → Bytes → Option (Bytes × Bytes)
read_text out true [] = some (out, [])
read_text out false [] = none
read_text out true (c ∷ s) =
    let more = read_text (out ++ c ∷ []) false s in if c == b'\'' then more else some (out, c ∷ s)
read_text out false (c ∷ s) =
    let ends = read_text out true s in
    let more = read_text (out ++ c ∷ []) false s in if c == b'\'' then ends else more

pub read_literal : Bytes → Option (Bytes × Bytes)
unfolding read_text
read_literal [] = none
read_literal (c ∷ s) = if c == b'\'' then read_text [] false s else none

-- A text literal ends before `rest`.
unfoldable pub Closes : Bytes → Type 0
Closes [] = Unit
Closes (c ∷ rest) = (c == b'\'') ≡ false

double : ℕ → Bytes
double c = if c == b'\'' then c ∷ c ∷ [] else c ∷ []

escape_quotes-cons : (c : ℕ) (s : Bytes) → escape_quotes (c ∷ s) ≡ double c ++ escape_quotes s
unfolding escape_quotes replace_from has_prefix double
escape_quotes-cons c s = ground arith

read_text-double :
    (out : Bytes) (c : ℕ) (s : Bytes)
    → read_text out false (double c ++ s) ≡ read_text (out ++ c ∷ []) false s
unfolding read_text double
read_text-double out c s = ground arith

read_text-quote :
    (out rest : Bytes) → Closes rest → read_text out false (quote ++ rest) ≡ some (out, rest)
unfolding read_text Closes
read_text-quote out [] h = refl
read_text-quote out (c ∷ rest) h = ground arith

escape_quotes-nil : escape_quotes [] ≡ []
unfolding escape_quotes replace_from
escape_quotes-nil = refl

read_text-escape_quotes :
    (out s rest : Bytes)
    → Closes rest
    → read_text out false (escape_quotes s ++ (quote ++ rest)) ≡ some (out ++ s, rest)
read_text-escape_quotes out [] rest h =
    cc (escape_quotes-nil, read_text-quote out rest h, append-nil out)
read_text-escape_quotes out (c ∷ s) rest h =
    ap (λ t. read_text out false (t ++ (quote ++ rest))) (escape_quotes-cons c s)
    ∙ ap (read_text out false) (append_assoc (double c) (escape_quotes s) (quote ++ rest))
    ∙ read_text-double out c (escape_quotes s ++ (quote ++ rest))
    ∙ read_text-escape_quotes (out ++ c ∷ []) s rest h
    ∙ ap (λ t. some (t, rest)) (append_assoc out (c ∷ []) s)

read_literal-quoted :
    (s rest : Bytes) → Closes rest → read_literal (quoted s ++ rest) ≡ some (s, rest)
unfolding read_literal quoted
read_literal-quoted s rest h =
    ap (read_text [] false) (append_assoc (escape_quotes s) quote rest)
    ∙ read_text-escape_quotes [] s rest h

module _ {F I O : Type 0} (formats : Formats F I O) where
  -- For a driver whose text literals are those of standard SQL (not "mongodb", "mysql" or "spanner", in
  -- which a backslash escapes, and not "cassandra" for a text that is an id): the literal of a text is
  -- read back as that text, and what follows it is left alone if it does not begin with a quote; so
  -- is `BatchFormatValue` of the text between two quotes.
  pub sql_format_value-text :
      (s rest : Bytes) (driver : String)
      → str_eq driver "mongodb" ≡ false
      → str_eq driver "mysql" ≡ false
      → str_eq driver "spanner" ≡ false
      → (str_eq driver "cassandra" && is_uuid s) ≡ false
      → Closes rest
      → (read_literal (sql_format_value formats (text s) driver ++ rest) ≡ some (s, rest))
        × (read_literal (quote ++ (batch_format_value formats (text s) driver) ++ quote ++ rest)
            ≡ some (s, rest))
  unfolding sql_format_value batch_format_value format_text quoted
  sql_format_value-text s rest driver h mysql spanner k l =
      ground (arith, read_literal-quoted s rest l)

-- A hexadecimal digit of either case.
hex_value : ℕ → Option ℕ
hex_value c =
    if ltb c b'0'
    then none
    else if ltb c (b'9' + 1)
    then some (c - b'0')
    else if ltb c b'a'
    then none
    else if ltb c (b'f' + 1)
    then some (c - b'a' + 10)
    else none

prepend : Option ℕ → Option ℕ → Option Bytes → Option Bytes
prepend (some high) (some low) (some bytes) = some ((16 * high + low) ∷ bytes)
prepend high low bytes = none

-- The pairs of digits up to the end, which is a quote if `closed`.
read_pairs : Bool → Bytes → Option Bytes
unfolding hex_value prepend
read_pairs closed [] = if closed then none else some []
read_pairs closed (c ∷ []) = if closed && (c == b'\'') then some [] else none
read_pairs closed (c ∷ d ∷ s) = prepend (hex_value c) (hex_value d) (read_pairs closed s)

-- `0x…` or `X'…'`
pub read_blob : Bytes → Option Bytes
unfolding read_pairs
read_blob (p ∷ q ∷ s) =
    if (p == b'0') && (q == b'x')
    then read_pairs false s
    else if (p == b'X') && (q == b'\'')
    then read_pairs true s
    else none
read_blob s = none

-- What closes the digits.
closing : Bool → Bytes
closing closed = if closed then quote else []

hex_value-hex_digit : (n : ℕ) → n < 16 → hex_value (hex_digit n) ≡ some n
unfolding hex_value hex_digit
hex_value-hex_digit n h = ground arith

prepend-digits :
    (b : ℕ) (bs : Bytes)
    → b < 256
    → prepend (hex_value (hex_digit (b / 16))) (hex_value (hex_digit (b % 16))) (some bs)
      ≡ some (b ∷ bs)
unfolding prepend
prepend-digits b bs h =
    rw (hex_value-hex_digit (b / 16) (omega arith), hex_value-hex_digit (b % 16) (omega arith))
      (ap (λ n. some (n ∷ bs)) (omega arith))

read_pairs-encode_hex :
    (closed : Bool) (bs : Bytes)
    → All (λ b. b < 256) bs
    → read_pairs closed (encode_hex bs ++ closing closed) ≡ some bs
unfolding read_pairs encode_hex closing
read_pairs-encode_hex true [] h = refl
read_pairs-encode_hex false [] h = refl
read_pairs-encode_hex closed (b ∷ bs) h =
    rw (read_pairs-encode_hex closed bs h.1) (prepend-digits b bs h.0)

module _ {F I O : Type 0} (formats : Formats F I O) where
  -- Unless the driver is "mongodb", the literal of a list of bytes is a hexadecimal literal of SQL
  -- (`0x…` or `X'…'`) that is read back as those bytes.
  pub sql_format_value-blob :
      (bs : Bytes) (driver : String)
      → str_eq driver "mongodb" ≡ false
      → All (λ b. b < 256) bs
      → read_blob (sql_format_value formats (blob bs) driver) ≡ some bs
  unfolding sql_format_value format_blob read_blob closing
  sql_format_value-blob bs driver h k = ground (
    arith,
    read_pairs-encode_hex true bs k,
    read_pairs-encode_hex false bs k,
    append-nil (encode_hex bs),
  )

-- No quote among the characters.
unquoted : Bytes → Bool
unquoted [] = true
unquoted (c ∷ s) = if c == b'\'' then false else unquoted s

unquoted-digits :
    (fuel n : ℕ) (out : Bytes) → unquoted out ≡ true → unquoted (digits fuel n out) ≡ true
unfolding digits unquoted
unquoted-digits zero n out h = ground arith
unquoted-digits (suc fuel) n out h =
    ground (arith, unquoted-digits fuel (n / 10) ((b'0' + n % 10) ∷ out))

unquoted-show_int : (z : ℤ) → unquoted (show_int z) ≡ true
unfolding show_int show_nat unquoted
unquoted-show_int (pos n) = unquoted-digits n n [] refl
unquoted-show_int (negsuc n) = unquoted-digits (suc n) (suc n) [] refl

escape_quotes-unquoted : (s : Bytes) → unquoted s ≡ true → escape_quotes s ≡ s
unfolding unquoted double
escape_quotes-unquoted [] h = escape_quotes-nil
escape_quotes-unquoted (c ∷ s) h = ground (arith, escape_quotes-cons c s, escape_quotes-unquoted s)

module _ {F I O : Type 0} (formats : Formats F I O) where
  -- The literal of an integer of at most 64 bits is read back as that integer by `strconv.Atoi`,
  -- and so is its form in a batch: no character of it is doubled.
  pub sql_format_value-int :
      (z : ℤ) (driver : String)
      → InRange64 z
      → (atoi (sql_format_value formats (int z) driver) ≡ some z)
        × (batch_format_value formats (int z) driver ≡ sql_format_value formats (int z) driver)
  unfolding sql_format_value batch_format_value
  sql_format_value-int z driver h =
      (atoi-show_int z h, escape_quotes-unquoted (show_int z) (unquoted-show_int z))
