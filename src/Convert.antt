-- ===== src/Convert.antt =====
-- pkg/convert/convert.go: values, their conversion to integers, and the literals that stand for them
-- in a query. Floats, object ids of the MongoDB library and values of any other type are types of
-- the model, with the conversions and printers that the code calls.
pub mod Encoding
pub mod Literals
pub mod Batches
use edg.Prelude.{
  ℕ, zero, suc, ◌+◌, ◌-◌, ◌<◌, String, List, [], ◌∷◌, ◌++◌, map, Option, none, some, Bool, true,
  false, ◌&&◌, ltb, leb, ◌==◌, ◌||◌, if◌then◌else◌, str_eq, Result, ok, err, ◌>>=◌,
}
use edg.Prelude.Int.{ℤ, pos, negsuc, ◌*ℤ◌, wrap_64}
use edg.Prelude.Text.{
  Bytes, codes, has_prefix, same, replace_all, replace_from, join, show_int, atoi,
}
use edg.Convert.Encoding.{encode_hex, encode_base64, json_string}

-- A value of Go's type `any`, by the types that the code tells apart.
pub data Value (F I O : Type 0) : Type 0 where
  nil : Value F I O
  raw_sql : Bytes → Value F I O
  object_id : I → Value F I O
  bool : Bool → Value F I O
  -- `int`; `int64`; then `int8`, `int16` and `int32`
  int long small_int : ℤ → Value F I O
  float : F → Value F I O
  blob text : Bytes → Value F I O
  other : O → Value F I O

pub record Formats (F I O : Type 0) : Type 0 where
  -- `int64(f)`, `float64(i)`, `f == g`, `f < g`
  pub to_int : F → ℤ
  pub of_int : ℤ → F
  pub same_float : F → F → Bool
  pub less_float : F → F → Bool
  -- `strconv.FormatFloat(f, 'f', -1, 64)` and `strconv.ParseFloat(s, 64)`
  pub format_float : F → Bytes
  pub parse_float : Bytes → Option F
  -- `fmt.Sprint` of a value of another type
  pub sprint_other : O → Bytes
  pub hex_id : I → Bytes

pub data ConvertError : Type 0 where
  no_argument not_an_integer not_a_float : ConvertError
  -- `make` of a negative length
  negative_length : ConvertError

module _ {F I O : Type 0} (formats : Formats F I O) where
  open formats use {
    to_int, of_int, same_float, less_float, format_float, parse_float, sprint_other, hex_id,
  }

  parsed_int : Option ℤ → Result ConvertError ℤ
  parsed_int none = err not_an_integer
  parsed_int (some i) = ok i

  unfoldable pub to_int_value : Value F I O → Result ConvertError ℤ
  unfolding parsed_int
  to_int_value (int i) = ok i
  to_int_value (long i) = ok i
  to_int_value (float f) = ok (to_int f)
  to_int_value (blob b) = parsed_int (atoi b)
  to_int_value (text s) = parsed_int (atoi s)
  to_int_value v = err not_an_integer

  parsed_float : Option F → Result ConvertError F
  parsed_float none = err not_a_float
  parsed_float (some f) = ok f

  unfoldable pub to_float_value : Value F I O → Result ConvertError F
  unfolding parsed_float
  to_float_value (float f) = ok f
  to_float_value (int i) = ok (of_int i)
  to_float_value (long i) = ok (of_int i)
  to_float_value (blob b) = parsed_float (parse_float b)
  to_float_value (text s) = parsed_float (parse_float s)
  to_float_value v = err not_a_float

  -- one row for each `i` from the given one: `[]any{i * step}`
  unfoldable pub rows_from : ℕ → ℕ → ℤ → List (List (Value F I O))
  rows_from i zero step = []
  rows_from i (suc n) step = (int (wrap_64 (pos i *ℤ step)) ∷ []) ∷ rows_from (i + 1) n step

  unfoldable pub batch_rows : ℤ → ℤ → Result ConvertError (List (List (Value F I O)))
  unfolding rows_from
  batch_rows (pos n) step = ok (rows_from 0 n step)
  batch_rows (negsuc n) step = err negative_length

  unfoldable pub batch_step : List (Value F I O) → Result ConvertError ℤ
  unfolding to_int_value
  batch_step [] = ok (pos 1)
  batch_step (v ∷ vs) = to_int_value v

  unfoldable pub batch : List (Value F I O) → Result ConvertError (List (List (Value F I O)))
  unfolding to_int_value batch_step batch_rows
  batch [] = err no_argument
  batch (v ∷ vs) = do count ← to_int_value v; step ← batch_step vs; batch_rows count step

  unfoldable pub nullable :
      {R : Type 0}
      → (R → F × R)
      → Value F I O
      → Value F I O
      → R
      → Result ConvertError (Value F I O × R)
  unfolding to_float_value
  nullable draw val raw r = do
    p ← to_float_value raw
    let (f, r') = draw r
    ok (if less_float f p then nil else val, r')

-- `Cond` and `Coalesce`.
module _ {F I O : Type 0} where
  unfoldable pub cond : Value F I O → Value F I O → Value F I O → Value F I O
  cond (bool true) true_val false_val = true_val
  cond predicate true_val false_val = false_val

  unfoldable pub coalesce : List (Value F I O) → Value F I O
  coalesce [] = nil
  coalesce (nil ∷ vs) = coalesce vs
  coalesce (v ∷ vs) = v

unfoldable pub wrap_braces : Bytes → Bytes
wrap_braces s = if has_prefix (codes "{") s then s else codes "{" ++ s ++ codes "}"

is_hex : ℕ → Bool
is_hex c = leb b'0' c && leb c b'9' || leb b'a' c && leb c b'f' || leb b'A' c && leb c b'F'

-- `uuidPattern`, from the position `i`: dashes at 8, 13, 18 and 23, and 36 characters
uuid_from : ℕ → Bytes → Bool
unfolding is_hex
uuid_from i [] = i == 36
uuid_from i (c ∷ s) =
    ltb i 36
    && (if i == 8 || i == 13 || i == 18 || i == 23 then c == b'-' else is_hex c)
    && uuid_from (i + 1) s

unfoldable pub is_uuid : Bytes → Bool
unfolding uuid_from
is_uuid s = uuid_from 0 s

abbrev pub quote : Bytes
quote = codes "'"

abbrev pub double_quote : Bytes
double_quote = codes "\""

-- `strings.ReplaceAll(s, "'", "''")`
unfoldable pub escape_quotes : Bytes → Bytes
escape_quotes s = replace_all s (codes "'") (codes "''")

unfoldable pub quoted : Bytes → Bytes
unfolding escape_quotes
quoted s = quote ++ escape_quotes s ++ quote

show_bool : Bool → Bytes
show_bool true = codes "true"
show_bool false = codes "false"

element : Bytes → Bytes
element p = if same p (codes "NULL") then codes "null" else json_string p

unfoldable pub batch_join_json : List Bytes → Bytes
unfolding element
batch_join_json parts = codes "[" ++ join (map element parts) (codes ",") ++ codes "]"

-- A text that is not a literal yet, in the form for the driver.
unfoldable pub format_text : Bytes → String → Bytes
unfolding is_uuid quoted
format_text s driver =
    if str_eq driver "mongodb"
    then double_quote ++ replace_all s double_quote (codes "\\\"") ++ double_quote
    else if str_eq driver "cassandra" && is_uuid s
    then s
    else quoted s

unfoldable pub format_blob : Bytes → String → Bytes
format_blob b driver =
    if str_eq driver "mssql" || str_eq driver "cassandra"
    then codes "0x" ++ encode_hex b
    else if str_eq driver "mongodb"
    then double_quote ++ encode_base64 b ++ double_quote
    else codes "X'" ++ encode_hex b ++ quote

module _ {F I O : Type 0} (formats : Formats F I O) where
  open formats use {to_int, of_int, same_float, format_float, sprint_other, hex_id}

  show_float : F → Bytes
  show_float f = if same_float f (of_int (to_int f)) then show_int (to_int f) else format_float f

  unfoldable pub batch_format_value : Value F I O → String → Bytes
  unfolding show_float show_bool escape_quotes
  batch_format_value nil driver = codes "NULL"
  batch_format_value (object_id i) driver = hex_id i
  batch_format_value (blob b) driver =
      if str_eq driver "mongodb" then encode_base64 b else encode_hex b
  batch_format_value (float f) driver = escape_quotes (show_float f)
  batch_format_value (raw_sql s) driver = escape_quotes s
  batch_format_value (text s) driver = escape_quotes s
  batch_format_value (bool b) driver = escape_quotes (show_bool b)
  batch_format_value (int i) driver = escape_quotes (show_int i)
  batch_format_value (long i) driver = escape_quotes (show_int i)
  batch_format_value (small_int i) driver = escape_quotes (show_int i)
  batch_format_value (other o) driver = escape_quotes (sprint_other o)

  unfoldable pub sql_format_value : Value F I O → String → Bytes
  unfolding show_float show_bool format_text format_blob
  sql_format_value nil driver = if str_eq driver "mongodb" then codes "null" else codes "NULL"
  sql_format_value (raw_sql s) driver = s
  sql_format_value (object_id i) driver =
      if str_eq driver "mongodb"
      then double_quote ++ hex_id i ++ double_quote
      else quote ++ hex_id i ++ quote
  sql_format_value (int i) driver = show_int i
  sql_format_value (long i) driver = show_int i
  sql_format_value (small_int i) driver = show_int i
  sql_format_value (float f) driver = show_float f
  sql_format_value (blob b) driver = format_blob b driver
  sql_format_value (text s) driver = format_text s driver
  sql_format_value (bool b) driver = format_text (show_bool b) driver
  sql_format_value (other o) driver = format_text (sprint_other o) driver
