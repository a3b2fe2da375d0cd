-- ===== src/Env/Query/Inline.antt =====
-- `inlineArgs`, the inlining of `runSection`, and `translatePlaceholders` (pkg/env/env_query.go).
-- `translatePlaceholders` loops while the next placeholder occurs; its fuel is the number of dollar
-- signs of the query.
pub mod Native
use edg.Prelude.{
  ℕ, zero, suc, ◌+◌, ◌-◌, String, List, [], ◌∷◌, ◌++◌, Option, none, some, Bool, true, false, not,
  ◌&&◌, ◌||◌, ◌==◌, if◌then◌else◌, str_eq, length, drop,
}
use edg.Prelude.Text.{Bytes, codes, has_prefix, contains, replace_all, replace_from, show_nat}
use edg.Convert.{Value, Formats, raw_sql, sql_format_value, quote, double_quote}

-- `fmt.Sprintf("$%d", j+1)`
unfoldable pub placeholder : ℕ → Bytes
placeholder j = b'$' ∷ show_nat (j + 1)

-- `'$N'` and `"$N"`
unfoldable pub replace_quoted : Bytes → Bytes → Bytes → Bytes → Bytes
replace_quoted query q old by = replace_all query (q ++ old ++ q) by

module _ {F I O : Type 0} (formats : Formats F I O) where
  unfoldable pub is_raw : Value F I O → Bool
  is_raw (raw_sql s) = true
  is_raw v = false

  -- one round of the loop of `runSection`, for the argument at `j`
  unfoldable pub inline_arg : Bytes → ℕ → Value F I O → String → Bytes
  unfolding placeholder replace_quoted is_raw
  inline_arg query j arg driver =
      let p = placeholder j in
      let formatted = sql_format_value formats arg driver in
      let singly = if is_raw arg then query else replace_quoted query quote p formatted in
      let doubly =
        if not (is_raw arg) || str_eq driver "mongodb"
        then replace_quoted singly double_quote p formatted
        else singly in
      replace_all doubly p formatted

  -- one round of the loop of `inlineArgs`
  unfoldable pub inline_output_arg : Bytes → ℕ → Value F I O → String → Bytes
  unfolding placeholder replace_quoted is_raw
  inline_output_arg query j arg driver =
      let p = placeholder j in
      let formatted = sql_format_value formats arg driver in
      let singly = if is_raw arg then query else replace_quoted query quote p formatted in
      let doubly =
        if str_eq driver "mongodb"
        then replace_quoted singly double_quote p formatted
        else singly in
      replace_all doubly p formatted

  -- `for j := len(args) - 1; j >= 0; j--`, for the arguments from `j` on
  unfoldable pub inline_from :
      (Bytes → ℕ → Value F I O → String → Bytes) → Bytes → ℕ → List (Value F I O) → String → Bytes
  inline_from step query j [] driver = query
  inline_from step query j (arg ∷ args) driver =
      step (inline_from step query (j + 1) args driver) j arg driver

  unfoldable pub inline_args : Bytes → List (Value F I O) → String → Bytes
  unfolding inline_from inline_output_arg
  inline_args query args driver = inline_from inline_output_arg query 0 args driver

  unfoldable pub inline_section_args : Bytes → List (Value F I O) → String → Bytes
  unfolding inline_from inline_arg
  inline_section_args query args driver = inline_from inline_arg query 0 args driver

-- `strings.Replace(s, old, by, 1)`
unfoldable pub replace_first : Bytes → Bytes → Bytes → Bytes
replace_first [] old by = []
replace_first (c ∷ s) old by =
    let rest = replace_first s old by in
    if has_prefix old (c ∷ s) then by ++ drop (length old) (c ∷ s) else c ∷ rest

-- `replaceFn`, or none where the query is returned as it is
unfoldable pub native_placeholder : String → Option (ℕ → Bytes)
native_placeholder driver =
    if str_eq driver "mysql" || str_eq driver "cassandra"
    then some (λ i. codes "?")
    else if str_eq driver "oracle"
    then some (λ i. b':' ∷ show_nat i)
    else if str_eq driver "mssql" || str_eq driver "spanner"
    then some (λ i. codes "@p" ++ show_nat i)
    else none

-- the loop, from the placeholder `i + 1` on; none where the fuel is used up
unfoldable pub translate_from : ℕ → ℕ → (ℕ → Bytes) → Bytes → Option Bytes
unfolding placeholder replace_first
translate_from zero i replace_fn query = if contains query (placeholder i) then none else some query
translate_from (suc fuel) i replace_fn query =
    let again =
      translate_from fuel (i + 1) replace_fn
        (replace_first query (placeholder i) (replace_fn (i + 1))) in
    if contains query (placeholder i) then again else some query

unfoldable pub count_dollars : Bytes → ℕ
count_dollars [] = 0
count_dollars (c ∷ s) = if c == b'$' then suc (count_dollars s) else count_dollars s

unfoldable pub translate_with : Option (ℕ → Bytes) → Bytes → Option Bytes
unfolding translate_from count_dollars
translate_with none query = some query
translate_with (some replace_fn) query = translate_from (count_dollars query) 0 replace_fn query

unfoldable pub translate_placeholders : Bytes → String → Option Bytes
unfolding translate_with native_placeholder
translate_placeholders query driver = translate_with (native_placeholder driver) query
