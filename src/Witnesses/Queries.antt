-- ===== src/Witnesses/Queries.antt =====
-- The theorems on values, batch queries and query execution at concrete inputs.
use edg.Prelude.{
  ℕ, ◌+◌, ◌≤◌, ◌<◌, String, List, [], ◌∷◌, ◌++◌, none, some, true, false, ◌==◌, ok, err, ◌≡◌, refl,
  sym, ap, if◌then◌else◌, arith, length, get_elem?, All,
}
use edg.Prelude.Int.{ℤ, pos, ltb_ℤ}
use edg.Prelude.Text.{Bytes, codes, contains, split, split_from, show_nat, digits, atoi}
use edg.Config.{up}
use edg.Convert.{Formats, text, sql_format_value, batch_format_value, quote}
use edg.Convert.Literals.{Closes, read_literal, sql_format_value-text}
use edg.Db.Batch.{Group, expand_batch_query, find_batch_groups, row_count, batch_sep}
use edg.Db.Batch.Groups.{find_batch_groups-Within, Within}
use edg.Db.Batch.Fill.{parts_of, weave}
use edg.Db.Batch.Rows.{expand_batch_query-weave}
use edg.Env.Query.Inline.{translate_placeholders}
use edg.Env.Query.Inline.Native.{native_of, natives, Translated, translate_placeholders-returns}
use edg.Env.Query.Section.{Stmt, Backend, State, QueryResult, get_or_prepare}
use edg.Env.Query.Section.Run.{run_section}
use edg.Env.Query.Section.Reports.{Reported, run_section-Reported}
use edg.Env.Query.Section.Cache.{get_or_prepare-once}
use edg.Env.Worker.{Signal, cancelled, tick, waiting, run_worker}
use edg.Env.Worker.Ticks.{ticks, Sends, Lives, run_worker-Lives}

-- Whole floats; ids and other values that are printed as they are.
abbrev pub plain : Formats ℤ Bytes Bytes
plain = record {
  to_int = λ f. f;
  of_int = λ i. i;
  same_float = λ f g. true;
  less_float = ltb_ℤ;
  format_float = λ f. codes "0";
  parse_float = atoi;
  sprint_other = λ s. s;
  hex_id = λ s. s;
}

abbrev name : Bytes
name = codes "O'Hara"

sql_format_value-text_example :
    (read_literal (sql_format_value plain (text name) "pgx" ++ codes ", 1")
      ≡ some (name, codes ", 1"))
    × (read_literal (quote ++ (batch_format_value plain (text name) "pgx") ++ quote ++ codes ", 1")
        ≡ some (name, codes ", 1"))
unfolding Closes
sql_format_value-text_example =
    sql_format_value-text plain name (codes ", 1") "pgx" refl refl refl refl refl

-- Two groups of two parts; then the second with one part less than the first.
abbrev rows_query : Bytes
rows_query = codes "f(1" ++ 31 ∷ (codes "2, 3" ++ 31 ∷ codes "4)")

abbrev ragged_query : Bytes
ragged_query = codes "f(1" ++ 31 ∷ (codes "2" ++ 31 ∷ (codes "3, 4" ++ 31 ∷ codes "5)"))

rows_query-groups : find_batch_groups rows_query ≡ (some 2, 5) ∷ (some 7, 10) ∷ []
unfolding find_batch_groups
rows_query-groups = refl

ragged_query-groups : find_batch_groups ragged_query ≡ (some 2, 7) ∷ (some 9, 12) ∷ []
unfolding find_batch_groups
ragged_query-groups = refl

rows_query-contains : contains rows_query (batch_sep ∷ []) ≡ true
unfolding contains
rows_query-contains = refl

ragged_query-contains : contains ragged_query (batch_sep ∷ []) ≡ true
unfolding contains
ragged_query-contains = refl

abbrev rows_groups : List (Group × List Bytes)
rows_groups = parts_of rows_query ((some 2, 5) ∷ (some 7, 10) ∷ [])

abbrev ragged_groups : List (Group × List Bytes)
ragged_groups = parts_of ragged_query ((some 2, 7) ∷ (some 9, 12) ∷ [])

rows_query-enough : All (λ g. row_count rows_groups ≤ length g.1) rows_groups
unfolding parts_of split split_from row_count
rows_query-enough = (omega arith, (omega arith, tt))

ragged_query-few : ¬ All (λ g. row_count ragged_groups ≤ length g.1) ragged_groups
unfolding parts_of split split_from row_count
ragged_query-few h = absurd (omega (arith, h.1.0))

find_batch_groups-Within_example : Within 0 (find_batch_groups rows_query) (length rows_query)
find_batch_groups-Within_example = find_batch_groups-Within rows_query

expand_batch_query-weave_example :
    (qs : List Bytes) × (expand_batch_query rows_query ≡ ok qs)
    × (length qs ≡ row_count rows_groups)
    × ((i : ℕ)
        → i < row_count rows_groups
        → get_elem? qs i ≡ some (weave 0 rows_groups rows_query i))
expand_batch_query-weave_example =
    expand_batch_query-weave rows_query (some 2, 5) ((some 7, 10) ∷ []) rows_query-contains
      rows_query-groups rows_query-enough

-- Both rows as they are.
rows_query-expanded : expand_batch_query rows_query ≡ ok (codes "f(1, 3)" ∷ codes "f(2, 4)" ∷ [])
unfolding expand_batch_query contains split split_from
rows_query-expanded = refl

translate_placeholders-returns_example :
    (query' : Bytes) × (translate_placeholders (codes "f($1, $2, $1)") "mysql" ≡ some query')
    × Translated (native_of "mysql" natives) (codes "f($1, $2, $1)") query'
translate_placeholders-returns_example =
    translate_placeholders-returns (codes "f($1, $2, $1)") "mysql"

-- The second `$1` stays.
translated_twice :
    translate_placeholders (codes "f($1, $2, $1)") "mysql" ≡ some (codes "f(?, ?, $1)")
unfolding translate_placeholders contains show_nat digits
translated_twice = refl

-- A database that counts the queries it runs and fails at the third.
abbrev counting_backend : Backend String Bytes ℤ Bytes Bytes ℕ
counting_backend = record {
  formats = plain;
  driver = "mysql";
  generate_args = λ q w. (ok (([] ∷ []), false), w);
  capture_output = none;
  exec = λ q args w. (if w == 2 then err "lost" else ok tt, w + 1);
  query = λ q args w. (ok tt, w + 1);
  exec_prepared = λ p q args w. (ok tt, w + 1);
  query_prepared = λ p q args w. (ok tt, w + 1);
  prepare = some (λ sql w. (ok sql, w));
  not_a_preparer = "no preparer";
  not_translated = "no fuel";
  replace_values = λ sql raw. sql;
  set_env = λ name rows w. w;
  captured_rows = λ w. [];
  clear_captured = λ w. w;
  no_wait = true;
  pause = λ d w. (none, w);
  has_results = true;
}

abbrev statement : Stmt
statement = record {
  id = 1;
  name = "pay";
  type = "exec";
  prepared = true;
  wait = pos 0;
  sql = codes "pay($1)";
  compiled_args = 0;
  aggs = [];
  columns = [];
}

abbrev before : State String Bytes ℕ
before = record { world = 0; results = []; stmt_cache = [] }

abbrev afterwards : State String Bytes ℕ
afterwards = record { world = 9; results = []; stmt_cache = (1, codes "pay(?)") ∷ [] }

run_section-Reported_example :
    (new : List (QueryResult String)) × ((run_section counting_backend
        (statement ∷ statement ∷ [])
        up
        before).1.results
      ≡ [] ++ new)
    × Reported up
        (statement ∷ statement ∷ [])
        new
        (run_section counting_backend (statement ∷ statement ∷ []) up before).0
run_section-Reported_example =
    run_section-Reported counting_backend up (statement ∷ statement ∷ []) before refl refl

statement-prepared : get_or_prepare counting_backend statement before ≡ (
  ok (codes "pay(?)"),
  record { world = 0; results = []; stmt_cache = (1, codes "pay(?)") ∷ [] },
)
unfolding get_or_prepare translate_placeholders contains show_nat digits
statement-prepared = refl

get_or_prepare-once_example :
    get_or_prepare counting_backend statement afterwards ≡ (ok (codes "pay(?)"), afterwards)
get_or_prepare-once_example =
    get_or_prepare-once counting_backend statement before (codes "pay(?)")
      (ap (λ p. p.0) statement-prepared) afterwards
      (sym (ap (λ p. p.1.stmt_cache) statement-prepared))

abbrev signals : List Signal
signals = tick ∷ tick ∷ cancelled ∷ tick ∷ []

run_worker-Lives_example :
    Lives counting_backend
      (λ w. false)
      (λ e. false)
      statement
      refl
      refl
      signals
      before
      (run_worker counting_backend (λ w. false) (λ e. false) statement signals (waiting, before))
    × Sends counting_backend
        (λ w. false)
        (λ e. false)
        statement
        refl
        refl
        (ticks signals)
        (waiting, before)
        (run_worker counting_backend (λ w. false) (λ e. false) statement signals (waiting, before))
run_worker-Lives_example =
    run_worker-Lives counting_backend (λ w. false) (λ e. false) statement refl refl signals before
