-- ===== src/Witnesses/Generated.antt =====
-- The theorems on generated arguments, on `uniq` and on staged rows at concrete inputs.
use edg.Prelude.{
  true, ℕ, ◌+◌, ◌/◌, ◌==◌, String, List, [], ◌∷◌, ◌++◌, map, none, some, false, All, length, str_eq,
  ok, ◌≡◌, ◌≢◌, refl, arith, ==_iff,
}
use edg.Prelude.Int.{ℤ, pos}
use edg.Prelude.Text.{Bytes, codes, join, contains, show_int, show_nat, digits}
use edg.Prelude.Steps.{after, return}
use edg.Convert.{Value, int, raw_sql, nil, to_int_value, sql_format_value}
use edg.Env.Args.Batch.Covers.{sum, Within}
use edg.Env.Args.Generate.{
  BatchQuery, Vars, Evaluator, count_failed, count_not_int, size_failed, size_not_int, eval_number,
  eval_rows, batch_args, start_batches, generate_batch_args,
}
use edg.Env.Args.Generate.Cells.{value_of}
use edg.Env.Args.Generate.Rows.{cut, generate_batch_args-rows}
use edg.Env.Args.Generate.Captured.{captured_row, generate_batch_args-captures}
use edg.Env.Args.Uniq.{Uniq, Engine, uniq_exprs, seen_by, find}
use edg.Env.Args.Uniq.Distinct.{AllDistinct, uniq_exprs-AllDistinct}
use edg.Output.{WriteRow, lookup, add_table}
use edg.Output.Tables.{each_added, grown, rows_for, each_added-rows}
use edg.Env.Output.{Stage, Stager, batch_row}
use edg.Witnesses.Queries.{plain}

-- A program is a number; its value is the number plus how many values have been made.
abbrev counter : Evaluator (Unit {0}) ℕ ℤ Bytes Bytes ℕ
counter = record {
  formats = plain;
  driver = "pgx";
  run = λ p names args cache w. (ok (int (pos (p + w))), cache, w + 1);
  find_values = λ sql. none;
}

abbrev insert_users : BatchQuery ℕ
insert_users = record {
  name = "users";
  sql = codes "INSERT INTO users (id, age) VALUES ($1, $2)";
  args = 10 ∷ 20 ∷ [];
  arg_names = [];
  count = some 3;
  size = some 1;
  json = false;
  columns = "id" ∷ "age" ∷ [];
}

abbrev vars : ℕ → Vars ℤ Bytes Bytes ℕ
vars w = record {
  arg_names = [];
  computed_args = [];
  one_cache = λ n. none;
  captured_rows = [];
  world = w;
}

counted :
    eval_number counter count_failed count_not_int (pos 1) insert_users.count (vars 0)
    ≡ (ok (pos 3), vars 1)
unfolding eval_number to_int_value
counted = refl

sized :
    eval_number counter size_failed size_not_int (pos 3) insert_users.size (vars 1)
    ≡ (ok (pos 2), vars 2)
unfolding eval_number to_int_value
sized = refl

generate_batch_args-rows_example :
    (ns : List ℕ) × (sum ns ≡ 3)
    × Within 2 ns
    × (generate_batch_args counter insert_users (vars 0)
        ≡ after
            (eval_rows counter insert_users (pos 0) 3 (start_batches counter insert_users (vars 2)))
            (λ rows. return (map (batch_args counter insert_users) (cut ns rows))))
generate_batch_args-rows_example =
    generate_batch_args-rows counter insert_users 3 (pos 2) (vars 0) (vars 1) (vars 2) counted sized
      (omega arith) (omega arith) (omega arith)

abbrev made : Vars ℤ Bytes Bytes ℕ
made = record {
  arg_names = [];
  computed_args = int (pos 16) ∷ int (pos 27) ∷ [];
  one_cache = λ n. none;
  captured_rows =
      (("id", int (pos 12)) ∷ ("age", int (pos 23)) ∷ [])
      ∷ (("id", int (pos 14)) ∷ ("age", int (pos 25)) ∷ [])
      ∷ (("id", int (pos 16)) ∷ ("age", int (pos 27)) ∷ [])
      ∷ [];
  world = 8;
}

abbrev sets : List (List (Value ℤ Bytes Bytes))
sets =
    (raw_sql (codes "12" ++ 31 ∷ codes "14") ∷ raw_sql (codes "23" ++ 31 ∷ codes "25") ∷ [])
    ∷ (raw_sql (codes "16") ∷ raw_sql (codes "27") ∷ [])
    ∷ []

ran : generate_batch_args counter insert_users (vars 0) ≡ (ok sets, made)
unfolding generate_batch_args to_int_value join contains sql_format_value show_int show_nat digits
ran = refl

generate_batch_args-captures_example :
    (ns : List ℕ) × (rows : List (List (Value ℤ Bytes Bytes))) × (sum ns ≡ 3)
    × Within 2 ns
    × (length rows ≡ 3)
    × (sets ≡ map (batch_args counter insert_users) (cut ns rows))
    × (made.captured_rows ≡ map (captured_row counter insert_users refl) rows)
    × ((vs : List (Value ℤ Bytes Bytes)) (name : String)
        → find name (captured_row counter insert_users refl vs)
          ≡ value_of name insert_users.columns vs)
generate_batch_args-captures_example =
    generate_batch_args-captures counter insert_users refl 3 (pos 2) (vars 0) (vars 1) (vars 2) made
      sets counted sized (omega arith) (omega arith) (omega arith) ran

-- The values 7, 7, 8, 8, 9, … of one expression.
abbrev halves : Engine (Unit {0}) (Unit {0}) ℕ (Unit {0}) ℕ
halves = record {
  same = ◌==◌;
  hashable = λ v. true;
  compile = λ x. ok tt;
  run = λ p w. (ok (w / 2), w + 1);
  to_int = λ v. ok (pos 0);
}

abbrev unseen : Uniq (Unit {0}) ℕ ℕ
unseen = record {
  uniq_seen = ("other", 1 ∷ []) ∷ [];
  uniq_prog = [];
  is_locked = false;
  world = 14;
}

abbrev seen_twice : Uniq (Unit {0}) ℕ ℕ
seen_twice = record {
  uniq_seen = ("other", 1 ∷ []) ∷ ("gen('word')", 8 ∷ 7 ∷ []) ∷ [];
  uniq_prog = ("gen('word')", tt) ∷ [];
  is_locked = false;
  world = 17;
}

abbrev two : List ℕ
two = 7 ∷ 8 ∷ []

two_values : uniq_exprs halves "gen('word')" [] 2 unseen ≡ (ok two, seen_twice)
unfolding uniq_exprs
two_values = refl

uniq_exprs-AllDistinct_example :
    (length two ≡ 2)
    × AllDistinct two
    × All (λ v. All (λ y. y ≢ v) (seen_by "gen('word')" unseen.uniq_seen)) two
    × ((other : String)
        → str_eq "gen('word')" other ≡ false
        → seen_by other seen_twice.uniq_seen ≡ seen_by other unseen.uniq_seen)
uniq_exprs-AllDistinct_example =
    uniq_exprs-AllDistinct halves (λ x. (==_iff x x).1 refl) "gen('word')" [] 2 unseen seen_twice
      two two_values

abbrev user_row : String → ℤ → WriteRow ℤ Bytes Bytes
user_row name age = record {
  section = codes "seed";
  name = codes name;
  sql = [];
  columns = codes "age" ∷ [];
  args = int age ∷ [];
}

each_added-rows_example :
    lookup (codes "seed_users") (
      each_added
        (add_table (λ v. v) nil)
        (user_row "users" (pos 1) ∷ user_row "orders" (pos 2) ∷ user_row "users" (pos 3) ∷ [])
        [])
    ≡ grown
        (λ v. v)
        nil
        none
        (rows_for
          (λ v. v)
          nil
          (codes "seed_users")
          (user_row "users" (pos 1) ∷ user_row "orders" (pos 2) ∷ user_row "users" (pos 3) ∷ []))
unfolding lookup
each_added-rows_example =
    each_added-rows (λ v. v) nil (codes "seed_users")
      (user_row "users" (pos 1) ∷ user_row "orders" (pos 2) ∷ user_row "users" (pos 3) ∷ []) []

-- Rows that are kept as they come.
abbrev stager : Stager (Unit {0}) ℕ ℤ Bytes Bytes ℕ (List (WriteRow ℤ Bytes Bytes))
stager = record {
  evaluator = counter;
  add = λ r rows. (ok tt, rows ++ r ∷ []);
  generate_args = λ q s. (ok [], s);
  has_results = false;
}

abbrev empty_stage : Stage ℤ Bytes Bytes ℕ (List (WriteRow ℤ Bytes Bytes))
empty_stage = record { vars = vars 0; out = []; datasets = []; sent = [] }

abbrev values : List (List (Value ℤ Bytes Bytes))
values =
    (int (pos 11) ∷ int (pos 22) ∷ [])
    ∷ (int (pos 13) ∷ int (pos 24) ∷ [])
    ∷ (int (pos 15) ∷ int (pos 26) ∷ [])
    ∷ []

abbrev staged : Stage ℤ Bytes Bytes ℕ (List (WriteRow ℤ Bytes Bytes))
staged = record {
  vars = record {
    arg_names = [];
    computed_args = int (pos 15) ∷ int (pos 26) ∷ [];
    one_cache = λ n. none;
    captured_rows = [];
    world = 7;
  };
  out = map (batch_row stager insert_users "seed") values;
  datasets = ("users", map (captured_row counter insert_users refl) values) ∷ [];
  sent = [];
}
