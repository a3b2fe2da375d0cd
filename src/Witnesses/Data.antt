-- ===== src/Witnesses/Data.antt =====
-- Concrete inputs: argument sets, a workload, a database with a failing query, two tables.
use Prim.Native.Nat.{Ordering}
use edg.Prelude.{
  ◌≡◌, ◌∙◌, sym, refl, ℕ, ◌+◌, String, List, [], ◌∷◌, Option, none, some, true, false,
  if◌then◌else◌, replicate, str_eq, ltb, ◌==◌, ok, err, arith,
}
use edg.Prelude.Int.{pos}
use edg.Config.{Query, Transaction, RunItem, Request, QueryGroup, query_groups}
use edg.Config.Validate.Expressions.{Scanner}
use edg.Env.Args.Product.{Arg, scalar, batch}
use edg.Env.Transaction.{Driver, Element, Tx, State}
use edg.Env.Ref.{Datasets}
use edg.Prelude.Text.{codes}
use edg.Cmd.Sync.{three_way, Row, KeyOrder, compare_keys, Tables}
use edg.Cmd.Sync.Merge.{IsOrder}
use edg.Env.Agg.{Values, Row as AggRow}
use edg.Env.Agg.Bounds.{IsOrdered}
use edg.Seq.{Manager}
use edg.License.{Outside}
use edg.Cmd.Stats.{Floats, QueryResult, Event, warmup_over, received, tick}

-- Six argument sets: a scalar between two batches.
abbrev pub arguments : List (Arg ℕ)
arguments =
    batch ((1 ∷ 10 ∷ []) ∷ (2 ∷ 20 ∷ []) ∷ [])
    ∷ scalar 5
    ∷ batch ((7 ∷ []) ∷ (8 ∷ []) ∷ (9 ∷ []) ∷ [])
    ∷ []

abbrev pub plain_query : String → String → Query
plain_query name sql = record {
  name = name;
  type = "query";
  prepared = false;
  row = "";
  args = "gen('name')" ∷ [];
  query = sql;
  rollback_if = "";
  print = [];
}

abbrev pub transfer_config : Transaction
transfer_config = record {
  name = "transfer";
  locals = ("amount", "uniform(1, 10)") ∷ [];
  queries = plain_query "debit" "UPDATE" ∷ plain_query "credit" "UPDATE" ∷ [];
}

abbrev pub run_items : List RunItem
run_items =
    record { query = some (plain_query "lookup" "SELECT"); transaction = none }
    ∷ record { query = none; transaction = some transfer_config }
    ∷ []

abbrev pub weights : List (String × ℕ)
weights = ("lookup", 3) ∷ ("transfer", 1) ∷ []

abbrev pub request : Request
request = record {
  globals = "customers" ∷ [];
  expressions = [];
  rows = [];
  seq = "orders" ∷ [];
  up = plain_query "create" "CREATE" ∷ [];
  seed = [];
  deseed = [];
  down = [];
  init = [];
  run_weights = ("lookup", pos 3) ∷ ("transfer", pos 1) ∷ [];
  run = run_items;
  workers = record { query = plain_query "vacuum" "VACUUM"; times = pos 1; interval = pos 5 } ∷ [];
  expectations = 1;
}

abbrev pub groups : List QueryGroup
unfolding query_groups
groups = query_groups request

abbrev pub scanner : Scanner
scanner = record {
  gen_calls = λ e. "name" ∷ [];
  env_calls = λ e. [];
  seq_calls = λ e. "orders" ∷ [];
  is_function = λ f. str_eq f "name";
  is_set = λ v. false;
}

-- A driver whose world counts the calls, and whose third query fails.
abbrev pub driver : Driver String ℕ ℕ
driver = record {
  supports = true;
  begin_tx = λ w. (ok tt, w + 1);
  commit_tx = λ w. (ok tt, w + 1);
  rollback_tx = λ w. w + 1;
  eval_local = λ e l w. (ok 7, w);
  eval_rollback_if = λ e l w. (ok false, w);
  run_query = λ q l w. (if ltb w 3 then err "deadlock" else ok tt, w + 1);
  cancelled = λ w. false;
  wait = λ d w. w;
  no_wait = false;
  cancelled_error = "cancelled";
}

abbrev pub transfer : Tx
transfer = record {
  locals = ("amount", "uniform(1, 10)") ∷ [];
  elements = Element.query "debit" ∷ Element.rollback_if "false" ∷ Element.query "credit" ∷ [];
  wait = pos 0;
}

abbrev pub start_state : State String ℕ ℕ
start_state = record { world = 0; journal = []; tx_locals = none; results = [] }

-- Keys of one digit.
abbrev pub digit : String → ℕ
digit s = if str_eq s "1" then 1 else if str_eq s "2" then 2 else if str_eq s "3" then 3 else 4

abbrev pub compare_codes : List ℕ → List ℕ → Ordering
compare_codes [] [] = Ordering.eq
compare_codes [] (d ∷ t) = Ordering.lt
compare_codes (c ∷ s) [] = Ordering.gt
compare_codes (c ∷ s) (d ∷ t) =
    let rest = compare_codes s t in
    if ltb c d then Ordering.lt else if ltb d c then Ordering.gt else rest

-- The keys "1", "2" and "3" are numbers, others are texts.
abbrev pub order : KeyOrder
order = record {
  Float = ℕ;
  parse_float = λ s. if ltb (digit s) 4 then some (digit s) else none;
  lt_float = ltb;
  compare_text = λ a b. compare_codes (codes a) (codes b);
}

abbrev pub Numeric : String → Type 0
Numeric s = (n : ℕ) × (order.parse_float s ≡ some n)

three_way_of : ℕ → ℕ → Ordering
three_way_of n m = three_way (ltb n m) (ltb m n)

compare_numbers :
    (a b : String) (n m : ℕ)
    → order.parse_float a ≡ some n
    → order.parse_float b ≡ some m
    → compare_keys order a b ≡ three_way_of n m
unfolding compare_keys three_way_of
compare_numbers a b n m h k = rw (h, k) refl

pub order-IsOrder : IsOrder Numeric (compare_keys order)
unfolding three_way_of
order-IsOrder = record {
  cmp_refl = λ a (n, h). compare_numbers a a n n h h ∙ ground arith;
  flip_lt = λ a b (n, h) (m, k) e.
      (let c = sym (compare_numbers a b n m h k) ∙ e in compare_numbers b a m n k h ∙ ground arith);
  flip_gt = λ a b (n, h) (m, k) e.
      (let c = sym (compare_numbers a b n m h k) ∙ e in compare_numbers b a m n k h ∙ ground arith);
  lt_trans = λ a b c (n, h) (m, k) (p, l) e f.
      (let x = sym (compare_numbers a b n m h k) ∙ e in
        let y = sym (compare_numbers b c m p k l) ∙ f in
        compare_numbers a c n p h l ∙ ground arith);
  eq_left = λ a b c (n, h) (m, k) (p, l) e.
      (let x = sym (compare_numbers a b n m h k) ∙ e in
        compare_numbers a c n p h l ∙ ground arith ∙ sym (compare_numbers b c m p k l));
}

abbrev pub tables : Tables
tables = record {
  src_columns = "id" ∷ "name" ∷ [];
  tgt_columns = "id" ∷ "name" ∷ [];
  order_by = "id";
  ignored = [];
}

abbrev pub row_of : String → String → Row
row_of id name = some id ∷ some name ∷ []

abbrev pub src_rows : List Row
src_rows = row_of "1" "ann" ∷ row_of "2" "bob" ∷ []

abbrev pub tgt_rows : List Row
tgt_rows = row_of "2" "rob" ∷ row_of "3" "cat" ∷ []

abbrev pub floats : Floats
floats = record {
  Float = ℕ;
  parse_float = λ s. some 1;
  plus = λ a b. a + b;
  less = ltb;
  zero_float = 0;
  max_float = 100;
  neg_max_float = 0;
}

abbrev pub result_of : String → Option String → QueryResult
result_of name error = record {
  name = name;
  latency = pos 20;
  error = error;
  count = pos 2;
  is_transaction = false;
  rollback = false;
  print_aggs = [];
  print_values = "4" ∷ [];
}

-- One result in the warm-up, and three after it.
abbrev pub events : List Event
events =
    received (result_of "lookup" none)
    ∷ tick
    ∷ warmup_over
    ∷ received (result_of "lookup" none)
    ∷ received (result_of "other" none)
    ∷ received (result_of "lookup" (some "timeout"))
    ∷ []

abbrev pub datasets : String → Option (List ℕ)
datasets name = if str_eq name "users" then some (11 ∷ 22 ∷ 33 ∷ []) else none

abbrev pub sequences : Manager
sequences =
    ("bills", record { start = pos 1; step = pos 1; counter = pos 4 })
    ∷ ("orders", record { start = pos 100; step = pos 5; counter = pos 2 })
    ∷ []

abbrev pub lots : List (String × ℕ)
lots = ("a", 2) ∷ ("b", 3) ∷ []

-- A licence for one driver; every key signs everything.
abbrev pub outside : Outside String
outside = record {
  decode_url = λ s. ok (replicate 70 7);
  decode_key = λ s. ok (9 ∷ []);
  ed_verify = λ key payload sig. true;
  unmarshal = λ payload. ok (record {
    id = "1";
    email = "ann@example.com";
    drivers = "oracle" ∷ [];
    expires = pos 2_000;
    issued = pos 1_000;
  });
  now = pos 62_135_598_300_000_000_000;
  flag_license = "licence";
  env_license = "";
  public_key = "key";
}

abbrev pub cards : List String
cards = "visa" ∷ "amex" ∷ []

-- Numbers in place of floating point numbers.
abbrev pub values : Values
values = record {
  Value = ℕ;
  Float = ℕ;
  to_float = λ n. if ltb n 100 then some n else none;
  same_key = λ a b. a == b;
  hashable = λ a. true;
  less = ltb;
  plus = λ a b. a + b;
  divide = λ a b. a;
  of_int = λ n. n;
  zero_float = 0;
  infinity = 1_000;
  neg_infinity = 0;
}

pub values-IsOrdered : IsOrdered values
values-IsOrdered = record {
  less_irrefl = λ a. ground arith;
  less_asymm = λ a b h. ground arith;
  not_less_trans = λ a b c h k. ground arith;
}

abbrev pub orders : Datasets (AggRow values)
orders = record {
  env = λ name. some ((λ field. 7) ∷ (λ field. 200) ∷ (λ field. 9) ∷ []);
  uniq_index = 0;
}
