-- ===== src/Cmd/Stats.antt =====
-- The collector of results `printResults` (cmd/edg/stats.go), less what it prints, and `percentiles`.
-- The floating point numbers, `ParseFloat` and `slices.Sort` are parameters. The metrics that the
-- handler also counts for Prometheus are not modelled.
pub mod Totals
pub mod Percentiles
use edg.Prelude.{
  ℕ, ◌+◌, ◌-◌, ◌*◌, ◌/◌, String, List, [], ◌∷◌, ◌++◌, map, Option, none, some, Bool, true, false,
  if◌then◌else◌, ◌||◌, length, get_elem?, leb, str_eq,
}
use edg.Prelude.Int.{ℤ, pos, ◌+ℤ◌, wrap_64}

-- What the collector needs of `float64` and `strconv.ParseFloat`.
pub record Floats : Type 1 where
  pub Float : Type 0
  pub parse_float : String → Option Float
  pub plus : Float → Float → Float
  pub less : Float → Float → Bool
  pub zero_float : Float
  pub max_float : Float
  pub neg_max_float : Float

-- The fields of config.QueryResult that the collector reads.
pub record QueryResult : Type 0 where
  pub name : String
  pub latency : ℤ
  pub error : Option String
  pub count : ℤ
  pub is_transaction : Bool
  pub rollback : Bool
  pub print_aggs : List String
  pub print_values : List String

-- `map[string]int64`, with one entry for each key.
abbrev pub Freq : Type 0
Freq = List (String × ℤ)

unfoldable pub count_up : String → Freq → Freq
count_up v [] = (v, pos 1) ∷ []
count_up v ((w, n) ∷ freq) =
    let rest = count_up v freq in
    if str_eq v w then (w, wrap_64 (n +ℤ pos 1)) ∷ freq else (w, n) ∷ rest

-- The cases of the handler's `select`; the channel's close ends the list.
pub data Event : Type 0 where
  warmup_over : Event
  received : QueryResult → Event
  tick : Event

module _ (f : Floats) where
  pub record PrintAgg : Type 0 where
    pub freq : Freq
    pub sum : f.Float
    pub min : f.Float
    pub max : f.Float
    pub count : ℤ
    pub num_count : ℤ

  -- `printAggs` is nil exactly if it is empty: it is made for at least one value.
  pub record QueryStats : Type 0 where
    pub count : ℤ
    pub errors : ℤ
    pub commits : ℤ
    pub rollbacks : ℤ
    pub total_latency : ℤ
    pub latencies : List ℤ
    pub is_transaction : Bool
    pub print_agg_exprs : List String
    pub print_aggs : List PrintAgg

  abbrev pub new_stats : QueryStats
  new_stats = record {
    count = pos 0;
    errors = pos 0;
    commits = pos 0;
    rollbacks = pos 0;
    total_latency = pos 0;
    latencies = [];
    is_transaction = false;
    print_agg_exprs = [];
    print_aggs = [];
  }

  abbrev pub new_agg : PrintAgg
  new_agg = record {
    freq = [];
    sum = f.zero_float;
    min = f.max_float;
    max = f.neg_max_float;
    count = pos 0;
    num_count = pos 0;
  }

  unfoldable pub add_value : String → PrintAgg → PrintAgg
  unfolding count_up
  add_value v agg =
      let counted : PrintAgg = record agg {
        freq = count_up v agg.freq;
        count = wrap_64 (agg.count +ℤ pos 1);
      } in
      elim (f.parse_float v) [
        | none ↦ counted
        | some x ↦ record counted {
          sum = f.plus agg.sum x;
          num_count = wrap_64 (agg.num_count +ℤ pos 1);
          min = if f.less x agg.min then x else agg.min;
          max = if f.less agg.max x then x else agg.max;
        }
      ]

  -- A value beyond the last aggregate is passed over.
  unfoldable pub add_values : List String → List PrintAgg → List PrintAgg
  unfolding add_value
  add_values [] aggs = aggs
  add_values (v ∷ values) [] = []
  add_values (v ∷ values) (agg ∷ aggs) = add_value v agg ∷ add_values values aggs

  unfoldable pub print_stats : QueryResult → QueryStats → QueryStats
  unfolding add_values
  print_stats r s = elim r.print_values [
    | [] ↦ s
    | v ∷ values ↦ elim s.print_aggs [
      | [] ↦ record s {
        print_agg_exprs = r.print_aggs;
        print_aggs = add_values r.print_values (map (λ _. new_agg) r.print_values);
      }
      | _ ∷ _ ↦ record s { print_aggs = add_values r.print_values s.print_aggs }
    ]
  ]

  unfoldable pub end_transaction : QueryResult → QueryStats → QueryStats
  end_transaction r s =
      if r.is_transaction
      then (if r.rollback
          then record s { rollbacks = wrap_64 (s.rollbacks +ℤ pos 1) }
          else record s { commits = wrap_64 (s.commits +ℤ pos 1) })
      else s

  -- What a measured result does to the statistics of its name.
  unfoldable pub observe : QueryResult → QueryStats → QueryStats
  unfolding print_stats end_transaction
  observe r s =
      let s' : QueryStats = record s { is_transaction = s.is_transaction || r.is_transaction } in
      elim r.error [
        | some _ ↦ record s' { errors = wrap_64 (s.errors +ℤ pos 1) }
        | none ↦
            let p = print_stats r s' in
            end_transaction r (record p {
              count = wrap_64 (p.count +ℤ r.count);
              total_latency = wrap_64 (p.total_latency +ℤ r.latency);
              latencies = p.latencies ++ r.latency ∷ [];
            })
      ]

  -- `map[string]*queryStats`, with one entry for each name.
  abbrev pub Stats : Type 0
  Stats = List (String × QueryStats)

  unfoldable pub find_stats : String → Stats → Option QueryStats
  find_stats name [] = none
  find_stats name ((n, s) ∷ stats) = if str_eq name n then some s else find_stats name stats

  unfoldable pub record_result : QueryResult → Stats → Stats
  unfolding observe
  record_result r [] = (r.name, observe r new_stats) ∷ []
  record_result r ((n, s) ∷ stats) =
      let rest = record_result r stats in
      if str_eq r.name n then (n, observe r s) ∷ stats else (n, s) ∷ rest

  pub record Collector : Type 0 where
    pub warming_up : Bool
    pub stats : Stats

  unfoldable pub handle : Event → Collector → Collector
  unfolding record_result
  handle warmup_over c = record c { warming_up = false }
  handle (received r) c = if c.warming_up then c else record c { stats = record_result r c.stats }
  handle tick c = c

  unfoldable pub collect : List Event → Collector → Collector
  unfolding handle
  collect [] c = c
  collect (e ∷ events) c = collect events (handle e c)

-- `percentiles`: the last index.
unfoldable pub i_99 : ℕ → ℕ
i_99 n = let i = n * 99 / 100 in if leb n i then n - 1 else i

-- None if one of the three reads is out of range.
unfoldable pub all_read : Option ℤ → Option ℤ → Option ℤ → Option (ℤ × ℤ × ℤ)
all_read (some a) (some b) (some c) = some (a, b, c)
all_read _ _ _ = none

-- The products stay far below 2^63: no slice has as many as 2^63 / 99 elements.
unfoldable pub percentiles : (List ℤ → List ℤ) → List ℤ → Option (ℤ × ℤ × ℤ)
unfolding i_99 all_read
percentiles sort [] = some (pos 0, pos 0, pos 0)
percentiles sort (x ∷ xs) =
    let n = length (x ∷ xs) in
    let sorted = sort (x ∷ xs) in
    all_read (get_elem? sorted (n * 50 / 100)) (get_elem? sorted (n * 95 / 100))
      (get_elem? sorted (i_99 n))
