-- ===== src/Witnesses.antt =====
-- The theorems at concrete inputs, where their hypotheses hold.
pub mod Data
pub mod Queries
pub mod Schemas
pub mod Includes
pub mod Masks
pub mod Generated
mod Randoms
use mathlib.Core.Path.{Path}
use mathlib.Core.List.{Perm}
use edg.Prelude.{
  ℕ, ◌+◌, ◌<◌, ◌≤◌, String, List, [], ◌∷◌, ◌++◌, map, Option, none, some, Bool, true, false,
  if◌then◌else◌, str_eq, ltb, ok, err, Result, ◌≡◌, ◌≢◌, ◌↔◌, ◌⊎◌, refl, arith, length, get_elem?,
  take, All,
}
use edg.Prelude.Int.{ℤ, pos, ◌≤ℤ◌, ◌+ℤ◌, ◌*ℤ◌, wrap_64}
use edg.Prelude.Random.{counting}
use edg.Witnesses.Data.{values, values-IsOrdered, orders}
use edg.Witnesses.Data.{
  arguments, scanner, request, groups, driver, transfer, start_state, row_of, src_rows, floats,
  events, datasets, weights, digit, sequences, lots, cards,
}
use edg.Config.{item_name}
use edg.Config.Validate.{
  validate_seq, validate_duplicate_names, validate_run_weights, validate_row_refs,
  validate_transactions, validate_workers, validate_expectation_globals,
}
use edg.Config.Validate.Expressions.{validate}
use edg.Config.Validate.Expressions.Accepts.{IsValid, validate-IsValid}
use edg.Config.Validate.Names.{Distinct, named, validate_seq-ok, validate_duplicate_names-ok}
use edg.Config.Validate.Rules.{
  WeightRule, RowRule, ItemRule, WorkerRule, GlobalRule, validate_run_weights-ok,
  validate_row_refs-ok, validate_transactions-ok, validate_workers-ok,
  validate_expectation_globals-ok,
}
use edg.Env.Args.Product.{expand}
use edg.Env.Args.Product.Enumerates.{product, has_batch, expand-product}
use edg.Env.Args.Batch.{plan, divide_by_zero}
use edg.Env.Args.Batch.Covers.{plan_covers, plan-zero, rows_per_batch, sum, Within, ceil_div}
use edg.Env.Transaction.{run_transaction}
use edg.Env.Transaction.Runs.{Settles, run_transaction-Settles}
use edg.Env.Weighted.{bad_argument, choose, pick_weighted}
use edg.Env.Weighted.Spread.{
  weighted_items, sum_weights, spread, listed, choose-spread, pick_weighted-spread,
}
use edg.Env.Weighted.Set.{set_rand}
use edg.Env.Weighted.Set.Picks.{zip, set_rand-spread}
use edg.Env.Agg.{agg_min, agg_max, agg_count}
use edg.Env.Agg.Bounds.{NotBelow, NotAbove, Attains, aggregates-bounds}
use edg.Env.Ref.{Datasets, ref_diff, ref_diffs}
use edg.Env.Ref.Cached.{remember, ref_cached}
use edg.Env.Ref.Cached.Stable.{ref_cached-stable}
use edg.Env.Ref.Sample.{fisher_yates}
use edg.Env.Ref.Sample.Rows.{fisher_yates-Perm}
use edg.Env.Ref.Distinct.{ref_diffs-Perm, ref_diff-exhausted}
use edg.Cmd.Sync.{compare_keys, key_value}
use edg.Cmd.Sync.Merge.{feed_of}
use edg.Cmd.Sync.Command.{verify_tables}
use edg.Cmd.Sync.Cursor.{drain, start}
use edg.Cmd.Sync.Cursor.Drains.{beyond, drain-feed_of}
use edg.Cmd.Stats.{find_stats, collect, percentiles}
use edg.Cmd.Stats.Totals.{Totals, named as of_name, measured, collect-Totals}
use edg.Cmd.Stats.Percentiles.{percentiles-ascend}
use edg.Seq.{Sequence, SeqError, rand, get, next, manager_next}
use edg.Seq.Values.{issued, rand-issued, manager_next-get}

expand-product_example : expand arguments ≡ some (product arguments, has_batch arguments)
expand-product_example = expand-product arguments (omega arith)

plan_covers_example :
    (ns : List ℕ) × (plan (pos 10) (pos 4) ≡ ok (map pos ns))
    × (sum ns ≡ 10)
    × Within (rows_per_batch 10 (pos 4)) ns
    × (length ns ≡ ceil_div 10 (rows_per_batch 10 (pos 4)))
plan_covers_example = plan_covers 10 (pos 4) (omega arith) (omega arith) (omega arith)

validate-IsValid_example : (validate scanner request [] ≡ ok tt) ↔ IsValid scanner request []
validate-IsValid_example = validate-IsValid scanner request []

run_transaction-Settles_example :
    Settles (2 + 1) start_state (run_transaction driver transfer (pos 2) start_state).1
run_transaction-Settles_example =
    run_transaction-Settles driver transfer 2 start_state (omega arith)

drain-feed_of_example :
    drain {E = String}
      (key_value ("id" ∷ "name" ∷ []) "id")
      (λ last. ok (
        take 2 (
          beyond
            (key_value ("id" ∷ "name" ∷ []) "id")
            (λ a b. ltb (digit a) (digit b))
            last
            src_rows)))
      (length src_rows + 1)
      start
    ≡ some (feed_of src_rows)
unfolding key_value compare_keys
drain-feed_of_example =
    drain-feed_of (key_value ("id" ∷ "name" ∷ []) "id") (λ a b. ltb (digit a) (digit b)) String 1
      src_rows
      (λ last. ok (
        take 2 (
          beyond (key_value ("id" ∷ "name" ∷ []) "id") (λ a b. ltb (digit a) (digit b)) last
            src_rows)))
      (refl, ((refl, refl), tt), (refl, tt, tt)) (λ last. refl)

collect-Totals_example : Totals floats (of_name "lookup" (measured true events)) (
    find_stats floats "lookup"
      (collect floats events (record { warming_up = true; stats = [] })).stats)
collect-Totals_example = collect-Totals floats "lookup" events true

ref_diffs-Perm_example :
    (taken rest : List ℕ) × (e' : Datasets ℕ) × (s' : ℕ) × (ref_diffs counting 2
        (record { env = datasets; uniq_index = 0 })
        "users"
        5
      ≡ (ok (map some taken), e', s'))
    × (length taken ≡ 2)
    × (e'.env "users" ≡ some (taken ++ rest))
    × Perm (11 ∷ 22 ∷ 33 ∷ []) (taken ++ rest)
ref_diffs-Perm_example =
    ref_diffs-Perm counting 2 datasets "users" (11 ∷ 22 ∷ 33 ∷ []) 5 refl (omega arith)

pick_weighted-spread_example : pick_weighted counting request 6 ≡ (
  ok (
      get_elem?
        (spread (listed weights request.run))
        ((counting.int_n (sum_weights (listed weights request.run)) 6).0)),
  (counting.int_n (sum_weights (listed weights request.run)) 6).1,
)
unfolding listed edg.Env.Weighted.lookup item_name
pick_weighted-spread_example =
    pick_weighted-spread counting request weights 6 refl (omega arith) (omega arith)

rand-issued_example :
    ((k : ℕ)
      → k < 3
      → get_elem? (issued 3 (record { start = pos 100; step = pos 5; counter = pos 0 })).0 k
        ≡ some (wrap_64 (pos 100 +ℤ wrap_64 (pos k *ℤ pos 5))))
    × (v : ℤ) × (k : ℕ) × (k < 3)
    × ((rand {E = String} counting
          (issued 3 (record { start = pos 100; step = pos 5; counter = pos 0 })).1
          8).0
        ≡ ok v)
    × (get_elem? (issued 3 (record { start = pos 100; step = pos 5; counter = pos 0 })).0 k
        ≡ some v)
rand-issued_example = rand-issued (pos 100) (pos 5) counting 3 8 (omega arith) (omega arith)

aggregates-bounds_example :
    All
      (λ (r : String → ℕ).
        NotBelow values values-IsOrdered
          (agg_min values orders "orders" "total")
          (values.to_float (r "total")))
      ((λ field. 7) ∷ (λ field. 200) ∷ (λ field. 9) ∷ [])
    × ((agg_min values orders "orders" "total" ≡ values.infinity)
        ⊎ Attains values values-IsOrdered "total"
            (agg_min values orders "orders" "total")
            ((λ field. 7) ∷ (λ field. 200) ∷ (λ field. 9) ∷ []))
    × All
        (λ (r : String → ℕ).
          NotAbove values values-IsOrdered
            (agg_max values orders "orders" "total")
            (values.to_float (r "total")))
        ((λ field. 7) ∷ (λ field. 200) ∷ (λ field. 9) ∷ [])
    × ((agg_max values orders "orders" "total" ≡ values.neg_infinity)
        ⊎ Attains values values-IsOrdered "total"
            (agg_max values orders "orders" "total")
            ((λ field. 7) ∷ (λ field. 200) ∷ (λ field. 9) ∷ []))
aggregates-bounds_example =
    aggregates-bounds values values-IsOrdered orders "orders" "total" (λ field. 7)
      ((λ field. 200) ∷ (λ field. 9) ∷ []) refl

fisher_yates-Perm_example :
    (taken left : List ℕ) × (s' : ℕ) × (fisher_yates {A = ℕ}
        (λ x field. field)
        counting
        (11 ∷ 22 ∷ 33 ∷ [])
        "id"
        2
        5
      ≡ (ok (map (λ x. "id") taken), s'))
    × (length taken ≡ 2)
    × Perm (11 ∷ 22 ∷ 33 ∷ []) (taken ++ left)
fisher_yates-Perm_example =
    fisher_yates-Perm (λ x field. field) counting (11 ∷ 22 ∷ 33 ∷ []) "id" 2 5 (omega arith)
