-- ===== src/Env/Args/Batch.antt =====
-- The batch sizes of `generateBatchArgs` (pkg/env/env_args.go) and of `GenBatch` (pkg/gen/gen.go):
-- how many rows each batch has, from the total count and the requested size. Both are Go `int`s
-- and may be zero or negative.
pub mod Covers
use edg.Prelude.{
  ℕ, zero, suc, ◌+◌, List, [], ◌∷◌, Bool, true, false, if◌then◌else◌, Result, ok, err, ◌>>=◌, ◌>>◌,
  refuse,
}
use edg.Prelude.Int.{ℤ, pos, negsuc, ◌+ℤ◌, ◌-ℤ◌, ◌*ℤ◌, leb_ℤ, ltb_ℤ, quot_ℤ, wrap_64}

-- The panics of the two functions: a division by zero, and `make` with a negative length.
pub data Fault : Type 0 where
  divide_by_zero negative_length : Fault

-- `if size <= 0 { size = count }`
unfoldable pub effective_size : ℤ → ℤ → ℤ
effective_size count size = if leb_ℤ size (pos 0) then count else size

-- `(count + size - 1) / size`
unfoldable pub batch_count : ℤ → ℤ → Result Fault ℤ
unfolding ◌+ℤ◌ ◌-ℤ◌ quot_ℤ wrap_64
batch_count count (pos zero) = err divide_by_zero
batch_count count size = ok (wrap_64 (quot_ℤ (wrap_64 (wrap_64 (count +ℤ size) -ℤ pos 1)) size))

-- `n := size; if remaining := count - b*size; remaining < size { n = remaining }`
unfoldable pub batch_size : ℤ → ℤ → ℕ → ℤ
unfolding ◌-ℤ◌ ◌*ℤ◌ wrap_64
batch_size count size b =
    let remaining = wrap_64 (count -ℤ wrap_64 (pos b *ℤ size)) in
    if ltb_ℤ remaining size then remaining else size

-- The sizes of the batches from the `b`th on.
pub sizes_from : ℤ → ℤ → ℕ → ℕ → List ℤ
unfolding batch_size
sizes_from count size b zero = []
sizes_from count size b (suc k) = batch_size count size b ∷ sizes_from count size (b + 1) k

-- `make([][]any, batches)`, and `for b := range batches`.
pub sizes_of : ℤ → ℤ → ℤ → Result Fault (List ℤ)
unfolding sizes_from
sizes_of count size (pos k) = ok (sizes_from count size 0 k)
sizes_of count size (negsuc k) = err negative_length

unfoldable pub plan : ℤ → ℤ → Result Fault (List ℤ)
unfolding effective_size batch_count sizes_of
plan count size = do
  batches ← batch_count count (effective_size count size)
  sizes_of count (effective_size count size) batches
