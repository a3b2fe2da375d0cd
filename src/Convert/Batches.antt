-- ===== src/Convert/Batches.antt =====
-- `Batch`, which numbers the executions of a batch.
use edg.Prelude.{
  ℕ, zero, suc, ◌+◌, ◌<◌, ◌≡◌, refl, ap, List, [], ◌∷◌, some, ok, err, length, get_elem?, arith,
  ◌∙◌,
}
use edg.Prelude.Int.{ℤ, pos, negsuc, ◌*ℤ◌, wrap_64}
use edg.Convert.{
  Value, Formats, int, negative_length, to_int_value, rows_from, batch_rows, batch_step, batch,
}

module _ {F I O : Type 0} (formats : Formats F I O) where
  length-rows_from : (i n : ℕ) (step : ℤ) → length (rows_from formats i n step) ≡ n
  unfolding rows_from
  length-rows_from i zero step = refl
  length-rows_from i (suc n) step = ap suc (length-rows_from (i + 1) n step)

  get_elem?-rows_from :
      (i n j : ℕ) (step : ℤ)
      → j < n
      → get_elem? (rows_from formats i n step) j ≡ some (int (wrap_64 (pos (i + j) *ℤ step)) ∷ [])
  unfolding rows_from
  get_elem?-rows_from i zero j step h = absurd (omega arith)
  get_elem?-rows_from i (suc n) zero step h =
      ap (λ k. some (int (wrap_64 (pos k *ℤ step)) ∷ [])) (omega arith)
  get_elem?-rows_from i (suc n) (suc j) step h =
      get_elem?-rows_from (i + 1) n j step (omega arith)
      ∙ ap (λ k. some (int (wrap_64 (pos k *ℤ step)) ∷ [])) (omega arith)

  batch-eq :
      (v : Value F I O) (vs : List (Value F I O)) (count step : ℤ)
      → to_int_value formats v ≡ ok count
      → batch_step formats vs ≡ ok step
      → batch formats (v ∷ vs) ≡ batch_rows formats count step
  unfolding batch
  batch-eq v vs count step h k = rw (h, k) refl

  -- Where the first argument is a count `n` that is not negative, and the second, if there is one,
  -- the step: `Batch` gives `n` rows, of which row `i` holds `i * step` as an int64.
  pub batch-rows :
      (v : Value F I O) (vs : List (Value F I O)) (n : ℕ) (step : ℤ)
      → to_int_value formats v ≡ ok (pos n)
      → batch_step formats vs ≡ ok step
      → (rows : List (List (Value F I O))) × (batch formats (v ∷ vs) ≡ ok rows)
        × (length rows ≡ n)
        × ((i : ℕ) → i < n → get_elem? rows i ≡ some (int (wrap_64 (pos i *ℤ step)) ∷ []))
  unfolding batch_rows
  batch-rows v vs n step h k = (
    rows_from formats 0 n step,
    batch-eq v vs (pos n) step h k,
    length-rows_from 0 n step,
    λ i l.
        get_elem?-rows_from 0 n i step l
        ∙ ap (λ j. some (int (wrap_64 (pos j *ℤ step)) ∷ [])) (omega arith),
  )

  -- Where the first argument is a negative count, and the second, if there is one, is a step:
  -- `Batch` panics.
  pub batch-panics :
      (v : Value F I O) (vs : List (Value F I O)) (n : ℕ) (step : ℤ)
      → to_int_value formats v ≡ ok (negsuc n)
      → batch_step formats vs ≡ ok step
      → batch formats (v ∷ vs) ≡ err negative_length
  unfolding batch_rows
  batch-panics v vs n step h k = batch-eq v vs (negsuc n) step h k
