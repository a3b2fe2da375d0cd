-- ===== src/Env/Query/Inline/Native.antt =====
-- The loop of `translatePlaceholders`.
use edg.Prelude.{
  ℕ, zero, suc, ◌+◌, ◌/◌, ◌%◌, ◌≤◌, String, List, [], ◌∷◌, ◌++◌, Option, none, some, true, false,
  ◌||◌, ◌==◌, if◌then◌else◌, str_eq, length, drop, ◌≡◌, refl, ap, ◌∙◌, arith, Bool-cases, inl, inr,
  ==_iff, if_rule, ◌<◌, ◌-◌, sym,
}
use mathlib.Core.Path.{subst}
use edg.Prelude.Text.{Bytes, codes, has_prefix, contains, show_nat, digits}
use edg.Env.Query.Inline.{
  placeholder, replace_first, native_placeholder, translate_from, count_dollars, translate_with,
  translate_placeholders,
}

count_dollars-append : (s t : Bytes) → count_dollars (s ++ t) ≡ count_dollars s + count_dollars t
unfolding count_dollars
count_dollars-append [] t = omega arith
count_dollars-append (c ∷ s) t = ground (arith, count_dollars-append s t)

count_dollars-digits :
    (fuel n : ℕ) (out : Bytes) → count_dollars (digits fuel n out) ≡ count_dollars out
unfolding digits count_dollars
count_dollars-digits zero n out = ground arith
count_dollars-digits (suc fuel) n out =
    ground (arith, count_dollars-digits fuel (n / 10) ((b'0' + n % 10) ∷ out))

count_dollars-show_nat : (n : ℕ) → count_dollars (show_nat n) ≡ 0
unfolding show_nat count_dollars
count_dollars-show_nat n = count_dollars-digits n n [] ∙ refl

count_dollars-cons :
    (c : ℕ) (s : Bytes)
    → count_dollars (c ∷ s) ≡ (if c == b'$' then suc (count_dollars s) else count_dollars s)
unfolding count_dollars
count_dollars-cons c s = refl

-- A prefix goes with its dollars.
count_dollars-drop :
    (p s : Bytes)
    → has_prefix p s ≡ true
    → count_dollars s ≡ count_dollars p + count_dollars (drop (length p) s)
unfolding has_prefix count_dollars
count_dollars-drop [] s h = omega arith
count_dollars-drop (c ∷ p) [] h = cc
count_dollars-drop (c ∷ p) (d ∷ s) h = ground (arith, count_dollars-drop p s, ==_iff c d)

no_prefix : (d : ℕ) (old : Bytes) → ¬ (has_prefix (d ∷ old) [] ≡ true)
unfolding has_prefix
no_prefix d old h = cc

-- The replaced occurrence takes its dollars with it.
count_dollars-replace_first :
    (s : Bytes) (d : ℕ) (old by : Bytes)
    → contains s (d ∷ old) ≡ true
    → count_dollars (replace_first s (d ∷ old) by) + count_dollars (d ∷ old)
      ≡ count_dollars s + count_dollars by
unfolding contains replace_first
count_dollars-replace_first [] d old by h = absurd (no_prefix d old h)
count_dollars-replace_first (c ∷ s) d old by h = ground (
  arith,
  count_dollars-replace_first s d old by,
  count_dollars-drop (d ∷ old) (c ∷ s),
  count_dollars-append by (drop (length (d ∷ old)) (c ∷ s)),
  count_dollars-cons c (replace_first s (d ∷ old) by),
  count_dollars-cons c s,
)

-- The replacements hold no dollar.
Plain : Option (ℕ → Bytes) → Type 0
Plain none = Unit
Plain (some f) = (i : ℕ) → count_dollars (f i) ≡ 0

native_placeholder-Plain : (driver : String) → Plain (native_placeholder driver)
unfolding native_placeholder Plain count_dollars
native_placeholder-Plain driver =
    if_rule Plain (str_eq driver "mysql" || str_eq driver "cassandra") {x = some (λ i. codes "?")}
      (λ i. refl)
      (if_rule Plain (str_eq driver "oracle") {x = some (λ i. b':' ∷ show_nat i)}
        (λ i. count_dollars-show_nat i)
        (if_rule Plain (str_eq driver "mssql" || str_eq driver "spanner")
          {x = some (λ i. codes "@p" ++ show_nat i)} (λ i. count_dollars-show_nat i) tt))

count_dollars-placeholder : (i : ℕ) → count_dollars (placeholder i) ≡ 1
unfolding placeholder count_dollars
count_dollars-placeholder i = omega (arith, count_dollars-show_nat (i + 1))

count_dollars-replace_placeholder :
    (s : Bytes) (i : ℕ) (by : Bytes)
    → contains s (placeholder i) ≡ true
    → count_dollars (replace_first s (placeholder i) by) + count_dollars (placeholder i)
      ≡ count_dollars s + count_dollars by
unfolding placeholder
count_dollars-replace_placeholder s i by h =
    count_dollars-replace_first s b'$' (show_nat (i + 1)) by h

contains-count_dollars :
    (s : Bytes) (i : ℕ) (by : Bytes)
    → contains s (placeholder i) ≡ true
    → count_dollars by ≡ 0
    → suc (count_dollars (replace_first s (placeholder i) by)) ≡ count_dollars s
contains-count_dollars s i by h k =
    omega (arith, count_dollars-replace_placeholder s i by h, count_dollars-placeholder i)

-- The query after the replacement of `$1` to `$k`, in that order, the first occurrence of each.
pub replaced : (ℕ → Bytes) → ℕ → Bytes → Bytes
replaced f zero query = query
replaced f (suc k) query = replace_first (replaced f k query) (placeholder k) (f (k + 1))

replaced-next :
    (f : ℕ → Bytes) (k : ℕ) (query : Bytes)
    → replaced f (k + 1) query ≡ replace_first (replaced f k query) (placeholder k) (f (k + 1))
unfolding replaced
replaced-next f k query =
    let next : k + 1 ≡ suc k = omega arith in ap (λ n. replaced f n query) next

-- The loop ends before `$m+1`, which does not occur, after `$i+1` to `$m`, which do.
LoopEnds : (ℕ → Bytes) → Bytes → ℕ → ℕ → Type 0
LoopEnds f query i m =
    (i ≤ m)
    × (count_dollars (replaced f m query) + (m - i) ≡ count_dollars (replaced f i query))
    × ((j : ℕ) → i ≤ j → j < m → contains (replaced f j query) (placeholder j) ≡ true)
    × (contains (replaced f m query) (placeholder m) ≡ false)

translate_from-LoopEnds :
    (fuel i : ℕ) (f : ℕ → Bytes) (query : Bytes)
    → ((n : ℕ) → count_dollars (f n) ≡ 0)
    → count_dollars (replaced f i query) ≤ fuel
    → (m : ℕ) × (translate_from fuel i f (replaced f i query) ≡ some (replaced f m query))
      × LoopEnds f query i m
unfolding translate_from LoopEnds
translate_from-LoopEnds zero i f query plain h =
    elim (Bool-cases (contains (replaced f i query) (placeholder i))) [
      | inl e ↦ absurd (
          omega
            (arith, contains-count_dollars (replaced f i query) i (f (i + 1)) e (plain (i + 1))))
      | inr e ↦ (i, rw e refl, (omega arith, omega arith, λ j a b. absurd (omega arith), e))
    ]
translate_from-LoopEnds (suc fuel) i f query plain h =
    elim (Bool-cases (contains (replaced f i query) (placeholder i))) [
      | inl e ↦
          let fewer = contains-count_dollars (replaced f i query) i (f (i + 1)) e (plain (i + 1)) in
          let step = replaced-next f i query in
          let fewer' : suc (count_dollars (replaced f (i + 1) query))
              ≡ count_dollars (replaced f i query) =
            ap (λ q. suc (count_dollars q)) step ∙ fewer in
          let (m, runs, (above, left, present, gone)) =
            translate_from-LoopEnds fuel (i + 1) f query plain (omega arith) in
          (
            m,
            rw e (ap (translate_from fuel (i + 1) f) (sym step) ∙ runs),
            (
              omega arith,
              omega arith,
              λ j a b. elim (Bool-cases (j == i)) [
                | inl here ↦
                    subst (λ n. contains (replaced f n query) (placeholder n) ≡ true)
                      (sym ((==_iff j i).0 here)) e
                | inr later ↦ present j (let differs = ==_iff j i in ground arith) b
              ],
              gone,
            ),
          )
      | inr e ↦ (i, rw e refl, (omega arith, omega arith, λ j a b. absurd (omega arith), e))
    ]

-- The drivers with placeholders of their own, and what stands for the i-th argument there.
abbrev pub natives : List (String × (ℕ → Bytes))
natives =
    ("mysql", λ i. codes "?")
    ∷ ("cassandra", λ i. codes "?")
    ∷ ("oracle", λ i. b':' ∷ show_nat i)
    ∷ ("mssql", λ i. codes "@p" ++ show_nat i)
    ∷ ("spanner", λ i. codes "@p" ++ show_nat i)
    ∷ []

abbrev pub native_of : String → List (String × (ℕ → Bytes)) → Option (ℕ → Bytes)
native_of driver [] = none
native_of driver ((name, f) ∷ others) =
    if str_eq driver name then some f else native_of driver others

native_placeholder-native_of :
    (driver : String) → native_placeholder driver ≡ native_of driver natives
unfolding native_placeholder
native_placeholder-native_of driver = ground arith

-- For a driver with its own placeholders: `$1` to `$k` are replaced, where `$i` occurs after the
-- replacement of those before it, and `$k+1` no longer does.
abbrev pub Translated : Option (ℕ → Bytes) → Bytes → Bytes → Type 0
Translated none query query' = query' ≡ query
Translated (some f) query query' =
    (k : ℕ) × (query' ≡ replaced f k query)
    × ((j : ℕ) → j < k → contains (replaced f j query) (placeholder j) ≡ true)
    × (contains query' (placeholder k) ≡ false)
    × (count_dollars query' + k ≡ count_dollars query)

translate_with-Translated :
    (query : Bytes) (o : Option (ℕ → Bytes))
    → Plain o
    → (query' : Bytes) × (translate_with o query ≡ some query') × Translated o query query'
unfolding translate_with Plain replaced LoopEnds
translate_with-Translated query none plain = (query, refl, refl)
translate_with-Translated query (some f) plain =
    let (k, runs, (above, left, present, gone)) =
      translate_from-LoopEnds (count_dollars query) 0 f query plain (omega arith) in
    (replaced f k query, runs, (k, refl, (λ j b. present j (omega arith) b), gone, omega arith))

-- `translatePlaceholders` returns. For a driver with its own placeholders ("?" for mysql and cassandra,
-- ":i" for oracle, "@pi" for mssql and spanner) the result is the query after the replacement of `$1` to `$k`, in that order, the first occurrence of each: every one of
-- them occurs when its turn comes, `$k+1` does not occur in the result, and the result has `k` dollar
-- signs less than the query. For any other driver the result is the query.
pub translate_placeholders-returns :
    (query : Bytes) (driver : String)
    → (query' : Bytes) × (translate_placeholders query driver ≡ some query')
      × Translated (native_of driver natives) query query'
unfolding translate_placeholders
translate_placeholders-returns query driver =
    subst
      (λ o.
        (query' : Bytes) × (translate_placeholders query driver ≡ some query')
        × Translated o query query')
      (native_placeholder-native_of driver)
      (translate_with-Translated query (native_placeholder driver)
        (native_placeholder-Plain driver))
