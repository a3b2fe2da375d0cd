-- ===== src/Schema/Tables/Loop.antt =====
-- The loop of `SortTables`: what a round does to the in-degrees and to the queue, and the rule that
-- what each round keeps holds at the end.
use edg.Prelude.{
  ℕ, zero, suc, ◌+◌, ◌≤◌, ◌<◌, List, [], ◌∷◌, ◌++◌, ◌&&◌, ◌==◌, ltb, if◌then◌else◌, ◌≡◌, refl, ap,
  ◌∙◌, arith, ok, length, length-append,
}
use edg.Prelude.Int.{ℤ, pos, ◌-ℤ◌}
use edg.Prelude.Text.{Bytes, same}
use edg.Schema.Tables.{
  Table, update, is_zero, first_queue, release, find_table, add_found, sort_loop,
}
use edg.Schema.Tables.Counts.{count, count-append, length_of_count}
use edg.Prelude.Text.{same_iff}
use edg.Schema.Tables.Pending.{Edge, waiting, children, pos_pred}

count-snoc :
    (n u : Bytes) (ms : List Bytes)
    → count n (ms ++ u ∷ []) ≡ count n ms + (if same u n then 1 else 0)
unfolding count
count-snoc n u ms = ground (arith, count-append n ms (u ∷ []))

-- A name that is placed is waited for no longer.
waiting-placed :
    (es : List Edge) (placed : List Bytes) (u n : Bytes)
    → count u placed ≡ 0
    → waiting es placed n ≡ waiting es (placed ++ u ∷ []) n + count n (children es u)
unfolding waiting children count
waiting-placed [] placed u n h = omega arith
waiting-placed (e ∷ es) placed u n h = ground (
  arith,
  waiting-placed es placed u n h,
  count-snoc e.parent u placed,
  same_iff u e.parent,
  same_iff e.parent u,
)

release_cons :
    (degree : Bytes → ℤ) (queue : List Bytes) (d : Bytes) (ds : List Bytes)
    → release degree queue (d ∷ ds)
      ≡ release
          (update degree d (λ k. k -ℤ pos 1))
          (if is_zero (update degree d (λ k. k -ℤ pos 1) d) then queue ++ d ∷ [] else queue)
          ds
unfolding release
release_cons degree queue d ds = refl

update_degree :
    (degree : Bytes → ℤ) (d n : Bytes) (k : ℕ)
    → degree n ≡ pos (if same d n then suc k else k)
    → update degree d (λ j. j -ℤ pos 1) n ≡ pos k
unfolding update
update_degree degree d n k h = ground (arith, pos_pred k)

release_nil : (degree : Bytes → ℤ) (queue : List Bytes) → release degree queue [] ≡ (degree, queue)
unfolding release
release_nil degree queue = refl

count-queued :
    (queue : List Bytes) (d n : Bytes) (k : ℕ) (z : ℤ)
    → z ≡ pos k
    → count n (if is_zero z then queue ++ d ∷ [] else queue)
      ≡ count n queue + (if same d n && (k == 0) then 1 else 0)
count-queued queue d n k z h = ground (arith, count-snoc n d queue)

-- `before` is the queue of this round, with the name `d` if it is ready.
count-released :
    (queue : List Bytes) (d : Bytes) (ds : List Bytes) (left : Bytes → ℕ) (n : Bytes) {before : ℕ}
    → before ≡ count n queue + (if same d n && (left d + count d ds == 0) then 1 else 0)
    → before + (if (left n == 0) && ltb 0 (count n ds) then 1 else 0)
      ≡ count n queue + (if (left n == 0) && ltb 0 (count n (d ∷ ds)) then 1 else 0)
unfolding count
count-released queue d ds left n h = ground (arith, same_iff d n)

release_lem :
    (degree : Bytes → ℤ) (queue ds : List Bytes) (left : Bytes → ℕ)
    → ((n : Bytes) → degree n ≡ pos (left n + count n ds))
    → ((n : Bytes) → (release degree queue ds).0 n ≡ pos (left n))
      × ((n : Bytes)
          → count n (release degree queue ds).1
            ≡ count n queue + (if (left n == 0) && ltb 0 (count n ds) then 1 else 0))
unfolding count
release_lem degree queue [] left h =
    rw (release_nil degree queue) (λ n. h n ∙ ap pos (omega arith), λ n. ground arith)
release_lem degree queue (d ∷ ds) left h =
    let degree' = update degree d (λ k. k -ℤ pos 1) in
    let queue' = if is_zero (degree' d) then queue ++ d ∷ [] else queue in
    let falls : (n : Bytes) → degree' n ≡ pos (left n + count n ds) =
      λ n. update_degree degree d n (left n + count n ds) (rw (h n) (ground arith)) in
    let (degrees, counts) = release_lem degree' queue' ds left falls in
    rw (release_cons degree queue d ds) (
      degrees,
      λ n.
          counts n
          ∙ count-released queue d ds left n
              (count-queued queue d n (left d + count d ds) (degree' d) (falls d)),
    )

module _ (es : List Edge) (keys : List Bytes) where
  -- What holds before each round, of the names `placed` so far.
  pub record Inv (degree : Bytes → ℤ) (queue placed : List Bytes) : Type 0 where
    pub degrees : (n : Bytes) → degree n ≡ pos (waiting es placed n)
    pub counts :
        (n : Bytes)
        → count n queue + count n placed ≡ (if waiting es placed n == 0 then count n keys else 0)

  -- The names are distinct, and every table that refers to another is among them.
  pub record Keys : Type 0 where
    pub distinct : (n : Bytes) → count n keys ≤ 1
    pub known : (n u : Bytes) → 0 < count n (children es u) → count n keys ≡ 1

  count_head : (u : Bytes) (us : List Bytes) → count u (u ∷ us) ≡ suc (count u us)
  unfolding count
  count_head u us = ground (arith, same_iff u u)

  count_cons :
      (n u : Bytes) (us : List Bytes) → count n (u ∷ us) ≡ (if same u n then 1 else 0) + count n us
  unfolding count
  count_cons n u us = ground arith

  -- The name at the head of the queue waits for nothing and is not placed yet.
  pub Inv-head :
      (degree : Bytes → ℤ) (u : Bytes) (queue placed : List Bytes)
      → Keys
      → Inv degree (u ∷ queue) placed
      → (count u placed ≡ 0) × (waiting es placed u ≡ 0) × (count u keys ≡ 1)
  Inv-head degree u queue placed ks inv =
      ground (arith, inv.counts u, ks.distinct u, count_head u queue)

  pub Inv-round :
      (degree : Bytes → ℤ) (u : Bytes) (queue placed : List Bytes)
      → Keys
      → Inv degree (u ∷ queue) placed
      → Inv
          (release degree queue (children es u)).0
          (release degree queue (children es u)).1
          (placed ++ u ∷ [])
  Inv-round degree u queue placed ks inv =
      let fresh = (Inv-head degree u queue placed ks inv).0 in
      let falls = λ (n : Bytes). waiting-placed es placed u n fresh in
      let (degrees, counts) =
        release_lem degree queue (children es u) (waiting es (placed ++ u ∷ []))
          (λ n. inv.degrees n ∙ ap pos (falls n)) in
      record {
        degrees = degrees;
        counts = λ n. ground (
          arith,
          counts n,
          falls n,
          inv.counts n,
          ks.known n u,
          count-snoc n u placed,
          count_cons n u queue,
        );
      }

  -- No more names are placed or queued than there are.
  Inv-length :
      (degree : Bytes → ℤ) (queue placed : List Bytes)
      → Inv degree queue placed
      → length queue + length placed ≤ length keys
  Inv-length degree queue placed inv =
      let all_counted =
        length_of_count (queue ++ placed) keys
          (λ n. ground (arith, inv.counts n, count-append n queue placed)) in
      omega (arith, length-append queue placed)

  -- With as much fuel as there are names to place the loop ends, with an empty queue; what every
  -- round keeps holds then.
  pub loop_rule {ℓ} :
      (P : List Bytes → List Table → Type ℓ) (tables : List Table) (deps : Bytes → List Bytes)
      → ((n : Bytes) → deps n ≡ children es n)
      → Keys
      → ((u : Bytes) (placed : List Bytes) (sorted : List Table)
          → count u placed ≡ 0
          → waiting es placed u ≡ 0
          → count u keys ≡ 1
          → P placed sorted
          → P (placed ++ u ∷ []) (add_found sorted (find_table tables u)))
      → (fuel : ℕ) (degree : Bytes → ℤ) (queue placed : List Bytes) (sorted : List Table)
      → Inv degree queue placed
      → length keys ≤ fuel + length placed
      → P placed sorted
      → (degree' : Bytes → ℤ) × (placed' : List Bytes) × (sorted' : List Table) × (sort_loop tables
            deps fuel degree queue sorted
          ≡ ok sorted')
        × Inv degree' [] placed'
        × P placed' sorted'
  unfolding sort_loop
  loop_rule P tables deps same_deps ks keep fuel degree [] placed sorted inv h p =
      (degree, placed, sorted, refl, inv, p)
  loop_rule P tables deps same_deps ks keep zero degree (u ∷ queue) placed sorted inv h p =
      absurd (omega (arith, Inv-length degree (u ∷ queue) placed inv))
  loop_rule P tables deps same_deps ks keep (suc fuel) degree (u ∷ queue) placed sorted inv h p =
      let (fresh, ready, key) = Inv-head degree u queue placed ks inv in
      let after = release degree queue (children es u) in
      let found = add_found sorted (find_table tables u) in
      let (degree', placed', sorted', ends, inv', p') =
        loop_rule P tables deps same_deps ks keep fuel after.0 after.1 (placed ++ u ∷ []) found
          (Inv-round degree u queue placed ks inv) (omega (arith, length-append placed (u ∷ [])))
          (keep u placed sorted fresh ready key p) in
      let released = λ (ds : List Bytes). release degree queue ds in
      let same_rest =
        ap (λ ds. sort_loop tables deps fuel (released ds).0 (released ds).1 found) (same_deps u) in
      (degree', placed', sorted', same_rest ∙ ends, inv', p')

  count-first_queue :
      (degree : Bytes → ℤ) (w : Bytes → ℕ) (ns : List Bytes)
      → ((n : Bytes) → degree n ≡ pos (w n))
      → (n : Bytes) → count n (first_queue degree ns) ≡ (if w n == 0 then count n ns else 0)
  unfolding first_queue count
  count-first_queue degree w [] h n = ground arith
  count-first_queue degree w (m ∷ ns) h n =
      ground (arith, h m, count-first_queue degree w ns h n, same_iff m n)

  pub Inv-first_queue :
      (degree : Bytes → ℤ)
      → ((n : Bytes) → degree n ≡ pos (waiting es [] n))
      → Inv degree (first_queue degree keys) []
  unfolding count
  Inv-first_queue degree h = record {
    degrees = h;
    counts = λ n. omega (arith, count-first_queue degree (waiting es []) keys h n);
  }
