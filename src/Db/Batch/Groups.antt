-- ===== src/Db/Batch/Groups.antt =====
-- The groups that `findBatchGroups` gives.
use edg.Prelude.{
  ℕ, suc, ◌+◌, ◌≤◌, ◌<◌, List, [], ◌∷◌, ◌++◌, Option, none, some, Bool, true, false, not,
  if◌then◌else◌, ◌≡◌, refl, arith, length, if_rule,
}
use edg.Prelude.Text.{Bytes}
use edg.Db.Batch.{
  Group, Scan, start_at, or_else, flush, on_separator, on_delimiter, scan_byte, scan_from,
  first_scan, find_batch_groups,
}

-- From `lo` on, the groups follow each other, and the last ends at `hi` or before.
abbrev pub Within : ℕ → List Group → ℕ → Type 0
Within lo [] hi = lo ≤ hi
Within lo ((none, b) ∷ gs) hi = ⊥
Within lo ((some a, b) ∷ gs) hi = (lo ≤ a) × (a < b) × Within b gs hi

Within-snoc :
    (lo : ℕ) (gs : List Group) (mid a b hi : ℕ)
    → Within lo gs mid
    → mid ≤ a
    → a < b
    → b ≤ hi
    → Within lo (gs ++ (some a, b) ∷ []) hi
Within-snoc lo [] mid a b hi h j k l = (omega arith, k, l)
Within-snoc lo ((none, d) ∷ gs) mid a b hi h j k l = h
Within-snoc lo ((some c, d) ∷ gs) mid a b hi h j k l =
    (h.0, h.1, Within-snoc d gs mid a b hi h.2 j k l)

Within-weaken :
    (lo : ℕ) (gs : List Group) (mid hi : ℕ) → Within lo gs mid → mid ≤ hi → Within lo gs hi
Within-weaken lo [] mid hi h k = omega arith
Within-weaken lo ((none, d) ∷ gs) mid hi h k = h
Within-weaken lo ((some c, d) ∷ gs) mid hi h k = (h.0, h.1, Within-weaken d gs mid hi h.2 k)

-- A start that is set lies between `mid` and `i`.
abbrev Started : ℕ → ℕ → Option ℕ → Type 0
Started mid i none = Unit
Started mid i (some j) = (mid ≤ j) × (j < i)

-- What holds before the byte at `i`: the groups end at `mid` or before, and what is open starts
-- between.
record Inv (i : ℕ) (s : Scan) : Type 0 where
  mid : ℕ
  closed : Within 0 s.groups mid
  passed : mid ≤ i
  token : Started mid i s.token_start
  group : Started mid i s.group_start
  marked : s.has_sep ≡ true → (j : ℕ) × (s.group_start ≡ some j)

Started-later : (mid i : ℕ) (o : Option ℕ) → Started mid i o → Started mid (i + 1) o
Started-later mid i none h = tt
Started-later mid i (some j) h = (h.0, omega arith)

Started-start_at :
    (mid i : ℕ) (o : Option ℕ) → mid ≤ i → Started mid i o → Started mid (i + 1) (start_at o i)
unfolding start_at
Started-start_at mid i none h k = (h, omega arith)
Started-start_at mid i (some j) h k = (k.0, omega arith)

Started-or_else :
    (mid i : ℕ) (o token : Option ℕ)
    → Started mid i o
    → Started mid i token
    → Started mid i (or_else o token)
unfolding or_else
Started-or_else mid i none token h k = k
Started-or_else mid i (some j) token h k = h

marked_or_else : (o token : Option ℕ) (i : ℕ) → (j : ℕ) × (or_else o (start_at token i) ≡ some j)
unfolding or_else start_at
marked_or_else none none i = (i, refl)
marked_or_else none (some j) i = (j, refl)
marked_or_else (some j) token i = (j, refl)

Inv-quote :
    (i : ℕ) (s : Scan) (single double : Bool)
    → Inv i s
    → Inv (i + 1) (record s {
      token_start = start_at s.token_start i;
      in_single = single;
      in_double = double;
    })
Inv-quote i s single double h = record {
  mid = h.mid;
  closed = h.closed;
  passed = omega (arith, h.passed);
  token = Started-start_at h.mid i s.token_start h.passed h.token;
  group = Started-later h.mid i s.group_start h.group;
  marked = h.marked;
}

Inv-skip : (i : ℕ) (s : Scan) → Inv i s → Inv (i + 1) s
Inv-skip i s h = record {
  mid = h.mid;
  closed = h.closed;
  passed = omega (arith, h.passed);
  token = Started-later h.mid i s.token_start h.token;
  group = Started-later h.mid i s.group_start h.group;
  marked = h.marked;
}

Inv-on_separator : (i : ℕ) (s : Scan) → Inv i s → Inv (i + 1) (on_separator s i)
unfolding on_separator
Inv-on_separator i s h = record {
  mid = h.mid;
  closed = h.closed;
  passed = omega (arith, h.passed);
  token = tt;
  group =
      Started-or_else h.mid (i + 1) s.group_start (start_at s.token_start i)
        (Started-later h.mid i s.group_start h.group)
        (Started-start_at h.mid i s.token_start h.passed h.token);
  marked = λ e. marked_or_else s.group_start s.token_start i;
}

-- A group that is closed at `i` lies before `i`.
Within-close :
    (gs : List Group) (mid i : ℕ) (start : Option ℕ) (j : ℕ)
    → Within 0 gs mid
    → Started mid i start
    → start ≡ some j
    → Within 0 (gs ++ (start, i) ∷ []) i
Within-close gs mid i none j h k e = cc
Within-close gs mid i (some a) j h k e = Within-snoc 0 gs mid a i i h k.0 k.1 (omega arith)

Within-flush_if :
    (i mid : ℕ) (gs : List Group) (start : Option ℕ) (marked : Bool)
    → Within 0 gs mid
    → mid ≤ i
    → Started mid i start
    → (marked ≡ true → (j : ℕ) × (start ≡ some j))
    → Within 0 (if marked then gs ++ (start, i) ∷ [] else gs) i
Within-flush_if i mid gs start true h k l m =
    let (j, e) = m refl in Within-close gs mid i start j h l e
Within-flush_if i mid gs start false h k l m = Within-weaken 0 gs mid i h k

Within-flush : (i : ℕ) (s : Scan) → Inv i s → Within 0 (flush s i) i
unfolding flush
Within-flush i s h =
    Within-flush_if i h.mid s.groups s.group_start s.has_sep h.closed h.passed h.group h.marked

Inv-on_delimiter : (i : ℕ) (s : Scan) → Inv i s → Inv (i + 1) (on_delimiter s i)
unfolding on_delimiter
Inv-on_delimiter i s h = record {
  mid = i;
  closed = Within-flush i s h;
  passed = omega arith;
  token = tt;
  group = tt;
  marked = λ e. cc;
}

Inv-scan_byte : (i : ℕ) (s : Scan) (b : ℕ) → Inv i s → Inv (i + 1) (scan_byte s i b)
unfolding scan_byte
Inv-scan_byte i s b h = if_rule (Inv (i + 1)) _ (Inv-quote i s (not s.in_single) s.in_double h) (
    if_rule (Inv (i + 1)) _ (Inv-quote i s s.in_single (not s.in_double) h) (
      if_rule (Inv (i + 1)) _ (Inv-skip i s h) (
        if_rule (Inv (i + 1)) _ (Inv-on_separator i s h) (
          if_rule (Inv (i + 1)) _ (Inv-on_delimiter i s h)
            (Inv-quote i s s.in_single s.in_double h)))))

Within-scan_from :
    (query : Bytes) (i : ℕ) (s : Scan) → Inv i s → Within 0 (scan_from s i query) (i + length query)
unfolding scan_from
Within-scan_from [] i s h = Within-weaken 0 (flush s i) i (i + 0) (Within-flush i s h) (omega arith)
Within-scan_from (b ∷ query) i s h =
    Within-weaken 0 (scan_from (scan_byte s i b) (i + 1) query) (i + 1 + length query)
      (i + suc (length query))
      (Within-scan_from query (i + 1) (scan_byte s i b) (Inv-scan_byte i s b h)) (omega arith)

-- The groups that `findBatchGroups` finds in a query are not empty, follow each other without an
-- overlap, and lie within the query; so no position in them is -1.
pub find_batch_groups-Within : (query : Bytes) → Within 0 (find_batch_groups query) (length query)
unfolding find_batch_groups
find_batch_groups-Within query =
    Within-weaken 0 (scan_from first_scan 0 query) (0 + length query) (length query)
      (Within-scan_from query 0 first_scan (record {
        mid = 0;
        closed = omega arith;
        passed = omega arith;
        token = tt;
        group = tt;
        marked = λ e. cc;
      }))
      (omega arith)
