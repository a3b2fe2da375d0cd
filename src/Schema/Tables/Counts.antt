-- ===== src/Schema/Tables/Counts.antt =====
-- How often a name occurs in a list of names.
use mathlib.Core.List.{Perm}
use mathlib.Core.List.Perm
use edg.Prelude.{
  ℕ, suc, ◌+◌, ◌≤◌, ◌<◌, List, [], ◌∷◌, ◌++◌, Option, none, some, if◌then◌else◌, ◌≡◌, refl, arith,
  length, Bool-cases, inl, inr,
}
use edg.Prelude.Text.{Bytes, same, same_iff}
use edg.Schema.Tables.{Table, find_table}

unfoldable pub count : Bytes → List Bytes → ℕ
count n [] = 0
count n (m ∷ ms) = if same m n then suc (count n ms) else count n ms

pub count-append : (n : Bytes) (xs ys : List Bytes) → count n (xs ++ ys) ≡ count n xs + count n ys
unfolding count
count-append n [] ys = omega arith
count-append n (x ∷ xs) ys = ground (arith, count-append n xs ys)

-- without the first occurrence
remove : Bytes → List Bytes → List Bytes
remove n [] = []
remove n (m ∷ ms) = let rest = remove n ms in if same m n then ms else m ∷ rest

count-remove :
    (x n : Bytes) (ms : List Bytes)
    → 0 < count x ms
    → count n ms ≡ (if same x n then suc (count n (remove x ms)) else count n (remove x ms))
unfolding count remove
count-remove x n [] h = absurd (omega arith)
count-remove x n (m ∷ ms) h =
    ground (arith, count-remove x n ms, same_iff m x, same_iff m n, same_iff x n)

length-remove :
    (x : Bytes) (ms : List Bytes) → 0 < count x ms → length ms ≡ suc (length (remove x ms))
unfolding count remove
length-remove x [] h = absurd (omega arith)
length-remove x (m ∷ ms) h = ground (arith, length-remove x ms)

count_self : (x : Bytes) (xs : List Bytes) → 0 < count x (x ∷ xs)
unfolding count
count_self x xs = ground (arith, same_iff x x)

count-nil : (n : Bytes) → count n [] ≡ 0
unfolding count
count-nil n = refl

count-cons :
    (x n : Bytes) (xs : List Bytes)
    → count n (x ∷ xs) ≡ (if same x n then suc (count n xs) else count n xs)
unfolding count
count-cons x n xs = refl

pub length_of_count :
    (xs ys : List Bytes) → ((n : Bytes) → count n xs ≤ count n ys) → length xs ≤ length ys
length_of_count [] ys h = omega arith
length_of_count (x ∷ xs) ys h =
    let in_ys : 0 < count x ys = omega (arith, h x, count_self x xs) in
    let shorter =
      length_of_count xs (remove x ys)
        (λ n. ground (arith, h n, count-cons x n xs, count-remove x n ys in_ys)) in
    omega (arith, length-remove x ys in_ys)

-- Of two lists of one length, where one counts no name more often, both count alike.
pub count_of_length :
    (xs ys : List Bytes)
    → ((n : Bytes) → count n xs ≤ count n ys)
    → length xs ≡ length ys
    → (n : Bytes) → count n xs ≡ count n ys
count_of_length [] [] h l n = refl
count_of_length [] (y ∷ ys) h l n = absurd (omega arith)
count_of_length (x ∷ xs) ys h l n =
    let in_ys : 0 < count x ys = omega (arith, h x, count_self x xs) in
    let same_rest =
      count_of_length xs (remove x ys)
        (λ m. ground (arith, h m, count-cons x m xs, count-remove x m ys in_ys))
        (omega (arith, length-remove x ys in_ys)) n in
    ground (arith, count-cons x n xs, count-remove x n ys in_ys)

unfoldable pub to_list : Option Table → List Table
to_list none = []
to_list (some t) = t ∷ []

-- The tables of some names.
unfoldable pub located : List Table → List Bytes → List Table
unfolding to_list
located tables [] = []
located tables (n ∷ ns) = to_list (find_table tables n) ++ located tables ns

Perm-to_list :
    (o p : Option Table) (ts : List Table)
    → Perm (to_list o ++ (to_list p ++ ts)) (to_list p ++ (to_list o ++ ts))
unfolding to_list
Perm-to_list none p ts = Perm.refl _
Perm-to_list (some t) none ts = Perm.refl _
Perm-to_list (some t) (some u) ts = Perm.swap _ _ _

Perm-to_list_cons :
    (o : Option Table) {ts us : List Table} → Perm ts us → Perm (to_list o ++ ts) (to_list o ++ us)
unfolding to_list
Perm-to_list_cons none p = p
Perm-to_list_cons (some t) p = Perm.cons t p

Perm-located-remove :
    (tables : List Table) (x : Bytes) (ns : List Bytes)
    → 0 < count x ns
    → Perm (located tables ns) (to_list (find_table tables x) ++ located tables (remove x ns))
unfolding count remove located
Perm-located-remove tables x [] h = absurd (omega arith)
Perm-located-remove tables x (m ∷ ns) h = elim (Bool-cases (same m x)) [
  | inl e ↦ rw (e, (same_iff m x).0 e) (Perm.refl _)
  | inr e ↦ rw e (
      Perm.trans
        (Perm-to_list_cons (find_table tables m) (Perm-located-remove tables x ns (ground (arith))))
        (Perm-to_list (find_table tables m) (find_table tables x) (located tables (remove x ns))))
]

-- Names that are counted alike have the same tables.
pub Perm-located :
    (tables : List Table) (xs ys : List Bytes)
    → ((n : Bytes) → count n xs ≡ count n ys)
    → Perm (located tables xs) (located tables ys)
unfolding located
Perm-located tables [] [] h = Perm.refl _
Perm-located tables [] (y ∷ ys) h = absurd (omega (arith, h y, count_self y ys, count-nil y))
Perm-located tables (x ∷ xs) ys h =
    let in_ys : 0 < count x ys = omega (arith, h x, count_self x xs) in
    let rest =
      Perm-located tables xs (remove x ys)
        (λ n. ground (arith, h n, count-cons x n xs, count-remove x n ys in_ys)) in
    Perm.trans (Perm-to_list_cons (find_table tables x) rest)
      (Perm.symm (Perm-located-remove tables x ys in_ys))
