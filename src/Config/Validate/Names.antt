-- ===== src/Config/Validate/Names.antt =====
-- The proofs on `validateSeq` and `validateDuplicateNames` (pkg/config/config.go).
use edg.Prelude.{
  ℕ, ◌+◌, String, List, [], ◌∷◌, map, false, str_eq, str_eq_iff, if◌then◌else◌, ok, >>-ok,
  refuse->>, each, each-ok, All, Bool-cases, ◌≡◌, ◌≢◌, ◌↔◌, inl, inr, refl, sym, arith,
}
use edg.Config.{Request, QueryGroup, item_name}
use edg.Config.Validate.{
  Violation, unnamed_seq, duplicate_seq, duplicate_query, duplicate_run, contains, seq_names,
  validate_seq, unique_names, validate_duplicate_names,
}

-- No two members at different places are equal.
abbrev pub Distinct : List String → Type 0
Distinct [] = Unit
Distinct (s ∷ ss) = All (λ t. s ≢ t) ss × Distinct ss

pub str_eq-false : (s t : String) → (str_eq s t ≡ false) ↔ (s ≢ t)
str_eq-false s t = (λ h e. ground (arith, str_eq_iff s t), λ h. ground (arith, str_eq_iff s t))

pub contains-false : (s : String) (ts : List String) → (contains s ts ≡ false) ↔ All (λ t. s ≢ t) ts
unfolding contains
contains-false s [] = (λ h. tt, λ h. refl)
contains-false s (t ∷ ts) =
    let head = str_eq-false s t in
    let rest = contains-false s ts in
    (λ h. (head.0 (ground arith), rest.0 (ground arith)), λ h. rw (head.1 h.0) (rest.1 h.1))

-- None of the names is among those seen.
abbrev Fresh : List String → List String → Type 0
Fresh seen [] = Unit
Fresh seen (t ∷ ts) = (contains t seen ≡ false) × Fresh seen ts

Fresh-cons :
    (s : String) (seen ts : List String)
    → Fresh (s ∷ seen) ts ↔ (All (λ t. s ≢ t) ts × Fresh seen ts)
unfolding contains
Fresh-cons s seen [] = (λ h. (tt, tt), λ h. tt)
Fresh-cons s seen (t ∷ ts) =
    let head = str_eq-false t s in
    let rest = Fresh-cons s seen ts in
    (
      λ h.
          let later = rest.0 h.1 in
          ((λ e. head.0 (ground arith) (sym e), later.0), (ground arith, later.1)),
      λ h. (rw (head.1 (λ e. h.0.0 (sym e))) (h.1.0), rest.1 (h.0.1, h.1.1)),
    )

Fresh-nil : (ts : List String) → Fresh [] ts
unfolding contains
Fresh-nil [] = tt
Fresh-nil (t ∷ ts) = (refl, Fresh-nil ts)

seq_names-ok :
    (i : ℕ) (seen ss : List String)
    → (seq_names i seen ss ≡ ok tt) ↔ (All (λ s. s ≢ "") ss × Fresh seen ss × Distinct ss)
unfolding seq_names
seq_names-ok i seen [] = (λ h. (tt, tt, tt), λ h. refl)
seq_names-ok i seen (s ∷ ss) =
    let named = refuse->> (str_eq s "") (unnamed_seq i) _ in
    let new = refuse->> (contains s seen) (duplicate_seq s) (seq_names (i + 1) (s ∷ seen) ss) in
    let rest = seq_names-ok (i + 1) (s ∷ seen) ss in
    let fresh = Fresh-cons s seen ss in
    (
      λ h.
          let (a, h') = named.0 h in
          let (b, h'') = new.0 h' in
          let (all_named, unseen, distinct) = rest.0 h'' in
          let (differ, unseen') = fresh.0 unseen in
          (((str_eq-false s "").0 a, all_named), (b, unseen'), (differ, distinct)),
      λ h.
          let ((a, all_named), (b, unseen'), (differ, distinct)) = h in
          named.1 (
            (str_eq-false s "").1 a,
            new.1 (b, rest.1 (all_named, fresh.1 (differ, unseen'), distinct)),
          ),
    )

-- The names that are not empty, in order.
pub named : List String → List String
named [] = []
named (s ∷ ss) = if str_eq s "" then named ss else s ∷ named ss

unique_names-ok :
    (violation : ℕ → String → Violation) (i : ℕ) (seen ss : List String)
    → (unique_names violation i seen ss ≡ ok tt) ↔ (Fresh seen (named ss) × Distinct (named ss))
unfolding unique_names named
unique_names-ok violation i seen [] = (λ h. (tt, tt), λ h. refl)
unique_names-ok violation i seen (s ∷ ss) = elim (Bool-cases (str_eq s "")) [
  | inl empty ↦ rw empty (unique_names-ok violation (i + 1) seen ss)
  | inr full ↦ rw full (
      let new =
        refuse->> (contains s seen) (violation i s)
          (unique_names violation (i + 1) (s ∷ seen) ss) in
      let rest = unique_names-ok violation (i + 1) (s ∷ seen) ss in
      let fresh = Fresh-cons s seen (named ss) in
      (
        λ h.
            let (b, h') = new.0 h in
            let (unseen, distinct) = rest.0 h' in
            let (differ, unseen') = fresh.0 unseen in ((b, unseen'), (differ, distinct)),
        λ h.
            let ((b, unseen'), (differ, distinct)) = h in
            new.1 (b, rest.1 (fresh.1 (differ, unseen'), distinct)),
      ))
]

-- The names of the sequences pass exactly if none is empty and no two are equal.
pub validate_seq-ok :
    (r : Request) → (validate_seq r ≡ ok tt) ↔ (All (λ s. s ≢ "") r.seq × Distinct r.seq)
unfolding validate_seq
validate_seq-ok r =
    let loop = seq_names-ok 0 [] r.seq in
    (
      λ h. let (all_named, _, distinct) = loop.0 h in (all_named, distinct),
      λ h. loop.1 (h.0, Fresh-nil r.seq, h.1),
    )

names_ok :
    (violation : ℕ → String → Violation) (ss : List String)
    → (unique_names violation 0 [] ss ≡ ok tt) ↔ Distinct (named ss)
names_ok violation ss =
    let loop = unique_names-ok violation 0 [] ss in
    (λ h. (loop.0 h).1, λ h. loop.1 (Fresh-nil (named ss), h))

-- The names of the queries, group by group, and of the run items pass exactly if in each group, and
-- among the run items, no two names that are not empty are equal.
pub validate_duplicate_names-ok :
    (r : Request) (groups : List QueryGroup)
    → (validate_duplicate_names r groups ≡ ok tt) ↔ (
        All (λ g. Distinct (named (map (λ q. q.name) g.queries))) groups
        × Distinct (named (map item_name r.run)))
unfolding validate_duplicate_names
validate_duplicate_names-ok r groups =
    let chain =
      >>-ok
        (each 0
          (λ _ g.
            unique_names (λ i s. duplicate_query s g.name i) 0 [] (map (λ q. q.name) g.queries))
          groups)
        (unique_names (λ i s. duplicate_run s i) 0 [] (map item_name r.run)) in
    let of_groups =
      each-ok
        (λ _ g. unique_names (λ i s. duplicate_query s g.name i) 0 [] (map (λ q. q.name) g.queries))
        (λ g. Distinct (named (map (λ q. q.name) g.queries)))
        (λ _ g. names_ok _ (map (λ q. q.name) g.queries)) 0 groups in
    let of_run = names_ok (λ i s. duplicate_run s i) (map item_name r.run) in
    (
      λ h. (of_groups.0 ((chain.0 h).0), of_run.0 ((chain.0 h).1)),
      λ h. chain.1 (of_groups.1 h.0, of_run.1 h.1),
    )
