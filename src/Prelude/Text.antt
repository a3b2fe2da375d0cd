-- ===== src/Prelude/Text.antt =====
-- Text where the program walks it: a list of code points, with the parts of Go's package `strings`
-- and `strconv` that the program uses.
pub mod Numerals
use Prim.Native.Char.{code}
use Prim.Native.String.{String}
use Prim.Native.Nat.{ℕ, zero, suc, ◌+◌, ◌-◌, ◌*◌, ◌/◌, ◌%◌, ◌^◌, ◌≤◌, ◌<◌}
use mathlib.Core.Path.{◌≡◌, refl, ap, sym, ◌∙◌}
use mathlib.Core.Logic.{◌↔◌}
use mathlib.Core.Bool.{Bool, true, false, ◌&&◌, ◌||◌}
use mathlib.Core.Option.{Option, none, some}
use mathlib.Core.List.{List, [], ◌∷◌, ◌++◌}
use native.Mathlib.Omega.{arith}
use edg.Prelude.Tests.{ltb, leb, ◌==◌, ==_iff, if◌then◌else◌}
use edg.Prelude.Lists.{length}
use edg.Prelude.Int.{ℤ, pos, negsuc}

abbrev pub Bytes : Type 0
Bytes = List ℕ

abbrev pub codes : String → Bytes
codes String.[] = []
codes (String.◌∷◌ c s) = code c ∷ codes s

-- `strings.HasPrefix(s, p)`, with the prefix first
unfoldable pub has_prefix : Bytes → Bytes → Bool
has_prefix [] s = true
has_prefix (p ∷ ps) [] = false
has_prefix (p ∷ ps) (c ∷ s) = (p == c) && has_prefix ps s

unfoldable pub same : Bytes → Bytes → Bool
same [] [] = true
same [] (d ∷ t) = false
same (c ∷ s) [] = false
same (c ∷ s) (d ∷ t) = (c == d) && same s t

pub same_iff : (s t : Bytes) → (same s t ≡ true) ↔ (s ≡ t)
unfolding same
same_iff [] [] = (λ h. refl, λ h. refl)
same_iff [] (d ∷ t) = (λ h. cc, λ h. cc)
same_iff (c ∷ s) [] = (λ h. cc, λ h. cc)
same_iff (c ∷ s) (d ∷ t) = ground (arith, ==_iff c d, same_iff s t)

-- `strings.Contains(s, sub)`
unfoldable pub contains : Bytes → Bytes → Bool
unfolding has_prefix
contains [] sub = has_prefix sub []
contains (c ∷ s) sub = has_prefix sub (c ∷ s) || contains s sub

-- `strings.ReplaceAll(s, old, by)` for a nonempty `old`; `skip` counts what is left of the last match.
unfoldable pub replace_from : ℕ → Bytes → Bytes → Bytes → Bytes
replace_from skip [] old by = []
replace_from (suc skip) (c ∷ s) old by = replace_from skip s old by
replace_from zero (c ∷ s) old by =
    let hit = has_prefix old (c ∷ s) in
    let rest = replace_from (if hit then length old - 1 else 0) s old by in
    if hit then by ++ rest else c ∷ rest

abbrev pub replace_all : Bytes → Bytes → Bytes → Bytes
replace_all s old by = replace_from 0 s old by

-- `strings.Join`
unfoldable pub join : List Bytes → Bytes → Bytes
join [] sep = []
join (s ∷ []) sep = s
join (s ∷ t ∷ ts) sep = s ++ sep ++ join (t ∷ ts) sep

-- `strings.Split` at one character: the first part and the others.
unfoldable pub split_from : ℕ → Bytes → Bytes × List Bytes
split_from sep [] = ([], [])
split_from sep (c ∷ s) =
    let (first, others) = split_from sep s in
    if c == sep then ([], first ∷ others) else (c ∷ first, others)

unfoldable pub split : Bytes → ℕ → List Bytes
split s sep = let (first, others) = split_from sep s in first ∷ others

-- The decimal digits of a number, before `out`.
unfoldable pub digits : ℕ → ℕ → Bytes → Bytes
digits zero n out = (b'0' + n % 10) ∷ out
digits (suc fuel) n out =
    let rest = digits fuel (n / 10) ((b'0' + n % 10) ∷ out) in
    if ltb n 10 then (b'0' + n) ∷ out else rest

-- `strconv.Itoa`; a number has fewer digits than its value, plus one.
unfoldable pub show_nat : ℕ → Bytes
show_nat n = digits n n []

unfoldable pub show_int : ℤ → Bytes
show_int (pos n) = show_nat n
show_int (negsuc n) = b'-' ∷ show_nat (suc n)

unfoldable pub is_digit : ℕ → Bool
is_digit c = leb b'0' c && leb c b'9'

unfoldable pub read_nat : Bytes → ℕ → Option ℕ
unfolding is_digit
read_nat [] n = some n
read_nat (c ∷ s) n = if is_digit c then read_nat s (n * 10 + (c - b'0')) else none

unfoldable pub read_digits : Bytes → Option ℕ
read_digits [] = none
read_digits (c ∷ s) = read_nat (c ∷ s) 0

unfoldable pub below : ℕ → Option ℕ → Option ℕ
below bound none = none
below bound (some n) = if ltb n bound then some n else none

unfoldable pub as_pos : Option ℕ → Option ℤ
as_pos none = none
as_pos (some n) = some (pos n)

unfoldable pub as_neg : Option ℕ → Option ℤ
as_neg none = none
as_neg (some zero) = some (pos 0)
as_neg (some (suc n)) = some (negsuc n)

-- `strconv.Atoi`, which refuses what an int64 cannot hold
unfoldable pub atoi : Bytes → Option ℤ
unfolding below as_pos as_neg
atoi [] = none
atoi (c ∷ s) =
    if c == b'-'
    then as_neg (below (2 ^ 63 + 1) (read_digits s))
    else if c == b'+'
    then as_pos (below (2 ^ 63) (read_digits s))
    else as_pos (below (2 ^ 63) (read_digits (c ∷ s)))
