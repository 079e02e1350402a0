-- ===== src/Common/Text.antt =====
-- Texts, as the Go standard library handles them: `strconv.Itoa` and `strconv.Atoi`,
-- `strings.LastIndex` followed by a slice, `hex.EncodeToString` and `strings.EqualFold`.
-- `codes` is the list of code points, which are the bytes of an ASCII text. `equal_fold` folds the
-- ASCII letters only: the names that the program compares so are ASCII.
pub mod Decimal
pub mod Ascii
pub mod Order
use Prim.Native.Nat.{ℕ, zero, suc, ◌+◌, ◌-◌, ◌*◌, ◌/◌, ◌%◌}
use Prim.Native.Char.{code}
use Prim.Native.String.{String, ◌++◌}
use mathlib.Core.Bool.{Bool, true, false, ◌&&◌}
use mathlib.Core.Option.{Option, none, some}
use mathlib.Core.List.{List, [], ◌∷◌, map}
use hermes_ai_devops.Common.Int.{ℤ, pos, negsuc}
use hermes_ai_devops.Common.Tests.{if◌then◌else◌, ◌==◌, nat_eq, leb, ltb}

abbrev pub codes : String → List ℕ
codes String.[] = []
codes (String.◌∷◌ ch more) = code ch ∷ codes more

-- One digit of base sixteen at most.
pub digit : ℕ → String
digit d =
    if d == 0
    then "0"
    else if d == 1
    then "1"
    else if d == 2
    then "2"
    else if d == 3
    then "3"
    else if d == 4
    then "4"
    else if d == 5
    then "5"
    else if d == 6
    then "6"
    else if d == 7
    then "7"
    else if d == 8
    then "8"
    else if d == 9
    then "9"
    else if d == 10
    then "a"
    else if d == 11
    then "b"
    else if d == 12
    then "c"
    else if d == 13
    then "d"
    else if d == 14
    then "e"
    else "f"

show_from : ℕ → ℕ → String → String
show_from zero n acc = acc
show_from (suc fuel) n acc =
    let shown = digit (n % 10) ++ acc in
    let rest = show_from fuel (n / 10) shown in if n / 10 == 0 then shown else rest

-- strconv.Itoa of a number that is not negative: fuel `n + 1` suffices, since each round divides
-- by ten.
unfoldable pub itoa : ℕ → String
unfolding show_from digit
itoa n = show_from (suc n) n ""

abbrev pub max_int : ℕ
max_int = 9223372036854775807

scan : ℕ → List ℕ → Option ℕ
scan n [] = some n
scan n (c ∷ s) =
    let rest = scan (n * 10 + (c - 48)) s in if leb 48 c && leb c 57 then rest else none

-- The digits of an unsigned number: one at least.
scan_all : List ℕ → Option ℕ
scan_all [] = none
scan_all (c ∷ s) = scan 0 (c ∷ s)

to_pos : ℕ → Option ℤ
to_pos n = if leb n max_int then some (pos n) else none

to_neg : ℕ → Option ℤ
to_neg n =
    if n == 0 then some (pos 0) else if leb n (max_int + 1) then some (negsuc (n - 1)) else none

-- strconv.Atoi: an optional sign, digits, and the range of int64; `none` is its error.
unfoldable pub atoi : List ℕ → Option ℤ
unfolding scan scan_all to_pos to_neg
atoi [] = none
atoi (c ∷ s) =
    if c == b'-'
    then (elim (scan_all s) [ none ↦ none | some n ↦ to_neg n ])
    else if c == b'+'
    then (elim (scan_all s) [ none ↦ none | some n ↦ to_pos n ])
    else elim (scan_all (c ∷ s)) [ none ↦ none | some n ↦ to_pos n ]

-- What stands behind the marker ":a" at the head of a text.
abbrev strip_marker : List ℕ → Option (List ℕ)
strip_marker [] = none
strip_marker (a ∷ []) = none
strip_marker (a ∷ b ∷ r) = if a == b':' && b == b'a' then some r else none

-- i := strings.LastIndex(s, ":a"); s[i+2:], and `none` if i < 0.
unfoldable pub after_last : List ℕ → Option (List ℕ)
after_last [] = none
after_last (c ∷ s) = elim (after_last s) [ some r ↦ some r | none ↦ strip_marker (c ∷ s) ]

-- hex.EncodeToString of a list of bytes.
unfoldable pub hex : List ℕ → String
unfolding digit
hex [] = ""
hex (b ∷ bs) = digit (b / 16) ++ (digit (b % 16) ++ hex bs)

abbrev fold_case : ℕ → ℕ
fold_case c = if leb b'A' c && leb c b'Z' then c + 32 else c

abbrev same_codes : List ℕ → List ℕ → Bool
same_codes [] [] = true
same_codes [] (d ∷ t) = false
same_codes (c ∷ s) [] = false
same_codes (c ∷ s) (d ∷ t) = c == d && same_codes s t

unfoldable pub equal_fold : String → String → Bool
equal_fold s t = same_codes (map fold_case (codes s)) (map fold_case (codes t))
