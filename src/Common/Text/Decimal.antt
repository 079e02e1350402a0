-- ===== src/Common/Text/Decimal.antt =====
-- Printing a number and reading it back, and finding it behind a marker.
use Prim.Native.Nat.{ℕ, zero, suc, ◌+◌, ◌-◌, ◌*◌, ◌/◌, ◌%◌, ◌≤◌, ◌<◌}
use Prim.Native.Char.{code}
use Prim.Native.String.{String, ◌++◌ as str_append}
use mathlib.Core.Path.{◌≡◌, refl, ap, ◌∙◌}
use mathlib.Core.Logic.{inl, inr}
use mathlib.Core.Option.{none, some}
use mathlib.Core.List.{List, [], ◌∷◌, ◌++◌}
use native.Mathlib.Omega.{arith}
use text.Mathlib.TextLemmas.{nil-append, cons-append}
use hermes_ai_devops.Common.Int.{pos}
use hermes_ai_devops.Common.Tests.{Bool-cases, ◌==◌, nat_eq}
use hermes_ai_devops.Common.Lists.{length, All}
use hermes_ai_devops.Common.Text.{codes, digit, show_from, itoa, max_int, scan, atoi, after_last}

pub codes-append : (s t : String) → codes (str_append s t) ≡ codes s ++ codes t
codes-append String.[] t = ap codes (nil-append t)
codes-append (String.◌∷◌ c s) t =
    ap codes (cons-append c s t) ∙ ap (◌∷◌ (code c)) (codes-append s t)

codes-digit : (d : ℕ) → d < 10 → codes (digit d) ≡ (d + 48) ∷ []
unfolding digit
codes-digit zero h = refl
codes-digit (suc zero) h = refl
codes-digit (suc (suc zero)) h = refl
codes-digit (suc (suc (suc zero))) h = refl
codes-digit (suc (suc (suc (suc zero)))) h = refl
codes-digit (suc (suc (suc (suc (suc zero))))) h = refl
codes-digit (suc (suc (suc (suc (suc (suc zero)))))) h = refl
codes-digit (suc (suc (suc (suc (suc (suc (suc zero))))))) h = refl
codes-digit (suc (suc (suc (suc (suc (suc (suc (suc zero)))))))) h = refl
codes-digit (suc (suc (suc (suc (suc (suc (suc (suc (suc zero))))))))) h = refl
codes-digit (suc (suc (suc (suc (suc (suc (suc (suc (suc (suc d)))))))))) h = absurd (omega arith)

codes-shown : (n : ℕ) (t : String) → codes (str_append (digit (n % 10)) t) ≡ (n % 10 + 48) ∷ codes t
codes-shown n t =
    codes-append (digit (n % 10)) t ∙ ap (λ s. s ++ codes t) (codes-digit (n % 10) (omega arith))

scan-digit : (m d : ℕ) (s : List ℕ) → d < 10 → scan m ((d + 48) ∷ s) ≡ scan (m * 10 + d) s
unfolding scan
scan-digit m d s h = let e : d + 48 - 48 ≡ d = omega arith in rw e (ground arith)

-- Reading what `show_from` writes gives the number, and then reads the rest.
scan-show_from :
    (fuel n : ℕ) (t : String) → n < fuel → scan 0 (codes (show_from fuel n t)) ≡ scan n (codes t)
unfolding show_from
scan-show_from zero n t h = absurd (omega arith)
scan-show_from (suc fuel) n t h = elim (Bool-cases (n / 10 == 0)) [
  | inl last ↦
      rw (last, codes-shown n t, scan-digit 0 (n % 10) (codes t) (omega arith))
        (ap (λ k. scan k (codes t)) (ground arith))
  | inr more ↦
      let shown = str_append (digit (n % 10)) t in
      rw
        (
          more,
          scan-show_from fuel (n / 10) shown (ground arith),
          codes-shown n t,
          scan-digit (n / 10) (n % 10) (codes t) (omega arith),
        )
        (ap (λ k. scan k (codes t)) (omega arith))
]

abbrev Digits : List ℕ → Type 0
Digits = All (λ c. (48 ≤ c) × (c ≤ 57))

show_from-Digits :
    (fuel n : ℕ) (t : String) → Digits (codes t) → Digits (codes (show_from fuel n t))
unfolding show_from
show_from-Digits zero n t h = h
show_from-Digits (suc fuel) n t h = elim (Bool-cases (n / 10 == 0)) [
  | inl last ↦ rw (last, codes-shown n t) ((omega arith, omega arith), h)
  | inr more ↦ rw more (
      show_from-Digits fuel (n / 10) (str_append (digit (n % 10)) t)
        (rw (codes-shown n t) ((omega arith, omega arith), h)))
]

length-show_from-le :
    (fuel n : ℕ) (t : String) → length (codes t) ≤ length (codes (show_from fuel n t))
unfolding show_from
length-show_from-le zero n t = omega arith
length-show_from-le (suc fuel) n t =
    let shown = str_append (digit (n % 10)) t in
    let one_more = ap length (codes-shown n t) in
    elim (Bool-cases (n / 10 == 0)) [
      | inl last ↦ rw last (omega (arith, one_more))
      | inr more ↦ rw more (omega (arith, one_more, length-show_from-le fuel (n / 10) shown))
    ]

itoa-ne-nil : (n : ℕ) → 0 < length (codes (itoa n))
unfolding itoa show_from
itoa-ne-nil n =
    let shown = str_append (digit (n % 10)) "" in
    let one_more = ap length (codes-shown n "") in
    elim (Bool-cases (n / 10 == 0)) [
      | inl last ↦ rw last (omega (arith, one_more))
      | inr more ↦ rw more (omega (arith, one_more, length-show_from-le n (n / 10) shown))
    ]

atoi-Digits :
    (s : List ℕ) {n : ℕ}
    → Digits s
    → 0 < length s
    → n ≤ max_int
    → scan 0 s ≡ some n
    → atoi s ≡ some (pos n)
unfolding atoi
atoi-Digits [] d l m e = absurd (omega arith)
atoi-Digits (c ∷ s) {n} d l m e = ground arith

-- Reading a printed number gives it back, in the range of int64.
pub atoi-itoa : (n : ℕ) → n ≤ max_int → atoi (codes (itoa n)) ≡ some (pos n)
atoi-itoa n h =
    atoi-Digits (codes (itoa n)) (unfold itoa in show_from-Digits (suc n) n "" tt) (itoa-ne-nil n) h
      (unfold itoa scan in scan-show_from (suc n) n "" (omega arith))

after_last-Digits : (s : List ℕ) → Digits s → after_last s ≡ none
unfolding after_last
after_last-Digits [] d = refl
after_last-Digits (c ∷ []) d = refl
after_last-Digits (c ∷ b ∷ s) d = rw (after_last-Digits (b ∷ s) d.1, after_last) (ground arith)

after_last-append :
    (p s : List ℕ) {r : List ℕ} → after_last s ≡ some r → after_last (p ++ s) ≡ some r
unfolding after_last
after_last-append [] s e = e
after_last-append (c ∷ p) s e = rw (after_last-append p s e, after_last)

after_last-marker : (s : List ℕ) → Digits s → after_last (b':' ∷ b'a' ∷ s) ≡ some s
unfolding after_last
after_last-marker [] d = refl
after_last-marker (c ∷ s) d = rw (after_last-Digits (c ∷ s) d, after_last) (ground arith)

-- Behind the last ":a" of a text that ends in ":a" and a number stands that number.
pub after_last-itoa :
    (p : String) (n : ℕ)
    → after_last (codes (str_append p (str_append ":a" (itoa n)))) ≡ some (codes (itoa n))
after_last-itoa p n =
    rw (codes-append p (str_append ":a" (itoa n)), codes-append ":a" (itoa n))
      (after_last-append (codes p) _
        (after_last-marker (codes (itoa n)) (unfold itoa in show_from-Digits (suc n) n "" tt)))
