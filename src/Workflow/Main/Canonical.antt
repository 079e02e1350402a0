-- ===== src/Workflow/Main/Canonical.antt =====
-- The variants that a run records (runtime/internal/workflow/devicetest.go,
-- newRecordWorkflowRunRequest).
use hermes_ai_devops.Common.{
  ◌≡◌, refl, ◌∙◌, String, Bool, true, not, ◌&&◌, List, [], ◌∷◌, map, filter, contains, ◌==◌,
  string_eq, eq_iff, arith, Bool-cases, inl, inr,
}
use hermes_ai_devops.Workflow.Types.{PackageRef}
use hermes_ai_devops.Common.Text.Order.{text_le, text_le_total}
use hermes_ai_devops.Workflow.Main.{insert_text, sort_texts, drop_repeats, canonical_variants}

insert_text-contains :
    (v x : String) (xs : List String) → contains v (insert_text x xs) ≡ contains v (x ∷ xs)
unfolding insert_text
insert_text-contains v x [] = refl
insert_text-contains v x (y ∷ ys) = ground (arith, insert_text-contains v x ys)

sort_texts-contains : (v : String) (xs : List String) → contains v (sort_texts xs) ≡ contains v xs
unfolding sort_texts
sort_texts-contains v [] = refl
sort_texts-contains v (x ∷ xs) =
    insert_text-contains v x (sort_texts xs) ∙ ground (arith, sort_texts-contains v xs)

drop_repeats-contains :
    (v : String) (xs : List String) → contains v (drop_repeats xs) ≡ contains v xs
unfolding drop_repeats
drop_repeats-contains v [] = refl
drop_repeats-contains v (x ∷ []) = refl
drop_repeats-contains v (x ∷ y ∷ ys) =
    ground (arith, drop_repeats-contains v (y ∷ ys), eq_iff x y, eq_iff x v, eq_iff y v)

filter-contains :
    (v : String) (xs : List String)
    → contains v (filter (λ x. not (x == "")) xs) ≡ contains v xs && not (v == "")
filter-contains v [] = refl
filter-contains v (x ∷ xs) =
    ground (arith, filter-contains v xs, eq_iff x "", eq_iff v "", eq_iff x v)

-- Each text comes before the next one, or is the same.
unfoldable pub is_sorted : List String → Bool
is_sorted [] = true
is_sorted (x ∷ xs) = elim xs [ [] ↦ true | y ∷ ys ↦ text_le x y ] && is_sorted xs

-- And is not the same.
unfoldable pub is_ascending : List String → Bool
is_ascending [] = true
is_ascending (x ∷ xs) =
    elim xs [ [] ↦ true | y ∷ ys ↦ text_le x y && not (x == y) ] && is_ascending xs

insert_text-sorted :
    (x : String) (xs : List String) → is_sorted xs ≡ true → is_sorted (insert_text x xs) ≡ true
unfolding insert_text is_sorted
insert_text-sorted x [] h = refl
insert_text-sorted x (y ∷ []) h = ground (arith, text_le_total x y)
insert_text-sorted x (y ∷ z ∷ zs) h =
    ground (arith, h, text_le_total x y, insert_text-sorted x (z ∷ zs))

sort_texts-sorted : (xs : List String) → is_sorted (sort_texts xs) ≡ true
unfolding sort_texts is_sorted
sort_texts-sorted [] = refl
sort_texts-sorted (x ∷ xs) = insert_text-sorted x (sort_texts xs) (sort_texts-sorted xs)

drop_repeats-head :
    (x : String) (xs : List String) → (t : List String) × (drop_repeats (x ∷ xs) ≡ x ∷ t)
unfolding drop_repeats
drop_repeats-head x [] = ([], refl)
drop_repeats-head x (y ∷ ys) = elim (Bool-cases (x == y)) [
  | inl same ↦ let (t, e) = drop_repeats-head y ys in (t, ground (arith, same, e, eq_iff x y))
  | inr differ ↦ (drop_repeats (y ∷ ys), ground (arith, differ))
]

drop_repeats-ascending :
    (xs : List String) → is_sorted xs ≡ true → is_ascending (drop_repeats xs) ≡ true
unfolding drop_repeats is_sorted is_ascending
drop_repeats-ascending [] h = refl
drop_repeats-ascending (x ∷ []) h = refl
drop_repeats-ascending (x ∷ y ∷ ys) h =
    let (t, e) = drop_repeats-head y ys in ground (arith, h, e, drop_repeats-ascending (y ∷ ys))

-- A run records exactly the variants of its packages that are not empty, in ascending order, each one
-- once, whatever the order of the packages.
pub canonical_variants_are :
    (ps : List PackageRef)
    → (is_ascending (canonical_variants ps) ≡ true)
      × ((v : String)
          → contains v (canonical_variants ps)
            ≡ contains v (map (λ p. p.variant) ps) && not (v == ""))
unfolding canonical_variants
canonical_variants_are ps =
    let named = filter (λ v. not (v == "")) (map (λ p. p.variant) ps) in
    (
      drop_repeats-ascending (sort_texts named) (sort_texts-sorted named),
      λ v.
          drop_repeats-contains v (sort_texts named)
          ∙ sort_texts-contains v named
          ∙ filter-contains v (map (λ p. p.variant) ps),
    )
