-- ===== src/Workflow/Signatures.antt =====
-- Signature hits of the device and of Runtime, merged (runtime/internal/workflow/devicetest.go,
-- mergeSignatureHits).
use mathlib.Core.List.{append-nil, append_assoc}
use hermes_ai_devops.Store.Devices.{is_empty}
use hermes_ai_devops.Common.{
  not, inl, inr, sym, ◌∙◌, arith, eq_iff, string_eq, Bool-cases, ◌≡◌, refl, String, Bool, true,
  false, ◌||◌, List, [], ◌∷◌, ◌++◌, contains, if◌then◌else◌,
}

-- The second loop: `seen` is the set of the ids so far, `merged` the list, `added` the flag.
merge_from : List String → List String → Bool → List String → List String × Bool
merge_from seen merged added [] = (merged, added)
merge_from seen merged added (s ∷ rest) =
    let old = merge_from seen merged added rest in
    let new = merge_from (s ∷ seen) (merged ++ s ∷ []) true rest in
    if contains s seen then old else new

unfoldable pub merge_signature_hits : List String → List String → List String × Bool
unfolding merge_from
merge_signature_hits reported extracted = merge_from reported reported false extracted

contains-append :
    (s : String) (xs ys : List String) → contains s (xs ++ ys) ≡ contains s xs || contains s ys
contains-append s [] ys = refl
contains-append s (x ∷ xs) ys = ground (arith, contains-append s xs ys)

merge_from-contains :
    (s : String) (seen merged : List String) (added : Bool) (extracted : List String)
    → contains s seen ≡ contains s merged
    → contains s (merge_from seen merged added extracted).0
      ≡ contains s merged || contains s extracted
unfolding merge_from
merge_from-contains s seen merged added [] e = ground arith
merge_from-contains s seen merged added (x ∷ xs) e = elim (Bool-cases (contains x seen)) [
  | inl old ↦
      rw (old, merge_from)
        (ground (arith, eq_iff x s, merge_from-contains s seen merged added xs e))
  | inr new ↦
      rw (new, merge_from)
        (ground (
          arith,
          contains-append s merged (x ∷ []),
          merge_from-contains s (x ∷ seen) (merged ++ x ∷ []) true xs,
        ))
]

merge_from-append :
    (seen merged : List String) (added : Bool) (extracted : List String)
    → (new : List String) × ((merge_from seen merged added extracted).0 ≡ merged ++ new)
      × ((merge_from seen merged added extracted).1 ≡ added || not (is_empty new))
unfolding merge_from
merge_from-append seen merged added [] = ([], sym (append-nil merged), ground arith)
merge_from-append seen merged added (x ∷ xs) = elim (Bool-cases (contains x seen)) [
  | inl old ↦ rw (old, merge_from) (merge_from-append seen merged added xs)
  | inr fresh ↦
      let (new, e, f) = merge_from-append (x ∷ seen) (merged ++ x ∷ []) true xs in
      rw (fresh, merge_from) (x ∷ new, e ∙ append_assoc merged (x ∷ []) new, f ∙ ground arith)
]

-- A signature is in the merged hits exactly if the device reported it or Runtime extracted it.
pub merge_signature_hits-contains :
    (s : String) (reported extracted : List String)
    → contains s (merge_signature_hits reported extracted).0
      ≡ contains s reported || contains s extracted
unfolding merge_signature_hits
merge_signature_hits-contains s reported extracted =
    merge_from-contains s reported reported false extracted refl

-- The device's hits stay first and in their order; the flag says whether Runtime's added any.
pub merge_signature_hits-append :
    (reported extracted : List String)
    → (new : List String) × ((merge_signature_hits reported extracted).0 ≡ reported ++ new)
      × ((merge_signature_hits reported extracted).1 ≡ not (is_empty new))
unfolding merge_signature_hits
merge_signature_hits-append reported extracted = merge_from-append reported reported false extracted
