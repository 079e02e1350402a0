-- ===== src/Workflow/Main/Routing.antt =====
-- Where the demultiplexer sends the result of a task (runtime/internal/workflow/devicetest.go,
-- demuxSignalLoop).
use Prim.Native.Nat.{compare as compare_ℕ, Ordering}
use Prim.Native.Char.{char, code}
use Prim.Native.String.{◌++◌ as str_append}
use text.Mathlib.TextEquality.{codes_equal}
use text.Mathlib.TextLemmas.{nil-append, cons-append}
use hermes_ai_devops.Common.{
  ℕ, ◌+◌, ◌≡◌, refl, sym, ◌∙◌, ap, subst, String, true, false, Option, none, some, List, [], ◌∷◌,
  any, if◌then◌else◌, ◌==◌, string_eq, nat_eq, eq_iff, arith, Bool-cases, inl, inr,
}
use hermes_ai_devops.Common.Text.{itoa}
use hermes_ai_devops.Common.Text.Ascii.{has_char}
use hermes_ai_devops.Workflow.Types.{TestSpec}
use hermes_ai_devops.Workflow.Ids.{task_id_of}
use hermes_ai_devops.Workflow.Main.{has_prefix, prefix_of, demux}

has_prefix-common : (w x y : String) → has_prefix (str_append w x) (str_append w y) ≡ has_prefix x y
unfolding has_prefix
has_prefix-common String.[] x y = rw (nil-append x, nil-append y) refl
has_prefix-common (String.◌∷◌ c w) x y =
    rw (cons-append c w x, cons-append c w y) (ground (arith, has_prefix-common w x y))

-- Two names without a colon, of which one and a colon is a prefix of the other and a colon, are the same.
has_prefix-same :
    (p t r : String)
    → has_char b':' p ≡ false
    → has_char b':' t ≡ false
    → has_prefix (str_append p ":") (str_append t (str_append ":" r)) ≡ true
    → p ≡ t
unfolding has_prefix has_char
has_prefix-same String.[] String.[] r hp ht h = refl
has_prefix-same String.[] (String.◌∷◌ d t) r hp ht h =
    let seen : has_prefix (str_append "" ":") (str_append (String.◌∷◌ d t) (str_append ":" r))
        ≡ has_prefix ":" (String.◌∷◌ d (str_append t (str_append ":" r))) =
      ap (λ x. has_prefix x (str_append (String.◌∷◌ d t) (str_append ":" r))) (nil-append ":")
      ∙ ap (has_prefix ":") (cons-append d t (str_append ":" r)) in
    let g = sym seen ∙ h in absurd (ground (arith, g, ht))
has_prefix-same (String.◌∷◌ c p) String.[] r hp ht h =
    let seen : has_prefix (str_append (String.◌∷◌ c p) ":") (str_append "" (str_append ":" r))
        ≡ has_prefix (String.◌∷◌ c (str_append p ":")) (str_append ":" r) =
      ap (λ x. has_prefix x (str_append "" (str_append ":" r))) (cons-append c p ":")
      ∙ ap (has_prefix (String.◌∷◌ c (str_append p ":"))) (nil-append (str_append ":" r)) in
    let colon = cons-append (char b':' tt) "" r in
    let g = sym seen ∙ h in absurd (ground (arith, g, hp, colon))
has_prefix-same (String.◌∷◌ c p) (String.◌∷◌ d t) r hp ht h =
    let seen : has_prefix (str_append (String.◌∷◌ c p) ":")
          (str_append (String.◌∷◌ d t) (str_append ":" r))
        ≡ has_prefix (String.◌∷◌ c (str_append p ":"))
            (String.◌∷◌ d (str_append t (str_append ":" r))) =
      ap (λ x. has_prefix x (str_append (String.◌∷◌ d t) (str_append ":" r))) (cons-append c p ":")
      ∙ ap (has_prefix (String.◌∷◌ c (str_append p ":"))) (cons-append d t (str_append ":" r)) in
    let g : has_prefix (String.◌∷◌ c (str_append p ":"))
          (String.◌∷◌ d (str_append t (str_append ":" r)))
        ≡ true =
      sym seen ∙ h in
    let rest : has_prefix (str_append p ":") (str_append t (str_append ":" r)) ≡ true =
      ground (arith, g) in
    let heads : compare_ℕ (code c) (code d) ≡ Ordering.eq = ground (arith, g) in
    ap (λ x. String.◌∷◌ x p) (codes_equal c d heads)
    ∙ ap (String.◌∷◌ d) (has_prefix-same p t r (ground (arith, hp)) (ground (arith, ht)) rest)

has_prefix_self :
    (p r : String) → has_prefix (str_append p ":") (str_append p (str_append ":" r)) ≡ true
unfolding has_prefix
has_prefix_self p r = has_prefix-common p ":" (str_append ":" r) ∙ has_prefix-colon r
  where
    has_prefix-colon : (q : String) → has_prefix ":" (str_append ":" q) ≡ true
    has_prefix-colon q = rw (cons-append (char b':' tt) "" q) refl

colon_then : (q : String) → str_append ":a" q ≡ str_append ":" (str_append "a" q)
colon_then q =
    cons-append (char b':' tt) "a" q
    ∙ sym (
        cons-append (char b':' tt) "" (str_append "a" q)
        ∙ ap (String.◌∷◌ (char b':' tt)) (nil-append (str_append "a" q)))

-- The prefix of a test is one of a task of that test only.
prefix_of-task_id_of :
    (wf_id p t : String) (attempt : ℕ)
    → has_char b':' p ≡ false
    → has_char b':' t ≡ false
    → has_prefix (prefix_of wf_id p) (task_id_of wf_id t attempt) ≡ (p == t)
unfolding task_id_of
prefix_of-task_id_of wf_id p t attempt hp ht =
    let r : String = str_append "a" (itoa attempt) in
    let tail : has_prefix (str_append p ":") (str_append t (str_append ":a" (itoa attempt)))
        ≡ has_prefix (str_append p ":") (str_append t (str_append ":" r)) =
      ap (λ x. has_prefix (str_append p ":") (str_append t x)) (colon_then (itoa attempt)) in
    let core : has_prefix (str_append p ":") (str_append t (str_append ":" r)) ≡ (p == t) =
      elim (Bool-cases (p == t)) [
        | inl same ↦
            subst (λ x. has_prefix (str_append p ":") (str_append x (str_append ":" r)) ≡ (p == t))
              ((eq_iff p t).0 same) (has_prefix_self p r ∙ sym same)
        | inr differ ↦
            elim (Bool-cases (has_prefix (str_append p ":") (str_append t (str_append ":" r)))) [
              | inr fails ↦ fails ∙ sym differ
              | inl found ↦
                  absurd (ground (arith, differ, eq_iff p t, has_prefix-same p t r hp ht found))
            ]
      ] in
    has_prefix-common wf_id (str_append ":" (str_append p ":"))
      (str_append ":" (str_append t (str_append ":a" (itoa attempt))))
    ∙ has_prefix-common ":" (str_append p ":") (str_append t (str_append ":a" (itoa attempt)))
    ∙ tail
    ∙ core

-- The place of the first spec of a test.
unfoldable pub place_of : String → List TestSpec → Option ℕ
place_of test_id [] = none
place_of test_id (spec ∷ specs) =
    let rest = place_of test_id specs in
    if spec.test_id == test_id then some 0 else elim rest [ none ↦ none | some i ↦ some (i + 1) ]

-- Among specs whose names have no colon, the result of any attempt of a task is sent to the first spec
-- of the very test of the task, and dropped if there is none: no name that begins with another one
-- takes its results.
pub demux_routes :
    (wf_id test_id : String) (attempt : ℕ) (specs : List TestSpec)
    → has_char b':' test_id ≡ false
    → any (λ s. has_char b':' s.test_id) specs ≡ false
    → demux wf_id specs (task_id_of wf_id test_id attempt) ≡ place_of test_id specs
unfolding demux place_of
demux_routes wf_id test_id attempt [] ht hs = refl
demux_routes wf_id test_id attempt (spec ∷ specs) ht hs =
    let rest = demux_routes wf_id test_id attempt specs ht (ground (arith, hs)) in
    let here = prefix_of-task_id_of wf_id spec.test_id test_id attempt (ground (arith, hs)) ht in
    rw (here, rest) refl
