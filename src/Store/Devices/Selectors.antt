-- ===== src/Store/Devices/Selectors.antt =====
-- What it is to match a selector (runtime/internal/store/devices.go).
use Prim.Native.String.{◌++◌ as str_append}
use mathlib.Core.List.{◌++◌}
use hermes_ai_devops.Common.{
  ◌≡◌, refl, ◌↔◌, ◌⊎◌, inl, inr, String, Bool, true, List, [], ◌∷◌, Memᴰ, any, All, arith, eq_iff,
  string_eq, Bool-cases, if◌then◌else◌, subst,
}
use hermes_ai_devops.Common.Text.{equal_fold}
use hermes_ai_devops.Store.State.{Device, DeviceSelector}
use hermes_ai_devops.Store.Devices.{
  os_misses, soc_misses, capability_misses, is_empty, selector_mismatch, match_selector,
}

any→Memᴰ :
    (p : String → Bool) (xs : List String)
    → any p xs ≡ true
    → (x : String) × Memᴰ x xs × (p x ≡ true)
any→Memᴰ p [] h = cc
any→Memᴰ p (x ∷ xs) h = elim (Bool-cases (p x)) [
  | inl hit ↦ (x, Memᴰ.head refl, hit)
  | inr miss ↦ let (y, m, e) = any→Memᴰ p xs (ground arith) in (y, Memᴰ.tail m, e)
]

Memᴰ→any :
    (p : String → Bool) (x : String) (xs : List String) → Memᴰ x xs → p x ≡ true → any p xs ≡ true
Memᴰ→any p x [] m h = elim m [ ]
Memᴰ→any p x (y ∷ xs) (Memᴰ.head e) h = ground (arith, subst (λ z. p z ≡ true) e h)
Memᴰ→any p x (y ∷ xs) (Memᴰ.tail m) h = ground (arith, Memᴰ→any p x xs m h)

-- Every constraint of the selector that is given is met: the system, one of the chips, and each of
-- the capabilities, up to case.
pub record Meets (d : Device) (sel : DeviceSelector) : Type 0 where
  pub os : (sel.os ≡ "") ⊎ (equal_fold sel.os d.os ≡ true)
  pub soc : (sel.soc ≡ []) ⊎ ((s : String) × Memᴰ s sel.soc × (equal_fold s d.soc ≡ true))
  pub capabilities :
      All
        (λ want. (have : String) × Memᴰ have d.capabilities × (equal_fold want have ≡ true))
        sel.capabilities

abbrev Some : (String → Bool) → List String → Type 0
Some p xs = (x : String) × Memᴰ x xs × (p x ≡ true)

any_iff : (p : String → Bool) (xs : List String) → (any p xs ≡ true) ↔ Some p xs
any_iff p xs = (any→Memᴰ p xs, λ (x, m, h). Memᴰ→any p x xs m h)

empty_iff : {A : Type 0} (b : Bool) (x : A) → ((if b then [] else x ∷ []) ≡ []) ↔ (b ≡ true)
empty_iff b x = ground arith

module _ (d : Device) where
  os_iff :
      (sel : DeviceSelector)
      → (os_misses d sel ≡ []) ↔ ((sel.os ≡ "") ⊎ (equal_fold sel.os d.os ≡ true))
  os_iff sel = ground (arith, eq_iff sel.os "")

  soc_iff :
      (socs : List String)
      → (soc_misses d socs ≡ []) ↔ ((socs ≡ []) ⊎ Some (λ s. equal_fold s d.soc) socs)
  soc_iff [] = (λ _. inl refl, λ _. refl)
  soc_iff (x ∷ xs) =
      let hit = any_iff (λ s. equal_fold s d.soc) (x ∷ xs) in
      let shown = empty_iff (any (λ s. equal_fold s d.soc) (x ∷ xs)) (str_append "soc=" d.soc) in
      (λ e. inr (hit.0 (shown.0 e)), from)
    where
      from : ((x ∷ xs) ≡ []) ⊎ Some (λ s. equal_fold s d.soc) (x ∷ xs) → soc_misses d (x ∷ xs) ≡ []
      from (inl e) = cc
      from (inr h) =
          (empty_iff (any (λ s. equal_fold s d.soc) (x ∷ xs)) (str_append "soc=" d.soc)).1
            ((any_iff (λ s. equal_fold s d.soc) (x ∷ xs)).1 h)

  capability_iff :
      (wants : List String)
      → (capability_misses d wants ≡ []) ↔ All (λ want. Some (equal_fold want) d.capabilities) wants
  capability_iff [] = (λ _. tt, λ _. refl)
  capability_iff (want ∷ wants) =
      let hit = any_iff (equal_fold want) d.capabilities in
      elim (Bool-cases (any (equal_fold want) d.capabilities)) [
        | inl has ↦
            rw has (λ e. (hit.0 has, (capability_iff wants).0 e), λ h. (capability_iff wants).1 h.1)
        | inr not_there ↦ rw not_there (λ e. cc, λ h. cc (hit.1 h.0, not_there))
      ]

append-eq-nil : {A : Type 0} (xs ys : List A) → xs ++ ys ≡ [] → (xs ≡ []) × (ys ≡ [])
append-eq-nil [] ys e = (refl, e)
append-eq-nil (x ∷ xs) ys e = cc

is_empty_iff : {A : Type 0} (xs : List A) → (is_empty xs ≡ true) ↔ (xs ≡ [])
is_empty_iff [] = ground arith
is_empty_iff (x ∷ xs) = ground arith

-- A device matches a selector exactly if it meets every constraint that the selector gives; an empty
-- constraint asks for nothing.
pub match_selector_iff :
    (d : Device) (sel : DeviceSelector) → (match_selector d sel ≡ true) ↔ Meets d sel
unfolding match_selector
match_selector_iff d sel = (to, from)
  where
    to : match_selector d sel ≡ true → Meets d sel
    to e =
        let none_missed = (is_empty_iff (selector_mismatch d sel)).0 e in
        let (no_os, rest) = append-eq-nil (os_misses d sel) _ none_missed in
        let (no_soc, no_cap) = append-eq-nil (soc_misses d sel.soc) _ rest in
        record {
          os = (os_iff d sel).0 no_os;
          soc = (soc_iff d sel.soc).0 no_soc;
          capabilities = (capability_iff d sel.capabilities).0 no_cap;
        }

    from : Meets d sel → match_selector d sel ≡ true
    from m = rw (
      (os_iff d sel).1 m.os,
      (soc_iff d sel.soc).1 m.soc,
      (capability_iff d sel.capabilities).1 m.capabilities,
    )
