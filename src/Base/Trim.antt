-- ===== src/Base/Trim.antt =====
-- How letter case and white space at the ends of a text go together.
use Prim.Native.Nat.{ℕ, ◌+◌, ◌≤◌}
use mathlib.Core.Path.{◌≡◌, refl, ap, sym, ◌∙◌}
use mathlib.Core.Logic.{inl, inr}
use mathlib.Core.Bool.{true, false}
use mathlib.Core.List.{[], ◌∷◌}
use native.Mathlib.Omega.{arith}
use data_flow_agent_hub.Base.Tests.{Bool-cases}
use data_flow_agent_hub.Base.Lists.{length}
use data_flow_agent_hub.Base.Strings.{
  Text, upper_byte, lower_byte, to_upper, to_lower, is_space, keep, trim_left, trim_right,
  trim_space,
}

upper_byte_idem : (c : ℕ) → upper_byte (upper_byte c) ≡ upper_byte c
unfolding upper_byte
upper_byte_idem c = ground arith

upper_byte-lower_byte : (c : ℕ) → upper_byte (lower_byte c) ≡ upper_byte c
unfolding upper_byte lower_byte
upper_byte-lower_byte c = ground arith

pub to_upper_idem : (s : Text) → to_upper (to_upper s) ≡ to_upper s
unfolding to_upper
to_upper_idem [] = refl
to_upper_idem (c ∷ s) = cc (upper_byte_idem c, to_upper_idem s)

pub to_upper-to_lower : (s : Text) → to_upper (to_lower s) ≡ to_upper s
unfolding to_upper to_lower
to_upper-to_lower [] = refl
to_upper-to_lower (c ∷ s) = cc (upper_byte-lower_byte c, to_upper-to_lower s)

is_space-upper_byte : (c : ℕ) → is_space (upper_byte c) ≡ is_space c
unfolding is_space upper_byte
is_space-upper_byte c = ground arith

is_space-lower_byte : (c : ℕ) → is_space (lower_byte c) ≡ is_space c
unfolding is_space lower_byte
is_space-lower_byte c = ground arith

-- a change of letter case that keeps white space white, and nothing else
module _ (f : ℕ → ℕ) (g : Text → Text) (g-nil : g [] ≡ [])
    (g-cons : (c : ℕ) (s : Text) → g (c ∷ s) ≡ f c ∷ g s)
    (same_space : (c : ℕ) → is_space (f c) ≡ is_space c) where
  trim_left-case : (s : Text) → trim_left (g s) ≡ g (trim_left s)
  unfolding trim_left
  trim_left-case [] = rw g-nil
  trim_left-case (c ∷ s) = rw g-cons (ground (arith, same_space c, trim_left-case s, g-cons c s))

  keep-case : (c : ℕ) (s : Text) → keep (f c) (g s) ≡ g (keep c s)
  keep-case c [] = rw g-nil (unfold keep in ground (arith, same_space c, g-cons c [], g-nil))
  keep-case c (d ∷ s) = rw g-cons (unfold keep in cc (g-cons c (d ∷ s), g-cons d s))

  trim_right-case : (s : Text) → trim_right (g s) ≡ g (trim_right s)
  unfolding trim_right
  trim_right-case [] = rw g-nil
  trim_right-case (c ∷ s) =
      rw g-cons (ap (keep (f c)) (trim_right-case s) ∙ keep-case c (trim_right s))

  trim_space-case : (s : Text) → trim_space (g s) ≡ g (trim_space s)
  unfolding trim_space
  trim_space-case s = ap trim_right (trim_left-case s) ∙ trim_right-case (trim_left s)

pub trim_space-to_upper : (s : Text) → trim_space (to_upper s) ≡ to_upper (trim_space s)
unfolding to_upper
trim_space-to_upper = trim_space-case upper_byte to_upper refl (λ c s. refl) is_space-upper_byte

pub trim_space-to_lower : (s : Text) → trim_space (to_lower s) ≡ to_lower (trim_space s)
unfolding to_lower
trim_space-to_lower = trim_space-case lower_byte to_lower refl (λ c s. refl) is_space-lower_byte

keep-space : (c : ℕ) (t : Text) → is_space c ≡ true → trim_left (keep c t) ≡ trim_left t
unfolding keep trim_left
keep-space c [] h = ground arith
keep-space c (d ∷ t) h = rw h

pub keep-other : (c : ℕ) (t : Text) → is_space c ≡ false → keep c t ≡ c ∷ t
unfolding keep
keep-other c [] h = rw h
keep-other c (d ∷ t) h = refl

trim_left-other : (c : ℕ) (t : Text) → is_space c ≡ false → trim_left (c ∷ t) ≡ c ∷ t
unfolding trim_left
trim_left-other c t h = rw h

trim_left-space : (c : ℕ) (t : Text) → is_space c ≡ true → trim_left (c ∷ t) ≡ trim_left t
unfolding trim_left
trim_left-space c t h = rw h

trim_right-cons : (c : ℕ) (s : Text) → trim_right (c ∷ s) ≡ keep c (trim_right s)
unfolding trim_right
trim_right-cons c s = refl

trim_comm : (s : Text) → trim_left (trim_right s) ≡ trim_right (trim_left s)
trim_comm [] = unfold trim_left trim_right in refl
trim_comm (c ∷ s) = elim (Bool-cases (is_space c)) [
  | inl h ↦
      ap trim_left (trim_right-cons c s)
      ∙ keep-space c (trim_right s) h
      ∙ trim_comm s
      ∙ ap trim_right (sym (trim_left-space c s h))
  | inr h ↦
      ap trim_left (trim_right-cons c s ∙ keep-other c (trim_right s) h)
      ∙ trim_left-other c (trim_right s) h
      ∙ sym (trim_right-cons c s ∙ keep-other c (trim_right s) h)
      ∙ ap trim_right (sym (trim_left-other c s h))
]

trim_right-keep : (c : ℕ) (t : Text) → trim_right t ≡ t → trim_right (keep c t) ≡ keep c t
trim_right-keep c [] h = unfold keep trim_right in ground arith
trim_right-keep c (d ∷ t) h =
    (let e : keep c (d ∷ t) ≡ c ∷ d ∷ t = (unfold keep in refl) in
      ap trim_right e ∙ trim_right-cons c (d ∷ t) ∙ ap (keep c) h)

trim_right_idem : (s : Text) → trim_right (trim_right s) ≡ trim_right s
trim_right_idem [] = unfold trim_right in refl
trim_right_idem (c ∷ s) = rw trim_right-cons (trim_right-keep c (trim_right s) (trim_right_idem s))

pub trim_space-trim_right : (s : Text) → trim_space (trim_right s) ≡ trim_space s
unfolding trim_space
trim_space-trim_right s = ap trim_right (trim_comm s) ∙ trim_right_idem (trim_left s)

keep-le : (c : ℕ) (t : Text) → length (keep c t) ≤ length t + 1
unfolding keep
keep-le c [] = ground arith
keep-le c (d ∷ t) = omega arith

trim_right-le : (s : Text) → length (trim_right s) ≤ length s
unfolding trim_right
trim_right-le [] = omega arith
trim_right-le (c ∷ s) = omega (arith, keep-le c (trim_right s), trim_right-le s)

trim_left-le : (s : Text) → length (trim_left s) ≤ length s
unfolding trim_left
trim_left-le [] = omega arith
trim_left-le (c ∷ s) = ground (arith, trim_left-le s)

pub trim_space-le : (s : Text) → length (trim_space s) ≤ length s
unfolding trim_space
trim_space-le s = omega (arith, trim_right-le (trim_left s), trim_left-le s)
