-- ===== src/Base/Search.antt =====
-- What a search for a substring, and for the first entry of a list, says.
use Prim.Native.Nat.{ℕ, zero, suc, ◌+◌, ◌≤◌, ◌<◌}
use mathlib.Core.Path.{◌≡◌, refl, ap, sym, ◌∙◌}
use mathlib.Core.Logic.{inl, inr}
use mathlib.Core.Bool.{Bool, true, false, ◌&&◌}
use mathlib.Core.Option.{Option, none, some}
use mathlib.Core.Option
use mathlib.Core.Logic.Or
use mathlib.Core.List.{Mem, mem-cons, List, [], ◌∷◌, ◌++◌}
use native.Mathlib.Omega.{arith}
use data_flow_agent_hub.Base.Tests.{Bool-cases, ◌==◌, is_some}
use data_flow_agent_hub.Base.Lists.{length, length-append, get_elem?, find?, any}
use data_flow_agent_hub.Base.Strings.{Text, has_prefix, index}

module _ {ℓ} {A : Type ℓ} where
  pub get_elem?-append_left :
      (xs ys : List A) (i : ℕ) → i < length xs → get_elem? (xs ++ ys) i ≡ get_elem? xs i
  get_elem?-append_left [] ys i h = elim h [ ]
  get_elem?-append_left (x ∷ xs) ys zero h = refl
  get_elem?-append_left (x ∷ xs) ys (suc i) h = get_elem?-append_left xs ys i (omega arith)

  pub get_elem?-append_right :
      (xs ys : List A) (i k : ℕ) → i ≡ length xs + k → get_elem? (xs ++ ys) i ≡ get_elem? ys k
  get_elem?-append_right [] ys i k e = let e' : i ≡ k = omega arith in rw e'
  get_elem?-append_right (x ∷ xs) ys zero k e = absurd (omega arith)
  get_elem?-append_right (x ∷ xs) ys (suc i) k e = get_elem?-append_right xs ys i k (omega arith)

  pub find?-sound : (p : A → Bool) (xs : List A) (a : A) → find? p xs ≡ some a → p a ≡ true
  find?-sound p [] a h = cc
  find?-sound p (x ∷ xs) a h = elim (Bool-cases (p x)) [
    | inl e ↦ ground (arith, e)
    | inr e ↦ find?-sound p xs a (rw e at h)
  ]

  pub find?-Mem : (p : A → Bool) (xs : List A) (a : A) → find? p xs ≡ some a → Mem a xs
  find?-Mem p [] a h = absurd (cc)
  find?-Mem p (x ∷ xs) a h = elim (Bool-cases (p x)) [
    | inl e ↦ mem-cons.1 (Or.inl (ground (arith, e)))
    | inr e ↦ mem-cons.1 (Or.inr (find?-Mem p xs a (rw e at h)))
  ]

  pub is_some-find? : (p : A → Bool) (xs : List A) → is_some (find? p xs) ≡ any p xs
  is_some-find? p [] = refl
  is_some-find? p (x ∷ xs) = ground (arith, is_some-find? p xs)

has_prefix-nil : (s : Text) → has_prefix s [] ≡ true
unfolding has_prefix
has_prefix-nil [] = refl
has_prefix-nil (c ∷ s) = refl

has_prefix-cons :
    (c d : ℕ) (s p : Text) → has_prefix (c ∷ s) (d ∷ p) ≡ true → (c ≡ d) × (has_prefix s p ≡ true)
unfolding has_prefix
has_prefix-cons c d s p h = ground arith

has_prefix-split : (s p : Text) → has_prefix s p ≡ true → (rest : Text) × (s ≡ p ++ rest)
has_prefix-split s [] h = (s, refl)
has_prefix-split [] (d ∷ p) h = absurd (unfold has_prefix in cc)
has_prefix-split (c ∷ s) (d ∷ p) h =
    let (head, tail) = has_prefix-cons c d s p h in
    let (rest, e) = has_prefix-split s p tail in (rest, cc (head, e))

has_prefix-append : (s p r : Text) → length p ≤ length s → has_prefix (s ++ r) p ≡ has_prefix s p
has_prefix-append s [] r h = has_prefix-nil (s ++ r) ∙ sym (has_prefix-nil s)
has_prefix-append [] (d ∷ p) r h = absurd (omega arith)
has_prefix-append (c ∷ s) (d ∷ p) r h = step (has_prefix-append s p r (omega arith))
  where
    step :
        has_prefix (s ++ r) p ≡ has_prefix s p
        → has_prefix (c ∷ (s ++ r)) (d ∷ p) ≡ has_prefix (c ∷ s) (d ∷ p)
    step e = unfold has_prefix in ap (λ b. (c == d) && b) e

has_prefix-le : (s p : Text) → has_prefix s p ≡ true → length p ≤ length s
has_prefix-le s [] h = omega arith
has_prefix-le [] (d ∷ p) h = absurd (unfold has_prefix in cc)
has_prefix-le (c ∷ s) (d ∷ p) h = omega (arith, has_prefix-le s p (has_prefix-cons c d s p h).1)

-- the two rounds of a search
index-here : (s sub : Text) → has_prefix s sub ≡ true → index s sub ≡ some 0
index-here [] sub h = unfold index in rw h
index-here (c ∷ s) sub h = unfold index in rw h

index-later :
    (c : ℕ) (s sub : Text)
    → has_prefix (c ∷ s) sub ≡ false
    → index (c ∷ s) sub ≡ Option.map suc (index s sub)
index-later c s sub h = unfold index in rw h

index-nil : (sub : Text) → has_prefix [] sub ≡ false → index [] sub ≡ none
index-nil sub h = unfold index in rw h

map_suc-some :
    (o : Option ℕ) (n : ℕ) → Option.map suc o ≡ some n → (m : ℕ) × (o ≡ some m) × (n ≡ suc m)
map_suc-some none n h = absurd (cc)
map_suc-some (some m) n h = (m, refl, ground arith)

-- A match at `n` splits the text there.
pub index-split :
    (s sub : Text) (n : ℕ)
    → index s sub ≡ some n
    → (pre : Text) × (post : Text) × (s ≡ pre ++ (sub ++ post)) × (length pre ≡ n)
index-split [] sub n h = elim (Bool-cases (has_prefix [] sub)) [
  | inl e ↦
      let (rest, split) = has_prefix-split [] sub e in
      ([], rest, split, ground (arith, index-here [] sub e))
  | inr e ↦ absurd (cc (index-nil sub e))
]
index-split (c ∷ s) sub n h = elim (Bool-cases (has_prefix (c ∷ s) sub)) [
  | inl e ↦
      let (rest, split) = has_prefix-split (c ∷ s) sub e in
      ([], rest, split, ground (arith, index-here (c ∷ s) sub e))
  | inr e ↦
      let (m, found, next) = map_suc-some (index s sub) n (sym (index-later c s sub e) ∙ h) in
      let (pre, post, split, size) = index-split s sub m found in
      (c ∷ pre, post, ap (◌∷◌ c) split, omega arith)
]

index-le : (s sub : Text) (n : ℕ) → index s sub ≡ some n → length sub ≤ length s
index-le s sub n h =
    let (pre, post, split, size) = index-split s sub n h in
    omega (arith, ap length split, length-append pre (sub ++ post), length-append sub post)

-- The first match stays the first one whatever text is put behind.
pub index-append : (s sub r : Text) (n : ℕ) → index s sub ≡ some n → index (s ++ r) sub ≡ some n
index-append [] sub r n h = elim (Bool-cases (has_prefix [] sub)) [
  | inl e ↦
      index-here r sub (has_prefix-append [] sub r (index-le [] sub n h) ∙ e)
      ∙ sym (index-here [] sub e)
      ∙ h
  | inr e ↦ absurd (cc (index-nil sub e))
]
index-append (c ∷ s) sub r n h = elim (Bool-cases (has_prefix (c ∷ s) sub)) [
  | inl e ↦
      index-here (c ∷ (s ++ r)) sub (has_prefix-append (c ∷ s) sub r (index-le (c ∷ s) sub n h) ∙ e)
      ∙ sym (index-here (c ∷ s) sub e)
      ∙ h
  | inr e ↦
      let (m, found, next) = map_suc-some (index s sub) n (sym (index-later c s sub e) ∙ h) in
      index-later c (s ++ r) sub (has_prefix-append (c ∷ s) sub r (index-le (c ∷ s) sub n h) ∙ e)
      ∙ ap (Option.map suc) (index-append s sub r m found)
      ∙ ap some (sym next)
]
