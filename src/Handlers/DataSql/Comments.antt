-- ===== src/Handlers/DataSql/Comments.antt =====
-- internal/handlers/data.go: the rounds of `removeBlockComments`.
use data_flow_agent_hub.Base.{
  ℕ, zero, suc, ◌+◌, ◌≤◌, ◌<◌, Text, codes, index, has_prefix, length, length-append, take, drop,
  List, [], ◌∷◌, ◌++◌, Option, none, some, ◌≡◌, ◌∙◌, sym, inl, inr, refl, ap, arith, Option-cases,
}
use data_flow_agent_hub.Base.Search.{index-split, index-append}
use data_flow_agent_hub.Handlers.DataSql.Parse.{
  Round, ends, goes_on, close_comment, open_comment, round, comments_loop, remove_block_comments,
}

-- the mark that opens a comment
abbrev pub opening : Text
opening = codes "/*"

length-take {ℓ} : {A : Type ℓ} (n : ℕ) (xs : List A) → n ≤ length xs → length (take n xs) ≡ n
length-take zero xs h = refl
length-take (suc n) [] h = absurd (omega arith)
length-take (suc n) (x ∷ xs) h = omega (arith, length-take n xs (omega arith))

length-drop {ℓ} :
    {A : Type ℓ} (n : ℕ) (xs : List A) → n ≤ length xs → length (drop n xs) + n ≡ length xs
length-drop zero xs h = omega arith
length-drop (suc n) [] h = absurd (omega arith)
length-drop (suc n) (x ∷ xs) h = omega (arith, length-drop n xs (omega arith))

take-drop {ℓ} : {A : Type ℓ} (n : ℕ) (xs : List A) → take n xs ++ drop n xs ≡ xs
take-drop zero xs = refl
take-drop (suc n) [] = refl
take-drop (suc n) (x ∷ xs) = ap (◌∷◌ x) (take-drop n xs)

-- a match ends inside the text
index-inside : (s sub : Text) (n : ℕ) → index s sub ≡ some n → n + length sub ≤ length s
index-inside s sub n h =
    let (pre, post, split, size) = index-split s sub n h in
    omega (arith, ap length split, length-append pre (sub ++ post), length-append sub post)

-- the text before the first match has no match
index-before : (s : Text) (n : ℕ) → index s opening ≡ some n → index (take n s) opening ≡ none
index-before s n h = elim (Option-cases (index (take n s) opening)) [
  | inl free ↦ free
  | inr (k, found) ↦
      let inside = index-inside (take n s) opening k found in
      let again : index s opening ≡ some k =
        ap (λ t. index t opening) (sym (take-drop n s))
        ∙ index-append (take n s) opening (drop n s) k found in
      absurd (
        omega (
          arith,
          inside,
          length-take n s (omega (arith, index-inside s opening n h)),
          ap (Option-or 0) (sym h ∙ again),
        ))
]
  where
    Option-or : ℕ → Option ℕ → ℕ
    Option-or d none = d
    Option-or d (some k) = k

-- what a round that goes on, or that ends, leaves
data Left (s : Text) : Round → Type 0 where
  at_end : (t : Text) → index t opening ≡ none → Left s (ends t)
  shorter : (t : Text) → length t < length s → Left s (goes_on t)

close_comment-Left :
    (s : Text) (start : ℕ) (o : Option ℕ)
    → index s opening ≡ some start
    → index (drop (start + 2) s) (codes "*/") ≡ o
    → Left s (close_comment s start o)
unfolding close_comment
close_comment-Left s start none h e = at_end (take start s) (index-before s start h)
close_comment-Left s start (some end) h e = shorter (take start s ++ drop (start + end + 4) s) (
    omega (
      arith,
      first,
      second,
      length-take start s (omega (arith, first)),
      length-drop (start + 2) s (omega (arith, first)),
      length-drop (start + end + 4) s
          (omega (arith, second, first, length-drop (start + 2) s (omega (arith, first)))),
      length-append (take start s) (drop (start + end + 4) s),
    ))
  where
    first : start + 2 ≤ length s
    first = index-inside s opening start h

    second : end + 2 ≤ length (drop (start + 2) s)
    second = index-inside (drop (start + 2) s) (codes "*/") end e

open_comment-Left : (s : Text) (o : Option ℕ) → index s opening ≡ o → Left s (open_comment s o)
unfolding open_comment
open_comment-Left s none h = at_end s h
open_comment-Left s (some start) h = close_comment-Left s start _ h refl

comments_loop-suc :
    (fuel : ℕ) (s t : Text)
    → round s ≡ goes_on t
    → comments_loop (suc fuel) s ≡ comments_loop fuel t
unfolding comments_loop
comments_loop-suc fuel s t e = ap (λ r. elim r [ ends u ↦ u | goes_on u ↦ comments_loop fuel u ]) e

comments_loop-ends : (fuel : ℕ) (s t : Text) → round s ≡ ends t → comments_loop (suc fuel) s ≡ t
unfolding comments_loop
comments_loop-ends fuel s t e = ap (λ r. elim r [ ends u ↦ u | goes_on u ↦ comments_loop fuel u ]) e

index-nil : index [] opening ≡ none
unfolding index has_prefix
index-nil = refl

loop-none : (fuel : ℕ) (s : Text) → length s ≤ fuel → index (comments_loop fuel s) opening ≡ none
loop-none zero [] h = unfold comments_loop in index-nil
loop-none zero (c ∷ s) h = absurd (omega arith)
loop-none (suc fuel) s h =
    go (round s) refl (unfold round in open_comment-Left s (index s opening) refl) (loop-none fuel)
  where
    go :
        (r : Round)
        → round s ≡ r
        → Left s r
        → ((t : Text) → length t ≤ fuel → index (comments_loop fuel t) opening ≡ none)
        → index (comments_loop (suc fuel) s) opening ≡ none
    go _ e (at_end t free) next = ap (λ u. index u opening) (comments_loop-ends fuel s t e) ∙ free
    go _ e (shorter t less) next =
        ap (λ u. index u opening) (comments_loop-suc fuel s t e) ∙ next t (omega (arith, less, h))

-- `removeBlockComments` ends, since each round that goes on leaves a shorter text, and no text that
-- it returns holds the mark that opens a block comment.
pub remove_block_comments-none : (s : Text) → index (remove_block_comments s) opening ≡ none
unfolding remove_block_comments
remove_block_comments-none s = loop-none (length s) s (omega arith)
