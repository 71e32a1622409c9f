-- ===== src/Sqlrun/Lexer/Loop.antt =====
-- The rounds of the lexer's loop, and its fuel.
use native.Mathlib.Nat.{le_refl}
use data_flow_agent_hub.Base.{
  ℕ, zero, suc, ◌+◌, ◌≤◌, ◌<◌, Text, length, drop, length-drop-le, List, [], ◌∷◌, Option, none,
  some, ◌≡◌, refl, ap, arith, ◌==◌, ◌||◌, true, sym, ◌∙◌,
}
use data_flow_agent_hub.Sqlrun.Lexer.{
  is_digit, is_alpha, skip_string, skip_double, skip_backtick, drop_word, drop_digits, Kind, blank,
  line_comment, block_comment, single, double, back, letter, digit, other, kind, branch, Step, stop,
  skip, word, jump, step, scan, tokenize,
}

skip_string-le : (s : Text) → length (skip_string s) ≤ length s
unfolding skip_string
skip_string-le [] = omega arith
skip_string-le (c ∷ []) = omega arith
skip_string-le (c ∷ d ∷ s) = ground (arith, skip_string-le s, skip_string-le (d ∷ s))

skip_double-le : (s : Text) → length (skip_double s) ≤ length s
unfolding skip_double
skip_double-le [] = omega arith
skip_double-le (c ∷ []) = omega arith
skip_double-le (c ∷ d ∷ s) = ground (arith, skip_double-le s, skip_double-le (d ∷ s))

skip_backtick-le : (s : Text) → length (skip_backtick s) ≤ length s
unfolding skip_backtick
skip_backtick-le [] = omega arith
skip_backtick-le (c ∷ s) = ground (arith, skip_backtick-le s)

drop_word-le : (s : Text) → length (drop_word s) ≤ length s
unfolding drop_word
drop_word-le [] = omega arith
drop_word-le (c ∷ s) = ground (arith, drop_word-le s)

drop_digits-le : (s : Text) → length (drop_digits s) ≤ length s
unfolding drop_digits
drop_digits-le [] = omega arith
drop_digits-le (c ∷ s) = ground (arith, drop_digits-le s)

letter_kind : (c : ℕ) (s : Text) → kind c s ≡ letter → (is_alpha c || c == b'_') ≡ true
unfolding kind
letter_kind c s e = ground arith

digit_kind : (c : ℕ) (s : Text) → kind c s ≡ digit → is_digit c ≡ true
unfolding kind
digit_kind c s e = ground arith

drop_word-lt :
    (c : ℕ) (s : Text) → (is_alpha c || c == b'_') ≡ true → length (drop_word (c ∷ s)) ≤ length s
unfolding drop_word
drop_word-lt c s h = ground (arith, drop_word-le s)

drop_digits-lt : (c : ℕ) (s : Text) → is_digit c ≡ true → length (drop_digits (c ∷ s)) ≤ length s
unfolding drop_digits
drop_digits-lt c s h = ground (arith, drop_digits-le s)

-- the text behind a round is no longer than the text behind the byte that the round reads
pub data Within (n : ℕ) : Step → Type 0 where
  stops : Within n stop
  skips : {rest : Text} → length rest ≤ n → Within n (skip rest)
  reads : {w rest : Text} → length rest ≤ n → Within n (word w rest)

drop-lt : (n c : ℕ) (s : Text) → 0 < n → length (drop n (c ∷ s)) ≤ length s
drop-lt zero c s h = absurd (omega arith)
drop-lt (suc n) c s h = length-drop-le n s

jump-Within : (o : Option ℕ) (by c : ℕ) (s : Text) → 0 < by → Within (length s) (jump o by (c ∷ s))
unfolding jump
jump-Within none by c s h = stops
jump-Within (some end) by c s h = skips (drop-lt (end + by) c s (omega arith))

branch-Within : (k : Kind) (c : ℕ) (s : Text) → kind c s ≡ k → Within (length s) (branch k c s)
unfolding branch
branch-Within blank c s e = skips (le_refl _)
branch-Within line_comment c s e = jump-Within _ 1 c s (omega arith)
branch-Within block_comment c s e = jump-Within _ 4 c s (omega arith)
branch-Within single c s e = skips (skip_string-le s)
branch-Within double c s e = skips (skip_double-le s)
branch-Within back c s e = skips (skip_backtick-le s)
branch-Within letter c s e = reads (drop_word-lt c s (letter_kind c s e))
branch-Within digit c s e = skips (drop_digits-lt c s (digit_kind c s e))
branch-Within other c s e = skips (le_refl _)

pub step-Within : (c : ℕ) (s : Text) → Within (length s) (step c s)
step-Within c s = unfold step in branch-Within (kind c s) c s refl

-- what the loop goes on with after a round
unfoldable pub go_on : (Text → List Text) → Step → List Text
go_on rec stop = []
go_on rec (skip rest) = rec rest
go_on rec (word w rest) = w ∷ rec rest

go_on-cong :
    (f g : Text → List Text) {n : ℕ} {r : Step}
    → Within n r
    → ((s : Text) → length s ≤ n → f s ≡ g s)
    → go_on f r ≡ go_on g r
unfolding go_on
go_on-cong f g stops e = refl
go_on-cong f g (skips {rest = r} h) e = e r h
go_on-cong f g (reads {w = w} {rest = r} h) e = ap (◌∷◌ w) (e r h)

scan-go_on : (f c : ℕ) (s : Text) → scan (suc f) (c ∷ s) ≡ go_on (scan f) (step c s)
unfolding scan go_on
scan-go_on f c s = by_step (step c s)
  where
    by_step :
        (r : Step)
        → elim r [ stop ↦ [] | skip rest ↦ scan f rest | word w rest ↦ w ∷ scan f rest ]
          ≡ go_on (scan f) r
    by_step stop = refl
    by_step (skip rest) = refl
    by_step (word w rest) = refl

scan-enough : (f g : ℕ) (s : Text) → length s ≤ f → length s ≤ g → scan f s ≡ scan g s
scan-enough zero zero [] hf hg = refl
scan-enough zero (suc g) [] hf hg = unfold scan in refl
scan-enough (suc f) zero [] hf hg = unfold scan in refl
scan-enough (suc f) (suc g) [] hf hg = unfold scan in refl
scan-enough zero g (c ∷ s) hf hg = absurd (omega arith)
scan-enough (suc f) zero (c ∷ s) hf hg = absurd (omega arith)
scan-enough (suc f) (suc g) (c ∷ s) hf hg =
    scan-go_on f c s
    ∙ go_on-cong (scan f) (scan g) (step-Within c s)
        (λ r h. scan-enough f g r (omega arith) (omega arith))
    ∙ sym (scan-go_on g c s)

-- The loop of `tokenize` terminates by its own test: on a text that is not empty it makes the round
-- for the first byte, and then does with the text behind that round what it does with any text.
-- The fuel of the model shows nowhere in this equation.
pub tokenize-step : (c : ℕ) (s : Text) → tokenize (c ∷ s) ≡ go_on tokenize (step c s)
unfolding tokenize
tokenize-step c s =
    scan-go_on (length s) c s
    ∙ go_on-cong (scan (length s)) tokenize (step-Within c s)
        (λ r h. scan-enough (length s) (length r) r h (le_refl _))

pub tokenize-nil : tokenize [] ≡ []
unfolding tokenize
tokenize-nil = refl

-- a round by the branch that is taken
pub tokenize-skip :
    (k : Kind) (c : ℕ) (s rest : Text)
    → kind c s ≡ k
    → branch k c s ≡ skip rest
    → tokenize (c ∷ s) ≡ tokenize rest
unfolding step go_on
tokenize-skip k c s rest e h = rw (tokenize-step c s) cc

pub tokenize-word :
    (k : Kind) (c : ℕ) (s w rest : Text)
    → kind c s ≡ k
    → branch k c s ≡ word w rest
    → tokenize (c ∷ s) ≡ w ∷ tokenize rest
unfolding step go_on
tokenize-word k c s w rest e h = rw (tokenize-step c s) cc
