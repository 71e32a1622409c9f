-- ===== src/Sqlrun/Classify/Laws.antt =====
-- Letter case, white space and parentheses in front of a statement, and its class.
use native.Mathlib.Nat.{le_refl}
use data_flow_agent_hub.Base.{
  ℕ, zero, suc, ◌≤◌, Text, to_upper, to_lower, is_space, keep, trim_right, trim_space, length, [],
  ◌∷◌, ◌≡◌, refl, ap, ◌∙◌, arith,
}
use data_flow_agent_hub.Base.Trim.{
  to_upper_idem, to_upper-to_lower, trim_space-to_upper, trim_space-to_lower, trim_space-trim_right,
  keep-other, trim_space-le,
}
use data_flow_agent_hub.Sqlrun.Classify.{strip_loop, strip_parens, classify_prefix, classify_sql}

-- A statement in lower case, and one in upper case, has the class of the statement as it is written.
pub classify-case :
    (s : Text)
    → (classify_sql (to_lower s) ≡ classify_sql s) × (classify_sql (to_upper s) ≡ classify_sql s)
unfolding classify_sql
classify-case s = (
  ap (λ u. classify_prefix (strip_parens u))
      (ap to_upper (trim_space-to_lower s) ∙ to_upper-to_lower (trim_space s)),
  ap (λ u. classify_prefix (strip_parens u))
      (ap to_upper (trim_space-to_upper s) ∙ to_upper_idem (trim_space s)),
)

strip_loop-enough :
    (f g : ℕ) (s : Text) → length s ≤ f → length s ≤ g → strip_loop f s ≡ strip_loop g s
unfolding strip_loop
strip_loop-enough zero zero s hf hg = refl
strip_loop-enough zero (suc g) [] hf hg = refl
strip_loop-enough (suc f) zero [] hf hg = refl
strip_loop-enough (suc f) (suc g) [] hf hg = refl
strip_loop-enough zero (suc g) (c ∷ s) hf hg = absurd (omega arith)
strip_loop-enough (suc f) zero (c ∷ s) hf hg = absurd (omega arith)
strip_loop-enough (suc f) (suc g) (c ∷ s) hf hg =
    ground (arith, trim_space-le s, strip_loop-enough f g (trim_space s))

-- `stripParens` ends by its own test: it drops one parenthesis and the white space behind it, and
-- goes on with the rest as with any text; the fuel of the model does not show.
pub strip_parens-cons : (s : Text) → strip_parens (b'(' ∷ s) ≡ strip_parens (trim_space s)
unfolding strip_parens
strip_parens-cons s =
    strip_loop-enough (length s) (length (trim_space s)) (trim_space s) (trim_space-le s)
      (le_refl _)

open_paren : (s : Text) → trim_space (b'(' ∷ s) ≡ b'(' ∷ trim_right s
unfolding trim_space keep
open_paren s = keep-other b'(' (trim_right s) (unfold is_space in refl)

-- A parenthesis in front of a statement does not change its class.
pub classify-paren : (s : Text) → classify_sql (b'(' ∷ s) ≡ classify_sql s
unfolding classify_sql
classify-paren s = ap classify_prefix (
    ap (λ u. strip_parens (to_upper u)) (open_paren s)
    ∙ (let e : strip_parens (to_upper (b'(' ∷ trim_right s))
            ≡ strip_parens (trim_space (to_upper (trim_right s))) =
          strip_parens-cons (to_upper (trim_right s)) in
        e)
    ∙ ap strip_parens (trim_space-to_upper (trim_right s) ∙ ap to_upper (trim_space-trim_right s)))
