-- ===== src/Handlers/DataSql/Shown.antt =====
-- internal/handlers/data.go: the rows in the reply to a query of the terminal.
use data_flow_agent_hub.Base.{
  ℕ, zero, suc, ◌≤◌, length, take, ltb, List, [], ◌∷◌, Bool, true, false, ◌≡◌, ap, sym, refl, arith,
  if◌then◌else◌,
}
use data_flow_agent_hub.Sqlrun.Run.{done, Row}
use data_flow_agent_hub.Handlers.DataSql.Terminal.{
  TerminalReply, refused, failed, selected, written, max_rows, select_reply,
}

length-take_le {ℓ} : {A : Type ℓ} (n : ℕ) (xs : List A) → length (take n xs) ≤ n
length-take_le zero xs = omega arith
length-take_le (suc n) [] = omega arith
length-take_le (suc n) (x ∷ xs) = omega (arith, length-take_le n xs)

cut-le {ℓ} :
    {A : Type ℓ} (n : ℕ) (rows : List A)
    → length (if ltb n (length rows) then take n rows else rows) ≤ n
cut-le n rows = go (ltb n (length rows)) refl
  where
    go : (b : Bool) → ltb n (length rows) ≡ b → length (if b then take n rows else rows) ≤ n
    go true e = length-take_le n rows
    go false e = ground (arith, e)

take-all {ℓ} : {A : Type ℓ} (n : ℕ) (xs : List A) → length xs ≤ n → take n xs ≡ xs
take-all zero [] h = refl
take-all zero (x ∷ xs) h = absurd (omega arith)
take-all (suc n) [] h = refl
take-all (suc n) (x ∷ xs) h = ap (◌∷◌ x) (take-all n xs (omega (arith, h)))

cut-take {ℓ} :
    {A : Type ℓ} (n : ℕ) (rows : List A)
    → (if ltb n (length rows) then take n rows else rows) ≡ take n rows
cut-take n rows = go (ltb n (length rows)) refl
  where
    go : (b : Bool) → ltb n (length rows) ≡ b → (if b then take n rows else rows) ≡ take n rows
    go true e = refl
    go false e = sym (take-all n rows (ground (arith, e)))

-- the rows that a reply shows
abbrev pub shown : {V : Type 0} → TerminalReply V → List (Row V)
shown (selected columns rows total truncated) = rows
shown (refused status message) = []
shown (failed e) = []
shown (written sql_type affected) = []

-- The terminal shows the first 500 rows of a query, or all of them when there are no more, and never
-- more than 500.
pub select_reply-bounds :
    {V : Type 0} (rows : List (Row V))
    → (shown (select_reply (done rows)) ≡ take max_rows rows)
      × (length (shown (select_reply (done rows))) ≤ max_rows)
unfolding select_reply
select_reply-bounds rows = (cut-take max_rows rows, cut-le max_rows rows)
