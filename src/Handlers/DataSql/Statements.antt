-- ===== src/Handlers/DataSql/Statements.antt =====
-- internal/handlers/data.go: the shape of the statements of a file.
use data_flow_agent_hub.Base.{
  ℕ, Text, is_space, keep, trim_left, trim_right, trim_space, List, [], ◌∷◌, false, ◌≡◌, ◌≢◌, ◌==◌,
  All, if_cases,
}
use data_flow_agent_hub.Handlers.DataSql.Parse.{
  split_head, split, add_part, trimmed_parts, joined_lines, parse_sql,
}

-- no byte of the text is `sep`
abbrev pub Free : ℕ → Text → Type 0
Free sep s = All (λ c. (c == sep) ≡ false) s

split_head-Free :
    (sep c : ℕ) (parts : List Text)
    → (c == sep) ≡ false
    → All (Free sep) parts
    → All (Free sep) (split_head c parts)
unfolding split_head
split_head-Free sep c [] e h = ((e, tt), tt)
split_head-Free sep c (part ∷ parts) e (h, hs) = ((e, h), hs)

split-Free : (sep : ℕ) (s : Text) → All (Free sep) (split sep s)
unfolding split
split-Free sep [] = (tt, tt)
split-Free sep (c ∷ s) =
    if_cases (λ (x : List Text). All (Free sep) x) (c == sep) ([] ∷ split sep s)
      (split_head c (split sep s)) (λ e. (tt, split-Free sep s))
      (λ e. split_head-Free sep c (split sep s) e (split-Free sep s))

-- what holds of every byte of a text holds of every byte of the trimmed text
module _ (P : ℕ → Type 0) where
  trim_left-All : (s : Text) → All P s → All P (trim_left s)
  unfolding trim_left
  trim_left-All [] h = tt
  trim_left-All (c ∷ s) (p, h) =
      if_cases (λ (x : Text). All P x) (is_space c) (trim_left s) (c ∷ s) (λ e. trim_left-All s h)
        (λ e. (p, h))

  keep-All : (c : ℕ) (s : Text) → P c → All P s → All P (keep c s)
  unfolding keep
  keep-All c [] p h =
      if_cases (λ (x : Text). All P x) (is_space c) [] (c ∷ []) (λ e. tt) (λ e. (p, tt))
  keep-All c (d ∷ s) p h = (p, h)

  trim_right-All : (s : Text) → All P s → All P (trim_right s)
  unfolding trim_right
  trim_right-All [] h = tt
  trim_right-All (c ∷ s) (p, h) = keep-All c (trim_right s) p (trim_right-All s h)

  trim_space-All : (s : Text) → All P s → All P (trim_space s)
  unfolding trim_space
  trim_space-All s h = trim_right-All (trim_left s) (trim_left-All s h)

-- a statement: it holds no semicolon, and is not empty
pub record IsStatement (s : Text) : Type 0 where
  pub no_semicolon : Free b';' s
  pub not_empty : s ≢ []

add_part-IsStatement :
    (s : Text) (parts : List Text)
    → Free b';' s
    → All IsStatement parts
    → All IsStatement (add_part s parts)
unfolding add_part
add_part-IsStatement [] parts h hs = hs
add_part-IsStatement (c ∷ s) parts h hs =
    (record { no_semicolon = h; not_empty = λ e. absurd (cc e) }, hs)

trimmed_parts-IsStatement :
    (parts : List Text) → All (Free b';') parts → All IsStatement (trimmed_parts parts)
unfolding trimmed_parts
trimmed_parts-IsStatement [] h = tt
trimmed_parts-IsStatement (s ∷ parts) (h, hs) =
    add_part-IsStatement (trim_space s) (trimmed_parts parts)
      (trim_space-All (λ c. (c == b';') ≡ false) s h) (trimmed_parts-IsStatement parts hs)

-- No statement that `parseSQL` returns is empty, and none holds a semicolon, be it inside of a quoted
-- text of the file or not.
pub parse_sql-IsStatement : (content : Text) → All IsStatement (parse_sql content)
unfolding parse_sql
parse_sql-IsStatement content =
    trimmed_parts-IsStatement (split b';' (joined_lines content))
      (split-Free b';' (joined_lines content))
