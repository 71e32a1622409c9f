-- ===== src/Sqlrun/Lexer/ReadOnly.antt =====
-- What `IsReadOnlySQL` accepts.
use data_flow_agent_hub.Base.{
  Text, codes, to_upper, All, List, [], ◌∷◌, ◌++◌, false, none, ◌≡◌, ◌≢◌, ◌↔◌, refl, ap, ◌∙◌, arith,
}
use data_flow_agent_hub.Sqlrun.Lexer.{
  quote, skip_string, single, kind, branch, skip, in_word, is_alpha, is_write_keyword, first_write,
  tokenize, is_read_only_sql,
}
use data_flow_agent_hub.Sqlrun.Lexer.Loop.{tokenize-nil, tokenize-skip}
use data_flow_agent_hub.Sqlrun.Lexer.RoundTrip.{
  Piece, IsPiece, write_all, names, write, name-read, tokenize-write_all, skip_string_other,
}

abbrev pub IsReadWord : Text → Type 0
IsReadWord w = is_write_keyword (to_upper w) ≡ false

first_write-none : (ws : List Text) → (first_write ws ≡ none) ↔ All IsReadWord ws
unfolding first_write
first_write-none [] = (λ _. tt, λ _. refl)
first_write-none (w ∷ ws) = ground (arith, first_write-none ws)

read_only-words : (sql : Text) → is_read_only_sql sql ≡ first_write (tokenize sql)
unfolding is_read_only_sql
read_only-words sql = refl

-- A text that is written from pieces is accepted exactly when no name among them is, in any letter
-- case, a write keyword: what comments, literals and quoted names hold does not count.
pub read_only-write_all :
    (ps : List Piece)
    → All IsPiece ps
    → (is_read_only_sql (write_all ps) ≡ none) ↔ All IsReadWord (names ps)
read_only-write_all ps h =
    rw (read_only-words, tokenize-write_all ps h) (first_write-none (names ps))

skip_string-open : (t : Text) → All (λ c. c ≢ quote) t → skip_string t ≡ []
skip_string-open [] h = unfold skip_string in refl
skip_string-open (c ∷ t) h = skip_string_other c t h.0 ∙ skip_string-open t h.1

-- the text `'\''` and what follows it
abbrev escaped_quote : Text → Text
escaped_quote t = quote ∷ b'\\' ∷ quote ∷ quote ∷ t

skip_string-escaped :
    (t : Text) → All (λ c. c ≢ quote) t → skip_string (b'\\' ∷ quote ∷ quote ∷ t) ≡ []
skip_string-escaped t h =
    skip_string_other b'\\' (quote ∷ quote ∷ t) (omega arith)
    ∙ (let e : skip_string (quote ∷ quote ∷ t) ≡ skip_string t = (unfold skip_string in refl) in e)
    ∙ skip_string-open t h

tokenize-escaped : (t : Text) → All (λ c. c ≢ quote) t → tokenize (escaped_quote t) ≡ []
tokenize-escaped t h =
    tokenize-skip single quote (b'\\' ∷ quote ∷ quote ∷ t) [] (unfold kind in refl)
      (unfold branch in ap skip (skip_string-escaped t h))
    ∙ tokenize-nil

select-read :
    (t : Text) → tokenize (codes "SELECT '\\''" ++ t) ≡ codes "SELECT" ∷ tokenize (escaped_quote t)
unfolding write is_alpha in_word
select-read t =
    name-read b'S' (codes "ELECT") (escaped_quote t)
      (refl, (refl, (refl, (refl, (refl, (refl, tt))))))

-- The literal `'\''`, which MySQL ends at its last quote, leaves the lexer inside a string: whatever
-- follows it, a DELETE or a DROP too, is accepted as read-only as long as it holds no quote.
pub read_only-escaped_quote :
    (t : Text) → All (λ c. c ≢ quote) t → is_read_only_sql (codes "SELECT '\\''" ++ t) ≡ none
read_only-escaped_quote t h =
    read_only-words (codes "SELECT '\\''" ++ t)
    ∙ ap first_write (select-read t ∙ ap (◌∷◌ (codes "SELECT")) (tokenize-escaped t h))
    ∙ (unfold first_write is_write_keyword to_upper in refl)
