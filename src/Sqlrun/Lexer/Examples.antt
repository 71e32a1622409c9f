-- ===== src/Sqlrun/Lexer/Examples.antt =====
-- Runs of the lexer.
use data_flow_agent_hub.Base.{
  codes, contains, All, List, [], ◌∷◌, ◌++◌, none, some, ◌≡◌, ◌↔◌, refl, arith,
}
use data_flow_agent_hub.Sqlrun.Lexer.{is_alpha, in_word, tokenize, is_read_only_sql}
use data_flow_agent_hub.Sqlrun.Lexer.RoundTrip.{
  Piece, literal, block_comment, name, IsPiece, write_all, names, tokenize-write_all,
}
use data_flow_agent_hub.Sqlrun.Lexer.ReadOnly.{
  IsReadWord, read_only-write_all, read_only-escaped_quote,
}

tokens_of_query :
    tokenize (codes "select a1, 'INSERT' /* drop */ from t -- x")
    ≡ codes "select" ∷ codes "a1" ∷ codes "from" ∷ codes "t" ∷ []
unfolding tokenize
tokens_of_query = refl

hidden_insert : is_read_only_sql (codes "/**/insert/**/ into t") ≡ some (codes "INSERT")
unfolding is_read_only_sql
hidden_insert = refl

abbrev hidden_drop : List Piece
hidden_drop =
    name b's' (codes "elect")
    ∷ literal (codes "it's; drop")
    ∷ block_comment (codes " drop * ")
    ∷ name b't' []
    ∷ []

hidden_drop_pieces : All IsPiece hidden_drop
unfolding is_alpha in_word contains
hidden_drop_pieces =
    ((refl, (refl, (refl, (refl, (refl, (refl, tt)))))), (tt, (refl, ((refl, tt), tt))))

tokenize-write_all_example : tokenize (write_all hidden_drop) ≡ names hidden_drop
tokenize-write_all_example = tokenize-write_all hidden_drop hidden_drop_pieces

read_only-write_all_example :
    (is_read_only_sql (write_all hidden_drop) ≡ none) ↔ All IsReadWord (names hidden_drop)
read_only-write_all_example = read_only-write_all hidden_drop hidden_drop_pieces

read_only-escaped_quote_example :
    is_read_only_sql (codes "SELECT '\\''" ++ codes "; DROP TABLE users") ≡ none
read_only-escaped_quote_example = read_only-escaped_quote (codes "; DROP TABLE users") (omega arith)
