-- ===== src/Sqlrun/Classify.antt =====
-- `ClassifySQL` of internal/sqlrun/classify.go.
pub mod Laws
pub mod Examples
use data_flow_agent_hub.Base.{
  ℕ, zero, suc, Text, codes, to_upper, trim_space, has_prefix, length, drop, [], ◌∷◌, Bool, true,
  false, ◌||◌, ◌==◌, if◌then◌else◌,
}

-- the values of `SQLType` that `ClassifySQL` returns
pub data SqlType : Type 0 where
  select insert update delete create_table create_db drop_sql alter truncate unknown : SqlType

-- the end of the text, or a blank, a tab or a newline
unfoldable pub ends_word : Text → Bool
ends_word [] = true
ends_word (c ∷ rest) = c == 32 || c == 9 || c == 10

unfoldable pub has_prefix_word : Text → Text → Bool
unfolding has_prefix ends_word
has_prefix_word s word = if has_prefix s word then ends_word (drop (length word) s) else false

-- The loop of `stripParens`: each round drops a byte, so that the length is fuel enough (`Laws`).
unfoldable pub strip_loop : ℕ → Text → Text
unfolding trim_space
strip_loop zero s = s
strip_loop (suc fuel) [] = []
strip_loop (suc fuel) (c ∷ s) = elim (c == b'(') [
  | true ↦ strip_loop fuel (trim_space s)
  | false ↦ c ∷ s
]

unfoldable pub strip_parens : Text → Text
unfolding strip_loop
strip_parens s = strip_loop (length s) s

-- the `switch` of `ClassifySQL`, on the prepared text
unfoldable pub classify_prefix : Text → SqlType
unfolding has_prefix_word
classify_prefix u =
    if has_prefix_word u (codes "SELECT")
    then select
    else if has_prefix_word u (codes "WITH")
    then select
    else if has_prefix_word u (codes "INSERT")
    then insert
    else if has_prefix_word u (codes "UPDATE")
    then update
    else if has_prefix_word u (codes "DELETE")
    then delete
    else if has_prefix_word u (codes "TRUNCATE")
    then truncate
    else if has_prefix_word u (codes "CREATE TABLE")
    then create_table
    else if has_prefix_word u (codes "CREATE DATABASE")
    then create_db
    else if has_prefix_word u (codes "CREATE")
    then create_table
    else if has_prefix_word u (codes "DROP")
    then drop_sql
    else if has_prefix_word u (codes "ALTER")
    then alter
    else unknown

unfoldable pub classify_sql : Text → SqlType
unfolding to_upper trim_space strip_parens classify_prefix
classify_sql sql = classify_prefix (strip_parens (to_upper (trim_space sql)))
