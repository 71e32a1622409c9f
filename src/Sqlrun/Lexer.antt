-- ===== src/Sqlrun/Lexer.antt =====
-- `tokenize` and `IsReadOnlySQL` of internal/sqlrun/classify.go. The index `i` into the text is
-- modelled by the text from `i` on, and `sql[i]` by its head.
pub mod Loop
pub mod RoundTrip
pub mod ReadOnly
pub mod Examples
use data_flow_agent_hub.Base.{
  ℕ, zero, suc, ◌+◌, Text, codes, same, to_upper, index, length, drop, any, List, [], ◌∷◌, Bool,
  true, false, ◌&&◌, ◌||◌, Option, none, some, leb, ◌==◌, if◌then◌else◌,
}

unfoldable pub is_alpha : ℕ → Bool
is_alpha c = leb b'a' c && leb c b'z' || leb b'A' c && leb c b'Z'

unfoldable pub is_digit : ℕ → Bool
is_digit c = leb b'0' c && leb c b'9'

unfoldable pub is_alnum : ℕ → Bool
unfolding is_alpha is_digit
is_alnum c = is_alpha c || is_digit c

-- the test of the loop over a word
unfoldable pub in_word : ℕ → Bool
unfolding is_alnum
in_word c = is_alnum c || c == b'_'

unfoldable pub is_blank : ℕ → Bool
is_blank c = c == 32 || c == 9 || c == 10 || c == 13

abbrev pub quote : ℕ
quote = 39

abbrev pub double_quote : ℕ
double_quote = 34

abbrev pub backslash : ℕ
backslash = 92

abbrev pub backtick : ℕ
backtick = 96

-- `sql[i+1]` is there and is `d`
unfoldable pub starts : ℕ → Text → Bool
starts d [] = false
starts d (c ∷ s) = c == d

-- the loop over '…' from behind the opening quote; a doubled quote is an escape
unfoldable pub skip_string : Text → Text
skip_string [] = []
skip_string (c ∷ []) = []
skip_string (c ∷ d ∷ s) = elim (c == quote) [
  | true ↦ elim (d == quote) [ true ↦ skip_string s | false ↦ d ∷ s ]
  | false ↦ skip_string (d ∷ s)
]

-- the loop over "…"; a backslash hides the byte behind it
unfoldable pub skip_double : Text → Text
skip_double [] = []
skip_double (c ∷ []) = []
skip_double (c ∷ d ∷ s) = elim (c == double_quote) [
  | true ↦ d ∷ s
  | false ↦ elim (c == backslash) [ true ↦ skip_double s | false ↦ skip_double (d ∷ s) ]
]

-- the loop over `…`
unfoldable pub skip_backtick : Text → Text
skip_backtick [] = []
skip_backtick (c ∷ s) = if c == backtick then s else skip_backtick s

-- `sql[i:j]` and the text from `j` on, for the loop over a word
unfoldable pub take_word : Text → Text
unfolding in_word
take_word [] = []
take_word (c ∷ s) = if in_word c then c ∷ take_word s else []

unfoldable pub drop_word : Text → Text
unfolding in_word
drop_word [] = []
drop_word (c ∷ s) = if in_word c then drop_word s else c ∷ s

unfoldable pub drop_digits : Text → Text
unfolding is_digit
drop_digits [] = []
drop_digits (c ∷ s) = if is_digit c then drop_digits s else c ∷ s

-- One round of the loop: it breaks, goes on from a later place, or appends a word first.
pub data Step : Type 0 where
  stop : Step
  skip : Text → Step
  word : Text → Text → Step

-- `i += end + by`, or the break on -1
unfoldable pub jump : Option ℕ → ℕ → Text → Step
jump none by s = stop
jump (some end) by s = skip (drop (end + by) s)

-- the branches of the loop's body, in their order
pub data Kind : Type 0 where
  blank line_comment block_comment single double back letter digit other : Kind

unfoldable pub kind : ℕ → Text → Kind
unfolding is_blank starts is_alpha is_digit
kind c s =
    if is_blank c
    then blank
    else if c == b'-' && starts b'-' s
    then line_comment
    else if c == b'/' && starts b'*' s
    then block_comment
    else if c == quote
    then single
    else if c == double_quote
    then double
    else if c == backtick
    then back
    else if is_alpha c || c == b'_'
    then letter
    else if is_digit c
    then digit
    else other

unfoldable pub branch : Kind → ℕ → Text → Step
unfolding skip_string skip_double skip_backtick take_word drop_word drop_digits jump index
branch blank c s = skip s
branch line_comment c s = jump (index (c ∷ s) (codes "\n")) 1 (c ∷ s)
branch block_comment c s = jump (index (drop 1 s) (codes "*/")) 4 (c ∷ s)
branch single c s = skip (skip_string s)
branch double c s = skip (skip_double s)
branch back c s = skip (skip_backtick s)
branch letter c s = word (take_word (c ∷ s)) (drop_word (c ∷ s))
branch digit c s = skip (drop_digits (c ∷ s))
branch other c s = skip s

unfoldable pub step : ℕ → Text → Step
unfolding kind branch
step c s = branch (kind c s) c s

-- The loop, with fuel; A round moves on by a byte at least, so that the length is enough.
unfoldable pub scan : ℕ → Text → List Text
unfolding step
scan zero s = []
scan (suc fuel) [] = []
scan (suc fuel) (c ∷ s) = elim (step c s) [
  | stop ↦ []
  | skip rest ↦ scan fuel rest
  | word w rest ↦ w ∷ scan fuel rest
]

unfoldable pub tokenize : Text → List Text
unfolding scan
tokenize sql = scan (length sql) sql

-- `writeKeywords`
abbrev pub write_keywords : List Text
write_keywords =
    codes "INSERT"
    ∷ codes "UPDATE"
    ∷ codes "DELETE"
    ∷ codes "DROP"
    ∷ codes "ALTER"
    ∷ codes "TRUNCATE"
    ∷ codes "CREATE"
    ∷ codes "REPLACE"
    ∷ codes "MERGE"
    ∷ codes "EXEC"
    ∷ codes "EXECUTE"
    ∷ codes "CALL"
    ∷ codes "GRANT"
    ∷ codes "REVOKE"
    ∷ codes "LOAD"
    ∷ codes "IMPORT"
    ∷ codes "COPY"
    ∷ []

unfoldable pub is_write_keyword : Text → Bool
unfolding same
is_write_keyword upper = any (λ k. same k upper) write_keywords

-- the loop of `IsReadOnlySQL` over the words; the error carries the keyword
unfoldable pub first_write : List Text → Option Text
first_write [] = none
first_write (w ∷ words) =
    if is_write_keyword (to_upper w) then some (to_upper w) else first_write words

-- `IsReadOnlySQL`: `none` is a nil error
unfoldable pub is_read_only_sql : Text → Option Text
unfolding tokenize first_write is_write_keyword to_upper
is_read_only_sql sql = first_write (tokenize sql)
