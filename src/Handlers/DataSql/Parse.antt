-- ===== src/Handlers/DataSql/Parse.antt =====
-- internal/handlers/data.go: an uploaded SQL file as a list of statements.
use data_flow_agent_hub.Base.{
  ℕ, zero, suc, ◌+◌, Text, codes, index, trim_space, length, take, drop, List, [], ◌∷◌, ◌++◌,
  Option, none, some, ◌==◌, if◌then◌else◌,
}

-- `strings.Split(s, sep)` for a separator of one byte
unfoldable pub split_head : ℕ → List Text → List Text
split_head c [] = (c ∷ []) ∷ []
split_head c (part ∷ parts) = (c ∷ part) ∷ parts

unfoldable pub split : ℕ → Text → List Text
unfolding split_head
split sep [] = [] ∷ []
split sep (c ∷ s) = let rest = split sep s in if c == sep then [] ∷ rest else split_head c rest

-- `strings.Join(parts, sep)`
unfoldable pub join : Text → List Text → Text
join sep [] = []
join sep (part ∷ []) = part
join sep (part ∷ next ∷ parts) = part ++ (sep ++ join sep (next ∷ parts))

-- what one round of the loop of `removeBlockComments` does: it ends with a text, or goes on
pub data Round : Type 0 where
  ends goes_on : Text → Round

unfoldable pub close_comment : Text → ℕ → Option ℕ → Round
close_comment s start none = ends (take start s)
close_comment s start (some end) = goes_on (take start s ++ drop (start + end + 4) s)

unfoldable pub open_comment : Text → Option ℕ → Round
unfolding close_comment index
open_comment s none = ends s
open_comment s (some start) = close_comment s start (index (drop (start + 2) s) (codes "*/"))

unfoldable pub round : Text → Round
unfolding open_comment
round s = open_comment s (index s (codes "/*"))

-- Each round that goes on drops four bytes, so that the length is fuel enough.
unfoldable pub comments_loop : ℕ → Text → Text
unfolding round
comments_loop zero s = s
comments_loop (suc fuel) s = elim (round s) [ ends t ↦ t | goes_on t ↦ comments_loop fuel t ]

unfoldable pub remove_block_comments : Text → Text
unfolding comments_loop
remove_block_comments s = comments_loop (length s) s

-- the text before a first `--`
unfoldable pub before : Text → Option ℕ → Text
before line none = line
before line (some idx) = take idx line

unfoldable pub remove_line_comment : Text → Text
unfolding before index
remove_line_comment line = before line (index line (codes "--"))

-- the trimmed texts that are not empty
unfoldable pub add_part : Text → List Text → List Text
add_part [] parts = parts
add_part (c ∷ s) parts = (c ∷ s) ∷ parts

unfoldable pub trimmed_parts : List Text → List Text
unfolding add_part trim_space
trimmed_parts [] = []
trimmed_parts (s ∷ parts) = add_part (trim_space s) (trimmed_parts parts)

unfoldable pub map_lines : List Text → List Text
unfolding remove_line_comment
map_lines [] = []
map_lines (line ∷ lines) = remove_line_comment line ∷ map_lines lines

-- the lines without comments, in one text
unfoldable pub joined_lines : Text → Text
unfolding split join remove_block_comments trimmed_parts map_lines
joined_lines content =
    join (codes " ") (trimmed_parts (map_lines (split b'\n' (remove_block_comments content))))

-- `parseSQL`
unfoldable pub parse_sql : Text → List Text
unfolding split trimmed_parts joined_lines
parse_sql content = trimmed_parts (split b';' (joined_lines content))
