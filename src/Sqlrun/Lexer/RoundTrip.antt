-- ===== src/Sqlrun/Lexer/RoundTrip.antt =====
-- What the lexer finds in a text that is written piece by piece.
use data_flow_agent_hub.Base.{
  ℕ, zero, suc, ◌+◌, Text, codes, index, contains, length, drop, All, List, [], ◌∷◌, ◌++◌, true,
  false, ◌||◌, Option, some, ◌≡◌, ◌≢◌, refl, ap, sym, ◌∙◌, arith, ◌==◌, if◌then◌else◌,
}
use data_flow_agent_hub.Sqlrun.Lexer.{
  is_blank, is_alpha, in_word, quote, backtick, skip_string, skip_backtick, take_word, drop_word,
  jump, Kind, single, back, letter, other, kind, branch, skip, tokenize,
}
use data_flow_agent_hub.Sqlrun.Lexer.Loop.{tokenize-nil, tokenize-skip, tokenize-word}

pub data Piece : Type 0 where
  space : ℕ → Piece
  line_comment : Text → Piece
  block_comment : Text → Piece
  literal : Text → Piece
  quoted_name : Text → Piece
  name : ℕ → Text → Piece
  symbol : ℕ → Piece

-- the contents of a string literal with each quote doubled, and the closing quote
unfoldable pub write_literal : Text → Text → Text
write_literal [] rest = quote ∷ rest
write_literal (c ∷ b) rest =
    if c == quote then quote ∷ quote ∷ write_literal b rest else c ∷ write_literal b rest

-- a piece as SQL text, in front of the text behind it; names, literals and symbols end in a blank
unfoldable pub write : Piece → Text → Text
unfolding write_literal
write (space c) rest = c ∷ rest
write (line_comment b) rest = b'-' ∷ b'-' ∷ b ++ (10 ∷ rest)
write (block_comment b) rest = b'/' ∷ b'*' ∷ b ++ (b'*' ∷ b'/' ∷ rest)
write (literal b) rest = quote ∷ write_literal b (32 ∷ rest)
write (quoted_name b) rest = backtick ∷ b ++ (backtick ∷ rest)
write (name c w) rest = c ∷ w ++ (32 ∷ rest)
write (symbol c) rest = c ∷ 32 ∷ rest

unfoldable pub write_all : List Piece → Text
unfolding write
write_all [] = []
write_all (p ∷ ps) = write p (write_all ps)

abbrev pub IsPiece : Piece → Type 0
IsPiece (space c) = is_blank c ≡ true
IsPiece (line_comment b) = All (λ c. c ≢ 10) b
IsPiece (block_comment b) = contains b (codes "*/") ≡ false
IsPiece (literal b) = Unit
IsPiece (quoted_name b) = All (λ c. c ≢ backtick) b
IsPiece (name c w) = ((is_alpha c || c == b'_') ≡ true) × All (λ d. in_word d ≡ true) w
IsPiece (symbol c) = kind c (32 ∷ []) ≡ other

-- the names among the pieces
unfoldable pub names : List Piece → List Text
names [] = []
names (name c w ∷ ps) = (c ∷ w) ∷ names ps
names (p ∷ ps) = names ps

drop_past : (b : Text) (n k : ℕ) (r : Text) → n ≡ length b + k → drop n (b ++ r) ≡ drop k r
drop_past [] n k r e = let e' : n ≡ k = omega arith in rw e'
drop_past (c ∷ b) zero k r e = absurd (omega arith)
drop_past (c ∷ b) (suc n) k r e = drop_past b n k r (omega arith)

index_newline :
    (b r : Text) → All (λ c. c ≢ 10) b → index (b ++ (10 ∷ r)) (codes "\n") ≡ some (length b)
unfolding index
index_newline [] r h = refl
index_newline (c ∷ b) r h = ground (arith, index_newline b r h.1)

index_close :
    (b r : Text)
    → contains b (codes "*/") ≡ false
    → index (b ++ (b'*' ∷ b'/' ∷ r)) (codes "*/") ≡ some (length b)
unfolding index contains
index_close [] r h = refl
index_close (c ∷ []) r h = ground arith
index_close (c ∷ d ∷ b) r h = ground (arith, index_close (d ∷ b) r)

pub skip_string_other : (c : ℕ) (s : Text) → c ≢ quote → skip_string (c ∷ s) ≡ skip_string s
unfolding skip_string
skip_string_other c [] h = refl
skip_string_other c (d ∷ s) h = ground arith

skip_string_doubled : (s : Text) → skip_string (quote ∷ quote ∷ s) ≡ skip_string s
unfolding skip_string
skip_string_doubled s = refl

skip_string-literal : (b r : Text) → skip_string (write_literal b (32 ∷ r)) ≡ 32 ∷ r
unfolding write_literal
skip_string-literal [] r = unfold skip_string in refl
skip_string-literal (c ∷ b) r = ground (
  arith,
  skip_string_doubled (write_literal b (32 ∷ r)),
  skip_string_other c (write_literal b (32 ∷ r)),
  skip_string-literal b r,
)

skip_backtick-append :
    (b r : Text) → All (λ c. c ≢ backtick) b → skip_backtick (b ++ (backtick ∷ r)) ≡ r
unfolding skip_backtick
skip_backtick-append [] r h = refl
skip_backtick-append (c ∷ b) r h = ground (arith, skip_backtick-append b r h.1)

take_word-append : (w r : Text) → All (λ d. in_word d ≡ true) w → take_word (w ++ (32 ∷ r)) ≡ w
unfolding take_word
take_word-append [] r h = refl
take_word-append (c ∷ w) r h = rw h.0 (ap (◌∷◌ c) (take_word-append w r h.1))

drop_word-append : (w r : Text) → All (λ d. in_word d ≡ true) w → drop_word (w ++ (32 ∷ r)) ≡ 32 ∷ r
unfolding drop_word
drop_word-append [] r h = refl
drop_word-append (c ∷ w) r h = rw h.0 (drop_word-append w r h.1)

alpha-in_word : (c : ℕ) → (is_alpha c || c == b'_') ≡ true → in_word c ≡ true
unfolding in_word
alpha-in_word c h = ground arith

blank_kind : (c : ℕ) (s : Text) → is_blank c ≡ true → kind c s ≡ Kind.blank
unfolding kind
blank_kind c s h = ground arith

letter_kind : (c : ℕ) (s : Text) → (is_alpha c || c == b'_') ≡ true → kind c s ≡ letter
unfolding kind
letter_kind c s h = ground arith

-- the kind of a symbol does not depend on what stands behind the blank
symbol_kind : (c : ℕ) (r : Text) → kind c (32 ∷ []) ≡ other → kind c (32 ∷ r) ≡ other
unfolding kind
symbol_kind c r h = ground arith

jump_to :
    (o : Option ℕ) (n by : ℕ) (s r : Text) → o ≡ some n → drop (n + by) s ≡ r → jump o by s ≡ skip r
unfolding jump
jump_to o n by s r e h = rw e (ap skip h)

tokenize_blank : (s : Text) → tokenize (32 ∷ s) ≡ tokenize s
tokenize_blank s =
    tokenize-skip Kind.blank 32 s s (blank_kind 32 s (unfold is_blank in refl))
      (unfold branch in refl)

comment_end :
    (b r : Text)
    → All (λ c. c ≢ 10) b
    → branch Kind.line_comment b'-' (b'-' ∷ b ++ (10 ∷ r)) ≡ skip r
unfolding branch
comment_end b r h =
    let b' : Text = b'-' ∷ b'-' ∷ b in
    jump_to (index (b' ++ (10 ∷ r)) (codes "\n")) (length b') 1 _ r
      (index_newline b' r (omega arith, (omega arith, h))) (drop_past b' _ 1 (10 ∷ r) refl)

line_comment-hidden :
    (b r : Text) → All (λ c. c ≢ 10) b → tokenize (write (line_comment b) r) ≡ tokenize r
unfolding write
line_comment-hidden b r h =
    tokenize-skip Kind.line_comment b'-' (b'-' ∷ b ++ (10 ∷ r)) r (unfold kind in refl)
      (comment_end b r h)

close_end :
    (b r : Text)
    → contains b (codes "*/") ≡ false
    → branch Kind.block_comment b'/' (b'*' ∷ b ++ (b'*' ∷ b'/' ∷ r)) ≡ skip r
unfolding branch
close_end b r h =
    let b' : Text = b'/' ∷ b'*' ∷ b in
    jump_to (index (b ++ (b'*' ∷ b'/' ∷ r)) (codes "*/")) (length b) 4 _ r (index_close b r h)
      (drop_past b' (length b + 4) 2 (b'*' ∷ b'/' ∷ r) (omega arith))

block_comment-hidden :
    (b r : Text)
    → contains b (codes "*/") ≡ false
    → tokenize (write (block_comment b) r) ≡ tokenize r
unfolding write
block_comment-hidden b r h =
    tokenize-skip Kind.block_comment b'/' (b'*' ∷ b ++ (b'*' ∷ b'/' ∷ r)) r (unfold kind in refl)
      (close_end b r h)

literal-hidden : (b r : Text) → tokenize (write (literal b) r) ≡ tokenize r
unfolding write
literal-hidden b r =
    tokenize-skip single quote (write_literal b (32 ∷ r)) (32 ∷ r) (unfold kind in refl)
      (unfold branch in ap skip (skip_string-literal b r))
    ∙ tokenize_blank r

quoted_name-hidden :
    (b r : Text) → All (λ c. c ≢ backtick) b → tokenize (write (quoted_name b) r) ≡ tokenize r
unfolding write
quoted_name-hidden b r h =
    tokenize-skip back backtick (b ++ (backtick ∷ r)) r (unfold kind in refl)
      (unfold branch in ap skip (skip_backtick-append b r h))

pub name-read :
    (c : ℕ) (w r : Text) → IsPiece (name c w) → tokenize (write (name c w) r) ≡ (c ∷ w) ∷ tokenize r
unfolding write
name-read c w r h =
    let all_in : All (λ d. in_word d ≡ true) (c ∷ w) = (alpha-in_word c h.0, h.1) in
    tokenize-word letter c (w ++ (32 ∷ r)) (c ∷ w) (32 ∷ r) (letter_kind c _ h.0)
      (unfold branch in cc (take_word-append (c ∷ w) r all_in, drop_word-append (c ∷ w) r all_in))
    ∙ ap (◌∷◌ (c ∷ w)) (tokenize_blank r)

-- what a piece adds to the words
abbrev words_of : Piece → List Text → List Text
words_of (name c w) ws = (c ∷ w) ∷ ws
words_of _ ws = ws

tokenize-write : (p : Piece) (r : Text) → IsPiece p → tokenize (write p r) ≡ words_of p (tokenize r)
tokenize-write (space c) r h =
    unfold write in tokenize-skip Kind.blank c r r (blank_kind c r h) (unfold branch in refl)
tokenize-write (line_comment b) r h = line_comment-hidden b r h
tokenize-write (block_comment b) r h = block_comment-hidden b r h
tokenize-write (literal b) r h = literal-hidden b r
tokenize-write (quoted_name b) r h = quoted_name-hidden b r h
tokenize-write (name c w) r h = name-read c w r h
tokenize-write (symbol c) r h =
    unfold write in
    tokenize-skip other c (32 ∷ r) (32 ∷ r) (symbol_kind c r h) (unfold branch in refl)
    ∙ tokenize_blank r

names-words_of : (p : Piece) (ps : List Piece) → names (p ∷ ps) ≡ words_of p (names ps)
unfolding names
names-words_of (name c w) ps = refl
names-words_of _ ps = refl

-- A text that is written from blanks, comments, string literals, quoted names, names and symbols
-- has exactly its names for words, in their order: nothing in a comment, a literal (with its quotes
-- doubled) or a quoted name is taken for a word, and none of them hides a word behind it.
pub tokenize-write_all : (ps : List Piece) → All IsPiece ps → tokenize (write_all ps) ≡ names ps
unfolding write_all
tokenize-write_all [] h = unfold names in tokenize-nil
tokenize-write_all (p ∷ ps) (hp, hps) =
    tokenize-write p (write_all ps) hp
    ∙ ap (words_of p) (tokenize-write_all ps hps)
    ∙ sym (names-words_of p ps)
