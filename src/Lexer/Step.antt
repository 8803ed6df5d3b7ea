-- ===== src/Lexer/Step.antt =====
-- lexer.py, `tokenise_with_comments`: one round of its loop, at an offset that is inside the source.
use power_bridge.Base.{
  ℕ, zero, suc, ◌+◌, ◌-◌, Bool, false, not, ◌&&◌, Option, none, some, List, [], ◌∷◌, map, ltb, ◌==◌,
  if◌then◌else◌, take, drop,
}
use power_bridge.Lexer.Chars.{
  codes, list_eq, one_of, newline, is_blank, is_word_start, is_word_char, lower, run, keywords,
}

-- `TT_KEYWORD`, ...; `eof` is `TT_EOF`.
pub data TokenType : Type 0 where
  keyword ident number string op lbracket rbracket lparen rparen semicolon comma eof : TokenType

abbrev pub Token : Type 0
Token = TokenType × List ℕ

pub data LexError : Type 0 where
  unterminated_comment unterminated_string : LexError
  unexpected_character : ℕ → LexError

-- What a round does with the rest of the source, and how many characters it uses up.
pub data Step : Type 0 where
  skip : ℕ → Step
  comment : ℕ → Step
  emit : Token → ℕ → Step
  fail : LexError → Step

-- The characters after an opening brace, up to the brace that closes it.
abbrev pub brace_depth : ℕ → ℕ → ℕ
brace_depth depth c = if c == b'{' then depth + 1 else (if c == b'}' then depth - 1 else depth)

unfoldable pub comment_length : ℕ → List ℕ → Option ℕ
comment_length zero cs = some 0
comment_length (suc d) [] = none
comment_length (suc d) (c ∷ cs) = elim (comment_length (brace_depth (suc d) c) cs) [
  | none ↦ none
  | some n ↦ some (suc n)
]

-- The characters of a string literal up to its closing quote, which stands on the same line.
unfoldable pub string_length : List ℕ → Option ℕ
string_length [] = none
string_length (c ∷ cs) =
    let rest : Option ℕ = elim (string_length cs) [ none ↦ none | some n ↦ some (suc n) ] in
    if c == b'"' then some 0 else if c == newline then none else rest

abbrev pub head_is : ℕ → List ℕ → Bool
head_is c [] = false
head_is c (x ∷ xs) = x == c

-- `_WORD_RE.match`: the length of the word, 0 if there is none.
abbrev pub word_length : List ℕ → ℕ
word_length [] = 0
word_length (c ∷ cs) = if is_word_start c then suc (run is_word_char cs) else 0

abbrev pub word_at : List ℕ → List ℕ
word_at cs = map lower (take (word_length cs) cs)

-- "crosses" with a second word makes one keyword.
unfoldable pub crosses_step : ℕ → List ℕ → Step
crosses_step n after =
    let gap = run is_blank after in
    let rest = drop gap after in
    let second = word_at rest in
    let both = n + gap + word_length rest in
    if one_of second (codes "above" ∷ codes "over" ∷ [])
    then emit (keyword, codes "crossesabove") both
    else if one_of second (codes "below" ∷ codes "under" ∷ [])
    then emit (keyword, codes "crossesbelow") both
    else emit (ident, codes "crosses") n

unfoldable pub word_step : List ℕ → Step
word_step rest =
    let n = word_length rest in
    let w = word_at rest in
    if one_of w keywords
    then emit (keyword, w) n
    else if list_eq w (codes "crosses")
    then crosses_step n (drop n rest)
    else emit (ident, w) n

-- Operators and punctuation.
abbrev pub single : ℕ → Option TokenType
single c =
    if one_of (c ∷ []) (map codes ("+" ∷ "-" ∷ "*" ∷ "/" ∷ "=" ∷ "<" ∷ ">" ∷ []))
    then some op
    else if c == b'['
    then some lbracket
    else if c == b']'
    then some rbracket
    else if c == b'('
    then some lparen
    else if c == b')'
    then some rparen
    else if c == b';'
    then some semicolon
    else if c == b','
    then some comma
    else if c == b':'
    then some op
    else none

unfoldable pub operator_step : ℕ → List ℕ → Step
operator_step c cs =
    if one_of (take 2 (c ∷ cs)) (map codes (">=" ∷ "<=" ∷ "<>" ∷ ":=" ∷ ".." ∷ []))
    then emit (op, take 2 (c ∷ cs)) 2
    else elim (single c) [ none ↦ fail (unexpected_character c) | some t ↦ emit (t, c ∷ []) 1 ]

module _ (is_digit : ℕ → Bool) where
  -- `\d+(\.\d+)?` at a digit.
  unfoldable pub number_length : List ℕ → ℕ
  number_length cs =
      let n = run is_digit cs in
      let after = drop n cs in
      let m = run is_digit (drop 1 after) in if head_is b'.' after && ltb 0 m then n + 1 + m else n

  -- One round, at a character `c` with `cs` behind it.
  unfoldable pub lex_step : ℕ → List ℕ → Step
  lex_step c cs =
      if is_blank c
      then skip 1
      else if c == b'{'
      then elim (comment_length 1 cs) [
        | none ↦ fail unterminated_comment
        | some n ↦ comment (suc n)
      ]
      else if c == b'/' && head_is b'/' cs
      then comment (run (λ x. not (x == newline)) (c ∷ cs))
      else if c == b'"'
      then elim (string_length cs) [
        | none ↦ fail unterminated_string
        | some n ↦ emit (string, take n cs) (n + 2)
      ]
      else if is_digit c
      then (let n = number_length (c ∷ cs) in emit (number, take n (c ∷ cs)) n)
      else if is_word_start c
      then word_step (c ∷ cs)
      else operator_step c cs
