-- ===== src/Lexer/Loop.antt =====
-- lexer.py, `tokenise_with_comments`: the loop, with the token list, the parallel list of positions
-- and the side list of comments. The loop runs on fuel; one unit for each character is enough.
use power_bridge.Base.{
  ℕ, zero, suc, ◌+◌, ◌-◌, Bool, false, not, ◌||◌, List, [], ◌∷◌, length, take, drop,
}
use power_bridge.Lexer.Positions.{newlines, pos, line_col}
use power_bridge.Lexer.Step.{eof, Token, LexError, skip, comment, emit, fail, lex_step}

pub record Comment : Type 0 where
  pub body : List ℕ
  pub line : ℕ
  pub col : ℕ
  pub trailing : Bool

pub record Lexed : Type 0 where
  pub tokens : List Token
  pub positions : List (ℕ × ℕ)
  pub comments : List Comment

pub data LexResult : Type 0 where
  lexed : Lexed → LexResult
  error : LexError → ℕ × ℕ → LexResult
  out_of_fuel : LexResult

-- `emit(tok, start)` and `_add_comment(start, end)`, in front of what the later rounds add.
abbrev pub add_token : Token → ℕ × ℕ → LexResult → LexResult
add_token t p (lexed l) = lexed (record l { tokens = t ∷ l.tokens; positions = p ∷ l.positions })
add_token t p (error x q) = error x q
add_token t p out_of_fuel = out_of_fuel

abbrev pub add_comment : Comment → LexResult → LexResult
add_comment c (lexed l) = lexed (record l { comments = c ∷ l.comments })
add_comment c (error x q) = error x q
add_comment c out_of_fuel = out_of_fuel

abbrev pub any_not : (ℕ → Bool) → List ℕ → Bool
any_not p [] = false
any_not p (c ∷ cs) = not (p c) || any_not p cs

module _ (is_digit is_space : ℕ → Bool) (src : List ℕ) where
  -- A comment of `n` characters at an offset.
  abbrev pub comment_at : ℕ → ℕ → List ℕ → Comment
  comment_at start n rest =
      let (line, col) = pos (newlines src) start in
      let line_start = start + 1 - col in
      record {
        body = take n rest;
        line = line;
        col = col;
        trailing = any_not is_space (take (start - line_start) (drop line_start src));
      }

  -- The loop at an offset, with the rest of the source from there on.
  unfoldable pub lex_from : ℕ → ℕ → List ℕ → LexResult
  lex_from zero i rest = out_of_fuel
  lex_from (suc fuel) i [] =
      lexed
        (record { tokens = (eof, []) ∷ []; positions = pos (newlines src) i ∷ []; comments = [] })
  lex_from (suc fuel) i (c ∷ cs) = elim (lex_step is_digit c cs) [
    | skip n ↦ lex_from fuel (i + n) (drop n (c ∷ cs))
    | comment n ↦ add_comment (comment_at i n (c ∷ cs)) (lex_from fuel (i + n) (drop n (c ∷ cs)))
    | emit t n ↦ add_token t (pos (newlines src) i) (lex_from fuel (i + n) (drop n (c ∷ cs)))
    | fail x ↦ error x (line_col src i)
  ]

  -- `tokenise_with_comments`
  unfoldable pub tokenise_with_comments : LexResult
  unfolding lex_from
  tokenise_with_comments = lex_from (suc (length src)) 0 src
