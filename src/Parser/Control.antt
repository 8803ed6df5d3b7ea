-- ===== src/Parser/Control.antt =====
-- _parser_stmts.py: the statements that hold statements. `statement` stands for `parse_statement`.
pub mod Terminates
pub mod Unclosed
use power_bridge.Base.{ℕ, Bool, true, false, not, ◌&&◌, ◌||◌, List, [], ◌∷◌, if◌then◌else◌}
use power_bridge.Lexer.Step.{keyword, ident, op, lparen, rparen, semicolon}
use power_bridge.Parser.Syntax.{
  Text, Expr, Stmt, Stmts, Else, Cases, if_stmt, for_stmt, while_stmt, repeat_until, once, switch,
  commentary_block, no_stmts, stmt, no_else, else_body, no_cases, append_stmt, append_case,
}
use power_bridge.Parser.Operators.{parse_expression}
use power_bridge.Parser.Monad.{
  ParserState, Parser, pure, ◌>>=◌, ◌>>◌, gets, branch, while, next_is, next_is_text, next_in,
  at_end, advance, error_here, expect, expect_text, matches, end_stmt, error_at,
}

-- `while self.peek() != ... and not self.at_end()`
abbrev before : (ParserState → Bool) → ParserState → Bool
before close s = not (close s) && not (at_end s)

module _ (statement : Parser Stmt) where
  -- One round of a loop over statements, which skips a stray semicolon.
  unfoldable pub statement_round : Stmts → Parser Stmts
  statement_round stmts =
      branch (next_is semicolon) (advance >> pure stmts)
        (statement >>= λ s. pure (append_stmt stmts s))

  unfoldable pub statements_until : (ParserState → Bool) → Parser Stmts
  unfolding statement_round
  statements_until close = while (before close) statement_round no_stmts

  unfoldable pub parse_block : Parser Stmts
  unfolding statements_until
  parse_block = gets (λ s. s.pos) >>= λ begin_index.
      expect_text keyword "begin" >> statements_until (next_is_text keyword "end") >>= λ stmts.
      branch (next_is_text keyword "end") (expect_text keyword "end" >> (end_stmt >> pure stmts))
        (error_at begin_index)

  -- A block, marked so, or one statement.
  unfoldable pub parse_body : Parser (Bool × Stmts)
  unfolding parse_block
  parse_body =
      branch (next_is_text keyword "begin") (parse_block >>= λ stmts. pure (true, stmts))
        (statement >>= λ s. pure (false, stmt s no_stmts))

  unfoldable pub else_clause : Parser Else
  unfolding parse_body
  else_clause =
      branch (next_is_text keyword "else")
        (advance >> (parse_body >>= λ leg. pure (else_body leg.0 leg.1))) (pure no_else)

  unfoldable pub parse_if : Parser Stmt
  unfolding else_clause
  parse_if = do
    expect_text keyword "if"
    cond ← parse_expression
    expect_text keyword "then"
    leg ← parse_body
    other ← else_clause
    pure (if_stmt cond leg.0 leg.1 other)

  -- `to`, or `downto`, which is true.
  unfoldable pub direction : Parser Bool
  direction =
      branch (next_is_text keyword "to") (advance >> pure false)
        (branch (next_is_text keyword "downto") (advance >> pure true) error_here)

  unfoldable pub parse_for : Parser Stmt
  unfolding direction parse_body
  parse_for = do
    expect_text keyword "for"
    var ← expect ident
    expect_text op "="
    start ← parse_expression
    downto ← direction
    last ← parse_expression
    leg ← parse_body
    pure (for_stmt var.1 start last downto leg.0 leg.1)

  unfoldable pub parse_while : Parser Stmt
  unfolding parse_body
  parse_while = do
    expect_text keyword "while"
    cond ← parse_expression
    leg ← parse_body
    pure (while_stmt cond leg.0 leg.1)

  unfoldable pub parse_repeat_until : Parser Stmt
  parse_repeat_until = do
    expect_text keyword "repeat"
    stmts ←
        while (before (next_is_text keyword "until"))
          (λ xs. statement >>= λ s. pure (append_stmt xs s)) no_stmts
    expect_text keyword "until"
    cond ← parse_expression
    end_stmt
    pure (repeat_until stmts cond)

  unfoldable pub parse_once : Parser Stmt
  unfolding parse_body
  parse_once = expect_text keyword "once" >> (parse_body >>= λ leg. pure (once leg.0 leg.1))

  -- A `case` or the `default` of a switch, after its keyword.
  unfoldable pub case_clause : Cases × Else → Parser (Cases × Else)
  unfolding statements_until
  case_clause (cases, default) = do
    case_val ← parse_expression
    expect_text op ":"
    stmts ← statements_until (next_in keyword ("case" ∷ "default" ∷ "end" ∷ []))
    pure (append_case cases case_val stmts, default)

  unfoldable pub default_clause : Cases × Else → Parser (Cases × Else)
  unfolding statements_until
  default_clause (cases, default) = do
    expect_text op ":"
    stmts ← statements_until (next_in keyword ("case" ∷ "end" ∷ []))
    pure (cases, else_body true stmts)

  -- The loop stops at `end`, and breaks where no clause starts.
  unfoldable pub starts_clause : ParserState → Bool
  starts_clause s = next_is semicolon s || next_in keyword ("case" ∷ "default" ∷ []) s

  unfoldable pub switch_round : Cases × Else → Parser (Cases × Else)
  unfolding case_clause default_clause
  switch_round clauses = branch (next_is semicolon) (advance >> pure clauses) (
      branch (next_is_text keyword "case") (advance >> case_clause clauses)
        (advance >> default_clause clauses))

  unfoldable pub close_paren : Bool → Parser (Unit {0})
  close_paren has_paren = branch (λ _. has_paren) (expect rparen >> pure tt) (pure tt)

  unfoldable pub parse_switch : Parser Stmt
  unfolding switch_round close_paren
  parse_switch = do
    expect_text keyword "switch"
    has_paren ← matches lparen
    value ← parse_expression
    close_paren has_paren
    expect_text keyword "begin"
    clauses ←
        while (λ s. before (next_is_text keyword "end") s && starts_clause s) switch_round
          (no_cases, no_else)
    expect_text keyword "end"
    end_stmt
    pure (switch value clauses.0 clauses.1)

  unfoldable pub parse_commentary_block : Parser Stmt
  unfolding statements_until
  parse_commentary_block = gets (λ s. s.pos) >>= λ begin_index.
      advance >> statements_until (next_is_text ident "#end") >>= λ stmts.
      branch (next_is_text ident "#end") (advance >> (end_stmt >> pure (commentary_block stmts)))
        (error_at begin_index)
