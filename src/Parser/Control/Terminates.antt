-- ===== src/Parser/Control/Terminates.antt =====
-- _parser_stmts.py: a statement that holds statements is parsed, or refused, with the fuel that its
-- tokens give, if `parse_statement` is so after a token.
use power_bridge.Base.{ℕ, suc, Bool}
use power_bridge.Parser.Syntax.{Stmt, Stmts, Cases, Else}
use power_bridge.Parser.Monad.{ParserState, Parser}
use power_bridge.Parser.Declarations.Terminates.{Safe-any_expression}
use power_bridge.Parser.Control.{
  statement_round, statements_until, parse_block, parse_body, else_clause, parse_if, direction,
  parse_for, parse_while, parse_repeat_until, parse_once, case_clause, default_clause, switch_round,
  close_paren, parse_switch, parse_commentary_block,
}
use power_bridge.Parser.Safe.{Safe, Safe-weak, Safe-lower, Safe-keep}
use power_bridge.Parser.Safe.Rules.{safe_rules}

module _ {m : ℕ} {statement : Parser Stmt} (h : Safe m 1 statement) where
  Safe-statement_round : (stmts : Stmts) → Safe m 1 (statement_round statement stmts)
  unfolding statement_round
  Safe-statement_round stmts = search (safe_rules, Safe-keep) depth 20

  pub Safe-statements_until :
      (close : ParserState → Bool) → Safe m 0 (statements_until statement close)
  unfolding statements_until
  Safe-statements_until close = search (safe_rules, Safe-statement_round) depth 20

  Safe-parse_block : Safe (suc m) 1 (parse_block statement)
  unfolding parse_block
  Safe-parse_block = search (safe_rules, Safe-statements_until) depth 20

  Safe-inner_block : Safe m 0 (parse_block statement)
  Safe-inner_block = Safe-lower Safe-parse_block

  Safe-inner_statement : Safe m 0 statement
  Safe-inner_statement = Safe-weak h

  Safe-parse_body : Safe m 0 (parse_body statement)
  unfolding parse_body
  Safe-parse_body = search (safe_rules, Safe-inner_block, Safe-inner_statement) depth 20

  Safe-else_clause : Safe m 0 (else_clause statement)
  unfolding else_clause
  Safe-else_clause = search (safe_rules, Safe-parse_body) depth 20

  pub Safe-parse_if : Safe (suc m) 1 (parse_if statement)
  unfolding parse_if
  Safe-parse_if =
      search (safe_rules, Safe-any_expression, Safe-parse_body, Safe-else_clause) depth 20

  Safe-direction : Safe m 0 (direction statement)
  unfolding direction
  Safe-direction = search safe_rules depth 20

  pub Safe-parse_for : Safe (suc m) 1 (parse_for statement)
  unfolding parse_for
  Safe-parse_for =
      search (safe_rules, Safe-any_expression, Safe-direction, Safe-parse_body) depth 20

  pub Safe-parse_while : Safe (suc m) 1 (parse_while statement)
  unfolding parse_while
  Safe-parse_while = search (safe_rules, Safe-any_expression, Safe-parse_body) depth 20

  pub Safe-parse_repeat_until : Safe (suc m) 1 (parse_repeat_until statement)
  unfolding parse_repeat_until
  Safe-parse_repeat_until = search (safe_rules, Safe-keep, Safe-any_expression) depth 20

  pub Safe-parse_once : Safe (suc m) 1 (parse_once statement)
  unfolding parse_once
  Safe-parse_once = search (safe_rules, Safe-parse_body) depth 20

  Safe-case_clause : (clauses : Cases × Else) → Safe m 0 (case_clause statement clauses)
  unfolding case_clause
  Safe-case_clause (cases, default) =
      search (safe_rules, Safe-any_expression, Safe-statements_until) depth 20

  Safe-default_clause : (clauses : Cases × Else) → Safe m 0 (default_clause statement clauses)
  unfolding default_clause
  Safe-default_clause (cases, default) = search (safe_rules, Safe-statements_until) depth 20

  Safe-switch_round : (clauses : Cases × Else) → Safe m 1 (switch_round statement clauses)
  unfolding switch_round
  Safe-switch_round clauses =
      search (safe_rules, Safe-keep, Safe-case_clause, Safe-default_clause) depth 20

  Safe-close_paren : (has_paren : Bool) → Safe m 0 (close_paren statement has_paren)
  unfolding close_paren
  Safe-close_paren has_paren = search safe_rules depth 20

  pub Safe-parse_switch : Safe (suc m) 1 (parse_switch statement)
  unfolding parse_switch
  Safe-parse_switch =
      search (safe_rules, Safe-any_expression, Safe-close_paren, Safe-switch_round) depth 20

  pub Safe-parse_commentary_block : Safe (suc m) 1 (parse_commentary_block statement)
  unfolding parse_commentary_block
  Safe-parse_commentary_block = search (safe_rules, Safe-statements_until) depth 20
