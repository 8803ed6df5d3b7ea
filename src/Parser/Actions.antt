-- ===== src/Parser/Actions.antt =====
-- _parser_stmts.py: attributes, commentary, risk functions, plots, alerts, print, assignments.
pub mod Terminates
use power_bridge.Base.{
  ℕ, zero, suc, Bool, true, false, not, ◌&&◌, ◌||◌, Option, none, some, List, [], ◌∷◌, ◌++◌, String,
  if◌then◌else◌,
}
use power_bridge.Lexer.Chars.{codes, list_eq}
use power_bridge.Lexer.Step.{
  TokenType, Token, ident, op, lbracket, rbracket, lparen, rparen, comma, semicolon,
}
use power_bridge.Parser.Syntax.{
  Text, Expr, Exprs, Stmt, PlotLabel, string, ident, bar_ref, no_exprs, expr, append, no_label,
  literal, computed, attribute, commentary, risk, plot, alert, print, assign, expr_stmt,
}
use power_bridge.Parser.Primary.{parse_ident_or_call}
use power_bridge.Parser.Operators.{parse_expression}
use power_bridge.Parser.Monad.{
  ParserState, Parser, pure, ◌>>=◌, ◌>>◌, branch, while, while_with, next_is, next_is_text, next_in,
  at_end, same_type, in_names, advance, expect, matches, end_stmt, attempt,
}

-- Whether `_reconstruct_tokens` puts a space in front of a token, by the token before it.
abbrev closes_up : TokenType → Bool
closes_up kind =
    same_type kind comma
    || (same_type kind rparen || (same_type kind rbracket || same_type kind lparen))

abbrev opens : TokenType → Bool
opens kind = same_type kind lparen || same_type kind lbracket

abbrev space_before : Option TokenType → TokenType → Text
space_before none kind = []
space_before (some previous) kind =
    if not (closes_up kind) && not (opens previous) then codes " " else []

unfoldable reconstruct_from : Option TokenType → List Token → Text
reconstruct_from previous [] = []
reconstruct_from previous ((kind, val) ∷ toks) =
    space_before previous kind ++ (val ++ reconstruct_from (some kind) toks)

-- `_reconstruct_tokens`
unfoldable pub reconstruct_tokens : List Token → Text
unfolding reconstruct_from
reconstruct_tokens toks = reconstruct_from none toks

-- A token of an attribute's arguments, and the number of parentheses that are open after it.
abbrev raw_token : ℕ × List Token → Token → ℕ × List Token
raw_token (depth, inner) (kind, val) =
    if same_type kind lparen
    then (suc depth, inner ++ ((kind, val) ∷ []))
    else if same_type kind rparen
    then elim depth [
      | zero ↦ (zero, inner)
      | suc zero ↦ (zero, inner)
      | suc (suc d) ↦ (suc d, inner ++ ((kind, val) ∷ []))
    ]
    else (depth, inner ++ ((kind, val) ∷ []))

abbrev is_open : ℕ × List Token → ParserState → Bool
is_open (zero, inner) s = false
is_open (suc depth, inner) s = not (at_end s)

-- The arguments of `[Name(args)]`, up to the parenthesis that closes them.
unfoldable pub raw_arguments : Parser (List Token)
raw_arguments =
    while_with is_open (λ args. advance >>= λ t. pure (raw_token args t)) (1, []) >>= λ args.
    pure args.1

-- `= Value`, or `(args)`, or nothing.
unfoldable pub attribute_value : Parser (Option Expr × Option Text)
unfolding raw_arguments reconstruct_tokens
attribute_value =
    branch (next_is_text op "=")
      (advance >> (parse_expression >>= λ value. pure (some value, none)))
      (branch (next_is lparen)
        (advance >> (raw_arguments >>= λ inner. pure (none, some (reconstruct_tokens inner))))
        (pure (none, none)))

unfoldable pub parse_attribute : Parser Stmt
unfolding attribute_value
parse_attribute = do
  expect lbracket
  name ← expect ident
  value ← attribute_value
  expect rbracket
  matches semicolon
  pure (attribute name.1 value.0 value.1)

-- Further arguments, each after a comma.
unfoldable pub extra_arguments : Exprs → Parser Exprs
extra_arguments args =
    while (next_is comma) (λ xs. do advance; e ← parse_expression; pure (append xs e)) args

unfoldable pub parse_commentary : Parser Stmt
unfolding extra_arguments
parse_commentary = do
  word ← advance
  expect lparen
  msg ← parse_expression
  extra ← extra_arguments no_exprs
  expect rparen
  end_stmt
  pure (commentary msg extra (list_eq word.1 (codes "commentarycl")))

-- The risk functions that take no argument, and may be written with empty parentheses.
abbrev bare_risk_funcs : List String
bare_risk_funcs = "setexitonclose" ∷ "setstopcontract" ∷ "setstopshare" ∷ "setstopposition" ∷ []

unfoldable pub no_arguments : Parser Exprs
no_arguments = branch (next_is lparen) (advance >> (expect rparen >> pure no_exprs)) (pure no_exprs)

unfoldable pub two_arguments : Parser Exprs
two_arguments = do
  expect lparen
  arg1 ← parse_expression
  expect comma
  arg2 ← parse_expression
  expect rparen
  pure (expr arg1 (expr arg2 no_exprs))

unfoldable pub one_argument : Parser Exprs
one_argument = do expect lparen; arg ← parse_expression; expect rparen; pure (expr arg no_exprs)

unfoldable pub risk_arguments : Text → Parser Exprs
unfolding no_arguments two_arguments one_argument
risk_arguments name =
    if in_names name bare_risk_funcs
    then no_arguments
    else if in_names name ("setpercenttrailing" ∷ "setpercenttrailing_pt" ∷ [])
    then two_arguments
    else one_argument

unfoldable pub parse_risk_func : Parser Stmt
unfolding risk_arguments
parse_risk_func = do name ← advance; args ← risk_arguments name.1; end_stmt; pure (risk name.1 args)

-- A literal's text, or the expression.
abbrev label_of : Expr → PlotLabel
label_of (string text) = literal text
label_of e = computed e

unfoldable pub plot_label : Parser (PlotLabel × Exprs)
unfolding extra_arguments
plot_label =
    branch (next_is comma)
      (do
        advance
        label_expr ← parse_expression
        extra ← extra_arguments no_exprs
        pure (label_of label_expr, extra))
      (pure (no_label, no_exprs))

unfoldable pub parse_plot : Parser Stmt
unfolding plot_label
parse_plot = do
  name ← advance
  expect lparen
  value ← parse_expression
  label ← plot_label
  expect rparen
  end_stmt
  pure (plot name.1 value label.0 label.1)

unfoldable pub parse_alert : Parser Stmt
parse_alert = do
  advance
  expect lparen
  msg ← parse_expression
  expect rparen
  end_stmt
  pure (alert msg)

unfoldable pub parse_print_stmt : Parser Stmt
unfolding extra_arguments
parse_print_stmt = do
  advance
  expect lparen
  first ← parse_expression
  args ← extra_arguments (expr first no_exprs)
  expect rparen
  end_stmt
  pure (print args)

-- A target of `=`; `:=` takes any.
abbrev assignable : Expr → Bool
assignable (ident name) = true
assignable (bar_ref series index) = true
assignable _ = false

unfoldable pub is_assignment : Expr → ParserState → Bool
is_assignment target s = next_is_text op ":=" s || (next_is_text op "=" s && assignable target)

unfoldable pub expression_statement : Parser Stmt
expression_statement = do e ← parse_expression; end_stmt; pure (expr_stmt e)

unfoldable pub parse_assignment_or_expr : Parser Stmt
unfolding is_assignment expression_statement
parse_assignment_or_expr =
    branch (next_is ident)
      (attempt (parse_ident_or_call parse_expression none) is_assignment
        (λ target. do advance; rhs ← parse_expression; end_stmt; pure (assign target rhs))
        expression_statement)
      expression_statement
