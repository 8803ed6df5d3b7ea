-- ===== src/Parser/Program.antt =====
-- parser.py: the dispatch on the first token of a statement, and the program.
pub mod Terminates
pub mod Unclosed
use power_bridge.Base.{
  ℕ, zero, suc, ◌-◌, Bool, true, false, not, ◌&&◌, ◌||◌, List, [], ◌∷◌, ◌++◌, String, if◌then◌else◌,
  ℤ, pos, ◌+ℤ◌, ◌-ℤ◌,
}
use power_bridge.Lexer.Chars.{codes, list_eq}
use power_bridge.Lexer.Step.{
  TokenType, Token, keyword, ident, op, lbracket, rbracket, lparen, rparen, semicolon, comma,
}
use power_bridge.Parser.Syntax.{Text, Stmt, Stmts, break, continue, abort, no_stmts, append_stmt}
use power_bridge.Parser.Tables.{order_actions, risk_funcs, plot_names}
use power_bridge.Parser.Declarations.{parse_var_decl, parse_input_decl, parse_array_decl}
use power_bridge.Parser.Control.{
  parse_if, parse_for, parse_while, parse_repeat_until, parse_once, parse_switch,
  parse_commentary_block,
}
use power_bridge.Parser.Actions.{
  parse_attribute, parse_commentary, parse_risk_func, parse_plot, parse_alert, parse_print_stmt,
  parse_assignment_or_expr,
}
use power_bridge.Parser.Orders.{parse_order}
use power_bridge.Parser.Monad.{
  ParserState, Result, Parser, pure, ◌>>=◌, ◌>>◌, gets, branch, while, peek, same_type, next_is,
  at_end, in_names, advance, end_stmt, starved, remaining,
}

-- `break`, `continue` and `abort`
unfoldable pub parse_word : Stmt → Parser Stmt
parse_word s = advance >> (end_stmt >> pure s)

-- The statements that an identifier starts.
unfoldable pub parse_ident_statement : Parser Stmt → Text → Parser Stmt
parse_ident_statement statement val =
    if in_names val order_actions
    then parse_order
    else if in_names val risk_funcs
    then parse_risk_func
    else if in_names val plot_names
    then parse_plot
    else if list_eq val (codes "alert")
    then parse_alert
    else if in_names val ("commentary" ∷ "commentarycl" ∷ [])
    then parse_commentary
    else if list_eq val (codes "#begincmtry")
    then parse_commentary_block statement
    else if in_names val ("print" ∷ "printlog" ∷ [])
    then parse_print_stmt
    else parse_assignment_or_expr

-- The statements that a keyword starts; another keyword starts an expression.
unfoldable pub parse_keyword_statement : Parser Stmt → Text → Parser Stmt
unfolding parse_word
parse_keyword_statement statement val =
    if in_names val ("variables" ∷ "variable" ∷ "vars" ∷ "var" ∷ [])
    then parse_var_decl
    else if in_names val ("inputs" ∷ "input" ∷ [])
    then parse_input_decl
    else if list_eq val (codes "if")
    then parse_if statement
    else if list_eq val (codes "for")
    then parse_for statement
    else if list_eq val (codes "while")
    then parse_while statement
    else if list_eq val (codes "repeat")
    then parse_repeat_until statement
    else if list_eq val (codes "switch")
    then parse_switch statement
    else if in_names val ("arrays" ∷ "array" ∷ [])
    then parse_array_decl
    else if list_eq val (codes "once")
    then parse_once statement
    else if list_eq val (codes "break")
    then parse_word break
    else if list_eq val (codes "continue")
    then parse_word continue
    else if list_eq val (codes "abort")
    then parse_word abort
    else parse_assignment_or_expr

unfoldable pub statement_of : Parser Stmt → Token → Parser Stmt
unfolding parse_keyword_statement parse_ident_statement
statement_of statement (keyword, val) = parse_keyword_statement statement val
statement_of statement (ident, val) = parse_ident_statement statement val
statement_of statement (lbracket, val) = parse_attribute
statement_of statement _ = parse_assignment_or_expr

-- `_parse_statement_dispatch`
unfoldable pub parse_dispatch : Parser Stmt → Parser Stmt
unfolding statement_of
parse_dispatch statement = gets peek >>= statement_of statement

-- `parse_statement` where fewer than `n` tokens are left.
unfoldable pub statement_at : ℕ → Parser Stmt
unfolding parse_dispatch
statement_at zero = starved
statement_at (suc n) = parse_dispatch (statement_at n)

unfoldable pub parse_statement : Parser Stmt
unfolding statement_at
parse_statement = gets remaining >>= λ n. statement_at (suc n)

unfoldable pub program_round : Stmts → Parser Stmts
unfolding parse_statement
program_round stmts =
    branch (next_is semicolon) (advance >> pure stmts)
      (parse_statement >>= λ s. pure (append_stmt stmts s))

unfoldable pub parse_program : Parser Stmts
unfolding program_round
parse_program = while (λ s. not (at_end s)) program_round no_stmts

abbrev decl_keywords : List String
decl_keywords =
    "inputs" ∷ "input" ∷ "variables" ∷ "variable" ∷ "vars" ∷ "var" ∷ "arrays" ∷ "array" ∷ []

-- Where `_collect_declared_names` stands: outside a declaration, just after its keyword, or inside
-- it at a depth, with or without a name to expect.
pub data Scan : Type 0 where
  outside after_keyword : Scan
  inside : ℤ → Bool → Scan

abbrev is_zero : ℤ → Bool
is_zero (pos zero) = true
is_zero _ = false

abbrev scan_outside : Token → Scan
scan_outside (kind, val) =
    if same_type kind keyword && in_names val decl_keywords then after_keyword else outside

-- The next place, and the names that the token adds.
unfoldable pub scan_inside : ℤ → Bool → Token → Scan × List Text
scan_inside depth expect_name (kind, val) =
    if is_zero depth && same_type kind semicolon
    then (outside, [])
    else if same_type kind lparen || same_type kind lbracket
    then (inside (depth +ℤ pos 1) expect_name, [])
    else if same_type kind rparen || same_type kind rbracket
    then (inside (depth -ℤ pos 1) expect_name, [])
    else if is_zero depth && same_type kind comma
    then (inside depth true, [])
    else if expect_name && same_type kind ident
    then (inside depth false, val ∷ [])
    else (inside depth expect_name, [])

unfoldable pub scan_token : Scan → Token → Scan × List Text
unfolding scan_inside
scan_token outside t = (scan_outside t, [])
scan_token after_keyword t =
    if same_type t.0 op && list_eq t.1 (codes ":")
    then (inside (pos 0) true, [])
    else scan_inside (pos 0) true t
scan_token (inside depth expect_name) t = scan_inside depth expect_name t

unfoldable pub collect_names : Scan → List Token → List Text
unfolding scan_token
collect_names place [] = []
collect_names place (t ∷ toks) =
    let (next, names) = scan_token place t in names ++ collect_names next toks

-- `_collect_declared_names`
unfoldable pub collect_declared_names : List Token → List Text
unfolding collect_names
collect_declared_names toks = collect_names outside toks

-- `Parser(tokens)`
unfoldable pub new_parser : List Token → ParserState
unfolding collect_declared_names
new_parser toks = record {
  tokens = toks;
  pos = 0;
  user_names = [];
  declared_names = collect_declared_names toks;
}

-- `Parser(tokens).parse_program()`
unfoldable pub parse : List Token → Result (Stmts × ParserState)
unfolding new_parser parse_program
parse toks = parse_program (new_parser toks)
