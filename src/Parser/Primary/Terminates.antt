-- ===== src/Parser/Primary/Terminates.antt =====
-- _parser_expr.py: every primary expression is `Safe`, if `parse_expression` is so after a token.
use power_bridge.Base.{ℕ, suc, Option}
use power_bridge.Lexer.Step.{Token, keyword, ident}
use power_bridge.Parser.Syntax.{Text, Expr, Exprs}
use power_bridge.Parser.Monad.{Parser}
use power_bridge.Parser.Primary.{
  int_of, parse_bar_ref, with_bar_ref, more_args, call_args, parse_func_call, call_or_ident,
  parse_ident_or_call, try_parse_data_of, symbol_argument, parse_symbol_info_kw, position_args,
  parse_position_kw, parse_data_primary, parse_constant_primary, parse_series_primary,
  parse_ident_primary, parse_mod, parse_keyword_primary, primary_of, parse_primary,
}
use power_bridge.Parser.Safe.{Safe, Safe-later, Safe-keep}
use power_bridge.Parser.Safe.Rules.{safe_rules}

Safe-int_of : {n : ℕ} (text : Text) → Safe n 0 (int_of text)
unfolding int_of
Safe-int_of text = search safe_rules depth 20

module _ {m : ℕ} {expression : Parser Expr} (h : Safe m 0 expression) where
  pub Safe-parse_bar_ref : (node : Expr) → Safe (suc m) 1 (parse_bar_ref expression node)
  unfolding parse_bar_ref
  Safe-parse_bar_ref node = search safe_rules depth 20

  pub Safe-with_bar_ref : (node : Expr) → Safe m 0 (with_bar_ref expression node)
  unfolding with_bar_ref
  Safe-with_bar_ref node = search (safe_rules, Safe-parse_bar_ref) depth 20

  pub Safe-more_args : (args : Exprs) → Safe m 0 (more_args expression args)
  unfolding more_args
  Safe-more_args args = search (safe_rules, Safe-keep) depth 20

  pub Safe-call_args : Safe m 0 (call_args expression)
  unfolding call_args
  Safe-call_args = search (safe_rules, Safe-more_args) depth 20

  pub Safe-parse_func_call : Safe (suc m) 1 (parse_func_call expression)
  unfolding parse_func_call
  Safe-parse_func_call = search (safe_rules, Safe-call_args) depth 20

  pub Safe-call_or_ident : (name : Text) → Safe m 0 (call_or_ident expression name)
  unfolding call_or_ident
  Safe-call_or_ident name = search (safe_rules, Safe-call_args, Safe-with_bar_ref) depth 20

  pub Safe-parse_ident_or_call :
      (name : Option Text) → Safe (suc m) 1 (parse_ident_or_call expression name)
  unfolding parse_ident_or_call
  Safe-parse_ident_or_call name = search (safe_rules, Safe-call_or_ident) depth 20

  Safe-try_parse_data_of :
      (val : Text) {otherwise : Parser Expr}
      → Safe (suc m) 1 otherwise
      → Safe (suc m) 1 (try_parse_data_of expression val otherwise)
  unfolding try_parse_data_of
  Safe-try_parse_data_of val other = search (safe_rules, Safe-int_of) depth 20

  Safe-symbol_argument : Safe m 0 (symbol_argument expression)
  unfolding symbol_argument
  Safe-symbol_argument = search safe_rules depth 20

  Safe-parse_symbol_info_kw : (val : Text) → Safe (suc m) 1 (parse_symbol_info_kw expression val)
  unfolding parse_symbol_info_kw
  Safe-parse_symbol_info_kw val = search (safe_rules, Safe-symbol_argument) depth 20

  Safe-position_args : (kwarg : Text) → Safe m 0 (position_args expression kwarg)
  unfolding position_args
  Safe-position_args kwarg = search safe_rules depth 20

  Safe-parse_position_kw : (val : Text) → Safe (suc m) 1 (parse_position_kw expression val)
  unfolding parse_position_kw
  Safe-parse_position_kw val = search (safe_rules, Safe-position_args, Safe-with_bar_ref) depth 20

  Safe-parse_data_primary : (val : Text) → Safe (suc m) 1 (parse_data_primary expression val)
  unfolding parse_data_primary
  Safe-parse_data_primary val =
      search (safe_rules, Safe-parse_ident_or_call, Safe-try_parse_data_of) depth 20

  Safe-parse_constant_primary :
      (val : Text) → Safe (suc m) 1 (parse_constant_primary expression val)
  unfolding parse_constant_primary
  Safe-parse_constant_primary val = search (safe_rules, Safe-parse_data_primary) depth 20

  Safe-parse_series_primary : (val : Text) → Safe (suc m) 1 (parse_series_primary expression val)
  unfolding parse_series_primary
  Safe-parse_series_primary val =
      search (
        safe_rules, Safe-parse_constant_primary, Safe-parse_symbol_info_kw,
        Safe-parse_ident_or_call,
      )

  Safe-parse_ident_primary : (val : Text) → Safe (suc m) 1 (parse_ident_primary expression val)
  unfolding parse_ident_primary
  Safe-parse_ident_primary val =
      search (safe_rules, Safe-parse_series_primary, Safe-parse_position_kw, Safe-with_bar_ref)
        depth 20

  Safe-parse_mod : Safe (suc m) 1 (parse_mod expression)
  unfolding parse_mod
  Safe-parse_mod = search safe_rules depth 20

  Safe-parse_keyword_primary : (val : Text) → Safe (suc m) 1 (parse_keyword_primary expression val)
  unfolding parse_keyword_primary
  Safe-parse_keyword_primary val =
      search (safe_rules, Safe-parse_func_call, Safe-parse_mod, Safe-parse_ident_or_call) depth 20

  Safe-primary_of : (tok : Token) → Safe (suc m) 1 (primary_of expression tok)
  unfolding primary_of
  Safe-primary_of (ident, val) = Safe-parse_ident_primary val
  Safe-primary_of (keyword, val) = Safe-parse_keyword_primary val
  Safe-primary_of _ = search safe_rules depth 20

  pub Safe-parse_primary : Safe (suc m) 1 (parse_primary expression)
  unfolding parse_primary
  Safe-parse_primary = search (safe_rules, Safe-later, Safe-primary_of) depth 20
