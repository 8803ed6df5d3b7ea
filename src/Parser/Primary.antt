-- ===== src/Parser/Primary.antt =====
-- _parser_expr.py: the primary expressions. `expression` stands for `parse_expression`.
pub mod Terminates
pub mod Shadowing
use power_bridge.Base.{
  ℕ, zero, suc, ◌+◌, Bool, true, false, not, ◌&&◌, ◌||◌, Option, none, some, List, [], ◌∷◌, String,
  map, if◌then◌else◌, take, drop,
}
use power_bridge.Lexer.Chars.{codes, list_eq, one_of}
use power_bridge.Lexer.Step.{
  TokenType, Token, keyword, ident, number, string, op, lbracket, rbracket, lparen, rparen,
  semicolon, comma, eof,
}
use power_bridge.Parser.Syntax.{
  Text, Expr, Exprs, number, string, boolean, ident, binop, call, bar_ref, position_kw,
  position_kw_call, mc_kw, data_of, no_exprs, expr, append,
}
use power_bridge.Parser.Numerals.{decimal, isdigit, int}
use power_bridge.Parser.Tables.{
  color_constants, style_constants, period_funcs, symbol_info_keywords, price_abbreviations,
  position_keywords, data_series_keywords, mc_keywords, data_of_series, builtin_func_map,
}
use power_bridge.Parser.Monad.{
  ParserState, Parser, Fault, value_error, pure, ◌>>=◌, ◌>>◌, raise, gets, branch, while, token_at,
  peek, same_type, next_is, next_is_lparen, advance, error_here, expect, nothing, find, in_names,
  option_case, item,
}

-- `int(text)` where the ValueError is raised.
unfoldable pub int_of : Text → Parser ℕ
unfolding option_case raise pure
int_of text = option_case (int text) (raise value_error) pure

abbrev pub is_some {ℓ} : {A : Type ℓ} → Option A → Bool
is_some none = false
is_some (some a) = true

-- The token that is next, a price abbreviation in its long form.
unfoldable pub resolve_price_abbreviation : ParserState → Token
unfolding next_is_lparen
resolve_price_abbreviation s =
    let (tt, val) = peek s in
    if same_type tt ident && (not (one_of val s.declared_names) && not (next_is_lparen s))
    then elim (find price_abbreviations val) [ none ↦ (tt, val) | some long ↦ (tt, codes long) ]
    else (tt, val)

-- A user name hides a keyword of the same spelling, a position keyword unless it is called.
unfoldable pub is_user_name : Text → ParserState → Bool
is_user_name val s = one_of val s.user_names

unfoldable pub hides_position : Text → ParserState → Bool
unfolding is_user_name next_is_lparen
hides_position val s = is_user_name val s && not (next_is_lparen s)

-- `tokens[pos + k]` is of the type, with the text.
abbrev has_text : ℕ → String → ParserState → Bool
has_text k text s = same_type (token_at k s).0 ident && list_eq (token_at k s).1 (codes text)

abbrev has_type : ℕ → TokenType → ParserState → Bool
has_type k tt s = same_type (token_at k s).0 tt

-- `Close of Data2`
unfoldable pub is_data_word : ParserState → Bool
is_data_word s =
    has_text 1 "of" s
    && (has_type 2 ident s
        && (list_eq (take 4 (token_at 2 s).1) (codes "data") && isdigit (drop 4 (token_at 2 s).1)))

-- `Close of Data(2)`
unfoldable pub is_data_call : ParserState → Bool
is_data_call s =
    has_text 1 "of" s
    && (has_text 2 "data" s
        && (has_type 3 lparen s && (has_type 4 number s && has_type 5 rparen s)))

module _ (expression : Parser Expr) where
  unfoldable pub parse_bar_ref : Expr → Parser Expr
  parse_bar_ref node = do advance; index ← expression; expect rbracket; pure (bar_ref node index)

  -- `node[n]` where a bracket follows.
  unfoldable pub with_bar_ref : Expr → Parser Expr
  unfolding parse_bar_ref
  with_bar_ref node = branch (next_is lbracket) (parse_bar_ref node) (pure node)

  unfoldable pub more_args : Exprs → Parser Exprs
  more_args args = while (next_is comma) (λ xs. do advance; e ← expression; pure (append xs e)) args

  -- The arguments up to the closing parenthesis, none or some.
  unfoldable pub call_args : Parser Exprs
  unfolding more_args
  call_args =
      branch (next_is rparen) (pure no_exprs) (expression >>= λ e. more_args (expr e no_exprs))

  unfoldable pub parse_func_call : Parser Expr
  unfolding call_args
  parse_func_call = do
    name ← advance
    expect lparen
    args ← call_args
    expect rparen
    pure (call name.1 args)

  unfoldable pub call_or_ident : Text → Parser Expr
  unfolding call_args with_bar_ref
  call_or_ident name =
      branch (next_is lparen)
        (do advance; args ← call_args; expect rparen; with_bar_ref (call name args))
        (with_bar_ref (ident name))

  abbrev name_or : Option Text → Token → Text
  name_or none tok = tok.1
  name_or (some name) tok = name

  unfoldable pub parse_ident_or_call : Option Text → Parser Expr
  unfolding call_or_ident
  parse_ident_or_call name = advance >>= λ tok. call_or_ident (name_or name tok)

  -- `otherwise` is what the caller does where the source returns None.
  unfoldable pub try_parse_data_of : Text → Parser Expr → Parser Expr
  try_parse_data_of val otherwise =
      branch is_data_word
        (do
          advance
          advance
          data_tok ← advance
          n ← int_of (drop 4 data_tok.1)
          pure (data_of val n))
        (branch is_data_call
          (do
            advance
            advance
            advance
            advance
            num_tok ← advance
            advance
            n ← int_of num_tok.1
            pure (data_of val n))
          otherwise)

  -- The data stream in the parentheses, which is left out of the node.
  unfoldable pub symbol_argument : Parser (Unit {0})
  symbol_argument =
      branch (next_is rparen) nothing (expression >> nothing) >> (expect rparen >> nothing)

  unfoldable pub parse_symbol_info_kw : Text → Parser Expr
  parse_symbol_info_kw val =
      advance
      >> (branch (next_is lparen) (advance >> symbol_argument) nothing
          >> (item data_series_keywords val >>= λ kwarg. pure (position_kw (codes kwarg))))

  -- The index, or the two arguments, after the opening parenthesis.
  unfoldable pub position_args : Text → Parser Expr
  position_args kwarg = do
    idx ← expression
    branch (next_is comma)
        (do advance; arg2 ← expression; expect rparen; pure (position_kw_call kwarg idx arg2))
        (expect rparen >> pure (bar_ref (position_kw kwarg) idx))

  unfoldable pub parse_position_kw : Text → Parser Expr
  unfolding position_args with_bar_ref
  parse_position_kw val =
      advance
      >> (item position_keywords val >>= λ kwarg.
          branch (next_is lparen) (advance >> position_args (codes kwarg))
            (with_bar_ref (position_kw (codes kwarg))))

  -- The identifier is no position keyword, or is hidden.
  unfoldable pub parse_data_primary : Text → Parser Expr
  unfolding parse_ident_or_call try_parse_data_of
  parse_data_primary val =
      if in_names val period_funcs
      then parse_ident_or_call none
      else branch (λ s. is_some (find mc_keywords val) && not (is_user_name val s))
          (advance >> (item mc_keywords val >>= λ kwarg. pure (mc_kw (codes kwarg))))
          (if in_names val data_of_series
            then try_parse_data_of val (parse_ident_or_call (some val))
            else parse_ident_or_call (some val))

  abbrev constant : Text → ℕ → Parser Expr
  constant val n = advance >> pure (number (decimal n) (some val))

  unfoldable pub parse_constant_primary : Text → Parser Expr
  unfolding parse_data_primary option_case
  parse_constant_primary val =
      option_case (find color_constants val)
        (option_case (find style_constants val) (parse_data_primary val) (constant val))
        (constant val)

  unfoldable pub parse_series_primary : Text → Parser Expr
  unfolding parse_constant_primary parse_symbol_info_kw parse_ident_or_call
  parse_series_primary val =
      if in_names val symbol_info_keywords
      then parse_symbol_info_kw val
      else option_case (find data_series_keywords val) (parse_constant_primary val) λ kwarg.
        branch next_is_lparen (parse_ident_or_call none)
          (advance >> pure (position_kw (codes kwarg)))

  unfoldable pub parse_ident_primary : Text → Parser Expr
  unfolding parse_series_primary parse_position_kw with_bar_ref
  parse_ident_primary val =
      if list_eq val (codes "marketposition")
      then advance >> with_bar_ref (ident (codes "_market_position"))
      else branch (λ s. is_some (find position_keywords val) && not (hides_position val s))
          (parse_position_kw val) (parse_series_primary val)

  -- `Mod(a, b)`
  unfoldable pub parse_mod : Parser Expr
  parse_mod = do
    advance
    expect lparen
    a ← expression
    expect comma
    b ← expression
    expect rparen
    pure (binop (codes "%") a b)

  -- A keyword that starts no expression is an error of `parse_primary`.
  unfoldable pub parse_keyword_primary : Text → Parser Expr
  unfolding parse_func_call parse_mod parse_ident_or_call
  parse_keyword_primary val =
      if in_names val ("true" ∷ "false" ∷ [])
      then advance >> pure (boolean (list_eq val (codes "true")))
      else if in_names val ("crossesabove" ∷ "crossesbelow" ∷ [])
      then parse_func_call
      else if list_eq val (codes "mod")
      then parse_mod
      else if is_some (find builtin_func_map val)
      then parse_ident_or_call (some val)
      else error_here

  unfoldable pub primary_of : Token → Parser Expr
  unfolding parse_ident_primary parse_keyword_primary
  primary_of (number, val) = advance >> pure (number val none)
  primary_of (string, val) = advance >> pure (string val)
  primary_of (ident, val) = parse_ident_primary val
  primary_of (keyword, val) = parse_keyword_primary val
  primary_of (lparen, val) = do advance; e ← expression; expect rparen; pure e
  primary_of _ = error_here

  unfoldable pub parse_primary : Parser Expr
  unfolding primary_of
  parse_primary = gets resolve_price_abbreviation >>= primary_of
