-- ===== src/Parser/Operators.antt =====
-- _parser_expr.py: the operators, from `Or`, which binds least, down to the sign of a number.
pub mod Terminates
use power_bridge.Base.{ℕ, zero, suc, Bool, ◌||◌, List, [], ◌∷◌, String}
use power_bridge.Lexer.Chars.{codes}
use power_bridge.Lexer.Step.{keyword, ident, op}
use power_bridge.Parser.Syntax.{
  Text, Expr, binop, compare, unaryop, call, position_kw, no_exprs, expr,
}
use power_bridge.Parser.Primary.{parse_primary}
use power_bridge.Parser.Monad.{
  ParserState, Parser, pure, ◌>>=◌, ◌>>◌, gets, branch, while, next_is_text, next_in, advance,
  starved, remaining,
}

abbrev comparison_ops : List String
comparison_ops = "=" ∷ "<" ∷ ">" ∷ ">=" ∷ "<=" ∷ "<>" ∷ []

abbrev cross_words : List String
cross_words = "crossesabove" ∷ "crossesbelow" ∷ []

-- One minimum price move.
abbrev pub minimum_move : Expr
minimum_move = binop (codes "/") (position_kw (codes "minmove")) (position_kw (codes "pricescale"))

module _ (expression : Parser Expr) where
  -- `N Point` and `N Points`
  unfoldable pub with_points : Expr → Parser Expr
  with_points node =
      branch (next_in ident ("point" ∷ "points" ∷ []))
        (advance >> pure (binop (codes "*") node minimum_move)) (pure node)

  -- `parse_unary` where fewer than `n` tokens are left.
  unfoldable pub unary_at : ℕ → Parser Expr
  unfolding with_points
  unary_at zero = starved
  unary_at (suc n) =
      branch (next_is_text op "-")
        (do advance; operand ← unary_at n; pure (unaryop (codes "-") operand))
        (branch (next_is_text op "+") (advance >> unary_at n)
          (parse_primary expression >>= with_points))

  unfoldable pub parse_unary : Parser Expr
  unfolding unary_at
  parse_unary = gets remaining >>= λ n. unary_at (suc n)

  unfoldable pub multiplication_round : Expr → Parser Expr
  unfolding parse_unary
  multiplication_round left =
      branch (next_in op ("*" ∷ "/" ∷ []))
        (do tok ← advance; right ← parse_unary; pure (binop tok.1 left right))
        (do advance; right ← parse_unary; pure (binop (codes "%") left right))

  unfoldable pub parse_multiplication : Parser Expr
  unfolding multiplication_round
  parse_multiplication =
      parse_unary
      >>= while (λ s. next_in op ("*" ∷ "/" ∷ []) s || next_is_text keyword "mod" s)
          multiplication_round

  unfoldable pub addition_round : Expr → Parser Expr
  unfolding parse_multiplication
  addition_round left = do
    tok ← advance
    right ← parse_multiplication
    pure (binop tok.1 left right)

  unfoldable pub parse_addition : Parser Expr
  unfolding addition_round
  parse_addition = parse_multiplication >>= while (next_in op ("+" ∷ "-" ∷ [])) addition_round

  unfoldable pub comparison_round : Expr → Parser Expr
  unfolding parse_addition
  comparison_round left =
      branch (next_in op comparison_ops)
        (do tok ← advance; right ← parse_addition; pure (compare tok.1 left right))
        (do
          tok ← advance
          right ← parse_addition
          pure (call tok.1 (expr left (expr right no_exprs))))

  unfoldable pub parse_comparison : Parser Expr
  unfolding comparison_round
  parse_comparison =
      parse_addition
      >>= while (λ s. next_in op comparison_ops s || next_in keyword cross_words s) comparison_round

  -- `parse_not` where fewer than `n` tokens are left.
  unfoldable pub not_at : ℕ → Parser Expr
  unfolding parse_comparison
  not_at zero = starved
  not_at (suc n) =
      branch (next_is_text keyword "not")
        (do advance; operand ← not_at n; pure (unaryop (codes "not") operand)) parse_comparison

  unfoldable pub parse_not : Parser Expr
  unfolding not_at
  parse_not = gets remaining >>= λ n. not_at (suc n)

  unfoldable pub and_round : Expr → Parser Expr
  unfolding parse_not
  and_round left = do advance; right ← parse_not; pure (binop (codes "and") left right)

  unfoldable pub parse_and : Parser Expr
  unfolding and_round
  parse_and = parse_not >>= while (next_is_text keyword "and") and_round

  unfoldable pub or_round : Expr → Parser Expr
  unfolding parse_and
  or_round left = do advance; right ← parse_and; pure (binop (codes "or") left right)

  unfoldable pub parse_or : Parser Expr
  unfolding or_round
  parse_or = parse_and >>= while (next_is_text keyword "or") or_round

-- `parse_expression` where fewer than `n` tokens are left.
unfoldable pub expression_at : ℕ → Parser Expr
unfolding parse_or
expression_at zero = starved
expression_at (suc n) = parse_or (expression_at n)

unfoldable pub parse_expression : Parser Expr
unfolding expression_at
parse_expression = gets remaining >>= λ n. expression_at (suc n)
