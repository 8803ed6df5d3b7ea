-- ===== src/Parser/Operators/Terminates.antt =====
-- _parser_expr.py: an expression is parsed, or refused, with the fuel that its tokens give.
use power_bridge.Base.{ℕ, zero, suc, ◌≤◌, arith}
use power_bridge.Parser.Syntax.{Expr}
use power_bridge.Parser.Monad.{Parser}
use power_bridge.Parser.Primary.Terminates.{Safe-parse_primary}
use power_bridge.Parser.Operators.{
  with_points, unary_at, parse_unary, multiplication_round, parse_multiplication, addition_round,
  parse_addition, comparison_round, parse_comparison, not_at, parse_not, and_round, parse_and,
  or_round, parse_or, expression_at, parse_expression,
}
use power_bridge.Parser.Safe.{
  Safe, Safe-le, Safe-weak, Safe-lower, Safe-pure, Safe-branch, Safe-first, Safe-bind, Safe-keep,
}
use power_bridge.Parser.Safe.Rules.{safe_rules, Safe-fuelled, Safe-advance, Safe-while}

-- No state has fewer than no tokens.
Safe-none : {p : Parser Expr} → Safe 0 0 p
Safe-none = record { at = λ s l. elim l [ ] }

module _ {m : ℕ} {expression : Parser Expr} (h : Safe m 0 expression) where
  Safe-with_points : {n : ℕ} (node : Expr) → Safe n 0 (with_points expression node)
  unfolding with_points
  Safe-with_points node = search safe_rules depth 20

  Safe-unary_at :
      (n : ℕ)
      → n ≤ m
      → Safe n 0 (unary_at expression n)
      → Safe (suc n) 1 (unary_at expression (suc n))
  unfolding unary_at
  Safe-unary_at n l operand =
      let primary = Safe-le (omega arith) (omega arith) (Safe-parse_primary h) in
      Safe-branch _ (Safe-first Safe-advance λ _. Safe-bind operand λ e. Safe-pure _)
        (Safe-branch _ (Safe-first Safe-advance λ _. operand) (Safe-keep primary Safe-with_points))

  Safe-operand : (n : ℕ) → n ≤ suc m → Safe n 0 (unary_at expression n)
  Safe-operand zero l = Safe-none
  Safe-operand (suc n) l = Safe-weak (Safe-unary_at n (omega arith) (Safe-operand n (omega arith)))

  Safe-parse_unary : Safe (suc m) 1 (parse_unary expression)
  unfolding parse_unary
  Safe-parse_unary =
      Safe-fuelled λ n l. Safe-unary_at n (omega arith) (Safe-operand n (omega arith))

  Safe-right_unary : Safe m 0 (parse_unary expression)
  Safe-right_unary = Safe-lower Safe-parse_unary

  Safe-multiplication_round : (left : Expr) → Safe (suc m) 1 (multiplication_round expression left)
  unfolding multiplication_round
  Safe-multiplication_round left = search (safe_rules, Safe-right_unary) depth 20

  Safe-parse_multiplication : Safe (suc m) 1 (parse_multiplication expression)
  unfolding parse_multiplication
  Safe-parse_multiplication = Safe-keep Safe-parse_unary (Safe-while _ Safe-multiplication_round)

  Safe-right_multiplication : Safe m 0 (parse_multiplication expression)
  Safe-right_multiplication = Safe-lower Safe-parse_multiplication

  Safe-addition_round : (left : Expr) → Safe (suc m) 1 (addition_round expression left)
  unfolding addition_round
  Safe-addition_round left = search (safe_rules, Safe-right_multiplication) depth 20

  Safe-parse_addition : Safe (suc m) 1 (parse_addition expression)
  unfolding parse_addition
  Safe-parse_addition = Safe-keep Safe-parse_multiplication (Safe-while _ Safe-addition_round)

  Safe-right_addition : Safe m 0 (parse_addition expression)
  Safe-right_addition = Safe-lower Safe-parse_addition

  Safe-comparison_round : (left : Expr) → Safe (suc m) 1 (comparison_round expression left)
  unfolding comparison_round
  Safe-comparison_round left = search (safe_rules, Safe-right_addition) depth 20

  Safe-parse_comparison : Safe (suc m) 1 (parse_comparison expression)
  unfolding parse_comparison
  Safe-parse_comparison = Safe-keep Safe-parse_addition (Safe-while _ Safe-comparison_round)

  Safe-not_at :
      (n : ℕ) → n ≤ m → Safe n 0 (not_at expression n) → Safe (suc n) 1 (not_at expression (suc n))
  unfolding not_at
  Safe-not_at n l operand =
      Safe-branch _ (Safe-first Safe-advance λ _. Safe-bind operand λ e. Safe-pure _)
        (Safe-le (omega arith) (omega arith) Safe-parse_comparison)

  Safe-negated : (n : ℕ) → n ≤ suc m → Safe n 0 (not_at expression n)
  Safe-negated zero l = Safe-none
  Safe-negated (suc n) l = Safe-weak (Safe-not_at n (omega arith) (Safe-negated n (omega arith)))

  Safe-parse_not : Safe (suc m) 1 (parse_not expression)
  unfolding parse_not
  Safe-parse_not = Safe-fuelled λ n l. Safe-not_at n (omega arith) (Safe-negated n (omega arith))

  Safe-right_not : Safe m 0 (parse_not expression)
  Safe-right_not = Safe-lower Safe-parse_not

  Safe-and_round : (left : Expr) → Safe (suc m) 1 (and_round expression left)
  unfolding and_round
  Safe-and_round left = search (safe_rules, Safe-right_not) depth 20

  Safe-parse_and : Safe (suc m) 1 (parse_and expression)
  unfolding parse_and
  Safe-parse_and = Safe-keep Safe-parse_not (Safe-while _ Safe-and_round)

  Safe-right_and : Safe m 0 (parse_and expression)
  Safe-right_and = Safe-lower Safe-parse_and

  Safe-or_round : (left : Expr) → Safe (suc m) 1 (or_round expression left)
  unfolding or_round
  Safe-or_round left = search (safe_rules, Safe-right_and) depth 20

  Safe-parse_or : Safe (suc m) 1 (parse_or expression)
  unfolding parse_or
  Safe-parse_or = Safe-keep Safe-parse_and (Safe-while _ Safe-or_round)

Safe-inner : (n : ℕ) → Safe n 0 (expression_at n)
unfolding expression_at
Safe-inner zero = Safe-none
Safe-inner (suc n) = Safe-weak (Safe-parse_or (Safe-inner n))

pub Safe-parse_expression : {n : ℕ} → Safe n 1 parse_expression
unfolding parse_expression expression_at
Safe-parse_expression = Safe-fuelled λ n l. Safe-parse_or (Safe-inner n)
