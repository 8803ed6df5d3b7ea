-- ===== src/Parser/Actions/Terminates.antt =====
-- _parser_stmts.py: an attribute, an output statement or an assignment is parsed, or refused, with the
-- fuel that its tokens give.
use power_bridge.Base.{ℕ, suc, none}
use power_bridge.Parser.Syntax.{Text, Exprs}
use power_bridge.Parser.Primary.{parse_ident_or_call}
use power_bridge.Parser.Primary.Terminates.{Safe-parse_ident_or_call}
use power_bridge.Parser.Operators.{parse_expression}
use power_bridge.Parser.Operators.Terminates.{Safe-parse_expression}
use power_bridge.Parser.Declarations.Terminates.{Safe-any_expression}
use power_bridge.Parser.Actions.{
  raw_arguments, attribute_value, parse_attribute, extra_arguments, parse_commentary, no_arguments,
  two_arguments, one_argument, risk_arguments, parse_risk_func, plot_label, parse_plot, parse_alert,
  parse_print_stmt, expression_statement, parse_assignment_or_expr,
}
use power_bridge.Parser.Safe.{Safe, Safe-keep}
use power_bridge.Parser.Safe.Rules.{safe_rules}

Safe-raw_arguments : {n : ℕ} → Safe n 0 raw_arguments
unfolding raw_arguments
Safe-raw_arguments = search (safe_rules, Safe-keep) depth 20

Safe-attribute_value : {n : ℕ} → Safe n 0 attribute_value
unfolding attribute_value
Safe-attribute_value = search (safe_rules, Safe-any_expression, Safe-raw_arguments) depth 20

pub Safe-parse_attribute : {n : ℕ} → Safe (suc n) 1 parse_attribute
unfolding parse_attribute
Safe-parse_attribute = search (safe_rules, Safe-attribute_value) depth 20

pub Safe-extra_arguments : {n : ℕ} (args : Exprs) → Safe n 0 (extra_arguments args)
unfolding extra_arguments
Safe-extra_arguments args = search (safe_rules, Safe-keep, Safe-any_expression) depth 20

pub Safe-parse_commentary : {n : ℕ} → Safe (suc n) 1 parse_commentary
unfolding parse_commentary
Safe-parse_commentary = search (safe_rules, Safe-any_expression, Safe-extra_arguments) depth 20

Safe-risk_arguments : {n : ℕ} (name : Text) → Safe n 0 (risk_arguments name)
unfolding risk_arguments no_arguments two_arguments one_argument
Safe-risk_arguments name = search (safe_rules, Safe-any_expression) depth 20

pub Safe-parse_risk_func : {n : ℕ} → Safe (suc n) 1 parse_risk_func
unfolding parse_risk_func
Safe-parse_risk_func = search (safe_rules, Safe-risk_arguments) depth 20

Safe-plot_label : {n : ℕ} → Safe n 0 plot_label
unfolding plot_label
Safe-plot_label = search (safe_rules, Safe-any_expression, Safe-extra_arguments) depth 20

pub Safe-parse_plot : {n : ℕ} → Safe (suc n) 1 parse_plot
unfolding parse_plot
Safe-parse_plot = search (safe_rules, Safe-any_expression, Safe-plot_label) depth 20

pub Safe-parse_alert : {n : ℕ} → Safe (suc n) 1 parse_alert
unfolding parse_alert
Safe-parse_alert = search (safe_rules, Safe-any_expression) depth 20

pub Safe-parse_print_stmt : {n : ℕ} → Safe (suc n) 1 parse_print_stmt
unfolding parse_print_stmt
Safe-parse_print_stmt = search (safe_rules, Safe-any_expression, Safe-extra_arguments) depth 20

Safe-expression_statement : {n : ℕ} → Safe n 1 expression_statement
unfolding expression_statement
Safe-expression_statement = search (safe_rules, Safe-keep, Safe-parse_expression) depth 20

-- What may turn out to be a target.
Safe-target : {n : ℕ} → Safe (suc n) 1 (parse_ident_or_call parse_expression none)
Safe-target = Safe-parse_ident_or_call Safe-any_expression none

pub Safe-parse_assignment_or_expr : {n : ℕ} → Safe (suc n) 1 parse_assignment_or_expr
unfolding parse_assignment_or_expr
Safe-parse_assignment_or_expr =
    search (safe_rules, Safe-any_expression, Safe-target, Safe-expression_statement) depth 20
