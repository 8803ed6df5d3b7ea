-- ===== src/Parser/Orders/Terminates.antt =====
-- _parser_stmts.py: an order is parsed, or refused, with the fuel that its tokens give.
use power_bridge.Base.{ℕ, suc, Bool}
use power_bridge.Parser.Syntax.{Text}
use power_bridge.Parser.Monad.{ParserState}
use power_bridge.Parser.Declarations.Terminates.{Safe-any_expression}
use power_bridge.Parser.Orders.{
  order_action, skip_if, optional_label, order_quantity, order_entry, price_type, next_bar_order,
  this_bar_order, order_timing, parse_order,
}
use power_bridge.Parser.Safe.{Safe}
use power_bridge.Parser.Safe.Rules.{safe_rules}

Safe-order_action : {n : ℕ} (action : Text) → Safe n 0 (order_action action)
unfolding order_action
Safe-order_action action = search safe_rules depth 20

Safe-skip_if : {n : ℕ} (test : ParserState → Bool) → Safe n 0 (skip_if test)
unfolding skip_if
Safe-skip_if test = search safe_rules depth 20

Safe-optional_label : {n : ℕ} → Safe n 0 optional_label
unfolding optional_label
Safe-optional_label = search (safe_rules, Safe-any_expression) depth 20

Safe-order_quantity : {n : ℕ} → Safe n 0 order_quantity
unfolding order_quantity
Safe-order_quantity = search (safe_rules, Safe-any_expression, Safe-skip_if) depth 20

Safe-order_entry : {n : ℕ} → Safe n 0 order_entry
unfolding order_entry
Safe-order_entry = search (safe_rules, Safe-optional_label) depth 20

Safe-price_type : {n : ℕ} → Safe n 0 price_type
unfolding price_type
Safe-price_type = search safe_rules depth 20

Safe-next_bar_order : {n : ℕ} → Safe n 0 next_bar_order
unfolding next_bar_order
Safe-next_bar_order =
    search (safe_rules, Safe-any_expression, Safe-skip_if, Safe-price_type) depth 20

Safe-this_bar_order : {n : ℕ} → Safe n 0 this_bar_order
unfolding this_bar_order
Safe-this_bar_order = search (safe_rules, Safe-skip_if) depth 20

Safe-order_timing : {n : ℕ} → Safe n 0 order_timing
unfolding order_timing
Safe-order_timing = search (safe_rules, Safe-next_bar_order, Safe-this_bar_order) depth 20

pub Safe-parse_order : {n : ℕ} → Safe (suc n) 1 parse_order
unfolding parse_order
Safe-parse_order =
    search
      (
        safe_rules, Safe-order_action, Safe-optional_label, Safe-order_quantity, Safe-order_entry,
        Safe-order_timing,
      )
      depth 20
