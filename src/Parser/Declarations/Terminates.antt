-- ===== src/Parser/Declarations/Terminates.antt =====
-- _parser_stmts.py: a declaration is parsed, or refused, with the fuel that its tokens give.
use power_bridge.Base.{ℕ, suc, List}
use power_bridge.Parser.Monad.{Parser}
use power_bridge.Parser.Operators.{parse_expression}
use power_bridge.Parser.Operators.Terminates.{Safe-parse_expression}
use power_bridge.Parser.Declarations.{
  more_items, declared_items, declared_name, initial_value, var_value, var_item, parse_var_decl,
  input_item, parse_input_decl, array_size, array_item, parse_array_decl,
}
use power_bridge.Parser.Safe.{Safe, Safe-weak, Safe-keep}
use power_bridge.Parser.Safe.Rules.{safe_rules}

-- An expression where only the fuel matters.
pub Safe-any_expression : {n : ℕ} → Safe n 0 parse_expression
Safe-any_expression = Safe-weak Safe-parse_expression

module _ {ℓ} {A : Type ℓ} where
  Safe-more_items :
      {n : ℕ} {read : Parser A}
      → Safe n 0 read
      → (items : List A) → Safe n 0 (more_items read items)
  unfolding more_items
  Safe-more_items h items = search (safe_rules, Safe-keep) depth 20

  Safe-declared_items : {n : ℕ} {read : Parser A} → Safe n 0 read → Safe n 0 (declared_items read)
  unfolding declared_items
  Safe-declared_items h = search (safe_rules, Safe-more_items) depth 20

Safe-declared_name : {n : ℕ} → Safe n 0 declared_name
unfolding declared_name
Safe-declared_name = search safe_rules depth 20

Safe-initial_value : {n : ℕ} → Safe n 0 initial_value
unfolding initial_value
Safe-initial_value = search (safe_rules, Safe-any_expression) depth 20

Safe-var_value : {n : ℕ} → Safe n 0 var_value
unfolding var_value
Safe-var_value = search (safe_rules, Safe-any_expression) depth 20

Safe-var_item : {n : ℕ} → Safe n 0 var_item
unfolding var_item
Safe-var_item = search (safe_rules, Safe-declared_name, Safe-var_value) depth 20

pub Safe-parse_var_decl : {n : ℕ} → Safe (suc n) 1 parse_var_decl
unfolding parse_var_decl
Safe-parse_var_decl = search (safe_rules, Safe-declared_items, Safe-var_item) depth 20

Safe-input_item : {n : ℕ} → Safe n 0 input_item
unfolding input_item
Safe-input_item = search (safe_rules, Safe-declared_name, Safe-initial_value) depth 20

pub Safe-parse_input_decl : {n : ℕ} → Safe (suc n) 1 parse_input_decl
unfolding parse_input_decl
Safe-parse_input_decl = search (safe_rules, Safe-declared_items, Safe-input_item) depth 20

Safe-array_size : {n : ℕ} → Safe n 0 array_size
unfolding array_size
Safe-array_size = search (safe_rules, Safe-any_expression) depth 20

Safe-array_item : {n : ℕ} → Safe n 0 array_item
unfolding array_item
Safe-array_item =
    search (safe_rules, Safe-declared_name, Safe-array_size, Safe-initial_value) depth 20

pub Safe-parse_array_decl : {n : ℕ} → Safe (suc n) 1 parse_array_decl
unfolding parse_array_decl
Safe-parse_array_decl = search (safe_rules, Safe-declared_items, Safe-array_item) depth 20
