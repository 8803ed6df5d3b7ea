-- ===== src/Parser/Declarations.antt =====
-- _parser_stmts.py: the declarations of variables, inputs and arrays.
pub mod Terminates
use power_bridge.Base.{ℕ, Bool, Option, none, some, List, [], ◌∷◌, ◌++◌}
use power_bridge.Lexer.Chars.{codes}
use power_bridge.Lexer.Step.{keyword, ident, op, lbracket, rbracket, lparen, rparen, comma}
use power_bridge.Parser.Syntax.{
  Text, Expr, number, VarDecl, InputDecl, ArrayDecl, Stmt, var_decl, input_decl, array_decl,
}
use power_bridge.Parser.Operators.{parse_expression}
use power_bridge.Parser.Monad.{
  Parser, pure, ◌>>=◌, ◌>>◌, branch, while, next_is, advance, expect, matches_text, end_stmt,
  add_user_name,
}

-- The value of a name that is declared without one.
abbrev pub zero_literal : Expr
zero_literal = number (codes "0") none

-- The items of a declaration, with commas between them.
unfoldable pub more_items {ℓ} : {A : Type ℓ} → Parser A → List A → Parser (List A)
more_items read items =
    while (next_is comma) (λ xs. do advance; x ← read; pure (xs ++ (x ∷ []))) items

unfoldable pub declared_items {ℓ} : {A : Type ℓ} → Parser A → Parser (List A)
unfolding more_items
declared_items read = read >>= λ x. more_items read (x ∷ [])

-- The name of an item, which is a user name from here on.
unfoldable pub declared_name : Parser Text
declared_name = do tok ← expect ident; add_user_name tok.1; pure tok.1

-- `(expr)` where a parenthesis follows, else the literal 0.
unfoldable pub initial_value : Parser Expr
initial_value =
    branch (next_is lparen) (do advance; e ← parse_expression; expect rparen; pure e)
      (pure zero_literal)

-- `(expr, DataN)`
unfoldable pub var_value : Parser (Expr × Option Expr)
var_value =
    branch (next_is lparen)
      (do
        advance
        e ← parse_expression
        data_ref ←
            branch (next_is comma) (advance >> (parse_expression >>= λ d. pure (some d)))
              (pure none)
        expect rparen
        pure (e, data_ref))
      (pure (zero_literal, none))

unfoldable pub var_item : Parser VarDecl
unfolding declared_name var_value
var_item = do
  intrabar ← matches_text keyword "intrabarpersist"
  name ← declared_name
  value ← var_value
  pure record { name = name; init = value.0; data_ref = value.1; intrabar_persist = intrabar }

unfoldable pub parse_var_decl : Parser Stmt
unfolding declared_items var_item
parse_var_decl = do
  advance
  matches_text op ":"
  decls ← declared_items var_item
  end_stmt
  pure (var_decl decls)

unfoldable pub input_item : Parser InputDecl
unfolding declared_name initial_value
input_item = do
  name ← declared_name
  value ← initial_value
  pure record { name = name; default = value }

unfoldable pub parse_input_decl : Parser Stmt
unfolding declared_items input_item
parse_input_decl = do
  advance
  matches_text op ":"
  decls ← declared_items input_item
  end_stmt
  pure (input_decl decls)

-- The size in the brackets, none for a dynamic array.
unfoldable pub array_size : Parser (Option Expr)
array_size =
    branch (next_is rbracket) (advance >> pure none)
      (do size ← parse_expression; expect rbracket; pure (some size))

unfoldable pub array_item : Parser ArrayDecl
unfolding declared_name array_size initial_value
array_item = do
  intrabar ← matches_text keyword "intrabarpersist"
  name ← declared_name
  expect lbracket
  size ← array_size
  value ← initial_value
  pure record { name = name; size = size; init = value; intrabar_persist = intrabar }

unfoldable pub parse_array_decl : Parser Stmt
unfolding declared_items array_item
parse_array_decl = do
  advance
  matches_text op ":"
  decls ← declared_items array_item
  end_stmt
  pure (array_decl decls)
