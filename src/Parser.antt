-- ===== src/Parser.antt =====
-- parser.py, _parser_expr.py, _parser_stmts.py and parser_tables.py: the recursive-descent parser,
-- from the tokens of lexer.py to the syntax tree.
pub mod Tables
pub mod Syntax
pub mod Monad
pub mod Orders
pub mod Declarations
pub mod Control
pub mod Actions
pub mod Program
pub mod Safe
pub mod Operators
pub mod Primary
pub mod Numerals
