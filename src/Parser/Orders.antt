-- ===== src/Parser/Orders.antt =====
-- _parser_stmts.py: the order statements.
pub mod Terminates
use power_bridge.Base.{Bool, true, false, not, ◌&&◌, ◌||◌, Option, none, some, [], ◌∷◌}
use power_bridge.Lexer.Chars.{codes, list_eq, one_of}
use power_bridge.Lexer.Step.{keyword, ident, number, lparen, rparen}
use power_bridge.Parser.Syntax.{Text, Expr, OrderNode, Stmt, order}
use power_bridge.Parser.Operators.{parse_expression}
use power_bridge.Parser.Monad.{
  ParserState, Parser, pure, ◌>>=◌, ◌>>◌, nothing, branch, token_at, next_is, next_is_text, next_in,
  advance, error_here, expect, end_stmt,
}

-- `peek()[1] == 'short'`, where no name of that spelling is declared.
unfoldable pub next_is_short : ParserState → Bool
next_is_short s =
    list_eq (token_at 0 s).1 (codes "short") && not (one_of (codes "short") s.user_names)

unfoldable pub next_is_to_cover : ParserState → Bool
next_is_to_cover s =
    list_eq (token_at 0 s).1 (codes "to") && list_eq (token_at 1 s).1 (codes "cover")

-- `Sell Short` and `Buy To Cover` in two and three words.
unfoldable pub order_action : Text → Parser Text
unfolding next_is_short next_is_to_cover
order_action action =
    branch (λ s. list_eq action (codes "sell") && next_is_short s)
      (advance >> pure (codes "sellshort"))
      (branch (λ s. list_eq action (codes "buy") && next_is_to_cover s)
        (advance >> (advance >> pure (codes "buytocover"))) (pure action))

-- A word that may stand there, or not.
abbrev optional_word : ParserState → Bool
optional_word s = next_in ident ("shares" ∷ "contracts" ∷ "share" ∷ "contract" ∷ []) s

unfoldable pub skip_if : (ParserState → Bool) → Parser (Unit {0})
skip_if test = branch test (advance >> nothing) nothing

-- `(expr)` where a parenthesis follows.
unfoldable pub optional_label : Parser (Option Expr)
optional_label =
    branch (next_is lparen) (do advance; e ← parse_expression; expect rparen; pure (some e))
      (pure none)

abbrev starts_quantity : ParserState → Bool
starts_quantity s =
    next_is number s || (next_is ident s && not (next_in ident ("next" ∷ "this" ∷ "from" ∷ []) s))

-- The quantity, and whether `total` follows it.
unfoldable pub order_quantity : Parser (Option Expr × Bool)
unfolding skip_if
order_quantity =
    branch starts_quantity
      (do
        quantity ← parse_expression
        skip_if optional_word
        total ← branch (next_is_text ident "total") (advance >> pure true) (pure false)
        pure (some quantity, total))
      (pure (none, false))

-- `from entry("label")`
unfoldable pub order_entry : Parser (Option Expr)
unfolding optional_label
order_entry =
    branch (next_is_text ident "from")
      (advance >> branch (next_is_text ident "entry") (advance >> optional_label) (pure none))
      (pure none)

-- The word after a price, which is the order's type; another word is an error.
unfoldable pub price_type : Parser Text
price_type =
    branch (next_in ident ("stop" ∷ "limit" ∷ [])) (advance >>= λ tok. pure tok.1)
      (branch (next_is ident) error_here (pure (codes "market")))

-- `next bar at market`, `next bar at <price> stop`, or `... limit`: the type and the price.
unfoldable pub next_bar_order : Parser (Text × Option Expr)
unfolding skip_if price_type
next_bar_order = do
  advance
  skip_if (next_is_text ident "bar")
  skip_if (next_is_text ident "at")
  branch (next_is_text ident "market") (advance >> pure (codes "market", none))
      (do price ← parse_expression; kind ← price_type; pure (kind, some price))

unfoldable pub this_bar_order : Parser (Text × Option Expr)
unfolding skip_if
this_bar_order = do
  advance
  skip_if (next_is_text ident "bar")
  skip_if (next_is_text ident "on")
  skip_if (next_is_text ident "close")
  pure (codes "close", none)

-- The timing, then the type and the price.
unfoldable pub order_timing : Parser (Text × (Text × Option Expr))
unfolding next_bar_order this_bar_order
order_timing =
    branch (next_is_text keyword "next") (next_bar_order >>= λ kind. pure (codes "next", kind)) (
      branch (next_is_text ident "this") (this_bar_order >>= λ kind. pure (codes "this", kind))
        (pure (codes "next", (codes "market", none))))

unfoldable pub parse_order : Parser Stmt
unfolding order_action optional_label order_quantity order_entry order_timing
parse_order = do
  tok ← advance
  action ← order_action tok.1
  label ← optional_label
  quantity ← order_quantity
  entry_label ← order_entry
  timing ← order_timing
  end_stmt
  pure (
      order record {
        action = action;
        label = label;
        quantity = quantity.0;
        total = quantity.1;
        entry_label = entry_label;
        bar_timing = timing.0;
        order_type = timing.1.0;
        price = timing.1.1;
      })
