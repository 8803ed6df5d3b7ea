-- ===== src/Parser/Monad.antt =====
-- parser.py, `Parser`: its state, the errors it raises, and the ways its methods are put together.
use power_bridge.Base.{
  ℕ, zero, suc, ◌-◌, Bool, true, false, ◌&&◌, Option, none, some, List, [], ◌∷◌, map, String, ◌==◌,
  if◌then◌else◌, length, get_elem?,
}
use power_bridge.Lexer.Chars.{codes, list_eq, one_of}
use power_bridge.Lexer.Step.{
  TokenType, Token, keyword, ident, number, string, op, lbracket, rbracket, lparen, rparen,
  semicolon, comma, eof,
}
use power_bridge.Parser.Syntax.{Text}

-- `self`: `tokens` are those from index `pos` on.
pub record ParserState : Type 0 where
  pub tokens : List Token
  pub pos : ℕ
  pub user_names : List Text
  pub declared_names : List Text

-- A PLSyntaxError and the index of its token, the ValueError of `int`, the IndexError of a list
-- and the KeyError of a dictionary.
pub data Fault : Type 0 where
  syntax_error : ℕ → Fault
  value_error index_error key_error : Fault

-- `out_of_fuel` has no counterpart in the source.
pub data Result {ℓ} (A : Type ℓ) : Type ℓ where
  ok : A → Result A
  failed : Fault → Result A
  out_of_fuel : Result A

abbrev pub Parser {ℓ} : Type ℓ → Type ℓ
Parser A = ParserState → Result (A × ParserState)

unfoldable pub then_run {ℓ κ} :
    {A : Type ℓ} {B : Type κ} → Result (A × ParserState) → (A → Parser B) → Result (B × ParserState)
then_run (ok (a, s)) f = f a s
then_run (failed e) f = failed e
then_run out_of_fuel f = out_of_fuel

unfoldable pub pure {ℓ} : {A : Type ℓ} → A → Parser A
pure a s = ok (a, s)

infixl 5 ◌>>=◌ ◌>>◌
unfoldable pub ◌>>=◌ {ℓ κ} : {A : Type ℓ} {B : Type κ} → Parser A → (A → Parser B) → Parser B
unfolding then_run
(p >>= f) s = then_run (p s) f

abbrev pub ◌>>◌ {ℓ κ} : {A : Type ℓ} {B : Type κ} → Parser A → Parser B → Parser B
p >> q = p >>= λ _. q

unfoldable pub nothing : Parser (Unit {0})
unfolding pure
nothing s = pure tt s

unfoldable pub raise {ℓ} : {A : Type ℓ} → Fault → Parser A
raise e s = failed e

-- A value read from the state.
unfoldable pub gets {ℓ} : {A : Type ℓ} → (ParserState → A) → Parser A
gets f s = ok (f s, s)

abbrev pub pick {ℓ} : {A : Type ℓ} → Bool → A → A → A
pick true x y = x
pick false x y = y

-- `if test: p else: q`
unfoldable pub branch {ℓ} : {A : Type ℓ} → (ParserState → Bool) → Parser A → Parser A → Parser A
branch test p q s = pick (test s) p q s

-- `while test(a): a = body(a)`, whose rounds use up tokens.
unfoldable pub loop {ℓ} :
    {A : Type ℓ} → ℕ → (A → ParserState → Bool) → (A → Parser A) → A → Parser A
loop zero test body a s = out_of_fuel
loop (suc n) test body a s = branch (test a) (body a >>= loop n test body) (pure a) s

unfoldable pub while_with {ℓ} :
    {A : Type ℓ} → (A → ParserState → Bool) → (A → Parser A) → A → Parser A
unfolding loop
while_with test body a s = loop (suc (length s.tokens)) test body a s

abbrev pub while {ℓ} : {A : Type ℓ} → (ParserState → Bool) → (A → Parser A) → A → Parser A
while test body a = while_with (λ _. test) body a

abbrev type_code : TokenType → ℕ
type_code keyword = 0
type_code ident = 1
type_code number = 2
type_code string = 3
type_code op = 4
type_code lbracket = 5
type_code rbracket = 6
type_code lparen = 7
type_code rparen = 8
type_code semicolon = 9
type_code comma = 10
type_code eof = 11

abbrev pub same_type : TokenType → TokenType → Bool
same_type a b = type_code a == type_code b

abbrev pub token_or_eof : Option Token → Token
token_or_eof none = (eof, [])
token_or_eof (some t) = t

-- The token `k` places after the current one; `peek` is that at 0.
abbrev pub token_at : ℕ → ParserState → Token
token_at k s = token_or_eof (get_elem? s.tokens k)

abbrev pub peek : ParserState → Token
peek s = token_at 0 s

-- `self.peek()[0] == tt`
unfoldable pub next_is : TokenType → ParserState → Bool
next_is tt s = same_type (peek s).0 tt

-- `self.peek() == (tt, text)`
unfoldable pub next_is_text : TokenType → String → ParserState → Bool
next_is_text tt text s = same_type (peek s).0 tt && list_eq (peek s).1 (codes text)

-- `self.peek()[0] == tt and self.peek()[1] in texts`
unfoldable pub next_in : TokenType → List String → ParserState → Bool
next_in tt texts s = same_type (peek s).0 tt && one_of (peek s).1 (map codes texts)

-- `tokens[pos + 1][0] == TT_LPAREN`, false past the end.
unfoldable pub next_is_lparen : ParserState → Bool
next_is_lparen s = same_type (token_at 1 s).0 lparen

unfoldable pub at_end : ParserState → Bool
at_end s = same_type (peek s).0 eof

abbrev pub advance_from : List Token → Parser Token
advance_from [] s = failed index_error
advance_from (t ∷ ts) s = ok (t, record s { tokens = ts; pos = suc s.pos })

unfoldable pub advance : Parser Token
advance s = advance_from s.tokens s

-- `_err` at the current token.
unfoldable pub error_here {ℓ} : {A : Type ℓ} → Parser A
error_here s = failed (syntax_error s.pos)

unfoldable pub expect : TokenType → Parser Token
unfolding branch next_is advance error_here
expect tt s = branch (next_is tt) advance error_here s

unfoldable pub expect_text : TokenType → String → Parser Token
unfolding branch next_is_text advance error_here
expect_text tt text s = branch (next_is_text tt text) advance error_here s

-- `match`, as a test.
unfoldable pub matches : TokenType → Parser Bool
unfolding branch next_is advance ◌>>=◌ pure
matches tt s = branch (next_is tt) (advance >> pure true) (pure false) s

unfoldable pub matches_text : TokenType → String → Parser Bool
unfolding branch next_is_text advance ◌>>=◌ pure
matches_text tt text s = branch (next_is_text tt text) (advance >> pure true) (pure false) s

unfoldable pub starved {ℓ} : {A : Type ℓ} → Parser A
starved s = out_of_fuel

-- The number of tokens that are left.
abbrev pub remaining : ParserState → ℕ
remaining s = length s.tokens

abbrev pub find {ℓ} : {A : Type ℓ} → List (String × A) → Text → Option A
find [] k = none
find ((x, a) ∷ xs) k = let rest = find xs k in if list_eq k (codes x) then some a else rest

abbrev pub in_names : Text → List String → Bool
in_names k names = one_of k (map codes names)

unfoldable pub option_case {ℓ κ} :
    {A : Type ℓ} {B : Type κ} → Option A → Parser B → (A → Parser B) → Parser B
option_case none p f = p
option_case (some a) p f = f a

-- `table[key]`
unfoldable pub item {ℓ} : {A : Type ℓ} → List (String × A) → Text → Parser A
unfolding option_case raise pure
item table k = option_case (find table k) (raise key_error) pure

-- `self._err(..., tok_index=i)`
unfoldable pub error_at {ℓ} : {A : Type ℓ} → ℕ → Parser A
error_at i s = failed (syntax_error i)

-- `_err` at the token before the current one.
unfoldable pub error_before {ℓ} : {A : Type ℓ} → Parser A
error_before s = failed (syntax_error (s.pos - 1))

abbrev pub end_without_semicolon : Parser (Unit {0})
end_without_semicolon s = branch (next_is_text keyword "else") nothing error_before s

-- `_end_stmt`
unfoldable pub end_stmt : Parser (Unit {0})
unfolding branch next_is next_is_text advance ◌>>=◌ nothing error_before
end_stmt s = branch (next_is semicolon) (advance >> nothing) end_without_semicolon s

-- `_user_names.add(name)`
unfoldable pub add_user_name : Text → Parser (Unit {0})
add_user_name name s = ok (tt, record s { user_names = name ∷ s.user_names })

abbrev pub attempted {ℓ κ} :
    {A : Type ℓ} {B : Type κ}
    → Result (A × ParserState)
    → (A → ParserState → Bool)
    → (A → Parser B)
    → Result (B × ParserState)
    → Result (B × ParserState)
attempted (ok (a, s)) keep f other = pick (keep a s) (f a s) other
attempted (failed e) keep f other = failed e
attempted out_of_fuel keep f other = out_of_fuel

-- Read an `A`; unless `keep` holds of it, go back and do `q`. No reader of an `A` declares a name.
unfoldable pub attempt {ℓ κ} :
    {A : Type ℓ} {B : Type κ}
    → Parser A
    → (A → ParserState → Bool)
    → (A → Parser B)
    → Parser B
    → Parser B
attempt p keep f q s = attempted (p s) keep f (q s)
