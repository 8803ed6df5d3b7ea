-- ===== src/Parser/Primary/Shadowing.antt =====
-- _parser_expr.py: a user name of the same spelling hides a position keyword.
use power_bridge.Base.{
  suc, Bool, true, false, not, ◌&&◌, Option, none, some, List, [], ◌∷◌, String, ◌≡◌, refl, ap, ◌∙◌,
  Bool-cases, inl, inr, &&-both,
}
use power_bridge.Lexer.Chars.{codes, list_eq}
use power_bridge.Lexer.Words.{list_eq_sound, not-true}
use power_bridge.Lexer.Step.{Token, ident, lparen, lbracket}
use power_bridge.Parser.Syntax.{Text, Expr, ident}
use power_bridge.Parser.Tables.{
  color_constants, style_constants, period_funcs, symbol_info_keywords, position_keywords,
  data_series_keywords, mc_keywords, data_of_series,
}
use power_bridge.Parser.Monad.{
  ParserState, Parser, ok, find, same_type, in_names, branch, ◌>>=◌, then_run, advance, option_case,
  pure, next_is, next_is_lparen,
}
use power_bridge.Parser.Primary.{
  parse_ident_primary, parse_series_primary, parse_constant_primary, parse_data_primary,
  parse_ident_or_call, call_or_ident, with_bar_ref, hides_position, is_user_name, is_some,
}

abbrev is_none {ℓ} : {A : Type ℓ} → Option A → Bool
is_none none = true
is_none (some a) = false

-- No table but that of the position keywords has the word.
abbrev only_position : Text → Bool
only_position w =
    not (list_eq w (codes "marketposition"))
    && (not (in_names w symbol_info_keywords)
        && (is_none (find data_series_keywords w)
            && (is_none (find color_constants w)
                && (is_none (find style_constants w)
                    && (not (in_names w period_funcs) && not (in_names w data_of_series))))))

abbrev all_keys : (Text → Bool) → List (String × String) → Bool
all_keys p [] = true
all_keys p ((k, v) ∷ xs) = p (codes k) && all_keys p xs

position_keywords-only : all_keys only_position position_keywords ≡ true
unfolding position_keywords data_series_keywords symbol_info_keywords color_constants
    style_constants period_funcs data_of_series
position_keywords-only = refl

find-all_keys :
    (p : Text → Bool) (xs : List (String × String)) (w : Text) (v : String)
    → all_keys p xs ≡ true
    → find xs w ≡ some v
    → p w ≡ true
find-all_keys p [] w v a e = cc
find-all_keys p ((k, x) ∷ xs) w v a e =
    let (here, there) = &&-both (p (codes k)) (all_keys p xs) a in
    elim (Bool-cases (list_eq w (codes k))) [
      | inl h ↦ ap p (list_eq_sound w (codes k) h) ∙ here
      | inr h ↦ find-all_keys p xs w v there (simp h at e)
    ]

is_none-none {ℓ} : {A : Type ℓ} (o : Option A) → is_none o ≡ true → o ≡ none
is_none-none none e = refl
is_none-none (some a) e = cc

&&-false : (b : Bool) → (b && not true) ≡ false
&&-false true = refl
&&-false false = refl

-- Where a word is a position keyword and a user name, and the token behind it is no opening parenthesis
-- or bracket, the parser reads it as an identifier and goes one token on.
pub parse_ident_primary-shadowed :
    (expression : Parser Expr) (word : Text) (kwarg : String) (t : Token) (s : ParserState)
    (rest : List Token)
    → find position_keywords word ≡ some kwarg
    → s.tokens ≡ (ident, word) ∷ t ∷ rest
    → is_user_name word s ≡ true
    → same_type t.0 lparen ≡ false
    → same_type t.0 lbracket ≡ false
    → parse_ident_primary expression word s
      ≡ ok (ident word, record s { tokens = t ∷ rest; pos = suc s.pos })
unfolding parse_ident_primary parse_series_primary parse_constant_primary parse_data_primary
    parse_ident_or_call call_or_ident with_bar_ref branch ◌>>=◌ then_run advance option_case pure
    next_is next_is_lparen hides_position
parse_ident_primary-shadowed expression word kwarg t s rest hk ht hu hp hb =
    let only = find-all_keys only_position position_keywords word kwarg position_keywords-only hk in
    let (m, r1) = &&-both (not (list_eq word (codes "marketposition"))) _ only in
    let (i, r2) = &&-both (not (in_names word symbol_info_keywords)) _ r1 in
    let (d, r3) = &&-both (is_none (find data_series_keywords word)) _ r2 in
    let (c, r4) = &&-both (is_none (find color_constants word)) _ r3 in
    let (y, r5) = &&-both (is_none (find style_constants word)) _ r4 in
    let (f, o) = &&-both (not (in_names word period_funcs)) _ r5 in
    simp (
      hk,
      ht,
      hu,
      hp,
      hb,
      not-true _ m,
      not-true _ i,
      is_none-none _ d,
      is_none-none _ c,
      is_none-none _ y,
      not-true _ f,
      not-true _ o,
      &&-false (is_some (find mc_keywords word)),
    )
