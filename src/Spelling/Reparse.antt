-- ===== src/Spelling/Reparse.antt =====
-- codegen_el.py and _parser_expr.py: the word that is written for a keyword node is read back as it.
use power_bridge.Base.{
  ℕ, suc, Bool, true, false, not, ◌&&◌, Option, none, some, List, [], ◌∷◌, String, ◌≡◌, refl, sym,
  Bool-cases, inl, inr, ◌∙◌, Option-cases, ap, &&-both,
}
use power_bridge.Lexer.Chars.{codes, list_eq, one_of}
use power_bridge.Lexer.Words.{list_eq_sound, not-true}
use power_bridge.Lexer.Step.{Token, ident, lparen, lbracket}
use power_bridge.Parser.Syntax.{Text, Expr, position_kw, ident}
use power_bridge.Parser.Tables.{position_keywords, data_series_keywords, symbol_info_keywords}
use power_bridge.Parser.Monad.{
  ParserState, Parser, ok, find, same_type, in_names, branch, ◌>>=◌, then_run, advance, item,
  option_case, pure, next_is, next_is_lparen, nothing,
}
use power_bridge.Parser.Primary.{
  parse_ident_primary, parse_position_kw, parse_series_primary, parse_symbol_info_kw,
  symbol_argument, with_bar_ref, hides_position, is_user_name,
}
use power_bridge.Spelling.{Spellings, inv_poskw}

-- The text of an entry, if the table has one.
abbrev is_entry : Option String → Text → Bool
is_entry none k = false
is_entry (some x) k = list_eq (codes x) k

-- The parser's tables read the word as the name.
abbrev is_read : String × String → Bool
is_read (k, el) =
    not (list_eq (codes el) (codes "marketposition")) && elim (find position_keywords (codes el)) [
      | some x ↦ list_eq (codes x) (codes k)
      | none ↦ is_entry (find data_series_keywords (codes el)) (codes k)
    ]

abbrev all_read : Spellings → Bool
all_read [] = true
all_read (x ∷ xs) = is_read x && all_read xs

inv_poskw-read : all_read inv_poskw ≡ true
unfolding inv_poskw position_keywords data_series_keywords
inv_poskw-read = refl

-- The parser at a word, with `t` behind it, and past the word.
abbrev pub at_word : Text → Token → List Token → ℕ → List Text → List Text → ParserState
at_word word t rest p users declared = record {
  tokens = (ident, word) ∷ t ∷ rest;
  pos = p;
  user_names = users;
  declared_names = declared;
}

abbrev pub past_word : Token → List Token → ℕ → List Text → List Text → ParserState
past_word t rest p users declared = record {
  tokens = t ∷ rest;
  pos = suc p;
  user_names = users;
  declared_names = declared;
}

module _ (expression : Parser Expr) (word : Text) (t : Token) (rest : List Token) (p : ℕ)
    (users declared : List Text) where
  position-word :
      (k : String)
      → same_type t.0 lparen ≡ false
      → same_type t.0 lbracket ≡ false
      → one_of word users ≡ false
      → list_eq word (codes "marketposition") ≡ false
      → find position_keywords word ≡ some k
      → parse_ident_primary expression word (at_word word t rest p users declared)
        ≡ ok (position_kw (codes k), past_word t rest p users declared)
  unfolding parse_ident_primary parse_position_kw with_bar_ref branch ◌>>=◌ then_run advance item
      option_case pure hides_position is_user_name next_is
  position-word k hp hb hu hm hk = simp (hp, hb, hu, hm, hk)

  data-word :
      (k : String)
      → same_type t.0 lparen ≡ false
      → one_of word users ≡ false
      → list_eq word (codes "marketposition") ≡ false
      → find position_keywords word ≡ none
      → find data_series_keywords word ≡ some k
      → parse_ident_primary expression word (at_word word t rest p users declared)
        ≡ ok (position_kw (codes k), past_word t rest p users declared)
  unfolding parse_ident_primary parse_series_primary parse_symbol_info_kw symbol_argument nothing
      branch ◌>>=◌ then_run advance item option_case pure next_is next_is_lparen
  data-word k hp hu hm hn hk = elim (Bool-cases (in_names word symbol_info_keywords)) [
    | inl e ↦ simp (hp, hu, hm, hn, hk, e)
    | inr e ↦ simp (hp, hu, hm, hn, hk, e)
  ]

-- What a table of words that are read gives for a name.
abbrev Reads : Text → String → Type 0
Reads name el = (k : String) × ((codes k ≡ name) × (is_read (k, el) ≡ true))

find-Reads :
    (xs : Spellings) (name : Text) (el : String)
    → all_read xs ≡ true
    → find xs name ≡ some el
    → Reads name el
find-Reads [] name el a e = cc
find-Reads ((k, w) ∷ xs) name el a e =
    let (here, there) = &&-both (is_read (k, w)) (all_read xs) a in
    elim (Bool-cases (list_eq name (codes k))) [
      | inl h ↦
          let w_el : some w ≡ some el = simp h at e in
          (k, (sym (list_eq_sound name (codes k) h), cc))
      | inr h ↦ find-Reads xs name el there (simp h at e)
    ]

module _ (expression : Parser Expr) (t : Token) (rest : List Token) (p : ℕ)
    (users declared : List Text) where
  abbrev Reparses : Text → String → Type 0
  Reparses name el =
      parse_ident_primary expression (codes el) (at_word (codes el) t rest p users declared)
      ≡ ok (position_kw name, past_word t rest p users declared)

  Reparses-eq : (a b : Text) (el : String) → a ≡ b → Reparses a el → Reparses b el
  Reparses-eq a b el e h = h ∙ ap (λ c. ok (position_kw c, past_word t rest p users declared)) e

  -- The word is a position keyword, or else a data series keyword.
  is_read-Reparses :
      (k el : String)
      → same_type t.0 lparen ≡ false
      → same_type t.0 lbracket ≡ false
      → one_of (codes el) users ≡ false
      → is_read (k, el) ≡ true
      → Reparses (codes k) el
  is_read-Reparses k el hp hb hu e =
      let (m, r) = &&-both (not (list_eq (codes el) (codes "marketposition"))) _ e in
      let plain = not-true (list_eq (codes el) (codes "marketposition")) m in
      elim (Option-cases (find position_keywords (codes el))) [
        | inr (x, q) ↦
            Reparses-eq (codes x) (codes k) el (list_eq_sound (codes x) (codes k) (simp q at r))
              (position-word expression (codes el) t rest p users declared x hp hb hu plain q)
        | inl q ↦ elim (Option-cases (find data_series_keywords (codes el))) [
          | inr (x, d) ↦
              Reparses-eq (codes x) (codes k) el
                (list_eq_sound (codes x) (codes k) (simp (q, d) at r))
                (data-word expression (codes el) t rest p users declared x hp hu plain q d)
          | inl d ↦ let no : false ≡ true = simp (q, d) at r in cc
        ]
      ]

  -- For each name of a keyword node to which `_INV_POSKW` gives a word: where no user name is spelled so
  -- and the token behind the word is no opening parenthesis or bracket, the parser reads the word as the
  -- keyword node of that name and goes one token on.
  pub inv_poskw-reparse :
      (name : Text) (el : String)
      → find inv_poskw name ≡ some el
      → same_type t.0 lparen ≡ false
      → same_type t.0 lbracket ≡ false
      → one_of (codes el) users ≡ false
      → Reparses name el
  inv_poskw-reparse name el e hp hb hu =
      let (k, (eq, r)) = find-Reads inv_poskw name el inv_poskw-read e in
      Reparses-eq (codes k) name el eq (is_read-Reparses k el hp hb hu r)
