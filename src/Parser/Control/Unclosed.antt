-- ===== src/Parser/Control/Unclosed.antt =====
-- _parser_stmts.py: a block that is not closed.
use power_bridge.Base.{
  ℕ, zero, suc, ◌<◌, Bool, true, false, ◌&&◌, ◌||◌, List, [], ◌∷◌, ◌≡◌, refl, sym, ap, ◌∙◌, length,
  drop, get_elem?, arith, Bool-cases, inl, inr,
}
use power_bridge.Lexer.Chars.{codes, list_eq}
use power_bridge.Lexer.Step.{Token, keyword}
use power_bridge.Parser.Syntax.{Stmt}
use power_bridge.Parser.Monad.{
  ParserState, Parser, Result, then_run, branch, next_is_text, same_type, gets, ◌>>=◌, error_at,
  token_or_eof,
}
use power_bridge.Parser.Control.{parse_block}
use power_bridge.Parser.Control.Terminates.{Safe-statements_until}
use power_bridge.Parser.Safe.{Ensures, holds, raises, Advanced, Inside, Safe, Safe-first}
use power_bridge.Parser.Safe.Rules.{Safe-expect_text}

abbrev is_end : Token → Bool
is_end t = same_type t.0 keyword && list_eq t.1 (codes "end")

-- The word `end` stands among the tokens.
abbrev pub has_end : List Token → Bool
has_end [] = false
has_end (t ∷ toks) = is_end t || has_end toks

or_right : (a b : Bool) → b ≡ true → (a || b) ≡ true
or_right true b e = refl
or_right false b e = e

or_left : (a b : Bool) → a ≡ true → (a || b) ≡ true
or_left true b e = refl
or_left false b e = cc

drop-has_end :
    (toks : List Token) (n : ℕ)
    → is_end (token_or_eof (get_elem? (drop n toks) 0)) ≡ true
    → has_end toks ≡ true
drop-has_end [] zero e = cc
drop-has_end [] (suc n) e = cc
drop-has_end (t ∷ toks) zero e = or_left (is_end t) (has_end toks) e
drop-has_end (t ∷ toks) (suc n) e = or_right (is_end t) (has_end toks) (drop-has_end toks n e)

-- Where `end` is next, it stands among the tokens there were before.
next-has_end :
    (toks : List Token) (n : ℕ) (s : ParserState)
    → s.tokens ≡ drop n toks
    → next_is_text keyword "end" s ≡ true
    → has_end toks ≡ true
unfolding next_is_text
next-has_end toks n s e h =
    drop-has_end toks n (ap (λ ts. is_end (token_or_eof (get_elem? ts 0))) (sym e) ∙ h)

-- The loop of a block has ended, and `end` is next or the error points at `begin`.
module _ {ℓ} {A B : Type ℓ} where
  closed-Ensures :
      (s : ParserState) {r : Result (A × ParserState)} (q : A → Parser B)
      → has_end s.tokens ≡ false
      → Ensures (λ r. Advanced 1 s r.1) (Inside s) r
      → Ensures
          (λ _. ⊥)
          (Inside s)
          (then_run r λ a. branch (next_is_text keyword "end") (q a) (error_at s.pos))
  unfolding then_run branch error_at
  closed-Ensures s q missing (raises e) = raises e
  closed-Ensures s q missing (holds {a} h) = elim (Bool-cases (next_is_text keyword "end" a.1)) [
    | inl e ↦
        let clash : true ≡ false =
          sym (next-has_end s.tokens h.suffix.0 a.1 h.suffix.1.1 e) ∙ missing in
        cc
    | inr e ↦ simp e (raises (omega arith))
  ]

-- Where no `end` stands among the tokens, a block is refused, whatever it holds.
pub parse_block-refused :
    {m : ℕ} {statement : Parser Stmt} (s : ParserState)
    → Safe m 1 statement
    → length s.tokens < suc m
    → has_end s.tokens ≡ false
    → Ensures (λ _. ⊥) (Inside s) (parse_block statement s)
unfolding parse_block ◌>>=◌ gets then_run
parse_block-refused s h few missing =
    let stmts = λ (_ : Token). Safe-statements_until h (next_is_text keyword "end") in
    let begun = Safe-first (Safe-expect_text keyword "begin") stmts in
    closed-Ensures s _ missing (begun.at s few)
