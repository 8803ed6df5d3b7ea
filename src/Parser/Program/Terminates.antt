-- ===== src/Parser/Program/Terminates.antt =====
-- parser.py: a program is parsed to its end, or refused at one of its tokens.
use power_bridge.Base.{
  ℕ, zero, suc, ◌+◌, ◌≤◌, ◌<◌, ◌≡◌, refl, Bool, true, false, not, List, length, arith, drop, ap,
  ◌∙◌, sym,
}
use power_bridge.Lexer.Step.{Token, keyword, ident, lbracket}
use power_bridge.Parser.Syntax.{Text, Stmt, Stmts, no_stmts}
use power_bridge.Parser.Monad.{
  ParserState, Parser, Fault, syntax_error, value_error, index_error, key_error, Result, ok, failed,
  out_of_fuel, then_run, pure, ◌>>=◌, pick, branch, loop, while_with, at_end,
}
use power_bridge.Parser.Declarations.Terminates.{
  Safe-parse_var_decl, Safe-parse_input_decl, Safe-parse_array_decl,
}
use power_bridge.Parser.Control.Terminates.{
  Safe-parse_if, Safe-parse_for, Safe-parse_while, Safe-parse_repeat_until, Safe-parse_once,
  Safe-parse_switch, Safe-parse_commentary_block,
}
use power_bridge.Parser.Actions.Terminates.{
  Safe-parse_attribute, Safe-parse_commentary, Safe-parse_risk_func, Safe-parse_plot,
  Safe-parse_alert, Safe-parse_print_stmt, Safe-parse_assignment_or_expr,
}
use power_bridge.Parser.Orders.Terminates.{Safe-parse_order}
use power_bridge.Parser.Program.{
  parse_word, parse_ident_statement, parse_keyword_statement, statement_of, parse_dispatch,
  statement_at, parse_statement, program_round, parse_program, new_parser, parse,
}
use power_bridge.Parser.Safe.{Ensures, holds, raises, Advanced, Inside, Safe, Safe-keep, Safe-later}
use power_bridge.Parser.Safe.Rules.{safe_rules, Safe-fuelled, Safe-while}

Safe-parse_word : {n : ℕ} (s : Stmt) → Safe (suc n) 1 (parse_word s)
unfolding parse_word
Safe-parse_word s = search safe_rules depth 20

module _ {m : ℕ} {statement : Parser Stmt} (h : Safe m 1 statement) where
  Safe-parse_ident_statement : (val : Text) → Safe (suc m) 1 (parse_ident_statement statement val)
  unfolding parse_ident_statement
  Safe-parse_ident_statement val =
      search
        (
          safe_rules, Safe-parse_order, Safe-parse_risk_func, Safe-parse_plot, Safe-parse_alert,
          Safe-parse_commentary, Safe-parse_commentary_block, Safe-parse_print_stmt,
          Safe-parse_assignment_or_expr,
        )
        depth 20

  Safe-parse_keyword_statement :
      (val : Text) → Safe (suc m) 1 (parse_keyword_statement statement val)
  unfolding parse_keyword_statement
  Safe-parse_keyword_statement val =
      search
        (
          safe_rules, Safe-parse_var_decl, Safe-parse_input_decl, Safe-parse_array_decl,
          Safe-parse_if, Safe-parse_for, Safe-parse_while, Safe-parse_repeat_until,
          Safe-parse_switch, Safe-parse_once, Safe-parse_word, Safe-parse_assignment_or_expr,
        )
        depth 30

  Safe-statement_of : (t : Token) → Safe (suc m) 1 (statement_of statement t)
  unfolding statement_of
  Safe-statement_of (keyword, val) = Safe-parse_keyword_statement val
  Safe-statement_of (ident, val) = Safe-parse_ident_statement val
  Safe-statement_of (lbracket, val) = Safe-parse_attribute
  Safe-statement_of _ = Safe-parse_assignment_or_expr

  Safe-parse_dispatch : Safe (suc m) 1 (parse_dispatch statement)
  unfolding parse_dispatch
  Safe-parse_dispatch = search (safe_rules, Safe-later, Safe-statement_of) depth 20

pub Safe-statement_at : (n : ℕ) → Safe n 1 (statement_at n)
unfolding statement_at
Safe-statement_at zero = record { at = λ s l. elim l [ ] }
Safe-statement_at (suc n) = Safe-parse_dispatch (Safe-statement_at n)

Safe-parse_statement : {n : ℕ} → Safe n 1 parse_statement
unfolding parse_statement
Safe-parse_statement = Safe-fuelled λ n l. Safe-statement_at (suc n)

Safe-program_round : {n : ℕ} (stmts : Stmts) → Safe n 1 (program_round stmts)
unfolding program_round
Safe-program_round stmts = search (safe_rules, Safe-keep, Safe-parse_statement) depth 20

Safe-parse_program : {n : ℕ} → Safe n 0 parse_program
unfolding parse_program
Safe-parse_program = Safe-while _ Safe-program_round no_stmts

-- A loop that returns stops where its test fails.
module _ {ℓ} {A : Type ℓ} (test : A → ParserState → Bool) (body : A → Parser A) where
  abbrev Exits : Result (A × ParserState) → Type 0
  Exits (ok (a, s)) = test a s ≡ false
  Exits (failed e) = Unit
  Exits out_of_fuel = Unit

  then_run-Exits :
      (r : Result (A × ParserState)) (f : A → Parser A)
      → ((a : A) (s : ParserState) → Exits (f a s))
      → Exits (then_run r f)
  unfolding then_run
  then_run-Exits (ok (a, s)) f h = h a s
  then_run-Exits (failed e) f h = tt
  then_run-Exits out_of_fuel f h = tt

  pick-Exits :
      (n : ℕ) (a : A) (s : ParserState) (b : Bool)
      → test a s ≡ b
      → ((a : A) (s : ParserState) → Exits (loop n test body a s))
      → Exits (pick b (body a >>= loop n test body) (pure a) s)
  unfolding ◌>>=◌ pure
  pick-Exits n a s true e h = then_run-Exits (body a s) (loop n test body) h
  pick-Exits n a s false e h = e

  loop-Exits : (n : ℕ) (a : A) (s : ParserState) → Exits (loop n test body a s)
  unfolding loop branch
  loop-Exits zero a s = tt
  loop-Exits (suc n) a s = pick-Exits n a s (test a s) refl (loop-Exits n)

  while_with-Exits : (a : A) (s : ParserState) → Exits (while_with test body a s)
  unfolding while_with
  while_with-Exits a s = loop-Exits (suc (length s.tokens)) a s

-- What a parse comes to: the state is at the end of the source, with the tokens from its index on left
-- of `toks`, or the error is at one of the `n` tokens or after the last of them.
pub record IsFinished (toks : List Token) (r : Stmts × ParserState) : Type 0 where
  pub finished : at_end r.1 ≡ true
  pub counted : r.1.pos + length r.1.tokens ≡ length toks
  pub left : r.1.tokens ≡ drop r.1.pos toks

abbrev pub IsLocated : ℕ → Fault → Type 0
IsLocated n (syntax_error i) = i ≤ n
IsLocated n _ = Unit

at_start : (n p : ℕ) → p ≡ 0 + n → p ≡ n
at_start n p e = omega arith

parse_program-IsFinished :
    (toks : List Token) {r : Result (Stmts × ParserState)}
    → Ensures (λ r. Advanced 0 (new_parser toks) r.1) (Inside (new_parser toks)) r
    → Exits (λ _ s. not (at_end s)) program_round r
    → Ensures (IsFinished toks) (IsLocated (length toks)) r
unfolding new_parser
parse_program-IsFinished toks (holds {a = (body, t)} h) e = holds record {
  finished = ground arith;
  counted = omega (arith, h.counted);
  left = h.suffix.1.1 ∙ ap (λ n. drop n toks) (sym (at_start h.suffix.0 t.pos h.suffix.1.0));
}
parse_program-IsFinished toks (raises {e = syntax_error i} g) e = raises (omega arith)
parse_program-IsFinished toks (raises {e = value_error} g) e = raises tt
parse_program-IsFinished toks (raises {e = index_error} g) e = raises tt
parse_program-IsFinished toks (raises {e = key_error} g) e = raises tt

parse_program-Exits :
    (s : ParserState) → Exits (λ _ s. not (at_end s)) program_round (parse_program s)
unfolding parse_program
parse_program-Exits s = while_with-Exits _ program_round no_stmts s

within : (toks : List Token) → length (new_parser toks).tokens < suc (length toks)
unfolding new_parser
within toks = omega arith

-- On every list of tokens the parser ends: with a tree, at the end token, with the tokens of the list
-- from its index on left and the index counting the others, or with an error; a syntax error is at a
-- token of the list or just after the last one. It never runs out of the fuel that its methods take.
pub parse-IsFinished :
    (toks : List Token) → Ensures (IsFinished toks) (IsLocated (length toks)) (parse toks)
unfolding parse
parse-IsFinished toks =
    parse_program-IsFinished toks
      ((Safe-parse_program {n = suc (length toks)}).at (new_parser toks) (within toks))
      (parse_program-Exits (new_parser toks))
