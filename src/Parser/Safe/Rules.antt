-- ===== src/Parser/Safe/Rules.antt =====
-- The rules for loops, fuel and the parser's own steps, and the set that `search` applies to a method.
use power_bridge.Base.{
  ℕ, zero, suc, ◌≤◌, ◌<◌, ◌≡◌, refl, ap, Bool, true, false, List, [], ◌∷◌, String, length, arith,
  drop, sym,
}
use power_bridge.Lexer.Step.{TokenType, Token, keyword, semicolon}
use power_bridge.Parser.Syntax.{Text}
use power_bridge.Parser.Monad.{
  ParserState, Parser, Result, then_run, ◌>>=◌, raise, gets, pick, branch, loop, while_with,
  next_is, next_is_text, advance, advance_from, expect, expect_text, matches, matches_text,
  remaining, pick, error_before, error_at, end_stmt, add_user_name, attempted, attempt, item,
  nothing, find,
}
use power_bridge.Parser.Safe.{
  Ensures, holds, raises, Advanced, Advanced-refl, Inside, Safe, Ensures-after, Safe-le, Safe-weak,
  Safe-lower, Safe-pure, Safe-gets, Safe-value_error, Safe-error_here, Safe-branch, Safe-if,
  Safe-first, Safe-keep, Safe-bind, Safe-later, Safe-option_case,
}

module _ {ℓ} {A : Type ℓ} where
  -- The fuel of a method is the number of tokens at its start.
  pub Safe-fuelled :
      {m : ℕ} {f : ℕ → Parser A}
      → ((n : ℕ) → n < m → Safe (suc n) 1 (f n))
      → Safe m 1 (gets remaining >>= f)
  unfolding ◌>>=◌ gets then_run
  Safe-fuelled h = record { at = λ s l. (h (length s.tokens) l).at s (omega arith) }

  Safe-loop :
      (m n : ℕ) (test : A → ParserState → Bool) {body : A → Parser A}
      → ((a : A) → Safe m 1 (body a))
      → (n' : ℕ) → n' ≤ n
      → n' ≤ m
      → (a : A) → Safe n' 0 (loop n test body a)
  unfolding loop
  Safe-loop m zero test hb zero l le a = record { at = λ s h. elim h [ ] }
  Safe-loop m zero test hb (suc n') l le a = elim l [ ]
  Safe-loop m (suc n) test hb zero l le a = record { at = λ s h. elim h [ ] }
  Safe-loop m (suc n) test {body} hb (suc n') l le a = record {
    at =
        (Safe-branch (test a)
          (Safe-weak (
            Safe-first (Safe-le le (omega arith) (hb a))
              λ a'. Safe-loop m n test hb n' (omega arith) (omega arith) a'))
          (Safe-pure a)).at;
  }

  -- A loop whose rounds use up tokens.
  pub Safe-while :
      {m : ℕ} {body : A → Parser A} (test : A → ParserState → Bool)
      → ((a : A) → Safe m 1 (body a))
      → (a : A) → Safe m 0 (while_with test body a)
  unfolding while_with
  Safe-while {m} {body} test hb a = record {
    at = λ s h.
        (Safe-loop m (suc (length s.tokens)) test hb (suc (length s.tokens)) (omega arith) h a).at s
          (omega arith);
  }

Safe-advance_from :
    (ts : List Token) (s : ParserState)
    → s.tokens ≡ ts
    → Ensures (λ r. Advanced 1 s r.1) (Inside s) (advance_from ts s)
Safe-advance_from [] s e = raises tt
Safe-advance_from (t ∷ ts) s e = holds record {
  used = omega (arith, ap length e);
  counted = omega (arith, ap length e);
  suffix = (1, (omega arith, ap (drop 1) (sym e)));
}

pub Safe-advance : {n : ℕ} → Safe n 1 advance
unfolding advance
Safe-advance = record { at = λ s l. Safe-advance_from s.tokens s refl }

pub Safe-nothing : {n : ℕ} → Safe n 0 nothing
unfolding nothing
Safe-nothing = record { at = λ s l. holds (Advanced-refl s) }

pub Safe-expect : {n : ℕ} (kind : TokenType) → Safe n 1 (expect kind)
unfolding expect
Safe-expect kind = record { at = (Safe-branch (next_is kind) Safe-advance Safe-error_here).at }

pub Safe-expect_text : {n : ℕ} (kind : TokenType) (text : String) → Safe n 1 (expect_text kind text)
unfolding expect_text
Safe-expect_text kind text = record {
  at = (Safe-branch (next_is_text kind text) Safe-advance Safe-error_here).at;
}

pub Safe-matches : {n : ℕ} (kind : TokenType) → Safe n 0 (matches kind)
unfolding matches
Safe-matches kind = record {
  at =
      (Safe-branch (next_is kind) (Safe-bind (Safe-weak Safe-advance) λ _. Safe-pure true)
        (Safe-pure false)).at;
}

pub Safe-matches_text :
    {n : ℕ} (kind : TokenType) (text : String) → Safe n 0 (matches_text kind text)
unfolding matches_text
Safe-matches_text kind text = record {
  at =
      (Safe-branch (next_is_text kind text) (Safe-bind (Safe-weak Safe-advance) λ _. Safe-pure true)
        (Safe-pure false)).at;
}

pub Safe-item {ℓ} :
    {A : Type ℓ} {n : ℕ} (table : List (String × A)) (k : List ℕ) → Safe n 0 (item table k)
unfolding item raise
Safe-item table k = record {
  at = (Safe-option_case (find table k) (record { at = λ s l. raises tt }) λ a. Safe-pure a).at;
}

pub Safe-error_before {ℓ} : {A : Type ℓ} {n k : ℕ} → Safe n k (error_before {A = A})
unfolding error_before
Safe-error_before = record { at = λ s l. raises (omega arith) }

pub Safe-end_stmt : {n : ℕ} → Safe n 0 end_stmt
unfolding end_stmt
Safe-end_stmt = record {
  at =
      (Safe-branch (next_is semicolon) (Safe-bind (Safe-weak Safe-advance) λ _. Safe-nothing)
        (Safe-branch (next_is_text keyword "else") Safe-nothing Safe-error_before)).at;
}

pub Safe-add_user_name : {n : ℕ} (name : Text) → Safe n 0 (add_user_name name)
unfolding add_user_name
Safe-add_user_name name = record {
  at =
      λ s l. holds record { used = omega arith; counted = refl; suffix = (0, (omega arith, refl)) };
}

module _ {ℓ κ} {A : Type ℓ} {B : Type κ} where
  -- An error that points at the token where the method began.
  Ensures-from_start :
      {n : ℕ} (s : ParserState) {r : Result (A × ParserState)} (test : ParserState → Bool)
      {q : A → Parser B}
      → Ensures (λ r. Advanced 1 s r.1) (Inside s) r
      → length s.tokens < suc n
      → ((a : A) → Safe n 0 (q a))
      → Ensures
          (λ r. Advanced 1 s r.1)
          (Inside s)
          (then_run r λ a. branch test (q a) (error_at s.pos))
  unfolding then_run branch error_at
  Ensures-from_start {n} s test {q} (raises e) l hq = raises e
  Ensures-from_start {n} s test {q} (holds {a} h) l hq =
      elim (test a.1)
        as (λ b. Ensures (λ r. Advanced 1 s r.1) (Inside s) (pick b (q a.0) (error_at s.pos) a.1)) [
          | true ↦ Ensures-after 1 0 s a.1 h ((hq a.0).at a.1 (omega (arith, h.used)))
          | false ↦ raises (omega arith)
        ]

  pub Safe-from_start :
      {n : ℕ} {p : Parser A} (test : ParserState → Bool) {q : A → Parser B}
      → Safe (suc n) 1 p
      → ((a : A) → Safe n 0 (q a))
      → Safe (suc n) 1 (gets (λ s. s.pos) >>= λ i. p >>= λ a. branch test (q a) (error_at i))
  unfolding ◌>>=◌ gets then_run
  Safe-from_start test hp hq = record { at = λ s l. Ensures-from_start s test (hp.at s l) l hq }

  Ensures-attempted :
      {n : ℕ} (s : ParserState) {r : Result (A × ParserState)} (keep : A → ParserState → Bool)
      {f : A → Parser B} {other : Result (B × ParserState)}
      → Ensures (λ r. Advanced 1 s r.1) (Inside s) r
      → length s.tokens < suc n
      → ((a : A) → Safe n 0 (f a))
      → Ensures (λ r. Advanced 1 s r.1) (Inside s) other
      → Ensures (λ r. Advanced 1 s r.1) (Inside s) (attempted r keep f other)
  Ensures-attempted s keep (raises e) l hf hq = raises e
  Ensures-attempted s keep {f} {other} (holds {a} h) l hf hq =
      elim (keep a.0 a.1)
        as (λ b. Ensures (λ r. Advanced 1 s r.1) (Inside s) (pick b (f a.0 a.1) other)) [
          | true ↦ Ensures-after 1 0 s a.1 h ((hf a.0).at a.1 (omega (arith, h.used)))
          | false ↦ hq
        ]

  pub Safe-attempt :
      {n : ℕ} {p : Parser A} (keep : A → ParserState → Bool) {f : A → Parser B} {q : Parser B}
      → Safe (suc n) 1 p
      → ((a : A) → Safe n 0 (f a))
      → Safe (suc n) 1 q
      → Safe (suc n) 1 (attempt p keep f q)
  unfolding attempt
  Safe-attempt keep hp hf hq = record {
    at = λ s l. Ensures-attempted s keep (hp.at s l) l hf (hq.at s l);
  }

-- Where only the fuel matters, not what is used up.
pub Safe-advance_weak : {n : ℕ} → Safe n 0 advance
Safe-advance_weak = Safe-weak Safe-advance

pub Safe-expect_weak : {n : ℕ} (kind : TokenType) → Safe n 0 (expect kind)
Safe-expect_weak kind = Safe-weak (Safe-expect kind)

pub Safe-expect_text_weak :
    {n : ℕ} (kind : TokenType) (text : String) → Safe n 0 (expect_text kind text)
Safe-expect_text_weak kind text = Safe-weak (Safe-expect_text kind text)

-- A method's `do` block is taken apart from its first step on.
pub ruleset safe_rules = (
  Safe-pure, Safe-gets, Safe-value_error, Safe-error_here, Safe-nothing, Safe-advance, Safe-expect,
  Safe-expect_text, Safe-matches, Safe-matches_text, Safe-item, Safe-advance_weak, Safe-expect_weak,
  Safe-expect_text_weak, Safe-first, Safe-bind, Safe-branch, Safe-if, Safe-option_case, Safe-while,
  Safe-end_stmt, Safe-add_user_name, Safe-from_start, Safe-attempt,
)
