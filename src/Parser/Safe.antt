-- ===== src/Parser/Safe.antt =====
-- A postcondition for the parser's methods: they stop, they use up tokens, they keep count of them,
-- and the errors they raise point into the source.
pub mod Rules
use power_bridge.Base.{
  ℕ, zero, suc, ◌+◌, ◌≤◌, ◌<◌, ◌≡◌, refl, ap, Bool, true, false, Option, none, some, List, [], ◌∷◌,
  String, length, arith, if◌then◌else◌, drop, drop-drop, sym, ◌∙◌,
}
use power_bridge.Lexer.Step.{TokenType, Token}
use power_bridge.Parser.Monad.{
  ParserState, Parser, Fault, syntax_error, Result, ok, failed, out_of_fuel, then_run, pure, ◌>>=◌,
  raise, gets, pick, branch, loop, while, next_is, next_is_text, advance, advance_from, error_here,
  expect, expect_text, matches, matches_text, remaining, option_case, item, value_error,
  index_error, key_error, nothing, find,
}

-- The result is a value with `P` or an error with `E`; the fuel was enough.
pub data Ensures {ℓ κ κ'} {A : Type ℓ} (P : A → Type κ) (E : Fault → Type κ')
    : Result A → Type (ℓ ⊔ κ ⊔ κ') where
  holds : {a : A} → P a → Ensures P E (ok a)
  raises : {e : Fault} → E e → Ensures P E (failed e)

-- At least `k` tokens were used up, each of them was counted, and the others are left.
pub record Advanced (k : ℕ) (s s' : ParserState) : Type 0 where
  pub used : k + length s'.tokens ≤ length s.tokens
  pub counted : s'.pos + length s'.tokens ≡ s.pos + length s.tokens
  pub suffix : (n : ℕ) × ((s'.pos ≡ s.pos + n) × (s'.tokens ≡ drop n s.tokens))

-- A syntax error points at a token of the source or at its end.
abbrev pub Inside : ParserState → Fault → Type 0
Inside s (syntax_error i) = i ≤ s.pos + length s.tokens
Inside s _ = Unit

-- From fewer than `n` tokens the method stops, with at least `k` tokens used up or with an error.
pub record Safe {ℓ} {A : Type ℓ} (n k : ℕ) (p : Parser A) : Type ℓ where
  pub at :
      (s : ParserState) → length s.tokens < n → Ensures (λ r. Advanced k s r.1) (Inside s) (p s)

pub Advanced-refl : (s : ParserState) → Advanced 0 s s
Advanced-refl s = record { used = omega arith; counted = refl; suffix = (0, (omega arith, refl)) }

abbrev Suffix : ParserState → ParserState → Type 0
Suffix s t = (n : ℕ) × ((t.pos ≡ s.pos + n) × (t.tokens ≡ drop n s.tokens))

Suffix-trans : (s t u : ParserState) → Suffix s t → Suffix t u → Suffix s u
Suffix-trans s t u (n, (p, a)) (m, (q, b)) =
    (n + m, (omega (arith, p, q), b ∙ ap (drop m) a ∙ drop-drop n m s.tokens))

Advanced-trans :
    (j k : ℕ) (s t u : ParserState) → Advanced j s t → Advanced k t u → Advanced (j + k) s u
Advanced-trans j k s t u a b = record {
  used = omega (arith, a.used, b.used);
  counted = omega (arith, a.counted, b.counted);
  suffix = Suffix-trans s t u a.suffix b.suffix;
}

Inside-back : (k : ℕ) (s t : ParserState) (e : Fault) → Advanced k s t → Inside t e → Inside s e
Inside-back k s t (syntax_error i) a h = omega (arith, a.counted)
Inside-back k s t value_error a h = tt
Inside-back k s t index_error a h = tt
Inside-back k s t key_error a h = tt

Advanced-weak : (j k : ℕ) (s t : ParserState) → j ≤ k → Advanced k s t → Advanced j s t
Advanced-weak j k s t le a = record {
  used = omega (arith, a.used);
  counted = a.counted;
  suffix = a.suffix;
}

module _ {ℓ} {A : Type ℓ} where
  Ensures-weak :
      (j k : ℕ) (s : ParserState) {r : Result (A × ParserState)}
      → j ≤ k
      → Ensures (λ r. Advanced k s r.1) (Inside s) r
      → Ensures (λ r. Advanced j s r.1) (Inside s) r
  Ensures-weak j k s le (holds {a} h) = holds (Advanced-weak j k s a.1 le h)
  Ensures-weak j k s le (raises h) = raises h

  -- Fewer tokens at the start, and fewer promised.
  pub Safe-le : {i j m n : ℕ} {p : Parser A} → i ≤ m → j ≤ n → Safe m n p → Safe i j p
  Safe-le {i} {j} {m} {n} a b h = record { at = λ s l. Ensures-weak j n s b (h.at s (omega arith)) }

  pub Safe-weak : {n : ℕ} {p : Parser A} → Safe n 1 p → Safe n 0 p
  Safe-weak h = Safe-le (omega arith) (omega arith) h

  pub Safe-lower : {n : ℕ} {p : Parser A} → Safe (suc n) 1 p → Safe n 0 p
  Safe-lower h = Safe-le (omega arith) (omega arith) h

  pub Safe-pure : {n : ℕ} (a : A) → Safe n 0 (pure a)
  unfolding pure
  Safe-pure a = record { at = λ s l. holds (Advanced-refl s) }

  pub Safe-gets : {n : ℕ} (f : ParserState → A) → Safe n 0 (gets f)
  unfolding gets
  Safe-gets f = record { at = λ s l. holds (Advanced-refl s) }

  pub Safe-value_error : {n k : ℕ} → Safe n k (raise {A = A} value_error)
  unfolding raise
  Safe-value_error = record { at = λ s l. raises tt }

  pub Safe-error_here : {n k : ℕ} → Safe n k (error_here {A = A})
  unfolding error_here
  Safe-error_here = record { at = λ s l. raises (omega arith) }

  Safe-pick :
      {n k : ℕ} {p q : Parser A} (b : Bool) → Safe n k p → Safe n k q → Safe n k (pick b p q)
  Safe-pick true hp hq = hp
  Safe-pick false hp hq = hq

  pub Safe-branch :
      {n k : ℕ} {p q : Parser A} (test : ParserState → Bool)
      → Safe n k p
      → Safe n k q
      → Safe n k (branch test p q)
  unfolding branch
  Safe-branch {n} {k} {p} {q} test hp hq = record { at = λ s l. (Safe-pick (test s) hp hq).at s l }

  pub Safe-if :
      {n k : ℕ} {p q : Parser A} (b : Bool)
      → Safe n k p
      → Safe n k q
      → Safe n k (if b then p else q)
  Safe-if true hp hq = hp
  Safe-if false hp hq = hq

module _ {ℓ} {B : Type ℓ} where
  pub Ensures-after :
      (j k : ℕ) (s t : ParserState) {r : Result (B × ParserState)}
      → Advanced j s t
      → Ensures (λ r. Advanced k t r.1) (Inside t) r
      → Ensures (λ r. Advanced (j + k) s r.1) (Inside s) r
  Ensures-after j k s t h (holds {a} g) = holds (Advanced-trans j k s t a.1 h g)
  Ensures-after j k s t h (raises {e} g) = raises (Inside-back j s t e h g)

module _ {ℓ κ} {A : Type ℓ} {B : Type κ} where
  Ensures-then :
      (j k n : ℕ) (s : ParserState) {r : Result (A × ParserState)} (f : A → Parser B)
      → Ensures (λ r. Advanced j s r.1) (Inside s) r
      → length s.tokens < j + n
      → ((a : A) → Safe n k (f a))
      → Ensures (λ r. Advanced (j + k) s r.1) (Inside s) (then_run r f)
  unfolding then_run
  Ensures-then j k n s f (raises h) l hf = raises h
  Ensures-then j k n s f (holds {a} h) l hf =
      Ensures-after j k s a.1 h ((hf a.0).at a.1 (omega (arith, h.used)))

  Safe-then :
      (j k n : ℕ) {m l : ℕ} {p : Parser A} {f : A → Parser B}
      → m ≤ j + n
      → l ≤ j + k
      → Safe m j p
      → ((a : A) → Safe n k (f a))
      → Safe m l (p >>= f)
  unfolding ◌>>=◌
  Safe-then j k n {m} {l} {p} {f} a b hp hf = record {
    at = λ s h. Ensures-weak l (j + k) s b (Ensures-then j k n s f (hp.at s h) (omega arith) hf);
  }

  -- The rest starts from fewer tokens.
  pub Safe-first :
      {n : ℕ} {p : Parser A} {f : A → Parser B}
      → Safe (suc n) 1 p
      → ((a : A) → Safe n 0 (f a))
      → Safe (suc n) 1 (p >>= f)
  Safe-first {n} hp hf = Safe-then 1 0 n (omega arith) (omega arith) hp hf

  pub Safe-keep :
      {n : ℕ} {p : Parser A} {f : A → Parser B}
      → Safe n 1 p
      → ((a : A) → Safe n 0 (f a))
      → Safe n 1 (p >>= f)
  Safe-keep {n} hp hf = Safe-then 1 0 n (omega arith) (omega arith) hp λ a. hf a

  pub Safe-bind :
      {n : ℕ} {p : Parser A} {f : A → Parser B}
      → Safe n 0 p
      → ((a : A) → Safe n 0 (f a))
      → Safe n 0 (p >>= f)
  Safe-bind {n} hp hf = Safe-then 0 0 n (omega arith) (omega arith) hp hf

  pub Safe-later :
      {n : ℕ} {p : Parser A} {f : A → Parser B}
      → Safe n 0 p
      → ((a : A) → Safe n 1 (f a))
      → Safe n 1 (p >>= f)
  Safe-later {n} hp hf = Safe-then 0 1 n (omega arith) (omega arith) hp hf

  pub Safe-option_case :
      {n k : ℕ} {p : Parser B} {f : A → Parser B} (o : Option A)
      → Safe n k p
      → ((a : A) → Safe n k (f a))
      → Safe n k (option_case o p f)
  unfolding option_case
  Safe-option_case none hp hf = hp
  Safe-option_case (some a) hp hf = hf a
