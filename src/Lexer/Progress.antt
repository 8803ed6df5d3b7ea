-- ===== src/Lexer/Progress.antt =====
-- lexer.py, `tokenise_with_comments`: the loop ends. Every round uses up at least a character.
use power_bridge.Base.{
  ℕ, zero, suc, ◌+◌, ◌<◌, ◌≡◌, refl, ap, Bool, true, false, not, ◌&&◌, Option, none, some, List, [],
  ◌∷◌, ◌++◌, arith, Bool-cases, inl, inr, ◌==◌, if◌then◌else◌, length, drop, length-drop, take, map,
}
use power_bridge.Lexer.Chars.{
  codes, list_eq, one_of, newline, is_blank, is_word_start, run, keywords,
}
use power_bridge.Lexer.Positions.{newlines, pos, line_col}
use power_bridge.Lexer.Step.{
  eof, Token, Step, skip, comment, emit, fail, comment_length, string_length, head_is, word_length,
  word_at, crosses_step, word_step, single, operator_step, number_length, lex_step, TokenType,
  string, unexpected_character, unterminated_comment, unterminated_string, keyword, ident, op,
}
use power_bridge.Lexer.Loop.{
  Comment, LexResult, lexed, error, out_of_fuel, add_token, add_comment, comment_at, lex_from,
  tokenise_with_comments,
}

-- A round that goes on uses up at least one character.
abbrev pub Progress : Step → Type 0
Progress (skip n) = 0 < n
Progress (comment n) = 0 < n
Progress (emit t n) = 0 < n
Progress (fail x) = Unit

if_cases :
    (b : Bool) (x y : Step)
    → (b ≡ true → Progress x)
    → (b ≡ false → Progress y)
    → Progress (if b then x else y)
if_cases true x y p q = p refl
if_cases false x y p q = q refl

crosses_step-Progress : (n : ℕ) (after : List ℕ) → 0 < n → Progress (crosses_step n after)
unfolding crosses_step
crosses_step-Progress n after h =
    let gap = run is_blank after in
    let rest = drop gap after in
    let second = word_at rest in
    let both = n + gap + word_length rest in
    if_cases (one_of second (codes "above" ∷ codes "over" ∷ []))
      (emit (keyword, codes "crossesabove") both)
      (if one_of second (codes "below" ∷ codes "under" ∷ [])
        then emit (keyword, codes "crossesbelow") both
        else emit (ident, codes "crosses") n)
      (λ e. omega arith)
      (λ e.
        if_cases (one_of second (codes "below" ∷ codes "under" ∷ []))
          (emit (keyword, codes "crossesbelow") both) (emit (ident, codes "crosses") n)
          (λ e'. omega arith) (λ e'. h))

word_step-Progress : (c : ℕ) (cs : List ℕ) → is_word_start c ≡ true → Progress (word_step (c ∷ cs))
unfolding word_step
word_step-Progress c cs start =
    let n = word_length (c ∷ cs) in
    let w = word_at (c ∷ cs) in
    let some_word : 0 < n = rw start (omega arith) in
    if_cases (one_of w keywords) (emit (keyword, w) n)
      (if list_eq w (codes "crosses") then crosses_step n (drop n (c ∷ cs)) else emit (ident, w) n)
      (λ e. some_word)
      (λ e.
        if_cases (list_eq w (codes "crosses")) (crosses_step n (drop n (c ∷ cs)))
          (emit (ident, w) n) (λ e'. crosses_step-Progress n (drop n (c ∷ cs)) some_word)
          (λ e'. some_word))

operator_step-Progress : (c : ℕ) (cs : List ℕ) → Progress (operator_step c cs)
unfolding operator_step
operator_step-Progress c cs =
    if_cases (one_of (take 2 (c ∷ cs)) (map codes (">=" ∷ "<=" ∷ "<>" ∷ ":=" ∷ ".." ∷ [])))
      (emit (op, take 2 (c ∷ cs)) 2)
      (elim (single c) [ none ↦ fail (unexpected_character c) | some t ↦ emit (t, c ∷ []) 1 ])
      (λ e. omega arith) (λ e. go (single c))
  where
    go :
        (o : Option TokenType)
        → Progress (elim o [ none ↦ fail (unexpected_character c) | some t ↦ emit (t, c ∷ []) 1 ])
    go none = tt
    go (some t) = omega arith

run_first : (p : ℕ → Bool) (c : ℕ) (cs : List ℕ) → p c ≡ true → 0 < run p (c ∷ cs)
run_first p c cs e = rw e (omega arith)

module _ (is_digit : ℕ → Bool) where
  number_length_some :
      (c : ℕ) (cs : List ℕ) → is_digit c ≡ true → 0 < number_length is_digit (c ∷ cs)
  unfolding number_length
  number_length_some c cs e = go _ _ _ (run_first is_digit c cs e)
    where
      go : (n m : ℕ) (b : Bool) → 0 < n → 0 < (if b then n + 1 + m else n)
      go n m true h = omega arith
      go n m false h = h

  lex_step-Progress : (c : ℕ) (cs : List ℕ) → Progress (lex_step is_digit c cs)
  unfolding lex_step
  lex_step-Progress c cs = elim (Bool-cases (is_blank c)) [
    | inl blank ↦ rw blank (omega arith)
    | inr no_blank ↦ elim (Bool-cases (c == b'{')) [
      | inl brace ↦ rw (no_blank, brace) (braced (comment_length 1 cs))
      | inr no_brace ↦ elim (Bool-cases (c == b'/' && head_is b'/' cs)) [
        | inl slashes ↦
            rw (no_blank, no_brace, slashes)
              (run_first (λ x. not (x == newline)) c cs (not_newline slashes))
        | inr no_slashes ↦ elim (Bool-cases (c == b'"')) [
          | inl quote ↦ rw (no_blank, no_brace, no_slashes, quote) (quoted (string_length cs))
          | inr no_quote ↦ elim (Bool-cases (is_digit c)) [
            | inl digit ↦
                rw (no_blank, no_brace, no_slashes, no_quote, digit) (number_length_some c cs digit)
            | inr no_digit ↦ elim (Bool-cases (is_word_start c)) [
              | inl start ↦
                  rw (no_blank, no_brace, no_slashes, no_quote, no_digit, start)
                    (word_step-Progress c cs start)
              | inr no_start ↦
                  rw (no_blank, no_brace, no_slashes, no_quote, no_digit, no_start)
                    (operator_step-Progress c cs)
            ]
          ]
        ]
      ]
    ]
  ]
    where
      braced :
          (o : Option ℕ)
          → Progress (elim o [ none ↦ fail unterminated_comment | some n ↦ comment (suc n) ])
      braced none = tt
      braced (some n) = omega arith

      quoted :
          (o : Option ℕ)
          → Progress (elim o [
            | none ↦ fail unterminated_string
            | some n ↦ emit (string, take n cs) (n + 2)
          ])
      quoted none = tt
      quoted (some n) = omega arith

      not_newline : (c == b'/' && head_is b'/' cs) ≡ true → not (c == newline) ≡ true
      not_newline e = ground arith

  module _ (is_space : ℕ → Bool) (src : List ℕ) where
    -- The loop has ended, in an error or with a position for each token and the end token last.
    abbrev pub IsFinished : LexResult → Type 0
    IsFinished (lexed l) =
        (length l.positions ≡ length l.tokens)
        × ((before : List Token) × (l.tokens ≡ before ++ ((eof, []) ∷ [])))
    IsFinished (error x at) = Unit
    IsFinished out_of_fuel = ⊥

    add_token-IsFinished :
        (t : Token) (at : ℕ × ℕ) (r : LexResult) → IsFinished r → IsFinished (add_token t at r)
    add_token-IsFinished t at (lexed l) (same, (before, ends)) =
        (ap suc same, (t ∷ before, ap (t ∷◌) ends))
    add_token-IsFinished t at (error x q) f = tt
    add_token-IsFinished t at out_of_fuel f = f

    add_comment-IsFinished :
        (c : Comment) (r : LexResult) → IsFinished r → IsFinished (add_comment c r)
    add_comment-IsFinished c (lexed l) f = f
    add_comment-IsFinished c (error x q) f = tt
    add_comment-IsFinished c out_of_fuel f = f

    lex_from-IsFinished :
        (fuel i : ℕ) (rest : List ℕ)
        → length rest < fuel
        → IsFinished (lex_from is_digit is_space src fuel i rest)
    unfolding lex_from
    lex_from-IsFinished zero i rest h = elim h [ ]
    lex_from-IsFinished (suc fuel) i [] h = (refl, ([], refl))
    lex_from-IsFinished (suc fuel) i (c ∷ cs) h =
        go
          (λ n some_used.
            lex_from-IsFinished fuel (i + n) (drop n (c ∷ cs))
              (omega (arith, length-drop n (c ∷ cs))))
          (lex_step is_digit c cs) (lex_step-Progress c cs)
      where
        later : ℕ → LexResult
        later n = lex_from is_digit is_space src fuel (i + n) (drop n (c ∷ cs))

        go :
            ((n : ℕ) → 0 < n → IsFinished (later n))
            → (s : Step) → Progress s
            → IsFinished (elim s [
              | skip n ↦ later n
              | comment n ↦ add_comment (comment_at is_digit is_space src i n (c ∷ cs)) (later n)
              | emit t n ↦ add_token t (pos (newlines src) i) (later n)
              | fail x ↦ error x (line_col src i)
            ])
        go next (skip n) p = next n p
        go next (comment n) p = add_comment-IsFinished _ _ (next n p)
        go next (emit t n) p = add_token-IsFinished _ _ _ (next n p)
        go next (fail x) p = tt

    -- The lexer ends on every source: in an error, or with a position for each token and the end token
    -- last. It never runs out of its fuel.
    pub tokenise_with_comments-IsFinished :
        IsFinished (tokenise_with_comments is_digit is_space src)
    unfolding tokenise_with_comments
    tokenise_with_comments-IsFinished = lex_from-IsFinished (suc (length src)) 0 src (omega arith)
