-- ===== src/Semantic/Scratch/Declares.antt =====
-- semantic.py: after `add_scratch_decls` every scratch name that a program uses is declared.
use mathlib.Core.Path.{subst}
use power_bridge.Base.{
  Bool, true, false, not, List, [], ◌∷◌, ◌++◌, map, filterb, ◌≡◌, refl, sym, ap, ◌∙◌, Bool-cases,
  inl, inr,
}
use power_bridge.Lexer.Chars.{list_eq, one_of}
use power_bridge.Lexer.Words.{list_eq_sound, list_eq_refl}
use power_bridge.Parser.Syntax.{Text, Stmts}
use power_bridge.Semantic.Walk.{names_in, var_names}
use power_bridge.Semantic.Scratch.{
  text_less, insert_name, sorted, used_scratch, declared_names_of, missing_scratch, scratch_decl,
  with_decls, add_scratch_decls,
}

one_of-append_left :
    (name : Text) (xs ys : List Text) → one_of name xs ≡ true → one_of name (xs ++ ys) ≡ true
one_of-append_left name [] ys e = cc
one_of-append_left name (x ∷ xs) ys e = elim (Bool-cases (list_eq name x)) [
  | inl h ↦ simp h refl
  | inr h ↦ simp h (one_of-append_left name xs ys (simp h at e))
]

one_of-append_right :
    (name : Text) (xs ys : List Text) → one_of name ys ≡ true → one_of name (xs ++ ys) ≡ true
one_of-append_right name [] ys e = e
one_of-append_right name (x ∷ xs) ys e = elim (Bool-cases (list_eq name x)) [
  | inl h ↦ simp h refl
  | inr h ↦ simp h (one_of-append_right name xs ys e)
]

one_of-here : (name : Text) (xs : List Text) → one_of name (name ∷ xs) ≡ true
one_of-here name xs = simp (list_eq_refl name) refl

pub one_of-there :
    (name x : Text) (xs : List Text) → one_of name xs ≡ true → one_of name (x ∷ xs) ≡ true
one_of-there name x xs e = one_of-append_right name (x ∷ []) xs e

-- A name that is put in is there, and those that were there stay.
insert_name-here : (name : Text) (xs : List Text) → one_of name (insert_name name xs) ≡ true
unfolding insert_name
insert_name-here name [] = one_of-here name []
insert_name-here name (x ∷ xs) = elim (Bool-cases (list_eq name x)) [
  | inl h ↦ simp (h) refl
  | inr h ↦ elim (Bool-cases (text_less name x)) [
    | inl l ↦ simp (h, l, list_eq_refl name) refl
    | inr l ↦ simp (h, l) (insert_name-here name xs)
  ]
]

insert_name-there :
    (name x : Text) (xs : List Text) → one_of name xs ≡ true → one_of name (insert_name x xs) ≡ true
unfolding insert_name
insert_name-there name x [] e = cc
insert_name-there name x (y ∷ xs) e = elim (Bool-cases (list_eq x y)) [
  | inl h ↦ simp h e
  | inr h ↦ elim (Bool-cases (text_less x y)) [
    | inl l ↦ simp (h, l) (one_of-there name x (y ∷ xs) e)
    | inr l ↦ elim (Bool-cases (list_eq name y)) [
      | inl q ↦ simp (h, l, q) refl
      | inr q ↦ simp (h, l, q) (insert_name-there name x xs (simp q at e))
    ]
  ]
]

sorted-one_of :
    (name : Text) (xs : List Text) → one_of name xs ≡ true → one_of name (sorted xs) ≡ true
unfolding sorted
sorted-one_of name [] e = cc
sorted-one_of name (x ∷ xs) e = elim (Bool-cases (list_eq name x)) [
  | inl h ↦
      subst (λ k. one_of name (insert_name k (sorted xs)) ≡ true) (list_eq_sound name x h)
        (insert_name-here name (sorted xs))
  | inr h ↦ insert_name-there name x (sorted xs) (sorted-one_of name xs (simp h at e))
]

filterb-one_of :
    (p : Text → Bool) (name : Text) (xs : List Text)
    → p name ≡ true
    → one_of name xs ≡ true
    → one_of name (filterb p xs) ≡ true
filterb-one_of p name [] t e = cc
filterb-one_of p name (x ∷ xs) t e = elim (Bool-cases (list_eq name x)) [
  | inl h ↦ let kept : p x ≡ true = ap p (sym (list_eq_sound name x h)) ∙ t in simp (kept, h) refl
  | inr h ↦ elim (Bool-cases (p x)) [
    | inl k ↦ simp (k, h) (filterb-one_of p name xs t (simp h at e))
    | inr k ↦ simp k (filterb-one_of p name xs t (simp h at e))
  ]
]

var_names-map : (names : List Text) → var_names (map scratch_decl names) ≡ names
var_names-map [] = refl
var_names-map (x ∷ names) = ap (λ xs. x ∷ xs) (var_names-map names)

-- The declaration adds its names to those that the program declares.
declared-with_decls :
    (names : List Text) (body : Stmts)
    → declared_names_of (with_decls names body) ≡ names ++ declared_names_of body
unfolding declared_names_of names_in
declared-with_decls [] body = refl
declared-with_decls (x ∷ names) body =
    ap (λ xs. (x ∷ xs) ++ names_in true false body) (var_names-map names)

declares_missing :
    (body : Stmts) (name : Text)
    → one_of name (used_scratch body) ≡ true
    → one_of name (missing_scratch body ++ declared_names_of body) ≡ true
unfolding missing_scratch
declares_missing body name e = elim (Bool-cases (one_of name (declared_names_of body))) [
  | inl h ↦ one_of-append_right name (missing_scratch body) (declared_names_of body) h
  | inr h ↦
      let p = λ (k : Text). not (one_of k (declared_names_of body)) in
      let absent : p name ≡ true = simp h refl in
      let there =
        sorted-one_of name (filterb p (used_scratch body))
          (filterb-one_of p name (used_scratch body) absent e) in
      one_of-append_left name (missing_scratch body) (declared_names_of body) there
]

-- Every predeclared name (`Value0` to `Condition99`) that a program uses, as an identifier or as the
-- variable of a loop, is declared by the result of `add_scratch_decls`.
pub add_scratch_decls-declares :
    (body : Stmts) (name : Text)
    → one_of name (used_scratch body) ≡ true
    → one_of name (declared_names_of (add_scratch_decls body)) ≡ true
unfolding add_scratch_decls
add_scratch_decls-declares body name e =
    ap (one_of name) (declared-with_decls (missing_scratch body) body)
    ∙ declares_missing body name e
