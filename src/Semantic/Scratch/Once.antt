-- ===== src/Semantic/Scratch/Once.antt =====
-- semantic.py: `add_scratch_decls` adds nothing to its own result.
use power_bridge.Base.{
  Bool, true, false, not, List, [], ◌∷◌, map, filterb, ◌≡◌, refl, sym, ap, ◌∙◌, Bool-cases, inl,
  inr, take,
}
use power_bridge.Lexer.Chars.{codes, list_eq, one_of}
use power_bridge.Lexer.Words.{list_eq_refl}
use power_bridge.Parser.Syntax.{Text, Stmts}
use power_bridge.Semantic.Walk.{walk_stmt, walk_expr, walk_vars, names_in}
use power_bridge.Semantic.Scratch.{
  sorted, used_scratch, declared_names_of, missing_scratch, scratch_decl, scratch_init, with_decls,
  add_scratch_decls,
}
use power_bridge.Semantic.Scratch.Declares.{add_scratch_decls-declares, one_of-there}

scratch_init-walk : (name : Text) → walk_expr (scratch_init name) ≡ []
unfolding walk_expr
scratch_init-walk name = elim (Bool-cases (list_eq (take 5 name) (codes "value"))) [
  | inl e ↦ simp e refl
  | inr e ↦ simp e refl
]

walk_vars-scratch : (names : List Text) → walk_vars (map scratch_decl names) ≡ []
walk_vars-scratch [] = refl
walk_vars-scratch (x ∷ names) = simp (scratch_init-walk x) (walk_vars-scratch names)

used-with_decls :
    (names : List Text) (body : Stmts) → used_scratch (with_decls names body) ≡ used_scratch body
unfolding used_scratch walk_stmt names_in
used-with_decls [] body = refl
used-with_decls (x ∷ names) body = simp (walk_vars-scratch (x ∷ names)) refl

-- A filter that no member passes.
filterb_none :
    (p : Text → Bool) (xs : List Text)
    → ((name : Text) → one_of name xs ≡ true → p name ≡ false)
    → filterb p xs ≡ []
filterb_none p [] h = refl
filterb_none p (x ∷ xs) h =
    let first : p x ≡ false = h x (simp (list_eq_refl x) refl) in
    simp first (filterb_none p xs λ name e. h name (one_of-there name x xs e))

nothing_missing :
    (body : Stmts)
    → ((name : Text)
        → one_of name (used_scratch body) ≡ true
        → one_of name (declared_names_of body) ≡ true)
    → missing_scratch body ≡ []
unfolding missing_scratch sorted
nothing_missing body h = ap sorted (filterb_none _ (used_scratch body) λ name e. ap not (h name e))

still_used :
    (body : Stmts) (name : Text)
    → one_of name (used_scratch (add_scratch_decls body)) ≡ true
    → one_of name (used_scratch body) ≡ true
unfolding add_scratch_decls
still_used body name e = ap (one_of name) (sym (used-with_decls (missing_scratch body) body)) ∙ e

with_nothing : (body : Stmts) → missing_scratch body ≡ [] → add_scratch_decls body ≡ body
unfolding add_scratch_decls
with_nothing body e = ap (λ names. with_decls names body) e

-- `add_scratch_decls` changes nothing in its own result.
pub add_scratch_decls-once :
    (body : Stmts) → add_scratch_decls (add_scratch_decls body) ≡ add_scratch_decls body
add_scratch_decls-once body = with_nothing (add_scratch_decls body) (
    nothing_missing (add_scratch_decls body)
      λ name e. add_scratch_decls-declares body name (still_used body name e))
