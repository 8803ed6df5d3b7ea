-- ===== src/Semantic/Scratch.antt =====
-- semantic.py: `add_scratch_decls`, the declaration of the predeclared names that a program uses.
pub mod Declares
pub mod Once
use power_bridge.Base.{
  ℕ, Bool, true, false, not, Option, none, some, List, [], ◌∷◌, ◌++◌, map, filterb, take, ltb, ◌==◌,
  if◌then◌else◌,
}
use power_bridge.Lexer.Chars.{codes, list_eq, one_of}
use power_bridge.Parser.Syntax.{Text, Expr, number, boolean, VarDecl, var_decl, Stmts, stmt}
use power_bridge.Semantic.{scratch_vars}
use power_bridge.Semantic.Walk.{Visit, called, named, walk_stmts, names_in}

-- The order of strings, by code points.
abbrev pub text_less : Text → Text → Bool
text_less [] [] = false
text_less [] (y ∷ b) = true
text_less (x ∷ a) [] = false
text_less (x ∷ a) (y ∷ b) = if ltb x y then true else if x == y then text_less a b else false

-- A member of a sorted set.
unfoldable pub insert_name : Text → List Text → List Text
insert_name name [] = name ∷ []
insert_name name (x ∷ xs) =
    let rest = insert_name name xs in
    if list_eq name x then x ∷ xs else if text_less name x then name ∷ x ∷ xs else x ∷ rest

unfoldable pub sorted : List Text → List Text
unfolding insert_name
sorted [] = []
sorted (x ∷ xs) = insert_name x (sorted xs)

abbrev ident_names : List Visit → List Text
ident_names [] = []
ident_names (called name nargs ∷ vs) = ident_names vs
ident_names (named name ∷ vs) = name ∷ ident_names vs

abbrev is_scratch : Text → Bool
is_scratch name = one_of name scratch_vars

-- `used`, the scratch names that stand as identifiers or as loop variables.
unfoldable pub used_scratch : Stmts → List Text
used_scratch body = filterb is_scratch (ident_names (walk_stmts body) ++ names_in false true body)

-- `declared`, without the variables of loops.
unfoldable pub declared_names_of : Stmts → List Text
declared_names_of body = names_in true false body

unfoldable pub missing_scratch : Stmts → List Text
unfolding sorted used_scratch declared_names_of
missing_scratch body =
    sorted (filterb (λ name. not (one_of name (declared_names_of body))) (used_scratch body))

abbrev pub scratch_init : Text → Expr
scratch_init name =
    if list_eq (take 5 name) (codes "value") then number (codes "0") none else boolean false

abbrev pub scratch_decl : Text → VarDecl
scratch_decl name = record {
  name = name;
  init = scratch_init name;
  data_ref = none;
  intrabar_persist = false;
}

abbrev pub with_decls : List Text → Stmts → Stmts
with_decls [] body = body
with_decls (name ∷ names) body = stmt (var_decl (map scratch_decl (name ∷ names))) body

unfoldable pub add_scratch_decls : Stmts → Stmts
unfolding missing_scratch
add_scratch_decls body = with_decls (missing_scratch body) body
