-- ===== src/Semantic/Checks.antt =====
-- semantic.py: what the check reports, by the calls and the identifiers of the tree.
use power_bridge.Base.{
  ℕ, true, false, Option, none, some, List, [], ◌∷◌, ◌≡◌, ◌↔◌, refl, ap, ◌∙◌, All, Bool-cases, inl,
  inr, if◌then◌else◌,
}
use power_bridge.Parser.Syntax.{Text, Stmts}
use power_bridge.Semantic.{
  Report, wrong_arity, undefined, warnings, warn, takes, is_known_name, check_visits,
  semantic_check,
}
use power_bridge.Semantic.Walk.{Visit, called, named, walk_stmts, collect_declared}

-- The first call with a number of arguments that its builtin does not take.
abbrev pub first_wrong : List Visit → Option (Text × ℕ)
first_wrong [] = none
first_wrong (called name nargs ∷ vs) =
    let rest = first_wrong vs in if takes name nargs then rest else some (name, nargs)
first_wrong (named name ∷ vs) = first_wrong vs

-- The identifiers that are neither declared nor known, in their order.
abbrev pub unknown_names : List Text → List Visit → List Text
unknown_names declared [] = []
unknown_names declared (called name nargs ∷ vs) = unknown_names declared vs
unknown_names declared (named name ∷ vs) =
    let rest = unknown_names declared vs in
    if is_known_name name declared then rest else name ∷ rest

abbrev pub report_of : Option (Text × ℕ) → List Text → Report
report_of none ws = warnings ws
report_of (some (name, nargs)) ws = wrong_arity name nargs

warn-report_of :
    (name : Text) (o : Option (Text × ℕ)) (ws : List Text)
    → warn name (report_of o ws) ≡ report_of o (name ∷ ws)
warn-report_of name none ws = refl
warn-report_of name (some x) ws = refl

check_visits-report :
    (declared : List Text) (vs : List Visit)
    → check_visits false declared vs ≡ report_of (first_wrong vs) (unknown_names declared vs)
unfolding check_visits
check_visits-report declared [] = refl
check_visits-report declared (called name nargs ∷ vs) = elim (Bool-cases (takes name nargs)) [
  | inl e ↦ simp e (check_visits-report declared vs)
  | inr e ↦ simp e refl
]
check_visits-report declared (named name ∷ vs) = elim (Bool-cases (is_known_name name declared)) [
  | inl e ↦ simp e (check_visits-report declared vs)
  | inr e ↦
      simp e
        (ap (warn name) (check_visits-report declared vs) ∙ warn-report_of name (first_wrong vs) _)
]

-- Without strictness the check of a tree reports the first call, in the order of the walk, with a
-- number of arguments that its builtin does not take, and where there is none, warns of exactly the
-- identifiers that are neither declared nor known, in their order.
pub semantic_check-report :
    (body : Stmts)
    → semantic_check false body
      ≡ report_of
          (first_wrong (walk_stmts body))
          (unknown_names (collect_declared body) (walk_stmts body))
unfolding semantic_check
semantic_check-report body = check_visits-report (collect_declared body) (walk_stmts body)

-- A call that its builtin takes, or an identifier that is declared or known.
abbrev pub IsFine : List Text → Visit → Type 0
IsFine declared (called name nargs) = takes name nargs ≡ true
IsFine declared (named name) = is_known_name name declared ≡ true

check_visits-IsFine :
    (declared : List Text) (vs : List Visit)
    → check_visits true declared vs ≡ warnings []
    → All (IsFine declared) vs
unfolding check_visits
check_visits-IsFine declared [] h = tt
check_visits-IsFine declared (called name nargs ∷ vs) h = elim (Bool-cases (takes name nargs)) [
  | inl e ↦ (e, check_visits-IsFine declared vs (simp e at h))
  | inr e ↦ let clash : wrong_arity name nargs ≡ warnings [] = simp e at h in cc
]
check_visits-IsFine declared (named name ∷ vs) h = elim (Bool-cases (is_known_name name declared)) [
  | inl e ↦ (e, check_visits-IsFine declared vs (simp e at h))
  | inr e ↦ let clash : undefined name ≡ warnings [] = simp e at h in cc
]

IsFine-check_visits :
    (declared : List Text) (vs : List Visit)
    → All (IsFine declared) vs
    → check_visits true declared vs ≡ warnings []
unfolding check_visits
IsFine-check_visits declared [] h = refl
IsFine-check_visits declared (called name nargs ∷ vs) (e, h) =
    simp e (IsFine-check_visits declared vs h)
IsFine-check_visits declared (named name ∷ vs) (e, h) = simp e (IsFine-check_visits declared vs h)

-- With strictness the check of a tree passes without a warning if and only if every call has a number
-- of arguments that its builtin takes and every identifier is declared or known.
pub semantic_check-strict :
    (body : Stmts)
    → (semantic_check true body ≡ warnings [])
      ↔ All (IsFine (collect_declared body)) (walk_stmts body)
unfolding semantic_check
semantic_check-strict body = (
  check_visits-IsFine (collect_declared body) (walk_stmts body),
  IsFine-check_visits (collect_declared body) (walk_stmts body),
)
