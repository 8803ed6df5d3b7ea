-- ===== src/Semantic.antt =====
-- semantic.py: the check of a tree, for the arity of known builtins and for undefined identifiers.
-- Line and column, which only the texts of the messages show, are left out.
pub mod Walk
pub mod Checks
pub mod Scratch
use power_bridge.Base.{
  ℕ, zero, suc, Bool, true, false, ◌||◌, Option, none, some, List, [], ◌∷◌, ◌++◌, String, map, ◌==◌,
  if◌then◌else◌,
}
use power_bridge.Lexer.Chars.{codes, one_of}
use power_bridge.Parser.Syntax.{Text, Stmts}
use power_bridge.Parser.Numerals.{decimal}
use power_bridge.Parser.Tables.{
  order_actions, risk_funcs, plot_names, data_series, color_constants, style_constants,
  period_funcs, builtin_arity, builtin_func_map,
}
use power_bridge.Parser.Monad.{find, in_names}
use power_bridge.Parser.Primary.{is_some}
use power_bridge.Semantic.Walk.{Visit, called, named, walk_stmts, collect_declared}

-- `_SERIES_PARAMS`
unfoldable pub series_params : List String
series_params = "open" ∷ "high" ∷ "low" ∷ "close" ∷ "volume" ∷ "date" ∷ "time" ∷ []

-- `_BARE_COMPUTED`
unfoldable pub bare_computed : List String
bare_computed =
    "truerange" ∷ "medianprice" ∷ "range" ∷ "avgprice" ∷ "truehigh" ∷ "truelow" ∷ "typicalprice"
    ∷ "weightedclose" ∷ "currentdate" ∷ "currenttime" ∷ "ticks" ∷ "upticks" ∷ "downticks"
    ∷ "openint" ∷ []

-- `range(n)`
abbrev below : ℕ → List ℕ → List ℕ
below zero rest = rest
below (suc n) rest = below n (n ∷ rest)

-- `_SCRATCH_VARS`
unfoldable pub scratch_vars : List Text
scratch_vars =
    map (λ i. codes "value" ++ decimal i) (below 100 [])
    ++ map (λ i. codes "condition" ++ decimal i) (below 100 [])

-- The other members of `_RESERVED_IDENTS`.
unfoldable pub reserved_idents : List String
reserved_idents =
    "_market_position" ∷ "marketposition" ∷ "_commentary" ∷ "all" ∷ "newline" ∷ "pi"
    ∷ "lastbaronchart_s" ∷ "lastbaronchart" ∷ "next" ∷ "this" ∷ "bar" ∷ "at" ∷ "market" ∷ "on"
    ∷ "shares" ∷ "contracts" ∷ "share" ∷ "contract" ∷ "total" ∷ "stop" ∷ "limit" ∷ []

unfoldable pub is_known_name : Text → List Text → Bool
is_known_name name declared =
    one_of name declared
    || (is_some (find builtin_func_map name) || is_some (find builtin_arity name))
    || (in_names name series_params || in_names name data_series || in_names name bare_computed)
    || (one_of name scratch_vars || in_names name reserved_idents)
    || (in_names name order_actions || in_names name risk_funcs)
    || (in_names name plot_names || in_names name period_funcs)
    || (is_some (find color_constants name) || is_some (find style_constants name))

-- The error that is raised, or the names of the warnings.
pub data Report : Type 0 where
  wrong_arity : Text → ℕ → Report
  undefined : Text → Report
  warnings : List Text → Report

-- `nargs in arity`, true for a name without an arity.
unfoldable pub takes : Text → ℕ → Bool
takes name nargs = elim (find builtin_arity name) [ none ↦ true | some arity ↦ nargs == arity ]

abbrev pub warn : Text → Report → Report
warn name (warnings ws) = warnings (name ∷ ws)
warn name r = r

module _ (strict_undefined : Bool) (declared : List Text) where
  -- The nodes in turn, up to the first error.
  unfoldable pub check_visits : List Visit → Report
  check_visits [] = warnings []
  check_visits (called name nargs ∷ rest) =
      let more = check_visits rest in if takes name nargs then more else wrong_arity name nargs
  check_visits (named name ∷ rest) =
      let more = check_visits rest in
      if is_known_name name declared
      then more
      else if strict_undefined
      then undefined name
      else warn name more

unfoldable pub semantic_check : Bool → Stmts → Report
unfolding check_visits
semantic_check strict_undefined body =
    check_visits strict_undefined (collect_declared body) (walk_stmts body)
