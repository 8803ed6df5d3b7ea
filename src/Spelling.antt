-- ===== src/Spelling.antt =====
-- codegen_el.py: the spelling of a keyword node, from the parser's tables read backwards. The casing
-- that `_canon` gives a word is left out, since the lexer reads words in lower case.
pub mod Reparse
use power_bridge.Base.{Bool, Option, none, some, List, [], ◌∷◌, String, if◌then◌else◌}
use power_bridge.Lexer.Chars.{codes, list_eq}
use power_bridge.Parser.Syntax.{Text}
use power_bridge.Parser.Tables.{position_keywords, data_series_keywords, mc_keywords}
use power_bridge.Parser.Monad.{find}

abbrev pub Spellings : Type 0
Spellings = List (String × String)

-- `inv.setdefault(key, word)`
unfoldable pub setdefault : Spellings → String → String → Spellings
setdefault [] key word = (key, word) ∷ []
setdefault ((k, w) ∷ inv) key word =
    let rest = setdefault inv key word in
    if list_eq (codes k) (codes key) then (k, w) ∷ inv else (k, w) ∷ rest

unfoldable pub invert_from : Spellings → Spellings → Spellings
unfolding setdefault
invert_from inv [] = inv
invert_from inv ((el_name, kwarg) ∷ d) = invert_from (setdefault inv kwarg el_name) d

-- `_invert_first_wins`
unfoldable pub invert_first_wins : Spellings → Spellings
unfolding invert_from
invert_first_wins d = invert_from [] d

-- `inv[key] = word`
unfoldable pub set_item : Spellings → String → String → Spellings
set_item [] key word = (key, word) ∷ []
set_item ((k, w) ∷ inv) key word =
    let rest = set_item inv key word in
    if list_eq (codes k) (codes key) then (k, word) ∷ inv else (k, w) ∷ rest

-- `{**a, **b}`
unfoldable pub merge : Spellings → Spellings → Spellings
unfolding set_item
merge a [] = a
merge a ((k, w) ∷ b) = merge (set_item a k w) b

-- `_INV_POSKW`
unfoldable pub inv_poskw : Spellings
unfolding invert_first_wins merge
inv_poskw = merge (invert_first_wins data_series_keywords) (invert_first_wins position_keywords)

-- `_INV_MCKW`
unfoldable pub inv_mckw : Spellings
unfolding invert_first_wins
inv_mckw = invert_first_wins mc_keywords

-- `el_keyword`, None where the name is no keyword's.
unfoldable pub el_keyword : Text → Option Text
unfolding inv_poskw inv_mckw
el_keyword name =
    if list_eq name (codes "_market_position")
    then some (codes "marketposition")
    else elim (find inv_poskw name) [
      | some el ↦ some (codes el)
      | none ↦ elim (find inv_mckw name) [ some el ↦ some (codes el) | none ↦ none ]
    ]
