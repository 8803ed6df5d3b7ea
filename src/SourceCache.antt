-- ===== src/SourceCache.antt =====
-- parser.py: `_source_cache`, the latest eight source texts with their tokens and trees. One thread
-- is modelled; lexing and parsing are parameters.
pub mod Entries
pub mod Refines
use power_bridge.Base.{
  ℕ, zero, suc, Bool, Option, none, some, List, [], ◌∷◌, ◌++◌, ltb, length, if◌then◌else◌,
}
use power_bridge.Lexer.Chars.{list_eq}
use power_bridge.Parser.Syntax.{Text}

-- A value, or the error that is raised.
pub data Answer (E A : Type 0) : Type 0 where
  done : A → Answer E A
  raised : E → Answer E A

-- The lexer's answers, and the tree if the source was parsed.
pub record Entry (T A : Type 0) : Type 0 where
  pub tokens : T
  pub ast : Option A

-- An `OrderedDict`, the oldest entry first.
abbrev pub Cache : Type 0 → Type 0 → Type 0
Cache T A = List (Text × Entry T A)

-- `_SOURCE_CACHE_SIZE`
abbrev pub source_cache_size : ℕ
source_cache_size = 8

module _ {T A : Type 0} where
  unfoldable pub get : Cache T A → Text → Option (Entry T A)
  get [] source = none
  get ((k, e) ∷ cache) source =
      let rest = get cache source in if list_eq source k then some e else rest

  unfoldable pub remove : Cache T A → Text → Cache T A
  remove [] source = []
  remove ((k, e) ∷ cache) source =
      let rest = remove cache source in if list_eq source k then cache else (k, e) ∷ rest

  -- The entry at the end, and no other of that source.
  unfoldable pub put_last : Cache T A → Text → Entry T A → Cache T A
  unfolding remove
  put_last cache source e = remove cache source ++ ((source, e) ∷ [])

  abbrev pub drop_first : Cache T A → Cache T A
  drop_first [] = []
  drop_first (x ∷ cache) = cache

  -- `popitem(last=False)` where there are too many.
  unfoldable pub trim : Cache T A → Cache T A
  trim cache = if ltb source_cache_size (length cache) then drop_first cache else cache

  -- `entry.setdefault('ast', ast)`, which reaches the entry that is in the cache.
  unfoldable pub set_ast : Cache T A → Text → A → Cache T A
  set_ast [] source a = []
  set_ast ((k, e) ∷ cache) source a =
      let rest = set_ast cache source a in
      if list_eq source k then (k, record e { ast = some a }) ∷ cache else (k, e) ∷ rest

module _ {E T A : Type 0} (lex : Text → Answer E T) (parse_tokens : Text → T → Answer E A) where
  abbrev pub add_entry : Cache T A → Text → Answer E T → Answer E (Entry T A) × Cache T A
  add_entry cache source (raised x) = (raised x, cache)
  add_entry cache source (done toks) =
      let e : Entry T A = record { tokens = toks; ast = none } in
      (done e, trim (put_last cache source e))

  abbrev pub found : Cache T A → Text → Option (Entry T A) → Answer E (Entry T A) × Cache T A
  found cache source (some e) = (done e, put_last cache source e)
  found cache source none = add_entry cache source (lex source)

  -- `_source_entry`
  unfoldable pub source_entry : Text → Cache T A → Answer E (Entry T A) × Cache T A
  source_entry source cache = found cache source (get cache source)

  abbrev pub tokens_of : Answer E (Entry T A) × Cache T A → Answer E T × Cache T A
  tokens_of (raised x, cache) = (raised x, cache)
  tokens_of (done e, cache) = (done e.tokens, cache)

  -- `tokenise_source`
  unfoldable pub tokenise_source : Text → Cache T A → Answer E T × Cache T A
  unfolding source_entry
  tokenise_source source cache = tokens_of (source_entry source cache)

  abbrev pub store_ast : Cache T A → Text → Answer E A → Answer E A × Cache T A
  store_ast cache source (raised x) = (raised x, cache)
  store_ast cache source (done a) = (done a, set_ast cache source a)

  abbrev pub tree_of : Cache T A → Text → Entry T A → Option A → Answer E A × Cache T A
  tree_of cache source e (some a) = (done a, cache)
  tree_of cache source e none = store_ast cache source (parse_tokens source e.tokens)

  abbrev pub parse_entry : Text → Answer E (Entry T A) × Cache T A → Answer E A × Cache T A
  parse_entry source (raised x, cache) = (raised x, cache)
  parse_entry source (done e, cache) = tree_of cache source e e.ast

  -- `parse_source`
  unfoldable pub parse_source : Text → Cache T A → Answer E A × Cache T A
  unfolding source_entry
  parse_source source cache = parse_entry source (source_entry source cache)

  -- Lexing and parsing afresh.
  abbrev pub parse_answer : Text → Answer E T → Answer E A
  parse_answer source (raised x) = raised x
  parse_answer source (done toks) = parse_tokens source toks

  unfoldable pub parse_afresh : Text → Answer E A
  parse_afresh source = parse_answer source (lex source)

-- `clear_source_cache`
abbrev pub clear_source_cache : {T A : Type 0} → Cache T A → Cache T A
clear_source_cache cache = []
