-- ===== src/SourceCache/Refines.antt =====
-- parser.py: the cache of sources gives what lexing and parsing afresh give.
use power_bridge.Base.{
  ◌≤◌, Option, none, some, [], ◌∷◌, length, ◌≡◌, refl, sym, ap, ◌∙◌, arith, All, Bool-cases, inl,
  inr,
}
use power_bridge.Lexer.Chars.{list_eq}
use power_bridge.Lexer.Words.{list_eq_sound}
use power_bridge.Parser.Syntax.{Text}
use power_bridge.SourceCache.{
  Answer, done, raised, Entry, Cache, source_cache_size, get, put_last, set_ast, add_entry, found,
  source_entry, store_ast, tree_of, parse_entry, parse_source, parse_afresh, tokenise_source,
  tokens_of,
}
use power_bridge.SourceCache.Entries.{
  put_last-All, trim-All, get-All, length-remove, length-remove_found, length-put_last,
  length-set_ast, length-trim,
}

module _ {E T A : Type 0} (lex : Text → Answer E T) (parse_tokens : Text → T → Answer E A) where
  -- An entry holds what lexing its source gives, and a tree that it has is what parsing gives.
  pub record IsEntry (x : Text × Entry T A) : Type 0 where
    pub lexed : lex x.0 ≡ done x.1.tokens
    pub parsed : (a : A) → x.1.ast ≡ some a → parse_tokens x.0 x.1.tokens ≡ done a

  -- Every entry of the cache is such, and there are at most eight.
  pub record IsSound (cache : Cache T A) : Type 0 where
    pub entries : All IsEntry cache
    pub size : length cache ≤ source_cache_size

  -- The tree is stored with the tokens it was parsed from.
  with_ast :
      (k source : Text) (e : Entry T A) (toks : T) (a : A)
      → source ≡ k
      → IsEntry (k, e)
      → lex source ≡ done toks
      → parse_tokens source toks ≡ done a
      → IsEntry (k, record e { ast = some a })
  with_ast k source e toks a s h l p =
      let same : done e.tokens ≡ done toks = sym h.lexed ∙ ap lex (sym s) ∙ l in
      let parses : parse_tokens k e.tokens ≡ done a = cc in
      record { lexed = h.lexed; parsed = λ b q. cc }

  set_ast-All :
      (cache : Cache T A) (source : Text) (toks : T) (a : A)
      → All IsEntry cache
      → lex source ≡ done toks
      → parse_tokens source toks ≡ done a
      → All IsEntry (set_ast cache source a)
  unfolding set_ast
  set_ast-All [] source toks a h l p = tt
  set_ast-All ((k, e) ∷ cache) source toks a (h, hs) l p = elim (Bool-cases (list_eq source k)) [
    | inl q ↦ simp q (with_ast k source e toks a (list_eq_sound source k q) h l p, hs)
    | inr q ↦ simp q (h, set_ast-All cache source toks a hs l p)
  ]

  -- What the lookup answers is the lexer's answer, in an entry.
  abbrev Looked : Text → Answer E (Entry T A) → Type 0
  Looked source (raised x) = lex source ≡ raised x
  Looked source (done e) = IsEntry (source, e)

  add_entry-IsFound :
      (cache : Cache T A) (source : Text) (r : Answer E T)
      → IsSound cache
      → lex source ≡ r
      → Looked source (add_entry lex parse_tokens cache source r).0
        × IsSound (add_entry lex parse_tokens cache source r).1
  add_entry-IsFound cache source (raised x) h l = (l, h)
  add_entry-IsFound cache source (done toks) h l =
      let e : Entry T A = record { tokens = toks; ast = none } in
      let new : IsEntry (source, e) = record { lexed = l; parsed = λ a q. cc } in
      let kept = put_last-All IsEntry cache source e h.entries new in
      let short = length-put_last cache source e in
      let less = length-remove cache source in
      (
        new,
        record {
          entries = trim-All IsEntry (put_last cache source e) kept;
          size = length-trim (put_last cache source e) (omega (arith, short, less, h.size));
        },
      )

  found-IsFound :
      (cache : Cache T A) (source : Text) (o : Option (Entry T A))
      → IsSound cache
      → get cache source ≡ o
      → Looked source (found lex parse_tokens cache source o).0
        × IsSound (found lex parse_tokens cache source o).1
  found-IsFound cache source none h q = add_entry-IsFound cache source (lex source) h refl
  found-IsFound cache source (some e) h q =
      let old = get-All IsEntry cache source e h.entries q in
      let short = length-put_last cache source e in
      let less = length-remove_found cache source e q in
      (
        old,
        record {
          entries = put_last-All IsEntry cache source e h.entries old;
          size = omega (arith, short, less, h.size);
        },
      )

  store_ast-Agrees :
      (cache : Cache T A) (source : Text) (toks : T) (r : Answer E A)
      → IsSound cache
      → lex source ≡ done toks
      → parse_tokens source toks ≡ r
      → ((store_ast lex parse_tokens cache source r).0 ≡ r)
        × IsSound (store_ast lex parse_tokens cache source r).1
  store_ast-Agrees cache source toks (raised x) h l p = (refl, h)
  store_ast-Agrees cache source toks (done a) h l p = (
    refl,
    record {
      entries = set_ast-All cache source toks a h.entries l p;
      size = omega (arith, length-set_ast cache source a, h.size);
    },
  )

  tree_of-Agrees :
      (cache : Cache T A) (source : Text) (e : Entry T A) (o : Option A)
      → IsSound cache
      → IsEntry (source, e)
      → e.ast ≡ o
      → ((tree_of lex parse_tokens cache source e o).0 ≡ parse_tokens source e.tokens)
        × IsSound (tree_of lex parse_tokens cache source e o).1
  tree_of-Agrees cache source e (some a) h en q = (sym (en.parsed a q), h)
  tree_of-Agrees cache source e none h en q =
      store_ast-Agrees cache source e.tokens (parse_tokens source e.tokens) h en.lexed refl

  parse_entry-Agrees :
      (source : Text) (r : Answer E (Entry T A)) (cache : Cache T A)
      → Looked source r
      → IsSound cache
      → ((parse_entry lex parse_tokens source (r, cache)).0 ≡ parse_afresh lex parse_tokens source)
        × IsSound (parse_entry lex parse_tokens source (r, cache)).1
  unfolding parse_afresh
  parse_entry-Agrees source (raised x) cache l h = (simp l refl, h)
  parse_entry-Agrees source (done e) cache en h =
      let (a, s) = tree_of-Agrees cache source e e.ast h en refl in (a ∙ simp en.lexed refl, s)

  -- From a cache whose entries hold what lexing and parsing their sources gives, with eight at most,
  -- `parse_source` answers with the tree or the error that lexing and parsing afresh give, and leaves
  -- such a cache.
  pub parse_source-refines :
      (source : Text) (cache : Cache T A)
      → IsSound cache
      → ((parse_source lex parse_tokens source cache).0 ≡ parse_afresh lex parse_tokens source)
        × IsSound (parse_source lex parse_tokens source cache).1
  unfolding parse_source source_entry
  parse_source-refines source cache h =
      let (l, s) = found-IsFound cache source (get cache source) h refl in
      parse_entry-Agrees source _ _ l s

  tokens_of-Agrees :
      (source : Text) (r : Answer E (Entry T A)) (cache : Cache T A)
      → Looked source r
      → IsSound cache
      → ((tokens_of lex parse_tokens (r, cache)).0 ≡ lex source)
        × IsSound (tokens_of lex parse_tokens (r, cache)).1
  tokens_of-Agrees source (raised x) cache l h = (sym l, h)
  tokens_of-Agrees source (done e) cache en h = (sym en.lexed, h)

  -- From a cache whose entries hold what lexing and parsing their sources gives, with eight at most,
  -- `tokenise_source` answers as the lexer does and leaves such a cache.
  pub tokenise_source-refines :
      (source : Text) (cache : Cache T A)
      → IsSound cache
      → ((tokenise_source lex parse_tokens source cache).0 ≡ lex source)
        × IsSound (tokenise_source lex parse_tokens source cache).1
  unfolding tokenise_source source_entry
  tokenise_source-refines source cache h =
      let (l, s) = found-IsFound cache source (get cache source) h refl in
      tokens_of-Agrees source _ _ l s
