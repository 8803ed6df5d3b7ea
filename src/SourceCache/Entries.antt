-- ===== src/SourceCache/Entries.antt =====
-- parser.py: what holds of all entries of the cache, and their number, after each change of it.
use mathlib.Core.Path.{subst}
use power_bridge.Base.{
  suc, ◌+◌, ◌≤◌, some, [], ◌∷◌, ltb, length, ◌≡◌, refl, ap, arith, All, All-append, length-append,
  Bool-cases, inl, inr,
}
use power_bridge.Lexer.Chars.{list_eq}
use power_bridge.Lexer.Words.{list_eq_sound}
use power_bridge.Parser.Syntax.{Text}
use power_bridge.SourceCache.{
  Entry, Cache, source_cache_size, get, remove, put_last, drop_first, trim, set_ast,
}

module _ {T A : Type 0} (P : Text × Entry T A → Type 0) where
  pub remove-All : (cache : Cache T A) (source : Text) → All P cache → All P (remove cache source)
  unfolding remove
  remove-All [] source h = tt
  remove-All ((k, e) ∷ cache) source (h, hs) = elim (Bool-cases (list_eq source k)) [
    | inl q ↦ simp q hs
    | inr q ↦ simp q (h, remove-All cache source hs)
  ]

  pub put_last-All :
      (cache : Cache T A) (source : Text) (e : Entry T A)
      → All P cache
      → P (source, e)
      → All P (put_last cache source e)
  unfolding put_last
  put_last-All cache source e h p =
      All-append P (remove cache source) ((source, e) ∷ []) (remove-All cache source h) (p, tt)

  pub drop_first-All : (cache : Cache T A) → All P cache → All P (drop_first cache)
  drop_first-All [] h = tt
  drop_first-All (x ∷ cache) (h, hs) = hs

  pub trim-All : (cache : Cache T A) → All P cache → All P (trim cache)
  unfolding trim
  trim-All cache h = elim (Bool-cases (ltb source_cache_size (length cache))) [
    | inl q ↦ simp q (drop_first-All cache h)
    | inr q ↦ simp q h
  ]

  pub get-All :
      (cache : Cache T A) (source : Text) (e : Entry T A)
      → All P cache
      → get cache source ≡ some e
      → P (source, e)
  unfolding get
  get-All [] source e h q = cc
  get-All ((k, x) ∷ cache) source e (h, hs) q = elim (Bool-cases (list_eq source k)) [
    | inl b ↦
        let x_e : some x ≡ some e = simp b at q in
        let k_s = list_eq_sound source k b in subst P (cc) h
    | inr b ↦ get-All cache source e hs (simp b at q)
  ]

module _ {T A : Type 0} where
  pub length-remove :
      (cache : Cache T A) (source : Text) → length (remove cache source) ≤ length cache
  unfolding remove
  length-remove [] source = omega arith
  length-remove ((k, e) ∷ cache) source = elim (Bool-cases (list_eq source k)) [
    | inl q ↦ simp q (omega arith)
    | inr q ↦ simp q (omega (arith, length-remove cache source))
  ]

  pub length-remove_found :
      (cache : Cache T A) (source : Text) (e : Entry T A)
      → get cache source ≡ some e
      → length (remove cache source) + 1 ≤ length cache
  unfolding remove get
  length-remove_found [] source e q = cc
  length-remove_found ((k, x) ∷ cache) source e q = elim (Bool-cases (list_eq source k)) [
    | inl b ↦ simp b (omega arith)
    | inr b ↦ simp b (omega (arith, length-remove_found cache source e (simp b at q)))
  ]

  pub length-put_last :
      (cache : Cache T A) (source : Text) (e : Entry T A)
      → length (put_last cache source e) ≡ length (remove cache source) + 1
  unfolding put_last
  length-put_last cache source e = length-append (remove cache source) ((source, e) ∷ [])

  pub length-set_ast :
      (cache : Cache T A) (source : Text) (a : A) → length (set_ast cache source a) ≡ length cache
  unfolding set_ast
  length-set_ast [] source a = refl
  length-set_ast ((k, e) ∷ cache) source a = elim (Bool-cases (list_eq source k)) [
    | inl q ↦ simp q refl
    | inr q ↦ simp q (ap suc (length-set_ast cache source a))
  ]

  pub length-trim :
      (cache : Cache T A)
      → length cache ≤ suc source_cache_size
      → length (trim cache) ≤ source_cache_size
  unfolding trim
  length-trim [] h = omega arith
  length-trim (x ∷ cache) h = ground arith
