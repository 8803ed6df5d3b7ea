-- ===== src/History/Reads.antt =====
-- Reads of a lookback view (runtime/_rt_history.py, the contract in its module comment).
use power_bridge.Base.{
  ℕ, zero, suc, ◌-◌, ◌≤◌, ◌<◌, ◌≡◌, refl, sym, ap, ◌∙◌, true, false, Option, none, some, List, [],
  ◌∷◌, ◌++◌, arith, ltb, leb, ◌==◌, if◌then◌else◌, length, get_elem?, take, ℤ, pos, negsuc,
  Bool-cases, inl, inr, length-append,
}
use power_bridge.History.{
  Slice, plain, strided, item_at, items_at, getitem, and_items, cut, getslice, tolist,
}

module _ {A : Type 0} where
  -- Python's `xs[i]` on a list.
  abbrev pub list_item : List A → ℤ → Option A
  list_item xs (pos i) = get_elem? xs i
  list_item xs (negsuc k) = if ltb k (length xs) then get_elem? xs (length xs - k - 1) else none

  abbrev pub list_items : List A → List ℕ → Option (List A)
  list_items xs [] = some []
  list_items xs (j ∷ js) = and_items (get_elem? xs j) (list_items xs js)

  -- Python's `xs[start:stop]` and `[xs[j] for j in range(...)]`.
  abbrev pub list_slice : List A → Slice → Option (List A)
  list_slice xs (plain start stop) = some (cut xs start stop)
  list_slice xs (strided js) = list_items xs js

  get_elem?-append_left :
      (xs ys : List A) (i : ℕ) → i < length xs → get_elem? (xs ++ ys) i ≡ get_elem? xs i
  get_elem?-append_left [] ys i h = elim h [ ]
  get_elem?-append_left (x ∷ xs) ys zero h = refl
  get_elem?-append_left (x ∷ xs) ys (suc i) h = get_elem?-append_left xs ys i (omega arith)

  get_elem?-append_at : (xs : List A) (x : A) → get_elem? (xs ++ (x ∷ [])) (length xs) ≡ some x
  get_elem?-append_at [] x = refl
  get_elem?-append_at (y ∷ xs) x = get_elem?-append_at xs x

  get_elem?_past : (xs : List A) (i : ℕ) → length xs ≤ i → get_elem? xs i ≡ none
  get_elem?_past [] i h = refl
  get_elem?_past (x ∷ xs) zero h = elim h [ ]
  get_elem?_past (x ∷ xs) (suc i) h = get_elem?_past xs i (omega arith)

  take-append : (xs ys : List A) → take (length xs) (xs ++ ys) ≡ xs
  take-append [] ys = refl
  take-append (x ∷ xs) ys = ap (x ∷◌) (take-append xs ys)

  cut-append :
      (xs ys : List A) (start stop : ℕ)
      → stop ≤ length xs
      → cut (xs ++ ys) start stop ≡ cut xs start stop
  cut-append xs ys start zero h = refl
  cut-append [] ys start (suc stop) h = elim h [ ]
  cut-append (x ∷ xs) ys zero (suc stop) h = ap (x ∷◌) (cut-append xs ys zero stop (omega arith))
  cut-append (x ∷ xs) ys (suc start) (suc stop) h = cut-append xs ys start stop (omega arith)

  cut_empty : (xs : List A) (start stop : ℕ) → stop ≤ start → cut xs start stop ≡ []
  cut_empty xs start zero h = refl
  cut_empty [] start (suc stop) h = refl
  cut_empty (x ∷ xs) zero (suc stop) h = elim h [ ]
  cut_empty (x ∷ xs) (suc start) (suc stop) h = cut_empty xs start stop (omega arith)

  -- A slice that ends with the last item.
  cut-append_last :
      (xs : List A) (x : A) (start stop : ℕ)
      → start < stop
      → stop ≡ suc (length xs)
      → cut (xs ++ (x ∷ [])) start stop ≡ cut xs start (length xs) ++ (x ∷ [])
  cut-append_last xs x start zero h e = elim h [ ]
  cut-append_last [] x zero (suc zero) h e = refl
  cut-append_last [] x zero (suc (suc stop)) h e = absurd (omega arith)
  cut-append_last [] x (suc start) (suc stop) h e = absurd (omega arith)
  cut-append_last (y ∷ xs) x zero (suc stop) h e =
      ap (y ∷◌) (cut-append_last xs x zero stop (omega arith) (omega arith))
  cut-append_last (y ∷ xs) x (suc start) (suc stop) h e =
      cut-append_last xs x start stop (omega arith) (omega arith)

  view_at :
      (base later : List A) (x : A) (i : ℕ)
      → item_at (base ++ later) (record { size = length base; last = x }) i
        ≡ get_elem? (base ++ (x ∷ [])) i
  view_at base later x i = elim (Bool-cases (i == length base)) [
    | inl at_end ↦
        let e : i ≡ length base = ground arith in
        rw at_end (sym (ap (get_elem? (base ++ (x ∷ []))) e ∙ get_elem?-append_at base x))
    | inr elsewhere ↦ elim (Bool-cases (ltb i (length base))) [
      | inl inside ↦
          let h : i < length base = ground arith in
          rw (elsewhere, inside)
            (get_elem?-append_left base later i h ∙ sym (get_elem?-append_left base (x ∷ []) i h))
      | inr outside ↦
          let h : length (base ++ (x ∷ [])) ≤ i = ground (arith, length-append base (x ∷ [])) in
          rw (elsewhere, outside) (sym (get_elem?_past (base ++ (x ∷ [])) i h))
    ]
  ]

  view_items :
      (base later : List A) (x : A) (js : List ℕ)
      → items_at (base ++ later) (record { size = length base; last = x }) js
        ≡ list_items (base ++ (x ∷ [])) js
  view_items base later x [] = refl
  view_items base later x (j ∷ js) =
      λ i. and_items (view_at base later x j i) (view_items base later x js i)

  -- A view made from a history and one value gives at every index, negative or out of range too, what
  -- the concatenated list gives, whatever is appended to the history later.
  pub getitem-view :
      (base later : List A) (x : A) (i : ℤ)
      → getitem (base ++ later) (record { size = length base; last = x }) i
        ≡ list_item (base ++ (x ∷ [])) i
  unfolding getitem
  getitem-view base later x (pos i) = view_at base later x i
  getitem-view base later x (negsuc k) = elim (Bool-cases (leb k (length base))) [
    | inl inside ↦
        let long_enough : ltb k (length (base ++ (x ∷ []))) ≡ true =
          ground (arith, length-append base (x ∷ [])) in
        rw (inside, long_enough)
          (view_at base later x (length base - k)
            ∙ ap (get_elem? (base ++ (x ∷ []))) (omega (arith, length-append base (x ∷ []))))
    | inr outside ↦
        let too_short : ltb k (length (base ++ (x ∷ []))) ≡ false =
          ground (arith, length-append base (x ∷ [])) in
        rw (outside, too_short) refl
  ]

  -- A slice of such a view with step 1 and a stop inside it is the slice of the concatenated list,
  -- whatever is appended to the history later.
  pub getslice-view :
      (base later : List A) (x : A) (start stop : ℕ)
      → stop ≤ suc (length base)
      → getslice (base ++ later) (record { size = length base; last = x }) (plain start stop)
        ≡ list_slice (base ++ (x ∷ [])) (plain start stop)
  unfolding getslice
  getslice-view base later x start stop h = elim (Bool-cases (leb stop start)) [
    | inl nothing ↦
        rw nothing (sym (ap some (cut_empty (base ++ (x ∷ [])) start stop (ground arith))))
    | inr some_items ↦ elim (Bool-cases (leb stop (length base))) [
      | inl inside ↦
          rw (some_items, inside)
            (ap some (
              cut-append base later start stop (ground arith)
              ∙ sym (cut-append base (x ∷ []) start stop (ground arith))))
      | inr to_the_end ↦
          rw (some_items, to_the_end)
            (ap some (
              ap (◌++ (x ∷ [])) (cut-append base later start (length base) (omega arith))
              ∙ sym (cut-append_last base x start stop (ground arith) (ground arith))))
    ]
  ]

  -- A slice with another step.
  pub getslice-strided :
      (base later : List A) (x : A) (js : List ℕ)
      → getslice (base ++ later) (record { size = length base; last = x }) (strided js)
        ≡ list_slice (base ++ (x ∷ [])) (strided js)
  unfolding getslice
  getslice-strided base later x js = view_items base later x js

  pub tolist-view :
      (base later : List A) (x : A)
      → tolist (base ++ later) (record { size = length base; last = x }) ≡ base ++ (x ∷ [])
  unfolding tolist
  tolist-view base later x = ap (◌++ (x ∷ [])) (take-append base later)
