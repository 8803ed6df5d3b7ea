-- ===== src/History.antt =====
-- runtime/_rt_history.py: the lookback histories of persist-mode variables. A view reads the first
-- items of a list that goes on growing, so its reads take the list as it is at that time.
pub mod Reads
use power_bridge.Base.{
  ℕ, zero, suc, ◌+◌, ◌-◌, Bool, true, false, not, ◌&&◌, Option, none, some, List, [], ◌∷◌, ◌++◌,
  ltb, leb, ◌==◌, if◌then◌else◌, length, get_elem?, take, drop, ℤ, pos, negsuc,
}

-- `SeriesView` without its `_base`, the shared list.
pub record SeriesView (A : Type 0) : Type 0 where
  pub size : ℕ
  pub last : A

-- What `slice.indices` and `range` make of a slice: the bounds of one with step 1, else the
-- positions that it visits.
pub data Slice : Type 0 where
  plain : ℕ → ℕ → Slice
  strided : List ℕ → Slice

-- `base + other`: a view for a list of one element, else a new list.
pub data Sum (A : Type 0) : Type 0 where
  view : SeriesView A → Sum A
  copied : List A → Sum A

module _ {A : Type 0} where
  -- `SeriesHistory.__add__`
  unfoldable pub add_history : List A → List A → Sum A
  add_history base [] = copied (base ++ [])
  add_history base (x ∷ []) = view (record { size = length base; last = x })
  add_history base (x ∷ y ∷ other) = copied (base ++ (x ∷ y ∷ other))

  abbrev pub len : SeriesView A → ℕ
  len v = v.size + 1

  -- `__getitem__` at an index that is not negative; `none` is the IndexError.
  abbrev pub item_at : List A → SeriesView A → ℕ → Option A
  item_at base v i =
      if i == v.size then some v.last else if ltb i v.size then get_elem? base i else none

  -- `__getitem__`: `i += n + 1` for a negative one, which may stay negative.
  unfoldable pub getitem : List A → SeriesView A → ℤ → Option A
  getitem base v (pos i) = item_at base v i
  getitem base v (negsuc k) = if leb k v.size then item_at base v (v.size - k) else none

  -- One more item of a list comprehension, whose index may raise.
  abbrev pub and_items : Option A → Option (List A) → Option (List A)
  and_items none rest = none
  and_items (some x) none = none
  and_items (some x) (some xs) = some (x ∷ xs)

  abbrev pub items_at : List A → SeriesView A → List ℕ → Option (List A)
  items_at base v [] = some []
  items_at base v (j ∷ js) = and_items (item_at base v j) (items_at base v js)

  -- `xs[start:stop]`
  abbrev pub cut : List A → ℕ → ℕ → List A
  cut xs start zero = []
  cut [] start (suc stop) = []
  cut (x ∷ xs) zero (suc stop) = x ∷ cut xs zero stop
  cut (x ∷ xs) (suc start) (suc stop) = cut xs start stop

  -- `__getitem__` with a slice.
  unfoldable pub getslice : List A → SeriesView A → Slice → Option (List A)
  getslice base v (plain start stop) =
      if leb stop start
      then some []
      else if leb stop v.size
      then some (cut base start stop)
      else some (cut base start v.size ++ (v.last ∷ []))
  getslice base v (strided js) = items_at base v js

  -- `tolist` (and what `__iter__` yields)
  unfoldable pub tolist : List A → SeriesView A → List A
  tolist base v = take v.size base ++ (v.last ∷ [])

  -- `__add__` and `__radd__`
  unfoldable pub add_view : List A → SeriesView A → List A → List A
  add_view base v other = tolist base v ++ other

  unfoldable pub radd_view : List A → SeriesView A → List A → List A
  radd_view base v other = other ++ tolist base v
