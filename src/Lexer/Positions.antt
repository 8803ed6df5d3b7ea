-- ===== src/Lexer/Positions.antt =====
-- lexer.py: source positions. `_line_col` counts newlines up to an offset; `_pos` looks the offset
-- up in the offsets of all newlines, which are computed once.
use power_bridge.Base.{
  ℕ, zero, suc, ◌+◌, ◌-◌, ◌≤◌, ◌≡◌, refl, sym, ap, ◌∙◌, Bool-cases, inl, inr, Option, none, some,
  List, [], ◌∷◌, arith, ltb, ◌==◌, if◌then◌else◌, get_elem?,
}
use power_bridge.Lexer.Chars.{newline}

-- `source.count('\n', 0, offset)`
abbrev pub count_newlines : List ℕ → ℕ → ℕ
count_newlines src zero = 0
count_newlines [] (suc n) = 0
count_newlines (c ∷ src) (suc n) = (if c == newline then 1 else 0) + count_newlines src n

-- `source.rfind('\n', 0, offset)`, from an index on and with the last one found so far; `none` is -1.
abbrev pub rfind_newline : ℕ → Option ℕ → List ℕ → ℕ → Option ℕ
rfind_newline i best src zero = best
rfind_newline i best [] (suc n) = best
rfind_newline i best (c ∷ src) (suc n) =
    rfind_newline (i + 1) (if c == newline then some i else best) src n

-- `offset - last_nl`
abbrev pub column : ℕ → Option ℕ → ℕ
column offset none = offset + 1
column offset (some at) = offset - at

-- `_line_col`
unfoldable pub line_col : List ℕ → ℕ → ℕ × ℕ
line_col src offset =
    (count_newlines src offset + 1, column offset (rfind_newline 0 none src offset))

-- `[m.start() for m in re.finditer('\n', src)]`, for a source that begins at an offset.
abbrev pub newlines_from : ℕ → List ℕ → List ℕ
newlines_from i [] = []
newlines_from i (c ∷ src) =
    let rest = newlines_from (i + 1) src in if c == newline then i ∷ rest else rest

unfoldable pub newlines : List ℕ → List ℕ
newlines src = newlines_from 0 src

-- `bisect_left` on ascending offsets: how many are below.
abbrev pub bisect_left : List ℕ → ℕ → ℕ
bisect_left [] x = 0
bisect_left (n ∷ ns) x = if ltb n x then suc (bisect_left ns x) else 0

-- `newlines[n - 1] if n else -1`; the index is in range, as `n` counts newlines.
abbrev pub last_below : List ℕ → ℕ → Option ℕ → Option ℕ
last_below ns zero best = best
last_below ns (suc n) best = get_elem? ns n

-- `_pos`
unfoldable pub pos : List ℕ → ℕ → ℕ × ℕ
pos ns offset = let n = bisect_left ns offset in (n + 1, column offset (last_below ns n none))

bisect_left_zero : (i x : ℕ) (src : List ℕ) → x ≤ i → bisect_left (newlines_from i src) x ≡ 0
bisect_left_zero i x [] h = refl
bisect_left_zero i x (c ∷ src) h = elim (Bool-cases (c == newline)) [
  | inl nl ↦ rw nl (ground arith)
  | inr other ↦ rw other (bisect_left_zero (i + 1) x src (omega arith))
]

bisect_left-newlines :
    (i x n : ℕ) (src : List ℕ)
    → x ≡ i + n
    → bisect_left (newlines_from i src) x ≡ count_newlines src n
bisect_left-newlines i x zero src e = bisect_left_zero i x src (omega arith)
bisect_left-newlines i x (suc n) [] e = refl
bisect_left-newlines i x (suc n) (c ∷ src) e =
    let ih = bisect_left-newlines (i + 1) x n src (omega arith) in
    elim (Bool-cases (c == newline)) [
      | inl nl ↦ rw nl (ground (arith, ih))
      | inr other ↦ rw other (ih ∙ omega arith)
    ]

last_below-cons :
    (i n : ℕ) (ns : List ℕ) (best : Option ℕ)
    → last_below (i ∷ ns) (suc n) best ≡ last_below ns n (some i)
last_below-cons i zero ns best = refl
last_below-cons i (suc n) ns best = refl

rfind_newline-last_below :
    (i n : ℕ) (src : List ℕ) (best : Option ℕ)
    → rfind_newline i best src n ≡ last_below (newlines_from i src) (count_newlines src n) best
rfind_newline-last_below i zero src best = refl
rfind_newline-last_below i (suc n) [] best = refl
rfind_newline-last_below i (suc n) (c ∷ src) best = elim (Bool-cases (c == newline)) [
  | inl nl ↦
      let shift : suc (count_newlines src n) ≡ 1 + count_newlines src n = omega arith in
      rw nl (
        rfind_newline-last_below (i + 1) n src (some i)
        ∙ sym (last_below-cons i (count_newlines src n) (newlines_from (i + 1) src) best)
        ∙ ap (λ k. last_below (i ∷ newlines_from (i + 1) src) k best) shift)
  | inr other ↦
      let same : count_newlines src n ≡ 0 + count_newlines src n = omega arith in
      rw other (
        rfind_newline-last_below (i + 1) n src best
        ∙ ap (λ k. last_below (newlines_from (i + 1) src) k best) same)
]

-- The position that the lexer looks up in the table of newlines is the line and column that counting
-- newlines gives, at every offset of every source.
pub pos-newlines : (src : List ℕ) (offset : ℕ) → pos (newlines src) offset ≡ line_col src offset
unfolding pos newlines line_col
pos-newlines src offset =
    let found = bisect_left-newlines 0 offset offset src (omega arith) in
    rw (found, rfind_newline-last_below 0 offset src none)
