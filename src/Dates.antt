-- ===== src/Dates.antt =====
-- engine_dates.py: dates and times of bars. A date is the number (year - 1900) * 10000 + month * 100
-- + day, a time the number hour * 100 + minute. Splitting a text at its separators and `int` are
-- Python's, so a text comes as its fields; `month_days` is `calendar.monthrange(y, m)[1]`.
pub mod Codes
pub mod Formats
use power_bridge.Base.{
  ℕ, zero, suc, ◌+◌, ◌-◌, ◌*◌, ◌/◌, ◌%◌, Bool, true, false, not, ◌&&◌, ◌||◌, Option, none, some,
  List, [], ◌∷◌, ltb, ◌==◌, if◌then◌else◌, ℤ, pos, negsuc, pos_part, leb_ℤ, ltb_ℤ, ◌+ℤ◌,
}

-- Python's `//` and `%` by a positive number.
abbrev pub floor_div : ℤ → ℕ → ℤ
floor_div (pos n) d = pos (n / d)
floor_div (negsuc n) d = negsuc (n / d)

abbrev pub floor_mod : ℤ → ℕ → ℕ
floor_mod (pos n) d = n % d
floor_mod (negsuc n) d = d - 1 - n % d

-- A field of a split text: its `int`, if it has one, and the length of its stripped text.
pub record Field : Type 0 where
  pub value : Option ℤ
  pub width : ℕ

-- A date text: its fields between slashes and dashes, and the `int` of the whole text.
pub record DateText : Type 0 where
  pub parts : List Field
  pub whole : Option ℤ

pub data DateFormat : Type 0 where
  dmy mdy ymd : DateFormat

pub data DateError : Type 0 where
  bad_date bad_month bad_year bad_day month_first_hint bad_time bad_minute has_seconds : DateError
  formats_disagree ambiguous_dates : DateError

-- A result or the ValueError raised instead.
pub data Parsed (A : Type 0) : Type 0 where
  ok : A → Parsed A
  raise : DateError → Parsed A

-- `a <= z <= b`
abbrev pub between : ℕ → ℕ → ℤ → Bool
between a b z = leb_ℤ (pos a) z && leb_ℤ z (pos b)

abbrev pub is_four_wide : Field → Bool
is_four_wide f = f.width == 4

module _ (month_days : ℕ → ℕ → ℕ) where
  -- `_check_ymd`; the year, month and day of the result are not negative.
  unfoldable pub check_ymd : ℤ → ℤ → ℤ → Parsed ℕ
  check_ymd y m d =
      if not (between 1 12 m)
      then raise bad_month
      else if not (between 1900 2899 y)
      then raise bad_year
      else if not (between 1 (month_days (pos_part y) (pos_part m)) d)
      then raise bad_day
      else ok ((pos_part y - 1900) * 10000 + pos_part m * 100 + pos_part d)

  -- The three fields in the order of the format; `none` is the default order, which takes a year of
  -- four characters first and hints at month-first dates.
  unfoldable pub order_fields : Option DateFormat → Bool → ℤ → ℤ → ℤ → Parsed ℕ
  order_fields (some ymd) four a b c = check_ymd a b c
  order_fields (some mdy) four a b c = check_ymd c a b
  order_fields (some dmy) four a b c = check_ymd c b a
  order_fields none four a b c =
      if four
      then check_ymd a b c
      else if ltb_ℤ (pos 12) b && between 1 12 a
      then raise month_first_hint
      else check_ymd c b a

  -- A date written as one integer.
  unfoldable pub el_integer : Option ℤ → Parsed ℕ
  el_integer none = raise bad_date
  el_integer (some v) =
      check_ymd (pos 1900 +ℤ floor_div v 10000) (pos (floor_mod (floor_div v 100) 100))
        (pos (floor_mod v 100))

  -- `parse_el_date`
  unfoldable pub parse_el_date : Option DateFormat → DateText → Parsed ℕ
  parse_el_date fmt t = elim t.parts [
    | a ∷ b ∷ c ∷ [] ↦ elim a.value [
      | none ↦ raise bad_date
      | some x ↦ elim b.value [
        | none ↦ raise bad_date
        | some y ↦ elim c.value [
          | none ↦ raise bad_date
          | some z ↦ order_fields fmt (is_four_wide a) x y z
        ]
      ]
    ]
    | _ ↦ el_integer t.whole
  ]

-- `[int(x) for x in parts]`; `none` is its ValueError.
abbrev pub all_ints : List Field → Option (List ℤ)
all_ints [] = some []
all_ints (f ∷ fs) = elim f.value [
  | none ↦ none
  | some x ↦ elim (all_ints fs) [ none ↦ none | some xs ↦ some (x ∷ xs) ]
]

-- The last test of `parse_el_time`.
abbrev pub check_time : ℤ → ℤ → ℤ → Parsed ℕ
check_time first h mi =
    if ltb_ℤ first (pos 0) || (not (between 0 23 h) || not (between 0 59 mi))
    then raise bad_time
    else ok (pos_part h * 100 + pos_part mi)

unfoldable pub el_clock : List ℤ → Parsed ℕ
el_clock (n ∷ []) = check_time n (floor_div n 100) (pos (floor_mod n 100))
el_clock (h ∷ mi ∷ []) = if not (between 0 59 mi) then raise bad_minute else check_time h h mi
el_clock (h ∷ mi ∷ s ∷ []) =
    if not (between 0 0 s)
    then raise has_seconds
    else if not (between 0 59 mi)
    then raise bad_minute
    else check_time h h mi
el_clock _ = raise bad_time

-- `parse_el_time`, on the fields between colons.
unfoldable pub parse_el_time : List Field → Parsed ℕ
parse_el_time parts = elim (all_ints parts) [ none ↦ raise bad_time | some ns ↦ el_clock ns ]

-- What `infer_date_format` has seen: a first field above 12, a second one, and a date that the two
-- orders read differently.
pub record Seen : Type 0 where
  pub first_big : Bool
  pub second_big : Bool
  pub ambiguous : Bool

-- The first two fields of a date that takes part in the decision.
abbrev pub two_fields : DateText → Option (ℤ × ℤ)
two_fields t = elim t.parts [
  | a ∷ b ∷ c ∷ [] ↦ if is_four_wide a then none else elim a.value [
    | none ↦ none
    | some x ↦ elim b.value [ none ↦ none | some y ↦ some (x, y) ]
  ]
  | _ ↦ none
]

abbrev pub same_int : ℤ → ℤ → Bool
same_int a b = leb_ℤ a b && leb_ℤ b a

-- The chain of `if` and `elif`; each keeps the first date it finds.
unfoldable pub note_fields : Option (ℤ × ℤ) → Seen → Seen
note_fields none s = s
note_fields (some (a, b)) s =
    if ltb_ℤ (pos 12) a && not s.first_big
    then record s { first_big = true }
    else if ltb_ℤ (pos 12) b && not s.second_big
    then record s { second_big = true }
    else if not (same_int a b) && not s.ambiguous
    then record s { ambiguous = true }
    else s

unfoldable pub note_dates : List DateText → Seen → Seen
note_dates [] s = s
note_dates (t ∷ ts) s = note_dates ts (note_fields (two_fields t) s)

abbrev pub decide : Seen → Parsed (Option DateFormat)
decide s =
    if s.first_big && s.second_big
    then raise formats_disagree
    else if s.first_big
    then ok (some dmy)
    else if s.second_big
    then ok (some mdy)
    else if s.ambiguous
    then raise ambiguous_dates
    else ok none

-- `infer_date_format`
unfoldable pub infer_date_format : List DateText → Parsed (Option DateFormat)
infer_date_format ts =
    decide (note_dates ts (record { first_big = false; second_big = false; ambiguous = false }))
