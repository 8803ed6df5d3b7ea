-- ===== src/Dates/Formats.antt =====
-- The field order of a file's dates (engine_dates.py, `infer_date_format`): what a decision means for
-- each date of the file.
use power_bridge.Base.{
  ◌⊎◌, ◌≡◌, true, false, Option, none, some, List, [], ◌∷◌, arith, All, ℤ, pos, ltb_ℤ, inl, inr,
}
use power_bridge.Dates.{
  DateText, DateFormat, dmy, mdy, ymd, ok, Seen, two_fields, same_int, note_fields, note_dates,
  decide, infer_date_format,
}

-- The first field can be a month.
abbrev pub FirstSmall : Option (ℤ × ℤ) → Type 0
FirstSmall none = Unit
FirstSmall (some (a, b)) = ltb_ℤ (pos 12) a ≡ false

-- The second field can be a month if the first one can.
abbrev pub SecondSmall : Option (ℤ × ℤ) → Type 0
SecondSmall none = Unit
SecondSmall (some (a, b)) = ltb_ℤ (pos 12) a ≡ false → ltb_ℤ (pos 12) b ≡ false

abbrev pub SameField : Option (ℤ × ℤ) → Type 0
SameField none = Unit
SameField (some (a, b)) = same_int a b ≡ true

first_step :
    (f : Option (ℤ × ℤ)) (s : Seen)
    → (note_fields f s).first_big ≡ false
    → (s.first_big ≡ false) × FirstSmall f
unfolding note_fields
first_step none s h = (h, tt)
first_step (some (a, b)) s h = ground arith

second_step :
    (f : Option (ℤ × ℤ)) (s : Seen)
    → (note_fields f s).second_big ≡ false
    → (s.second_big ≡ false) × SecondSmall f
unfolding note_fields
second_step none s h = (h, tt)
second_step (some (a, b)) s h = ground arith

same_step :
    (f : Option (ℤ × ℤ)) (s : Seen)
    → (note_fields f s).first_big ≡ false
    → (note_fields f s).second_big ≡ false
    → (note_fields f s).ambiguous ≡ false
    → (s.ambiguous ≡ false) × SameField f
unfolding note_fields
same_step none s h k l = (l, tt)
same_step (some (a, b)) s h k l = ground arith

first-All :
    (ts : List DateText) (s : Seen)
    → (note_dates ts s).first_big ≡ false
    → (s.first_big ≡ false) × All (λ t. FirstSmall (two_fields t)) ts
unfolding note_dates
first-All [] s h = (h, tt)
first-All (t ∷ ts) s h =
    let (later, rest) = first-All ts (note_fields (two_fields t) s) h in
    let (before, this) = first_step (two_fields t) s later in (before, (this, rest))

second-All :
    (ts : List DateText) (s : Seen)
    → (note_dates ts s).second_big ≡ false
    → (s.second_big ≡ false) × All (λ t. SecondSmall (two_fields t)) ts
unfolding note_dates
second-All [] s h = (h, tt)
second-All (t ∷ ts) s h =
    let (later, rest) = second-All ts (note_fields (two_fields t) s) h in
    let (before, this) = second_step (two_fields t) s later in (before, (this, rest))

same-All :
    (ts : List DateText) (s : Seen)
    → (note_dates ts s).first_big ≡ false
    → (note_dates ts s).second_big ≡ false
    → (note_dates ts s).ambiguous ≡ false
    → (s.ambiguous ≡ false) × All (λ t. SameField (two_fields t)) ts
unfolding note_dates
same-All [] s h k l = (l, tt)
same-All (t ∷ ts) s h k l =
    let next = note_fields (two_fields t) s in
    let (later, rest) = same-All ts next h k l in
    let (before, this) =
      same_step (two_fields t) s (first-All ts next h).0 (second-All ts next k).0 later in
    (before, (this, rest))

-- A decision fits a date: with the day first, no second field is above 12 where the first is not;
-- with the month first, no first field is above 12; with none, the two fields are equal.
abbrev pub Fits : Option DateFormat → Option (ℤ × ℤ) → Type 0
Fits none f = SameField f
Fits (some dmy) f = SecondSmall f
Fits (some mdy) f = FirstSmall f
Fits (some ymd) f = ⊥

decide-ok :
    (s : Seen) (fmt : Option DateFormat)
    → decide s ≡ ok fmt
    → ((fmt ≡ none) × (s.first_big ≡ false) × (s.second_big ≡ false) × (s.ambiguous ≡ false))
      ⊎ ((fmt ≡ some dmy) × (s.second_big ≡ false))
      ⊎ ((fmt ≡ some mdy) × (s.first_big ≡ false))
decide-ok s fmt e = ground arith

-- Whatever field order is inferred without an error fits every date that takes part: with the day
-- first, a second field is above 12 only where the first is too; with the month first, no first field
-- is above 12; with no decision, the two fields are equal.
pub infer_date_format-Fits :
    (ts : List DateText) (fmt : Option DateFormat)
    → infer_date_format ts ≡ ok fmt
    → All (λ t. Fits fmt (two_fields t)) ts
unfolding infer_date_format
infer_date_format-Fits ts fmt e =
    let start : Seen = record { first_big = false; second_big = false; ambiguous = false } in
    elim (decide-ok (note_dates ts start) fmt e) [
      | inl (is, f, s, a) ↦ rw is (same-All ts start f s a).1
      | inr (inl (is, s)) ↦ rw is (second-All ts start s).1
      | inr (inr (is, f)) ↦ rw is (first-All ts start f).1
    ]
