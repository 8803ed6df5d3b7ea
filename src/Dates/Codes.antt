-- ===== src/Dates/Codes.antt =====
-- The integers that dates and times are coded as (engine_dates.py): decoding and round trips.
use power_bridge.Base.{
  ℕ, ◌+◌, ◌-◌, ◌*◌, ◌/◌, ◌%◌, ◌≤◌, ◌<◌, ◌≡◌, refl, sym, ap, ◌∙◌, Bool, true, false, not, Option,
  none, some, List, [], ◌∷◌, arith, if◌then◌else◌, ℤ, pos, negsuc, pos_part, ltb_ℤ, ◌+ℤ◌,
  Bool-cases, Option-cases, inl, inr,
}
use power_bridge.Dates.{
  Field, DateFormat, Parsed, ok, raise, between, floor_div, floor_mod, check_ymd, el_integer,
  parse_el_date, check_time, el_clock, parse_el_time, all_ints, bad_time, bad_minute, has_seconds,
  DateError,
}

between_ℕ :
    (a b : ℕ) (z : ℤ) → 0 < a → between a b z ≡ true → (n : ℕ) × (z ≡ pos n) × (a ≤ n) × (n ≤ b)
between_ℕ a b (pos n) h e = (n, refl, ground arith, ground arith)
between_ℕ a b (negsuc n) h e = ground arith

module _ (month_days : ℕ → ℕ → ℕ) where
  -- An accepted date, with the guards that it passed.
  pub record IsDate (y m d : ℤ) (v : ℕ) : Type 0 where
    pub months : between 1 12 m ≡ true
    pub years : between 1900 2899 y ≡ true
    pub days : between 1 (month_days (pos_part y) (pos_part m)) d ≡ true
    pub coded : (pos_part y - 1900) * 10000 + pos_part m * 100 + pos_part d ≡ v

  check_ymd-ok : (y m d : ℤ) (v : ℕ) → check_ymd month_days y m d ≡ ok v → IsDate y m d v
  unfolding check_ymd
  check_ymd-ok y m d v e = elim (Bool-cases (between 1 12 m)) [
    | inl months ↦ elim (Bool-cases (between 1900 2899 y)) [
      | inl years ↦ elim (Bool-cases (between 1 (month_days (pos_part y) (pos_part m)) d)) [
        | inl days ↦ record {
          months = months;
          years = years;
          days = days;
          coded = ground (arith, e);
        }
        | inr no_day ↦ ground arith
      ]
      | inr no_year ↦ ground arith
    ]
    | inr no_month ↦ ground arith
  ]

  IsDate-check_ymd : (y m d : ℤ) (v : ℕ) → IsDate y m d v → check_ymd month_days y m d ≡ ok v
  unfolding check_ymd
  IsDate-check_ymd y m d v s = simp (s.months, s.years, s.days) (ap ok s.coded)

  digits :
      (y m d : ℕ)
      → 1900 ≤ y
      → m < 100
      → d < 100
      → let v = (y - 1900) * 10000 + m * 100 + d in
        (1900 + v / 10000 ≡ y) × (v / 100 % 100 ≡ m) × (v % 100 ≡ d) × (v / 10000 * 10000 ≤ v)
  digits y m d hy hm hd = (omega arith, omega arith, omega arith, omega arith)

  module _ (days_max : (y m : ℕ) → month_days y m ≤ 31) where
    -- Where no month has more than 31 days, an accepted date can be read off its code: the year above 1900
    -- is the code divided by 10000, the month the next two digits, the day the last two.
    pub check_ymd-digits :
        (y m d : ℤ) (v : ℕ)
        → check_ymd month_days y m d ≡ ok v
        → (y ≡ pos (1900 + v / 10000)) × (m ≡ pos (v / 100 % 100)) × (d ≡ pos (v % 100))
    check_ymd-digits y m d v e =
        let s = check_ymd-ok y m d v e in
        let (yn, ye, ylo, yhi) = between_ℕ 1900 2899 y (omega arith) s.years in
        let (mn, me, mlo, mhi) = between_ℕ 1 12 m (omega arith) s.months in
        let (dn, de, dlo, dhi) =
          between_ℕ 1 (month_days (pos_part y) (pos_part m)) d (omega arith) s.days in
        let most = days_max (pos_part y) (pos_part m) in
        let c : (yn - 1900) * 10000 + mn * 100 + dn ≡ v =
          (λ i.
            (pos_part (sym ye i) - 1900) * 10000 + pos_part (sym me i) * 100 + pos_part (sym de i))
          ∙ s.coded in
        let (a, b, last, below) = digits yn mn dn ylo (omega arith) (omega arith) in
        (
          ye ∙ ap pos (sym (ap (λ k. 1900 + k / 10000) (sym c) ∙ a)),
          me ∙ ap pos (sym (ap (λ k. k / 100 % 100) (sym c) ∙ b)),
          de ∙ ap pos (sym (ap (λ k. k % 100) (sym c) ∙ last)),
        )

    -- Where no month has more than 31 days, the code of an accepted date, parsed as a date of one integer
    -- in any format, is that code again.
    pub parse_el_date-code :
        (fmt : Option DateFormat) (y m d : ℤ) (v width : ℕ)
        → check_ymd month_days y m d ≡ ok v
        → parse_el_date month_days fmt (record {
          parts = record { value = some (pos v); width = width } ∷ [];
          whole = some (pos v);
        })
          ≡ ok v
    unfolding parse_el_date el_integer ◌+ℤ◌
    parse_el_date-code fmt y m d v width e =
        let (ye, me, de) = check_ymd-digits y m d v e in
        let year : pos 1900 +ℤ pos (v / 10000) ≡ y = ground arith in
        (λ i. check_ymd month_days (year i) (sym me i) (sym de i)) ∙ e

-- A guard that was passed.
guard-ok :
    (b : Bool) (x : DateError) (r : Parsed ℕ) (v : ℕ) → (if b then raise x else r) ≡ ok v → r ≡ ok v
guard-ok true x r v e = cc
guard-ok false x r v e = e

check_time-bounds :
    (first h mi : ℤ) (v : ℕ) → check_time first h mi ≡ ok v → (v / 100 ≤ 23) × (v % 100 ≤ 59)
check_time-bounds first h mi v e = elim (Bool-cases (ltb_ℤ first (pos 0))) [
  | inl negative ↦ ground (arith, e)
  | inr natural ↦ elim (Bool-cases (between 0 23 h)) [
    | inr no_hour ↦ ground (arith, e)
    | inl hour ↦ elim (Bool-cases (between 0 59 mi)) [
      | inr no_minute ↦ ground (arith, e)
      | inl minute ↦
          let c : pos_part h * 100 + pos_part mi ≡ v = ground (arith, e) in
          let hh : pos_part h ≤ 23 = ground arith in
          let mm : pos_part mi ≤ 59 = ground arith in (omega arith, omega arith)
    ]
  ]
]

el_clock-bounds : (ns : List ℤ) (v : ℕ) → el_clock ns ≡ ok v → (v / 100 ≤ 23) × (v % 100 ≤ 59)
unfolding el_clock
el_clock-bounds [] v e = cc
el_clock-bounds (n ∷ []) v e = check_time-bounds n (floor_div n 100) (pos (floor_mod n 100)) v e
el_clock-bounds (h ∷ mi ∷ []) v e = check_time-bounds h h mi v (guard-ok _ _ _ v e)
el_clock-bounds (h ∷ mi ∷ s ∷ []) v e = check_time-bounds h h mi v (
    guard-ok (not (between 0 59 mi)) bad_minute _ v (
      guard-ok (not (between 0 0 s)) has_seconds
        (if not (between 0 59 mi) then raise bad_minute else check_time h h mi) v e))
el_clock-bounds (h ∷ mi ∷ s ∷ x ∷ ns) v e = cc

-- An accepted time has an hour up to 23 and a minute up to 59, whichever way it was written.
pub parse_el_time-bounds :
    (parts : List Field) (v : ℕ) → parse_el_time parts ≡ ok v → (v / 100 ≤ 23) × (v % 100 ≤ 59)
unfolding parse_el_time
parse_el_time-bounds parts v e = elim (Option-cases (all_ints parts)) [
  | inl no_int ↦ cc
  | inr (ns, is) ↦
      el_clock-bounds ns v
        (ap (λ o. elim o [ none ↦ raise bad_time | some ms ↦ el_clock ms ]) (sym is) ∙ e)
]

code_again :
    (v : ℕ)
    → v / 100 ≤ 23
    → v % 100 ≤ 59
    → check_time (pos v) (pos (v / 100)) (pos (v % 100)) ≡ ok v
code_again v hour minute =
    let back : v / 100 * 100 + v % 100 ≡ v = omega arith in
    let h : between 0 23 (pos (v / 100)) ≡ true = ground arith in
    let m : between 0 59 (pos (v % 100)) ≡ true = ground arith in ground arith

-- The code of an accepted time, parsed as a time of one integer, is that code again.
pub parse_el_time-code :
    (parts : List Field) (v width : ℕ)
    → parse_el_time parts ≡ ok v
    → parse_el_time (record { value = some (pos v); width = width } ∷ []) ≡ ok v
unfolding parse_el_time el_clock
parse_el_time-code parts v width e =
    let (hour, minute) = parse_el_time-bounds parts v e in code_again v hour minute
