-- ===== src/BarLoop/Daily.antt =====
-- bar_loop.py, `_DailyOHLC`, `_session_last_bar` and `_infer_session_end_tm`: what the loop keeps of
-- the trading day.
use power_bridge.Base.{
  ℕ, ◌+◌, ◌/◌, ◌%◌, Bool, false, not, Option, none, some, List, [], ◌∷◌, ltb, ◌==◌, if◌then◌else◌,
}
use power_bridge.Float.{Float, ◌⊖◌, num, max2, min2}

-- What `get_ohlcv(i)`, `dates[i]` and `times[i]` give.
pub record Tick (W : Type 0) : Type 0 where
  pub open_price : W
  pub high : W
  pub low : W
  pub close_price : W
  pub volume : W
  pub date : ℕ
  pub time : ℕ

pub record DailyOhlc (W : Type 0) : Type 0 where
  pub open_price : W
  pub high : W
  pub low : W
  pub close_price : W
  pub prev_close : W
  pub session : ℕ

-- engine_dates.py, `el_date_to_day_of_week`, with `datetime.date(...).isoweekday()`.
abbrev pub el_date_to_day_of_week : (ℕ → ℕ → ℕ → ℕ) → ℕ → ℕ
el_date_to_day_of_week isoweekday d = isoweekday (d / 10000 + 1900) (d / 100 % 100) (d % 100)

module _ {W : Type 0} ⦃fl : Float W⦄ where
  abbrev pub no_daily : DailyOhlc W
  no_daily = record {
    open_price = fl.nought;
    high = fl.nought;
    low = fl.nought;
    close_price = fl.nought;
    prev_close = fl.nought ⊖ num 1;
    session = 2;
  }

  -- `_DailyOHLC.update`; the weekday of a date is `el_date_to_day_of_week`.
  unfoldable pub daily_update : (ℕ → ℕ) → Option ℕ → Tick W → DailyOhlc W → DailyOhlc W
  daily_update weekday none t d = record {
    open_price = t.open_price;
    high = t.high;
    low = t.low;
    close_price = t.close_price;
    prev_close = fl.nought ⊖ num 1;
    session = weekday t.date;
  }
  daily_update weekday (some prev) t d =
      if not (t.date == prev)
      then record {
        open_price = t.open_price;
        high = t.high;
        low = t.low;
        close_price = t.close_price;
        prev_close = d.close_price;
        session = weekday t.date;
      }
      else record d {
        high = max2 d.high t.high;
        low = min2 d.low t.low;
        close_price = t.close_price;
      }

-- `_session_last_bar`, with the date of the next bar if there is one.
unfoldable pub session_last_bar : Option ℕ → ℕ → ℕ → Option ℕ → Bool
session_last_bar (some next) dt tm session_end_tm = not (next == dt)
session_last_bar none dt tm none = false
session_last_bar none dt tm (some end_tm) = tm == end_tm

-- `Counter`: the counts in the order in which the keys first came.
abbrev pub count_one : ℕ → List (ℕ × ℕ) → List (ℕ × ℕ)
count_one k [] = (k, 1) ∷ []
count_one k ((j, n) ∷ rest) =
    let later = count_one k rest in if j == k then (j, n + 1) ∷ rest else (j, n) ∷ later

-- `most_common(1)`: of equal counts, the one that came first.
abbrev pub most_common : ℕ × ℕ → List (ℕ × ℕ) → ℕ × ℕ
most_common best [] = best
most_common (k, n) ((j, m) ∷ rest) = most_common (if ltb n m then (j, m) else (k, n)) rest

-- The times of the bars that end a day.
abbrev pub day_ends : List (ℕ × ℕ) → List ℕ
day_ends [] = []
day_ends (x ∷ []) = []
day_ends ((d, tm) ∷ (d', tm') ∷ rest) =
    let later = day_ends ((d', tm') ∷ rest) in if not (d == d') then tm ∷ later else later

abbrev pub count_all : List ℕ → List (ℕ × ℕ) → List (ℕ × ℕ)
count_all [] counts = counts
count_all (k ∷ ks) counts = count_all ks (count_one k counts)

-- `_infer_session_end_tm`, on the dates and times of the bars.
unfoldable pub infer_session_end_tm : List (ℕ × ℕ) → Option ℕ
infer_session_end_tm bars = elim (count_all (day_ends bars) []) [
  | [] ↦ none
  | c ∷ cs ↦ some ((most_common c cs).0)
]
