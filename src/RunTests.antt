-- ===== src/RunTests.antt =====
-- The theorems on source texts, histories, dates and runs at concrete inputs.
use power_bridge.Base.{
  leb, ◌&&◌, Bool, length, ℕ, ◌+◌, ◌-◌, ◌/◌, ◌%◌, ◌≤◌, ◌≡◌, refl, true, false, none, some, List, [],
  ◌∷◌, ◌++◌, arith, take, ℤ, pos, negsuc, All, ◌==◌, if◌then◌else◌,
}
use power_bridge.Float.{cents}
use power_bridge.Lexer.Chars.{codes, is_blank}
use power_bridge.Lexer.Step.{lex_step, number_length, word_step, operator_step}
use power_bridge.Lexer.Loop.{lexed, lex_from, tokenise_with_comments}
use power_bridge.Lexer.Progress.{IsFinished, tokenise_with_comments-IsFinished}
use power_bridge.Lexer.Positions.{newlines, line_col, pos-newlines}
use power_bridge.Lexer.Positions as Positions
use power_bridge.History.{getitem, getslice, plain}
use power_bridge.History.Reads.{list_item, list_slice, getitem-view, getslice-view}
use power_bridge.Dates.{
  Field, DateText, dmy, ok, check_ymd, parse_el_date, parse_el_time, el_clock, infer_date_format,
  note_dates, note_fields, two_fields,
}
use power_bridge.Dates.Codes.{
  check_ymd-digits, parse_el_date-code, parse_el_time-bounds, parse_el_time-code,
}
use power_bridge.Dates.Formats.{Fits, infer_date_format-Fits}
use power_bridge.Engine.State.{
  FillEngine, truncates_to, buy, market, next, no_risk, new_engine, is_flat,
}
use power_bridge.Engine.Position.{fill}
use power_bridge.Engine.Invariant.{IsReady, IsSized, Yields, Returns, Ensures, new_engine-IsSound}
use power_bridge.BarLoop.{
  Settings, Call, Answer, answered, Loop, exit_on_close, start, init_history, drive_bars,
}
use power_bridge.BarLoop.Daily.{Tick}
use power_bridge.BarLoop.Invariant.{orders_of, drive_bars-IsReady, exit_on_close-flat}
use power_bridge.BarLoop.Window.{IsCounted, drive_bars-IsCounted}
use power_bridge.BarLoop.Warmup.{IsWarm, drive_bars-IsWarm}

abbrev two_lines : List ℕ
two_lines = codes "x = 1;" ++ (10 ∷ codes "y = 2;")

pos-newlines_example : Positions.pos (newlines two_lines) 9 ≡ line_col two_lines 9
pos-newlines_example = pos-newlines two_lines 9

abbrev seeded : List ℕ
seeded = 5 ∷ 6 ∷ []

abbrev appended : List ℕ
appended = 7 ∷ 8 ∷ []

getitem-view_example :
    getitem (seeded ++ appended) (record { size = 2; last = 9 }) (negsuc 1)
    ≡ list_item (seeded ++ (9 ∷ [])) (negsuc 1)
getitem-view_example = getitem-view seeded appended 9 (negsuc 1)

getslice-view_example :
    getslice (seeded ++ appended) (record { size = 2; last = 9 }) (plain 1 3)
    ≡ list_slice (seeded ++ (9 ∷ [])) (plain 1 3)
getslice-view_example = getslice-view seeded appended 9 1 3 (omega arith)

-- Leap years aside.
abbrev days_of : ℕ → ℕ → ℕ
days_of y m = if m == 2 then 28 else 31

days_of_max : (y m : ℕ) → days_of y m ≤ 31
days_of_max y m = ground arith

new_year : check_ymd days_of (pos 2024) (pos 1) (pos 2) ≡ ok 1240102
unfolding check_ymd
new_year = refl

check_ymd-digits_example :
    (pos 2024 ≡ pos (1900 + 1240102 / 10000))
    × (pos 1 ≡ pos (1240102 / 100 % 100))
    × (pos 2 ≡ pos (1240102 % 100))
check_ymd-digits_example =
    check_ymd-digits days_of days_of_max (pos 2024) (pos 1) (pos 2) 1240102 new_year

abbrev one_field : ℕ → Field
one_field n = record { value = some (pos n); width = 2 }

parse_el_date-code_example :
    parse_el_date days_of
      (some dmy)
      (record { parts = one_field 1240102 ∷ []; whole = some (pos 1240102) })
    ≡ ok 1240102
parse_el_date-code_example =
    parse_el_date-code days_of days_of_max (some dmy) (pos 2024) (pos 1) (pos 2) 1240102 2 new_year

half_past_nine : parse_el_time (one_field 9 ∷ one_field 30 ∷ []) ≡ ok 930
unfolding parse_el_time el_clock
half_past_nine = refl

parse_el_time-bounds_example : (930 / 100 ≤ 23) × (930 % 100 ≤ 59)
parse_el_time-bounds_example =
    parse_el_time-bounds (one_field 9 ∷ one_field 30 ∷ []) 930 half_past_nine

parse_el_time-code_example : parse_el_time (one_field 930 ∷ []) ≡ ok 930
parse_el_time-code_example =
    parse_el_time-code (one_field 9 ∷ one_field 30 ∷ []) 930 2 half_past_nine

abbrev date_of : ℕ → ℕ → DateText
date_of a b = record { parts = one_field a ∷ one_field b ∷ one_field 24 ∷ []; whole = none }

abbrev some_dates : List DateText
some_dates = date_of 3 4 ∷ date_of 25 4 ∷ []

day_first : infer_date_format some_dates ≡ ok (some dmy)
unfolding infer_date_format note_dates note_fields
day_first = refl

infer_date_format-Fits_example : All (λ t. Fits (some dmy) (two_fields t)) some_dates
infer_date_format-Fits_example = infer_date_format-Fits some_dates (some dmy) day_first

abbrev a_tape : List (Tick ℤ)
a_tape = tick 100 930 ∷ tick 101 931 ∷ tick 99 932 ∷ tick 102 933 ∷ []
  where
    tick : ℕ → ℕ → Tick ℤ
    tick price time = record {
      open_price = pos price;
      high = pos (price + 2);
      low = pos (price - 2);
      close_price = pos (price + 1);
      volume = pos 10;
      date = 1240102;
      time = time;
    }

-- Buys one contract on every bar and counts its calls.
abbrev buyer : ℕ → Call ℤ → ℕ × Answer ℤ
buyer n c = (
  n + 1,
  answered
      (some (record {
        action = buy;
        otype = market;
        qty = truncates_to (pos 1);
        timing = next;
        label = "LE";
        extras = [];
      })
        ∷ [])
      (record {
        currency = no_risk;
        stop_loss_pt = none;
        profit_target_pt = none;
        breakeven_pt = none;
        trailing_stop_pt = none;
        percent_trailing_pt = none;
      }),
)

abbrev a_run : Settings
a_run = record {
  trade_from = 2;
  max_bars_back = 1;
  warmup = 0;
  strict = true;
  strict_exits = true;
  session_end_tm = none;
}

abbrev an_engine : FillEngine ℤ
an_engine = new_engine (pos 50) (pos 25) 2

abbrev long_engine : FillEngine ℤ
long_engine =
    fill buy 2 (pos 100) (record { bar = 2; date = 1240102; time = 931; name = "LE"; cat = 3 })
      an_engine

abbrev tuesday : ℕ → ℕ
tuesday d = 2

abbrev at_start : Loop ℤ ℕ
at_start = start tuesday buyer a_run none 0 an_engine

buyer-IsSized : (n : ℕ) (c : Call ℤ) → All IsSized (orders_of (buyer n c).1)
buyer-IsSized n c = (refl, tt)

an_engine-IsReady : IsReady an_engine
an_engine-IsReady = record {
  sound = new_engine-IsSound (pos 50) (pos 25) 2;
  queued = tt;
  closing = tt;
}

drive_bars-IsReady_example :
    Yields (λ l. IsReady l.engine) (drive_bars tuesday buyer a_run 0 a_tape at_start)
drive_bars-IsReady_example =
    drive_bars-IsReady tuesday buyer a_run 0 a_tape at_start buyer-IsSized an_engine-IsReady

exit_on_close-flat_example :
    Ensures
      (λ e. is_flat (e.position).market_position ≡ true)
      (exit_on_close true (pos 101) 3 1240102 932 long_engine)
exit_on_close-flat_example = exit_on_close-flat true (pos 101) 3 1240102 932 long_engine

drive_bars-IsCounted_example :
    Ensures
      (λ l. l.raised ≡ false → IsCounted tuesday buyer a_run 4 (init_history none ++ a_tape) l)
      (drive_bars tuesday buyer a_run 0 a_tape at_start)
drive_bars-IsCounted_example = drive_bars-IsCounted tuesday buyer a_run none a_tape 0 an_engine

drive_bars-IsWarm_example :
    Returns
      (IsWarm tuesday buyer a_run at_start)
      (drive_bars tuesday buyer a_run 0 (take 2 a_tape) at_start)
drive_bars-IsWarm_example =
    drive_bars-IsWarm tuesday buyer a_run 0 (take 2 a_tape) at_start (omega arith)

abbrev ascii_digit : ℕ → Bool
ascii_digit c = leb b'0' c && leb c b'9'

tokenise_with_comments-IsFinished_example :
    IsFinished ascii_digit is_blank two_lines
      (tokenise_with_comments ascii_digit is_blank two_lines)
tokenise_with_comments-IsFinished_example =
    tokenise_with_comments-IsFinished ascii_digit is_blank two_lines

-- "x = 1;", a line feed and "y = 2;"
two_lines_tokens :
    elim (tokenise_with_comments ascii_digit is_blank two_lines) [
      | lexed l ↦ length l.tokens
      | _ ↦ 0
    ]
    ≡ 9
unfolding tokenise_with_comments lex_from lex_step number_length word_step operator_step
two_lines_tokens = refl
