-- ===== src/BarLoop.antt =====
-- bar_loop.py: `run_bar_loop` and `_drive_bars`, the loop that feeds a tape of bars to the strategy
-- and to the fill engine. The strategy is generated or user code, so it is a parameter: a function
-- of its state and of what the loop hands it. All keyword values are computed, as for a strategy
-- that takes `**kwargs`.
pub mod Daily
pub mod Invariant
pub mod Window
pub mod Warmup
use power_bridge.Base.{
  ℕ, ◌+◌, ◌-◌, Bool, true, false, not, ◌&&◌, ◌||◌, Option, none, some, List, [], ◌∷◌, ◌++◌, ltb,
  leb, ◌==◌, if◌then◌else◌, ℤ, pos, negsuc,
}
use power_bridge.Float.{Float}
use power_bridge.Engine.State.{Order, RiskUpdate, FillEngine, is_flat}
use power_bridge.Engine.Stops.{Bar, close_at_stop}
use power_bridge.Engine.Outcomes.{Outcome, done, ◌>>=◌, unverified}
use power_bridge.Engine.Orders.{execute_onclose_pending}
use power_bridge.Engine.Bar.{is_set, before_bar, after_bar}
use power_bridge.BarLoop.Daily.{Tick, DailyOhlc, no_daily, daily_update, session_last_bar}

-- `_validate_window`: the two counts, or a ValueError.
unfoldable pub validate_window : ℤ → ℤ → ℕ → Option (ℕ × ℕ)
validate_window (negsuc k) max_bars_back n_bars = none
validate_window (pos k) (negsuc m) n_bars = none
validate_window (pos k) (pos m) n_bars = if ltb n_bars k then none else some (k, m)

-- The settings of a run. `strict` stops at the first exception of the strategy; `strict_exits` is the
-- engine's setting for exits of a named entry.
pub record Settings : Type 0 where
  pub trade_from : ℕ
  pub max_bars_back : ℕ
  pub warmup : ℕ
  pub strict : Bool
  pub strict_exits : Bool
  pub session_end_tm : Option ℕ

-- What the strategy is called with: the history up to and with the bar, the values of the bar, and
-- the engine whose attributes the position words read.
pub record Call (W : Type 0) : Type 0 where
  pub history : List (Tick W)
  pub daily : DailyOhlc W
  pub barnumber : ℕ
  pub session_last : Bool
  pub first_bar : Bool
  pub engine : FillEngine W

-- What it does: orders and risk settings, or an exception, which may be that of an unimplemented
-- builtin.
pub data Answer (W : Type 0) : Type 0 where
  answered : List (Option (Order W)) → RiskUpdate W → Answer W
  threw : Bool → Answer W

-- The variables of the loop. `rows` holds the bars emitted, as tape index and bar number; `raised`
-- says that an exception has ended the run.
pub record Loop (W S : Type 0) : Type 0 where
  pub engine : FillEngine W
  pub state : S
  pub history : List (Tick W)
  pub barnumber : ℕ
  pub first_bar : Bool
  pub prev_exit : Option (W × ℕ × ℕ)
  pub prev_date : Option ℕ
  pub daily : DailyOhlc W
  pub throw_count : ℕ
  pub strategy_calls : ℕ
  pub rows : List (ℕ × ℕ)
  pub raised : Bool

abbrev pub is_new_day : Option ℕ → ℕ → Bool
is_new_day none date = false
is_new_day (some d) date = not (date == d)

module _ {W : Type 0} ⦃fl : Float W⦄ where
  -- `_exit_on_close`
  unfoldable pub exit_on_close : Bool → W → ℕ → ℕ → ℕ → FillEngine W → Outcome (FillEngine W)
  exit_on_close strict prev_close barnumber prev_dt prev_tm e =
      execute_onclose_pending strict e >>= λ e'. done (
        if is_flat (e'.position).market_position
        then e'
        else close_at_stop prev_close "End of Day Exit"
            (record {
              bar = barnumber - 1;
              date = prev_dt;
              time = prev_tm;
              name = "End of Day Exit";
              cat = 4;
            })
            prev_dt prev_tm e')

  -- The test in front of it.
  unfoldable pub session_close :
      Bool → Bool → ℕ → Option (W × ℕ × ℕ) → FillEngine W → Outcome (FillEngine W)
  session_close strict due barnumber none e = done e
  session_close strict due barnumber (some (price, dt, tm)) e =
      if due && is_set (e.risk).exit_on_close
      then exit_on_close strict price barnumber dt tm e
      else done e

  abbrev pub as_bar : ℕ → Tick W → Bar W
  as_bar number t = record {
    open_price = t.open_price;
    high = t.high;
    low = t.low;
    close_price = t.close_price;
    number = number;
    date = t.date;
    time = t.time;
  }

  -- `_init_history`: the seven lists in step, as one list of bars. They are the lists of the caller, or
  -- one leading 0 each.
  abbrev pub init_history : Option (List (Tick W)) → List (Tick W)
  init_history (some bars) = bars
  init_history none =
      record {
        open_price = fl.nought;
        high = fl.nought;
        low = fl.nought;
        close_price = fl.nought;
        volume = fl.nought;
        date = 0;
        time = 0;
      }
      ∷ []

  module _ {S : Type 0} (weekday : ℕ → ℕ) (strategy : S → Call W → S × Answer W)
      (set : Settings) where
    -- The variables before the first bar.
    abbrev pub start : Option (List (Tick W)) → S → FillEngine W → Loop W S
    start init_hist s e = record {
      engine = e;
      state = s;
      history = init_history init_hist;
      barnumber = 0;
      first_bar = true;
      prev_exit = none;
      prev_date = none;
      daily = no_daily;
      throw_count = 0;
      strategy_calls = 0;
      rows = [];
      raised = false;
    }

    abbrev pub is_history_only : ℕ → Bool
    is_history_only i = ltb i set.max_bars_back

    abbrev pub is_trading : ℕ → Bool
    is_trading i = leb set.trade_from i && not (is_history_only i)

    -- `i >= trade_from - 1`
    abbrev pub is_queueing : ℕ → Bool
    is_queueing i = leb set.trade_from (i + 1)

    -- The top of the body: bar number, history, daily prices.
    unfoldable pub take_in : ℕ → Tick W → Loop W S → Loop W S
    take_in i t l = record l {
      barnumber = if is_history_only i then l.barnumber else l.barnumber + 1;
      history = l.history ++ (t ∷ []);
      daily = daily_update weekday l.prev_date t l.daily;
      prev_date = some t.date;
    }

    -- The fills of a bar: exit on close for the day before, then `before_bar`.
    unfoldable pub fills_of : ℕ → Tick W → ℕ → Loop W S → Outcome (FillEngine W)
    fills_of i t number l =
        let trading = is_trading i in
        session_close set.strict_exits (trading && is_new_day l.prev_date t.date) number l.prev_exit
          l.engine
        >>= λ e. if trading then before_bar set.strict_exits (as_bar number t) e else done e

    -- What follows the strategy's call.
    unfoldable pub take_answer : ℕ → Tick W → S × Answer W → Loop W S → Loop W S
    take_answer i t (s, answered orders risk) l = record l {
      state = s;
      engine =
          if is_queueing i
          then after_bar orders risk t.close_price l.barnumber t.date t.time l.engine
          else l.engine;
      prev_exit = some (t.close_price, t.date, t.time);
    }
    take_answer i t (s, threw unimplemented) l = record l {
      state = s;
      throw_count = l.throw_count + 1;
      raised = set.strict || unimplemented;
    }

    -- `emit_row`, past the warm-up, and the end of the body.
    unfoldable pub emit : ℕ → Loop W S → Loop W S
    emit i l = if l.raised then l else record l {
      first_bar = false;
      rows =
          if ltb i set.trade_from || (ltb 0 set.warmup && ltb i set.warmup)
          then l.rows
          else l.rows ++ ((i, l.barnumber) ∷ []);
    }

    -- The call of the strategy.
    unfoldable pub call : ℕ → Option ℕ → Tick W → Loop W S → Loop W S
    call i next_date t l =
        let answer = strategy l.state (record {
          history = l.history;
          daily = l.daily;
          barnumber = l.barnumber;
          session_last = session_last_bar next_date t.date t.time set.session_end_tm;
          first_bar = l.first_bar;
          engine = l.engine;
        }) in
        emit i (take_answer i t answer (record l { strategy_calls = l.strategy_calls + 1 }))

    -- One round of `_drive_bars`, at a tape index.
    unfoldable pub drive_bar : ℕ → Option ℕ → Tick W → Loop W S → Outcome (Loop W S)
    drive_bar i next_date t l =
        let l' = take_in i t l in
        fills_of i t l'.barnumber l >>= λ e. done (
          if is_history_only i
          then record l' { engine = e }
          else call i next_date t (record l' { engine = e }))

    abbrev pub head_date : List (Tick W) → Option ℕ
    head_date [] = none
    head_date (t ∷ ts) = some t.date

    -- The rest of the run, unless an exception has ended it.
    abbrev pub unless_raised : Loop W S → Outcome (Loop W S) → Outcome (Loop W S)
    unless_raised l rest = if l.raised then done l else rest

    -- `_drive_bars`, from a tape index on.
    unfoldable pub drive_bars : ℕ → List (Tick W) → Loop W S → Outcome (Loop W S)
    drive_bars i [] l = done l
    drive_bars i (t ∷ ts) l =
        drive_bar i (head_date ts) t l >>= λ l'. unless_raised l' (drive_bars (i + 1) ts l')
