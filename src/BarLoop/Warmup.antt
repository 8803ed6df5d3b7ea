-- ===== src/BarLoop/Warmup.antt =====
-- Seeded warm-up (bar_loop.py, `trade_from`): before its window a run fills nothing and emits nothing.
use power_bridge.Base.{
  ℕ, ◌+◌, ◌≤◌, ◌<◌, ◌≡◌, refl, sym, ◌∙◌, Bool, true, false, ◌&&◌, ◌||◌, Option, none, some, List,
  [], ◌∷◌, ◌++◌, arith, Bool-cases, inl, inr, ltb, if◌then◌else◌, length,
}
use mathlib.Core.Path.{subst}
use power_bridge.Float.{Float}
use power_bridge.Engine.State.{Order, RiskUpdate, FillEngine}
use power_bridge.Engine.Outcomes.{Outcome, done, unverified, failed}
use power_bridge.Engine.Bar.{after_bar, compute_pnl}
use power_bridge.Engine.Invariant.{Returns, Returns-bind}
use power_bridge.BarLoop.{
  Settings, Call, Answer, answered, threw, Loop, session_close, is_history_only, is_trading,
  is_queueing, take_in, fills_of, take_answer, emit, call, drive_bar, head_date, unless_raised,
  drive_bars,
}
use power_bridge.BarLoop.Daily.{Tick, session_last_bar}

module _ {W : Type 0} ⦃fl : Float W⦄ where
  -- Nothing of the position, of the trade lists or of the ledger differs.
  pub record IsUnfilled (e e' : FillEngine W) : Type 0 where
    pub position_same : e'.position ≡ e.position
    pub fills_same : e'.fills ≡ e.fills
    pub fills_v1_same : e'.fills_v1 ≡ e.fills_v1
    pub ledger_same : (e'.account).closed_trades ≡ (e.account).closed_trades
    pub profit_same : (e'.account).net_profit ≡ (e.account).net_profit

  IsUnfilled-refl : (e : FillEngine W) → IsUnfilled e e
  IsUnfilled-refl e = record {
    position_same = refl;
    fills_same = refl;
    fills_v1_same = refl;
    ledger_same = refl;
    profit_same = refl;
  }

  IsUnfilled-trans : (a b c : FillEngine W) → IsUnfilled a b → IsUnfilled b c → IsUnfilled a c
  IsUnfilled-trans a b c p q = record {
    position_same = q.position_same ∙ p.position_same;
    fills_same = q.fills_same ∙ p.fills_same;
    fills_v1_same = q.fills_v1_same ∙ p.fills_v1_same;
    ledger_same = q.ledger_same ∙ p.ledger_same;
    profit_same = q.profit_same ∙ p.profit_same;
  }

  after_bar-IsUnfilled :
      (orders : List (Option (Order W))) (risk : RiskUpdate W) (price : W) (bar date time : ℕ)
      (e : FillEngine W)
      → IsUnfilled e (after_bar orders risk price bar date time e)
  unfolding after_bar compute_pnl
  after_bar-IsUnfilled orders risk price bar date time e = record {
    position_same = refl;
    fills_same = refl;
    fills_v1_same = refl;
    ledger_same = refl;
    profit_same = refl;
  }

  module _ {S : Type 0} (weekday : ℕ → ℕ) (strategy : S → Call W → S × Answer W)
      (set : Settings) where
    -- What a stretch of warm-up leaves.
    pub record IsWarm (l l' : Loop W S) : Type 0 where
      pub unfilled : IsUnfilled l.engine l'.engine
      pub rows_same : l'.rows ≡ l.rows

    take_answer-IsWarm :
        (i : ℕ) (t : Tick W) (a : S × Answer W) (l : Loop W S)
        → IsWarm l (take_answer weekday strategy set i t a l)
    unfolding take_answer
    take_answer-IsWarm i t (s, answered orders risk) l = record {
      unfilled = go (is_queueing weekday strategy set i);
      rows_same = refl;
    }
      where
        go :
            (b : Bool)
            → IsUnfilled l.engine (
                if b
                then after_bar orders risk t.close_price l.barnumber t.date t.time l.engine
                else l.engine)
        go true = after_bar-IsUnfilled orders risk t.close_price l.barnumber t.date t.time l.engine
        go false = IsUnfilled-refl l.engine
    take_answer-IsWarm i t (s, threw unimplemented) l = record {
      unfilled = IsUnfilled-refl l.engine;
      rows_same = refl;
    }

    emit_early :
        (i : ℕ) (l : Loop W S)
        → i < set.trade_from
        → (((emit weekday strategy set i l).engine) ≡ l.engine)
          × (((emit weekday strategy set i l).rows) ≡ l.rows)
    unfolding emit
    emit_early i l early = go l.raised
      where
        soon : ltb i set.trade_from ≡ true
        soon = ground arith

        after : Loop W S
        after = record l {
          first_bar = false;
          rows =
              if ltb i set.trade_from || (ltb 0 set.warmup && ltb i set.warmup)
              then l.rows
              else l.rows ++ ((i, l.barnumber) ∷ []);
        }

        go :
            (b : Bool)
            → ((if b then l else after).engine ≡ l.engine)
              × ((if b then l else after).rows ≡ l.rows)
        go true = (refl, refl)
        go false = (refl, rw soon refl)

    not_trading : (i : ℕ) → i < set.trade_from → is_trading weekday strategy set i ≡ false
    not_trading i early = ground arith

    fills_early :
        (i : ℕ) (t : Tick W) (number : ℕ) (l : Loop W S)
        → i < set.trade_from
        → fills_of weekday strategy set i t number l ≡ done l.engine
    unfolding fills_of session_close
    fills_early i t number l early = rw (not_trading i early) (rw (closed l.prev_exit) refl)
      where
        closed :
            (prev : Option (W × ℕ × ℕ))
            → session_close set.strict_exits false number prev l.engine ≡ done l.engine
        closed none = refl
        closed (some (price, dt, tm)) = refl

    call-IsWarm :
        (i : ℕ) (next : Option ℕ) (t : Tick W) (l : Loop W S)
        → i < set.trade_from
        → IsWarm l (call weekday strategy set i next t l)
    unfolding call
    call-IsWarm i next t l early =
        let answer = strategy l.state (record {
          history = l.history;
          daily = l.daily;
          barnumber = l.barnumber;
          session_last = session_last_bar next t.date t.time set.session_end_tm;
          first_bar = l.first_bar;
          engine = l.engine;
        }) in
        let l' : Loop W S = record l { strategy_calls = l.strategy_calls + 1 } in
        let taken = take_answer-IsWarm i t answer l' in
        let (same_engine, same_rows) =
          emit_early i (take_answer weekday strategy set i t answer l') early in
        record {
          unfilled = subst (IsUnfilled l.engine) (sym same_engine) taken.unfilled;
          rows_same = same_rows ∙ taken.rows_same;
        }

    drive_bar-IsWarm :
        (i : ℕ) (next : Option ℕ) (t : Tick W) (l : Loop W S)
        → i < set.trade_from
        → Returns (IsWarm l) (drive_bar weekday strategy set i next t l)
    unfolding drive_bar take_in
    drive_bar-IsWarm i next t l early =
        rw
          (fills_early i t
            (if is_history_only weekday strategy set i then l.barnumber else l.barnumber + 1) l
            early)
          (elim (Bool-cases (is_history_only weekday strategy set i)) [
            | inl history ↦
                rw history (record { unfilled = IsUnfilled-refl l.engine; rows_same = refl })
            | inr plays ↦ rw plays (
                let w = call-IsWarm i next t _ early in
                record { unfilled = w.unfilled; rows_same = w.rows_same })
          ])

    unless-IsWarm :
        (l₀ l : Loop W S) (rest : Outcome (Loop W S))
        → IsWarm l₀ l
        → Returns (IsWarm l) rest
        → Returns (IsWarm l₀) (unless_raised weekday strategy set l rest)
    unless-IsWarm l₀ l rest w next = go l.raised rest next
      where
        go :
            (b : Bool) (m : Outcome (Loop W S))
            → Returns (IsWarm l) m
            → Returns (IsWarm l₀) (if b then done l else m)
        go true m k = w
        go false (unverified v n) k = elim k [ ]
        go false (failed x) k = elim k [ ]
        go false (done l') k = record {
          unfilled = IsUnfilled-trans _ _ _ w.unfilled k.unfilled;
          rows_same = k.rows_same ∙ w.rows_same;
        }

    -- A stretch of the tape that ends before `trade_from` is not stopped by an unverified exit or a size;
    -- it leaves the position, both trade lists, the closed trades and the net profit as they were, and
    -- emits no row.
    pub drive_bars-IsWarm :
        (i : ℕ) (ts : List (Tick W)) (l : Loop W S)
        → i + length ts ≤ set.trade_from
        → Returns (IsWarm l) (drive_bars weekday strategy set i ts l)
    unfolding drive_bars
    drive_bars-IsWarm i [] l h = record { unfilled = IsUnfilled-refl l.engine; rows_same = refl }
    drive_bars-IsWarm i (t ∷ ts) l h =
        Returns-bind (IsWarm l) (IsWarm l) _ _
          (drive_bar-IsWarm i (head_date weekday strategy set ts) t l (omega arith))
          (λ l' w. unless-IsWarm l l' _ w (drive_bars-IsWarm (i + 1) ts l' (omega arith)))
