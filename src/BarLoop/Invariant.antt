-- ===== src/BarLoop/Invariant.antt =====
-- What a whole run keeps of the engine (bar_loop.py, `_drive_bars`).
use power_bridge.Base.{
  ℕ, ◌+◌, ◌-◌, ◌≡◌, refl, Bool, true, false, ◌&&◌, ◌||◌, Option, none, some, List, [], ◌∷◌, All,
  Bool-cases, inl, inr, ltb, String, ◌++◌, if◌then◌else◌,
}
use power_bridge.Float.{Float}
use power_bridge.Engine.State.{Order, RiskUpdate, FillEngine, is_flat}
use power_bridge.Engine.Trades.{FillContext}
use power_bridge.Engine.Position.{reset_flat}
use power_bridge.Engine.FillLog.{record_fills}
use power_bridge.Engine.Stops.{Bar, flatten_at, close_at_stop}
use power_bridge.Engine.Outcomes.{Outcome, done, unverified, failed, ◌>>=◌}
use power_bridge.Engine.Orders.{execute_onclose_pending}
use power_bridge.Engine.Bar.{filter_some, is_set, before_bar, after_bar}
use power_bridge.Engine.Bar.Queues.{close_at_stop-queues}
use power_bridge.Engine.Bar.Ready.{before_bar-IsReady, after_bar-IsReady, IsReady-same}
use power_bridge.Engine.Invariant.{
  IsReady, IsSized, Ensures, Yields, Yields-bind, execute_onclose_pending-IsReady,
  close_at_stop-IsSound,
}
use power_bridge.BarLoop.{
  Settings, Call, Answer, answered, threw, Loop, exit_on_close, session_close, as_bar,
  is_history_only, is_trading, is_queueing, fills_of, take_answer, emit, call, drive_bar, head_date,
  unless_raised, drive_bars,
}
use power_bridge.BarLoop.Daily.{Tick}

-- The valid orders of an answer.
abbrev pub orders_of : {W : Type 0} → Answer W → List (Order W)
orders_of (answered orders risk) = filter_some orders
orders_of (threw unimplemented) = []

module _ {W : Type 0} ⦃fl : Float W⦄ (P : FillEngine W → Type 0) (R : List (Order W) → Type 0)
    (close_keeps : (strict : Bool) (price : W) (number dt tm : ℕ) (e : FillEngine W)
      → P e
      → Yields P (exit_on_close strict price number dt tm e))
    (before_keeps : (strict : Bool) (b : Bar W) (e : FillEngine W)
      → P e
      → Yields P (before_bar strict b e))
    (after_keeps : (orders : List (Option (Order W))) (risk : RiskUpdate W) (price : W)
        (bar date time : ℕ) (e : FillEngine W)
      → R (filter_some orders)
      → P e
      → P (after_bar orders risk price bar date time e)) where
  session_close_keeps :
      (strict due : Bool) (number : ℕ) (prev : Option (W × ℕ × ℕ)) (e : FillEngine W)
      → P e
      → Yields P (session_close strict due number prev e)
  unfolding session_close
  session_close_keeps strict due number none e p = p
  session_close_keeps strict due number (some (price, dt, tm)) e p =
      elim (Bool-cases (due && is_set (e.risk).exit_on_close)) [
        | inl closes ↦ rw closes (close_keeps strict price number dt tm e p)
        | inr stays ↦ rw stays p
      ]

  module _ {S : Type 0} (weekday : ℕ → ℕ) (strategy : S → Call W → S × Answer W)
      (allowed : (s : S) (c : Call W) → R (orders_of (strategy s c).1)) (set : Settings) where
    fills_keep :
        (i : ℕ) (t : Tick W) (number : ℕ) (l : Loop W S)
        → P l.engine
        → Yields P (fills_of weekday strategy set i t number l)
    unfolding fills_of
    fills_keep i t number l p =
        Yields-bind P P _ _ (session_close_keeps _ _ number l.prev_exit l.engine p) (λ e q.
          elim (Bool-cases (is_trading weekday strategy set i)) [
            | inl trades ↦ rw trades (before_keeps set.strict_exits (as_bar number t) e q)
            | inr waits ↦ rw waits q
          ])

    answer_keeps :
        (i : ℕ) (t : Tick W) (a : S × Answer W) (l : Loop W S)
        → R (orders_of a.1)
        → P l.engine
        → P (take_answer weekday strategy set i t a l).engine
    unfolding take_answer
    answer_keeps i t (s, answered orders risk) l ok p =
        elim (Bool-cases (is_queueing weekday strategy set i)) [
          | inl queues ↦ rw queues (after_keeps orders risk _ _ _ _ _ ok p)
          | inr waits ↦ rw waits p
        ]
    answer_keeps i t (s, threw unimplemented) l ok p = p

    emit_keeps : (i : ℕ) (l : Loop W S) → P l.engine → P (emit weekday strategy set i l).engine
    unfolding emit
    emit_keeps i l p = go l.raised
      where
        go :
            (b : Bool)
            → P (
                (if b then l else record l {
                  first_bar = false;
                  rows =
                      if ltb i set.trade_from || (ltb 0 set.warmup && ltb i set.warmup)
                      then l.rows
                      else l.rows ++ ((i, l.barnumber) ∷ []);
                }).engine)
        go true = p
        go false = p

    call_keeps :
        (i : ℕ) (next : Option ℕ) (t : Tick W) (l : Loop W S)
        → P l.engine
        → P (call weekday strategy set i next t l).engine
    unfolding call
    call_keeps i next t l p = emit_keeps i _ (answer_keeps i t _ _ (allowed _ _) p)

    drive_bar_keeps :
        (i : ℕ) (next : Option ℕ) (t : Tick W) (l : Loop W S)
        → P l.engine
        → Yields (λ l'. P l'.engine) (drive_bar weekday strategy set i next t l)
    unfolding drive_bar
    drive_bar_keeps i next t l p =
        Yields-bind P (λ l'. P l'.engine) _ _ (fills_keep i t _ l p)
          (λ e q. elim (Bool-cases (is_history_only weekday strategy set i)) [
            | inl history ↦ rw history q
            | inr plays ↦ rw plays (call_keeps i next t _ q)
          ])

    unless_keeps :
        (l : Loop W S) (rest : Outcome (Loop W S))
        → P l.engine
        → Yields (λ l'. P l'.engine) rest
        → Yields (λ l'. P l'.engine) (unless_raised weekday strategy set l rest)
    unless_keeps l rest p q = go l.raised
      where
        go : (b : Bool) → Yields (λ l'. P l'.engine) (if b then done l else rest)
        go true = p
        go false = q

    pub drive_bars_keep :
        (i : ℕ) (ts : List (Tick W)) (l : Loop W S)
        → P l.engine
        → Yields (λ l'. P l'.engine) (drive_bars weekday strategy set i ts l)
    unfolding drive_bars
    drive_bars_keep i [] l p = p
    drive_bars_keep i (t ∷ ts) l p =
        Yields-bind (λ l'. P l'.engine) (λ l'. P l'.engine) _ _
          (drive_bar_keeps i (head_date weekday strategy set ts) t l p)
          (λ l' q.
            unless_keeps l' (drive_bars weekday strategy set (i + 1) ts l') q
              (drive_bars_keep (i + 1) ts l' q))

module _ {W : Type 0} ⦃fl : Float W⦄ where
  exit_on_close-IsReady :
      (strict : Bool) (price : W) (number dt tm : ℕ) (e : FillEngine W)
      → IsReady e
      → Yields IsReady (exit_on_close strict price number dt tm e)
  unfolding exit_on_close
  exit_on_close-IsReady strict price number dt tm e r =
      Yields-bind IsReady IsReady (execute_onclose_pending strict e) _
        (execute_onclose_pending-IsReady strict e r)
        (λ e' q. elim (Bool-cases (is_flat (e'.position).market_position)) [
          | inl nothing ↦ rw nothing q
          | inr held ↦ rw held (
              IsReady-same e' _ (close_at_stop-queues price _ _ dt tm e') q
                (close_at_stop-IsSound price _ _ dt tm e' q.sound))
        ])

  -- For any strategy whose orders all have a size of 0 or one that `int()` makes at least 1, and any
  -- tape: a run fails on no size, and keeps a ready engine ready (sound, and with such sizes queued)
  -- unless an exit that cannot be verified stops it.
  pub drive_bars-IsReady :
      {S : Type 0} (weekday : ℕ → ℕ) (strategy : S → Call W → S × Answer W) (set : Settings) (i : ℕ)
      (ts : List (Tick W)) (l : Loop W S)
      → ((s : S) (c : Call W) → All IsSized (orders_of (strategy s c).1))
      → IsReady l.engine
      → Yields (λ l'. IsReady l'.engine) (drive_bars weekday strategy set i ts l)
  drive_bars-IsReady weekday strategy set i ts l sized =
      drive_bars_keep IsReady (All IsSized) exit_on_close-IsReady before_bar-IsReady
        after_bar-IsReady weekday strategy sized set i ts l

  close_at_stop-flat :
      (price : W) (signal : String) (ctx : FillContext) (date time : ℕ) (e : FillEngine W)
      → is_flat (e.position).market_position ≡ false
      → is_flat ((close_at_stop price signal ctx date time e).position).market_position ≡ true
  unfolding close_at_stop flatten_at record_fills reset_flat
  close_at_stop-flat price signal ctx date time e held = rw held refl

  -- An exit on close leaves no position open, whatever the orders queued for that close did first, unless
  -- an exit that cannot be verified or a size stops it.
  pub exit_on_close-flat :
      (strict : Bool) (price : W) (number dt tm : ℕ) (e : FillEngine W)
      → Ensures
          (λ e'. is_flat (e'.position).market_position ≡ true)
          (exit_on_close strict price number dt tm e)
  unfolding exit_on_close
  exit_on_close-flat strict price number dt tm e = flatten (execute_onclose_pending strict e)
    where
      flatten :
          (m : Outcome (FillEngine W))
          → Ensures
              (λ e'. is_flat (e'.position).market_position ≡ true)
              (m >>= λ e'. done (
                if is_flat (e'.position).market_position
                then e'
                else close_at_stop price "End of Day Exit"
                    (record {
                      bar = number - 1;
                      date = dt;
                      time = tm;
                      name = "End of Day Exit";
                      cat = 4;
                    })
                    dt
                    tm
                    e'))
      flatten (unverified a n) = tt
      flatten (failed x) = tt
      flatten (done e') = elim (Bool-cases (is_flat (e'.position).market_position)) [
        | inl nothing ↦ rw nothing nothing
        | inr held ↦ rw held (close_at_stop-flat price _ _ dt tm e' held)
      ]
