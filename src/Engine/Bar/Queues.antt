-- ===== src/Engine/Bar/Queues.antt =====
-- The queues of orders over a bar: `after_bar` fills them, and what follows a bar's fills leaves them
-- alone (engine.py).
use power_bridge.Base.{
  ℕ, not, ◌&&◌, ◌||◌, String, Option, none, some, List, [], ◌∷◌, Bool-cases, inl, inr, ltb, ◌==◌,
  ◌≡◌, refl, ap, ◌∙◌, map, filterb, ◌++◌,
}
use power_bridge.Float.{Float}
use power_bridge.Engine.State.{Order, OnClose, RiskUpdate, Position, FillEngine, is_flat}
use power_bridge.Engine.Stops.{
  Bar, close_at_stop, flatten_at, apply_stop, triggered, check_money_management_stops,
}
use power_bridge.Engine.Bar.{
  compute_pnl, update_excursion, count_bars_since_entry, update_drawdown, mark_bar, after_bar,
  is_on_close, filter_some, queue_orders,
}
use power_bridge.Engine.Trades.{FillContext}
use power_bridge.Engine.FillLog.{record_fills}

module _ {W : Type 0} ⦃fl : Float W⦄ where
  open fl use {f32}

  -- The two queues of an engine.
  abbrev pub queues : FillEngine W → List (Order W) × List (OnClose W)
  queues e = (e.pending_orders, e.onclose_pending)

  pub close_at_stop-queues :
      (price : W) (signal : String) (ctx : FillContext) (date time : ℕ) (e : FillEngine W)
      → queues (close_at_stop price signal ctx date time e) ≡ queues e
  unfolding close_at_stop flatten_at record_fills
  close_at_stop-queues price signal ctx date time e =
      elim (Bool-cases (is_flat (e.position).market_position)) [
        | inl nothing ↦ rw nothing
        | inr held ↦ rw held
      ]

  pub check_money_management_stops-queues :
      (b : Bar W) (e : FillEngine W) → queues (check_money_management_stops b e) ≡ queues e
  unfolding check_money_management_stops
  check_money_management_stops-queues b e =
      elim (Bool-cases (is_flat (e.position).market_position || (e.position).entry_bar == 0)) [
        | inl nothing ↦ rw nothing
        | inr held ↦ rw held (applied _ (triggered b e))
      ]
    where
      applied :
          (p : Position W) (t : Option (W × String))
          → queues (apply_stop b e (record e { position = p }) t) ≡ queues e
      applied p none = refl
      applied p (some (price, reason)) = close_at_stop-queues price reason _ b.date b.time e

  update_excursion-queues :
      (high low : W) (e : FillEngine W) → queues (update_excursion high low e) ≡ queues e
  unfolding update_excursion
  update_excursion-queues high low e =
      let p = e.position in
      elim (Bool-cases (is_flat p.market_position || p.contracts == 0)) [
        | inl nothing ↦ rw nothing
        | inr held ↦ rw held
      ]

  count_bars_since_entry-queues :
      (n : ℕ) (e : FillEngine W) → queues (count_bars_since_entry n e) ≡ queues e
  unfolding count_bars_since_entry
  count_bars_since_entry-queues n e =
      let p = e.position in
      elim (Bool-cases (not (is_flat p.market_position) && ltb 0 p.entry_bar)) [
        | inl held ↦ rw held
        | inr nothing ↦ rw nothing
      ]

  pub mark_bar-queues : (b : Bar W) (e : FillEngine W) → queues (mark_bar b e) ≡ queues e
  unfolding mark_bar update_drawdown compute_pnl
  mark_bar-queues b e =
      count_bars_since_entry-queues b.number _
      ∙ update_excursion-queues b.high b.low (compute_pnl b.close_price e)

  -- An order on close with the price, bar number, date and time of its signal.
  abbrev pub stamped : W → ℕ → ℕ → ℕ → Order W → OnClose W
  stamped price bar date time o = record {
    order = o;
    price = price;
    bar = bar;
    date = date;
    time = time;
  }

  -- The valid orders on one side of the test of `after_bar`.
  abbrev pub next_orders : List (Option (Order W)) → List (Order W)
  next_orders orders = filterb (λ o. not (is_on_close o)) (filter_some orders)

  abbrev pub close_orders : List (Option (Order W)) → List (Order W)
  close_orders orders = filterb is_on_close (filter_some orders)

  queue_orders-splits :
      (price : W) (bar date time : ℕ) (os : List (Order W))
      → (let queued = queue_orders price bar date time os in
          (queued.0 ≡ filterb (λ o. not (is_on_close o)) os)
          × (queued.1 ≡ map (stamped price bar date time) (filterb is_on_close os)))
  unfolding queue_orders
  queue_orders-splits price bar date time [] = (refl, refl)
  queue_orders-splits price bar date time (o ∷ os) =
      let (pending, onclose) = queue_orders-splits price bar date time os in
      elim (Bool-cases (is_on_close o)) [
        | inl closes ↦ simp closes (pending, ap (stamped price bar date time o ∷◌) onclose)
        | inr waits ↦ simp waits (ap (o ∷◌) pending, onclose)
      ]

  -- After `after_bar` the pending orders are the valid orders of the strategy that are not for this bar's
  -- close, in their order, in place of the old ones; its orders for this bar's close stand in their
  -- order behind the orders on close that still wait, each with the narrowed close, the bar number, the
  -- date and the time of the call.
  pub after_bar-queues :
      (orders : List (Option (Order W))) (risk : RiskUpdate W) (price : W) (bar date time : ℕ)
      (e : FillEngine W)
      → (let e' = after_bar orders risk price bar date time e in
          (e'.pending_orders ≡ next_orders orders)
          × (e'.onclose_pending
              ≡ e.onclose_pending ++ map (stamped (f32 price) bar date time) (close_orders orders)))
  unfolding after_bar compute_pnl
  after_bar-queues orders risk price bar date time e =
      let (pending, onclose) = queue_orders-splits (f32 price) bar date time (filter_some orders) in
      (pending, ap (λ q. e.onclose_pending ++ q) onclose)
