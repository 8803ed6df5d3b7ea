-- ===== src/Engine/Bar/Sound.antt =====
-- Whole bars keep the engine sound: `before_bar` and `after_bar` (engine.py).
use power_bridge.Base.{
  ℕ, not, ◌&&◌, ◌||◌, String, Option, none, some, List, [], ◌∷◌, Bool-cases, inl, inr, ltb, ◌==◌, ℤ,
}
use power_bridge.Float.{Float}
use power_bridge.Engine.State.{
  MarketPosition, flat, long, short, Order, RiskUpdate, Position, Account, FillEngine, is_flat,
}
use power_bridge.Engine.Trades.Booked.{IsBooked}
use power_bridge.Engine.Position.Shape.{Shape}
use power_bridge.Engine.Stops.{Bar, apply_stop, triggered, check_money_management_stops}
use power_bridge.Engine.Bar.{
  compute_pnl, update_excursion, count_bars_since_entry, fold_equities, update_drawdown, mark_bar,
  after_bar,
}
use power_bridge.Engine.Invariant.{IsSound, close_at_stop-IsSound}

module _ {W : Type 0} where
  -- The trackers of a position are no part of its shape.
  tracked : W → W → W → ℤ → Position W → Position W
  tracked mfe mae peak bars p = record p {
    mfe_pc = mfe;
    mae_pc = mae;
    peak_profit = peak;
    bars_since_entry = bars;
  }

  tracked-Shape :
      (m : MarketPosition) (mfe mae peak : W) (bars : ℤ) (p : Position W)
      → Shape m p
      → Shape m (tracked mfe mae peak bars p)
  unfolding tracked
  tracked-Shape flat mfe mae peak bars p c = c
  tracked-Shape long mfe mae peak bars p o = record {
    some_contracts = o.some_contracts;
    prices = o.prices;
    sizes = o.sizes;
    named = o.named;
    positive = o.positive;
    peak = o.peak;
    counted = o.counted;
  }
  tracked-Shape short mfe mae peak bars p o = record {
    some_contracts = o.some_contracts;
    prices = o.prices;
    sizes = o.sizes;
    named = o.named;
    positive = o.positive;
    peak = o.peak;
    counted = o.counted;
  }

module _ {W : Type 0} ⦃fl : Float W⦄ where
  tracked-IsSound :
      (mfe mae peak : W) (bars : ℤ) (e : FillEngine W)
      → IsSound e
      → IsSound (record e { position = tracked mfe mae peak bars e.position })
  unfolding tracked
  tracked-IsSound mfe mae peak bars e s = record {
    shape = tracked-Shape (e.position).market_position mfe mae peak bars e.position s.shape;
    logged = s.logged;
    booked = s.booked;
  }

  booked-IsSound :
      (a : Account W) (e : FillEngine W)
      → IsBooked 0 a
      → IsSound e
      → IsSound (record e { account = a })
  booked-IsSound a e b s = record { shape = s.shape; logged = s.logged; booked = b }

  pub check_money_management_stops-IsSound :
      (b : Bar W) (e : FillEngine W) → IsSound e → IsSound (check_money_management_stops b e)
  unfolding check_money_management_stops tracked
  check_money_management_stops-IsSound b e s =
      elim (Bool-cases (is_flat (e.position).market_position || (e.position).entry_bar == 0)) [
        | inl nothing ↦ rw nothing s
        | inr held ↦ rw held (apply_stop-IsSound _ (tracked-IsSound _ _ _ _ e s) (triggered b e))
      ]
    where
      apply_stop-IsSound :
          (carried : FillEngine W)
          → IsSound carried
          → (t : Option (W × String)) → IsSound (apply_stop b e carried t)
      apply_stop-IsSound carried c none = c
      apply_stop-IsSound carried c (some (price, reason)) =
          close_at_stop-IsSound price reason _ b.date b.time e s

  compute_pnl-IsSound : (price : W) (e : FillEngine W) → IsSound e → IsSound (compute_pnl price e)
  unfolding compute_pnl
  compute_pnl-IsSound price e s =
      booked-IsSound _ e (record { scanned = (s.booked).scanned; traded = (s.booked).traded }) s

  update_excursion-IsSound :
      (high low : W) (e : FillEngine W) → IsSound e → IsSound (update_excursion high low e)
  unfolding update_excursion tracked
  update_excursion-IsSound high low e s =
      let p = e.position in
      elim (Bool-cases (is_flat p.market_position || p.contracts == 0)) [
        | inl nothing ↦ rw nothing s
        | inr held ↦ rw held (tracked-IsSound _ _ _ _ e s)
      ]

  count_bars_since_entry-IsSound :
      (n : ℕ) (e : FillEngine W) → IsSound e → IsSound (count_bars_since_entry n e)
  unfolding count_bars_since_entry tracked
  count_bars_since_entry-IsSound n e s =
      let p = e.position in
      elim (Bool-cases (not (is_flat p.market_position) && ltb 0 p.entry_bar)) [
        | inl held ↦ rw held (tracked-IsSound _ _ _ _ e s)
        | inr nothing ↦ rw nothing s
      ]

  fold_equities-IsBooked :
      (eqs : List W) (a : Account W) → IsBooked 0 a → IsBooked 0 (fold_equities eqs a)
  unfolding fold_equities
  fold_equities-IsBooked [] a b = b
  fold_equities-IsBooked (eq ∷ eqs) a b =
      fold_equities-IsBooked eqs _ (record { scanned = b.scanned; traded = b.traded })

  pub mark_bar-IsSound : (b : Bar W) (e : FillEngine W) → IsSound e → IsSound (mark_bar b e)
  unfolding mark_bar update_drawdown
  mark_bar-IsSound b e s =
      let counted =
        count_bars_since_entry-IsSound b.number _
          (update_excursion-IsSound b.high b.low _ (compute_pnl-IsSound b.close_price e s)) in
      booked-IsSound _ _ (fold_equities-IsBooked _ _ counted.booked) counted

  pub after_bar-IsSound :
      (orders : List (Option (Order W))) (risk : RiskUpdate W) (price : W) (bar date time : ℕ)
      (e : FillEngine W)
      → IsSound e
      → IsSound (after_bar orders risk price bar date time e)
  unfolding after_bar
  after_bar-IsSound orders risk price bar date time e s =
      compute_pnl-IsSound price _ (record { shape = s.shape; logged = s.logged; booked = s.booked })
