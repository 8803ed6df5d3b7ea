-- ===== src/Engine/Invariant/Exits.antt =====
-- An exit at a stop keeps the engine sound (_engine_stops.py `_close_at_stop`).
use power_bridge.Base.{
  ℕ, ◌≡◌, refl, ap, ◌∙◌, Bool, true, false, not, String, arith, Bool-cases, inl, inr, ℤ, pos, ◌-ℤ◌,
  ◌≤ℤ◌, length, length-append, length-replicate, abs_ℤ, ◌+◌,
}
use power_bridge.Float.{Float}
use power_bridge.Engine.State.{
  FillEngine, MarketPosition, flat, long, short, is_flat, is_long, new_engine,
}
use power_bridge.Engine.Trades.{FillContext, record_closed_trade}
use power_bridge.Engine.Position.{signed_position, signed_contracts, reset_flat}
use power_bridge.Engine.Position.Shape.{IsConsistent}
use power_bridge.Engine.Trades.Rescan.{rescan}
use power_bridge.Engine.Trades.Booked.{
  realise_keeps, IsBooked, realise-IsBooked, record_closed_trade-IsBooked,
}
use power_bridge.Engine.FillLog.{record_fills}
use power_bridge.Engine.FillLog.Net.{net_fills}
use power_bridge.Engine.Stops.{flatten_at, close_at_stop}
use power_bridge.Engine.Invariant.Steps.{record_fills-IsSound}
use power_bridge.Engine.Invariant.Fills.{IsSound}

short_below :
    (m : MarketPosition) (n : ℕ)
    → is_flat m ≡ false
    → not (is_long m) ≡ true
    → signed_contracts m n ≤ℤ pos 0
short_below flat n h e = omega arith
short_below long n h e = cc
short_below short n h e = ground arith

long_above :
    (m : MarketPosition) (n : ℕ)
    → is_flat m ≡ false
    → not (is_long m) ≡ false
    → pos 0 ≤ℤ signed_contracts m n
long_above flat n h e = omega arith
long_above long n h e = omega arith
long_above short n h e = cc

abs-minus : (a : ℤ) → abs_ℤ (pos 0 -ℤ a) ≡ abs_ℤ a
unfolding ◌-ℤ◌
abs-minus a = ground arith

module _ {W : Type 0} ⦃fl : Float W⦄ where
  flatten_at-IsBooked :
      (price : W) (ctx : FillContext) (e : FillEngine W)
      → IsBooked 0 e.account
      → IsBooked 0 (flatten_at price ctx e).account
  unfolding flatten_at
  flatten_at-IsBooked price ctx e b =
      let closed =
        record_closed_trade-IsBooked 0 _ _ _ _ _ ctx _ (realise-IsBooked 0 _ e.account b) in
      record { scanned = closed.scanned; traded = closed.traded }

  flatten_at-flat :
      (price : W) (ctx : FillContext) (e : FillEngine W)
      → IsConsistent (flatten_at price ctx e).position
        × (signed_position (flatten_at price ctx e).position ≡ pos 0)
        × ((flatten_at price ctx e).fills ≡ e.fills)
  unfolding flatten_at
  flatten_at-flat price ctx e = ((refl, refl), refl, refl)

  -- The body of `close_at_stop` past its guard.
  exit-IsSound :
      (price : W) (signal : String) (ctx : FillContext) (date time : ℕ) (e : FillEngine W)
      → IsSound e
      → is_flat (e.position).market_position ≡ false
      → IsSound (
          record_fills
            (not (is_long (e.position).market_position))
            signal
            date
            time
            price
            (signed_position e.position)
            0
            (flatten_at price ctx e))
  exit-IsSound price signal ctx date time e s held =
      let (shape, zero_now, same) = flatten_at-flat price ctx e in
      record_fills-IsSound _ signal date time price (signed_position e.position) 0
        (flatten_at price ctx e) shape (flatten_at-IsBooked price ctx e s.booked)
        (ap net_fills same ∙ s.logged)
        (λ b. rw zero_now (short_below (e.position).market_position _ held b))
        (λ b. rw zero_now (long_above (e.position).market_position _ held b))

  pub close_at_stop-IsSound :
      (price : W) (signal : String) (ctx : FillContext) (date time : ℕ) (e : FillEngine W)
      → IsSound e
      → IsSound (close_at_stop price signal ctx date time e)
  unfolding close_at_stop
  close_at_stop-IsSound price signal ctx date time e s =
      elim (Bool-cases (is_flat (e.position).market_position)) [
        | inl nothing ↦ rw nothing s
        | inr held ↦ rw held (exit-IsSound price signal ctx date time e s held)
      ]

  -- What an exit at a stop makes of an engine that holds a position.
  pub record IsExited (e e' : FillEngine W) : Type 0 where
    pub sound : IsSound e'
    pub now_flat : is_flat (e'.position).market_position ≡ true
    pub net_zero : net_fills e'.fills ≡ pos 0
    pub logged : length e'.fills ≡ length e.fills + abs_ℤ (signed_position e.position)
    pub one_trade : length (e'.account).closed_trades ≡ length (e.account).closed_trades + 1
    pub counted : (e'.account).total_trades ≡ (e.account).total_trades + 1

  flatten_at-books :
      (price : W) (ctx : FillContext) (e : FillEngine W)
      → (length (flatten_at price ctx e).account.closed_trades
          ≡ length (e.account).closed_trades + 1)
        × ((flatten_at price ctx e).account.total_trades ≡ (e.account).total_trades + 1)
  unfolding flatten_at record_closed_trade
  flatten_at-books price ctx e =
      let (ledger, stats, total) = realise_keeps _ e.account in
      (rw ledger (length-append (e.account).closed_trades _), total)

  length-record_fills :
      (buy_side : Bool) (signal : String) (date time : ℕ) (price : W) (prev : ℤ) (v1 : ℕ)
      (e : FillEngine W)
      → length (record_fills buy_side signal date time price prev v1 e).fills
        ≡ length e.fills + abs_ℤ (signed_position e.position -ℤ prev)
  unfolding record_fills
  length-record_fills buy_side signal date time price prev v1 e =
      length-append e.fills _ ∙ ap (λ n. length e.fills + n) (length-replicate _ _)

  -- A stop on an open position leaves a sound engine flat and sound: the log gains one record for each
  -- contract held and adds up to 0, one trade is closed, and `total_trades` is raised by 1.
  pub close_at_stop-IsExited :
      (price : W) (signal : String) (ctx : FillContext) (date time : ℕ) (e : FillEngine W)
      → IsSound e
      → is_flat (e.position).market_position ≡ false
      → IsExited e (close_at_stop price signal ctx date time e)
  unfolding close_at_stop reset_flat flatten_at record_fills
  close_at_stop-IsExited price signal ctx date time e s held =
      let out = flatten_at price ctx e in
      let (shape, zero_now, same) = flatten_at-flat price ctx e in
      let (one, counted) = flatten_at-books price ctx e in
      let sound = exit-IsSound price signal ctx date time e s held in
      let logged =
        length-record_fills (not (is_long (e.position).market_position)) signal date time price
          (signed_position e.position) 0 out in
      rw held (record {
        sound = sound;
        now_flat = refl;
        net_zero = sound.logged ∙ zero_now;
        logged = logged ∙ ap (λ n. length e.fills + n) (abs-minus (signed_position e.position));
        one_trade = one;
        counted = counted;
      })

  -- A new engine is sound.
  pub new_engine-IsSound :
      (point_value tick : W) (cap : ℕ) → IsSound (new_engine point_value tick cap)
  unfolding rescan
  new_engine-IsSound point_value tick cap = record {
    shape = (refl, refl);
    logged = refl;
    booked = record { scanned = refl; traded = omega arith };
  }
