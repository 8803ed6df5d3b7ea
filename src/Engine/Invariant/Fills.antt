-- ===== src/Engine/Invariant/Fills.antt =====
-- A sound engine: its position is well formed, its trade list adds up to the position, and its
-- ledger is booked. Fills keep it sound (engine.py, `_fill`, `_record_fills`).
use power_bridge.Base.{ℕ, ◌≡◌, arith, Bool-cases, inl, inr, ltb, ◌-◌}
use Prim.Native.Nat.{min}
use power_bridge.Float.{Float}
use power_bridge.Engine.State.{
  Action, buy, sellshort, sell, buytocover, other, Account, FillEngine, is_long, is_short,
}
use power_bridge.Engine.Trades.{FillContext}
use power_bridge.Engine.Trades.Booked.{IsBooked, realise-IsBooked, record_closed_trade-IsBooked}
use power_bridge.Engine.Position.{
  open_or_add_long, open_or_add_short, close_long_fifo, close_short, fill, signed_position,
}
use power_bridge.Engine.Position.Shape.{IsConsistent}
use power_bridge.Engine.FillLog.Net.{net_fills}

module _ {W : Type 0} ⦃fl : Float W⦄ where
  pub record IsSound (e : FillEngine W) : Type 0 where
    pub shape : IsConsistent e.position
    pub logged : net_fills e.fills ≡ signed_position e.position
    pub booked : IsBooked 0 e.account

  IsBooked-weaken : (a : Account W) → IsBooked 1 a → IsBooked 0 a
  IsBooked-weaken a b = record { scanned = b.scanned; traded = omega (arith, b.traded) }

  open_or_add_long-IsBooked :
      (qty : ℕ) (price : W) (ctx : FillContext) (e : FillEngine W)
      → IsBooked 0 e.account
      → IsBooked 0 (open_or_add_long qty price ctx e).account
  unfolding open_or_add_long
  open_or_add_long-IsBooked qty price ctx e b = record { scanned = b.scanned; traded = b.traded }

  open_or_add_short-IsBooked :
      (qty : ℕ) (price : W) (ctx : FillContext) (e : FillEngine W)
      → IsBooked 0 e.account
      → IsBooked 0 (open_or_add_short qty price ctx e).account
  unfolding open_or_add_short
  open_or_add_short-IsBooked qty price ctx e b = record { scanned = b.scanned; traded = b.traded }

  close_long_fifo-IsBooked :
      (qty : ℕ) (price : W) (ctx : FillContext) (e : FillEngine W)
      → IsBooked 0 e.account
      → IsBooked 0 (close_long_fifo qty price ctx e).account
  unfolding close_long_fifo
  close_long_fifo-IsBooked qty price ctx e b =
      let left = (e.position).contracts - min qty (e.position).contracts in
      elim (Bool-cases (ltb 0 left)) [
        | inl some_left ↦ rw some_left (IsBooked-weaken _ (realise-IsBooked 0 _ e.account b))
        | inr none_left ↦
            rw none_left
              (record_closed_trade-IsBooked 0 _ _ _ _ _ _ _ (realise-IsBooked 0 _ e.account b))
      ]

  close_short-IsBooked :
      (price : W) (ctx : FillContext) (e : FillEngine W)
      → IsBooked 0 e.account
      → IsBooked 0 (close_short price ctx e).account
  unfolding close_short
  close_short-IsBooked price ctx e b =
      record_closed_trade-IsBooked 0 _ _ _ _ _ _ _ (realise-IsBooked 0 _ e.account b)

  pub fill-IsBooked :
      (a : Action) (qty : ℕ) (price : W) (ctx : FillContext) (e : FillEngine W)
      → IsBooked 0 e.account
      → IsBooked 0 (fill a qty price ctx e).account
  unfolding fill
  fill-IsBooked buy qty price ctx e b = elim (Bool-cases (is_short (e.position).market_position)) [
    | inl t ↦ rw t (open_or_add_long-IsBooked qty price ctx _ (close_short-IsBooked price ctx e b))
    | inr t ↦ rw t (open_or_add_long-IsBooked qty price ctx e b)
  ]
  fill-IsBooked sellshort qty price ctx e b =
      elim (Bool-cases (is_long (e.position).market_position)) [
        | inl t ↦
            rw t (
              open_or_add_short-IsBooked qty price ctx _ (close_long_fifo-IsBooked _ price ctx e b))
        | inr t ↦ rw t (open_or_add_short-IsBooked qty price ctx e b)
      ]
  fill-IsBooked sell qty price ctx e b = elim (Bool-cases (is_long (e.position).market_position)) [
    | inl t ↦ rw t (close_long_fifo-IsBooked qty price ctx e b)
    | inr t ↦ rw t b
  ]
  fill-IsBooked buytocover qty price ctx e b =
      elim (Bool-cases (is_short (e.position).market_position)) [
        | inl t ↦ rw t (close_short-IsBooked price ctx e b)
        | inr t ↦ rw t b
      ]
  fill-IsBooked other qty price ctx e b = b
