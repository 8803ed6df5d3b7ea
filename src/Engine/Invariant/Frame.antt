-- ===== src/Engine/Invariant/Frame.antt =====
-- What a fill leaves alone: the logs, the queues, the risk settings and the instrument.
use Prim.Native.Nat.{min}
use power_bridge.Base.{ℕ, ◌-◌, ◌≡◌, refl, ◌∙◌, ltb, Bool-cases, inl, inr}
use power_bridge.Float.{Float}
use power_bridge.Engine.State.{
  Action, buy, sellshort, sell, buytocover, other, Position, Account, FillEngine, is_long, is_short,
}
use power_bridge.Engine.Trades.{FillContext}
use power_bridge.Engine.Position.{
  open_or_add_long, open_or_add_short, close_long_fifo, close_short, fill,
}

module _ {W : Type 0} where
  -- `e'` is `e` but for the position, the account and the count of skipped bars.
  pub record IsFrame (e e' : FillEngine W) : Type 0 where
    pub fills_same : e'.fills ≡ e.fills
    pub v1_same : e'.fills_v1 ≡ e.fills_v1
    pub pending_same : e'.pending_orders ≡ e.pending_orders
    pub onclose_same : e'.onclose_pending ≡ e.onclose_pending
    pub risk_same : e'.risk ≡ e.risk
    pub cap_same : e'.max_entries_per_direction ≡ e.max_entries_per_direction
    pub value_same : e'.point_value ≡ e.point_value
    pub tick_same : e'.tick ≡ e.tick

  pub IsFrame-refl : (e : FillEngine W) → IsFrame e e
  IsFrame-refl e = record {
    fills_same = refl;
    v1_same = refl;
    pending_same = refl;
    onclose_same = refl;
    risk_same = refl;
    cap_same = refl;
    value_same = refl;
    tick_same = refl;
  }

  pub IsFrame-trans : {e f g : FillEngine W} → IsFrame e f → IsFrame f g → IsFrame e g
  IsFrame-trans a b = record {
    fills_same = b.fills_same ∙ a.fills_same;
    v1_same = b.v1_same ∙ a.v1_same;
    pending_same = b.pending_same ∙ a.pending_same;
    onclose_same = b.onclose_same ∙ a.onclose_same;
    risk_same = b.risk_same ∙ a.risk_same;
    cap_same = b.cap_same ∙ a.cap_same;
    value_same = b.value_same ∙ a.value_same;
    tick_same = b.tick_same ∙ a.tick_same;
  }

  replaced-IsFrame :
      (e : FillEngine W) (p : Position W) (a : Account W)
      → IsFrame e (record e { position = p; account = a })
  replaced-IsFrame e p a = record {
    fills_same = refl;
    v1_same = refl;
    pending_same = refl;
    onclose_same = refl;
    risk_same = refl;
    cap_same = refl;
    value_same = refl;
    tick_same = refl;
  }

module _ {W : Type 0} ⦃fl : Float W⦄ where
  long-IsFrame :
      (qty : ℕ) (price : W) (ctx : FillContext) (e : FillEngine W)
      → IsFrame e (open_or_add_long qty price ctx e)
  unfolding open_or_add_long
  long-IsFrame qty price ctx e = replaced-IsFrame e _ _

  short-IsFrame :
      (qty : ℕ) (price : W) (ctx : FillContext) (e : FillEngine W)
      → IsFrame e (open_or_add_short qty price ctx e)
  unfolding open_or_add_short
  short-IsFrame qty price ctx e = replaced-IsFrame e _ _

  close_long-IsFrame :
      (qty : ℕ) (price : W) (ctx : FillContext) (e : FillEngine W)
      → IsFrame e (close_long_fifo qty price ctx e)
  unfolding close_long_fifo
  close_long-IsFrame qty price ctx e =
      elim (Bool-cases (ltb 0 ((e.position).contracts - min qty (e.position).contracts))) [
        | inl some_left ↦ rw some_left (replaced-IsFrame e _ _)
        | inr none_left ↦ rw none_left (replaced-IsFrame e _ _)
      ]

  close_short-IsFrame :
      (price : W) (ctx : FillContext) (e : FillEngine W) → IsFrame e (close_short price ctx e)
  unfolding close_short
  close_short-IsFrame price ctx e = replaced-IsFrame e _ _

  -- A fill changes only the position and the account.
  pub fill-IsFrame :
      (a : Action) (qty : ℕ) (price : W) (ctx : FillContext) (e : FillEngine W)
      → IsFrame e (fill a qty price ctx e)
  unfolding fill
  fill-IsFrame buy qty price ctx e = elim (Bool-cases (is_short (e.position).market_position)) [
    | inl t ↦ rw t (
        IsFrame-trans (close_short-IsFrame price ctx e)
          (long-IsFrame qty price ctx (close_short price ctx e)))
    | inr t ↦ rw t (long-IsFrame qty price ctx e)
  ]
  fill-IsFrame sellshort qty price ctx e =
      let all = (e.position).contracts in
      elim (Bool-cases (is_long (e.position).market_position)) [
        | inl t ↦ rw t (
            IsFrame-trans (close_long-IsFrame all price ctx e)
              (short-IsFrame qty price ctx (close_long_fifo all price ctx e)))
        | inr t ↦ rw t (short-IsFrame qty price ctx e)
      ]
  fill-IsFrame sell qty price ctx e = elim (Bool-cases (is_long (e.position).market_position)) [
    | inl t ↦ rw t (close_long-IsFrame qty price ctx e)
    | inr t ↦ rw t (IsFrame-refl e)
  ]
  fill-IsFrame buytocover qty price ctx e =
      elim (Bool-cases (is_short (e.position).market_position)) [
        | inl t ↦ rw t (close_short-IsFrame price ctx e)
        | inr t ↦ rw t (IsFrame-refl e)
      ]
  fill-IsFrame other qty price ctx e = IsFrame-refl e
