-- ===== src/Engine/Bar/Ready.antt =====
-- Whole bars keep the engine ready (engine.py `before_bar` and `after_bar`): sound, and with queued
-- orders that can be filled.
use power_bridge.Base.{
  ℕ, Bool, not, Option, List, [], ◌∷◌, Bool-cases, inl, inr, ◌≡◌, refl, sym, ap, ◌∙◌, All,
  All-append, map,
}
use power_bridge.Float.{Float}
use power_bridge.Engine.State.{Order, OnClose, RiskUpdate, FillEngine}
use power_bridge.Engine.Stops.{Bar}
use power_bridge.Engine.Orders.{execute_onclose_pending}
use power_bridge.Engine.Bar.{
  no_work_state, full_bar, before_bar, after_bar, is_on_close, filter_some,
}
use power_bridge.Engine.Invariant.{
  IsSound, IsReady, IsSized, IsSizedClose, Yields, Yields-bind, filterb-All,
  execute_onclose_pending-IsReady, execute_pending_fills-IsReady,
}
use mathlib.Core.Path.{subst}
use power_bridge.Engine.Bar.Queues.{
  queues, mark_bar-queues, check_money_management_stops-queues, close_orders, after_bar-queues,
}
use power_bridge.Engine.Bar.Sound.{
  mark_bar-IsSound, check_money_management_stops-IsSound, after_bar-IsSound,
}

module _ {W : Type 0} ⦃fl : Float W⦄ where
  -- A step that leaves the queues alone keeps the engine ready if it keeps it sound.
  pub IsReady-same :
      (e e' : FillEngine W) → queues e' ≡ queues e → IsReady e → IsSound e' → IsReady e'
  IsReady-same e e' same r s = record {
    sound = s;
    queued = subst (All IsSized) (sym (ap (λ q. q.0) same)) r.queued;
    closing = subst (All IsSizedClose) (sym (ap (λ q. q.1) same)) r.closing;
  }

  full_bar-IsReady :
      (strict : Bool) (b : Bar W) (e : FillEngine W)
      → IsReady e
      → Yields IsReady (full_bar strict b e)
  unfolding full_bar
  full_bar-IsReady strict b e r =
      Yields-bind IsReady IsReady _ _
        (Yields-bind IsReady IsReady (execute_onclose_pending strict e) _
          (execute_onclose_pending-IsReady strict e r) (execute_pending_fills-IsReady strict b))
        (λ e' r'.
          IsReady-same e' _ (mark_bar-queues b _ ∙ check_money_management_stops-queues b e') r'
            (mark_bar-IsSound b _ (check_money_management_stops-IsSound b e' r'.sound)))

  -- Say that an engine is ready if the position is well formed, the signed sum of the logged fills is the
  -- signed position, the trade statistics are those of a scan of the closed trades, no more trades are
  -- closed than `total_trades` counts, and every queued order has a size of 0 or one that `int()` makes
  -- at least 1. Then `before_bar` fails on no size, and keeps the engine ready unless an exit that
  -- cannot be verified stops it.
  pub before_bar-IsReady :
      (strict : Bool) (b : Bar W) (e : FillEngine W)
      → IsReady e
      → Yields IsReady (before_bar strict b e)
  unfolding before_bar
  before_bar-IsReady strict b e r = elim (Bool-cases (no_work_state e)) [
    | inl idle ↦ rw idle (
        IsReady-same e _ refl r
          (let s = r.sound in record { shape = s.shape; logged = s.logged; booked = s.booked }))
    | inr busy ↦ rw busy (full_bar-IsReady strict b e r)
  ]

  map-IsSizedClose :
      (f : Order W → OnClose W) (os : List (Order W))
      → ((o : Order W) → IsSized o → IsSizedClose (f o))
      → All IsSized os
      → All IsSizedClose (map f os)
  map-IsSizedClose f [] keeps h = tt
  map-IsSizedClose f (o ∷ os) keeps (sized, more) =
      (keeps o sized, map-IsSizedClose f os keeps more)

  -- Queueing orders with sizes that can be filled keeps the engine ready.
  pub after_bar-IsReady :
      (orders : List (Option (Order W))) (risk : RiskUpdate W) (price : W) (bar date time : ℕ)
      (e : FillEngine W)
      → All IsSized (filter_some orders)
      → IsReady e
      → IsReady (after_bar orders risk price bar date time e)
  after_bar-IsReady orders risk price bar date time e sized r =
      let (pending, onclose) = after_bar-queues orders risk price bar date time e in
      record {
        sound = after_bar-IsSound orders risk price bar date time e r.sound;
        queued =
            subst (All IsSized) (sym pending)
              (filterb-All IsSized (λ o. not (is_on_close o)) (filter_some orders) sized);
        closing = subst (All IsSizedClose) (sym onclose) (
            All-append IsSizedClose e.onclose_pending _ r.closing (
              map-IsSizedClose _ (close_orders orders) (λ o s. s)
                (filterb-All IsSized is_on_close (filter_some orders) sized)));
      }
