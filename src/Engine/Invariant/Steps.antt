-- ===== src/Engine/Invariant/Steps.antt =====
-- The fills of queued orders keep the engine sound (engine.py `_fill_at`, `_fill_close_order`,
-- `_execute_*`).
use power_bridge.Base.{
  ℕ, ◌<◌, ◌≡◌, refl, ap, ◌∙◌, Bool, true, false, String, arith, Bool-cases, inl, inr, List, [], ◌∷◌,
  ℤ, pos, negsuc, All, sym, ◌+ℤ◌, ◌-ℤ◌, ◌≤ℤ◌, Option, none, some,
}
use mathlib.Core.Path.{subst}
use power_bridge.Float.{Float}
use power_bridge.Engine.State.{Action, buy, sellshort, sell, buytocover, Order, OnClose, FillEngine}
use power_bridge.Engine.Trades.{FillContext}
use power_bridge.Engine.Position.{fill, signed_position}
use power_bridge.Engine.Position.Shape.{IsConsistent, fill-IsConsistent}
use power_bridge.Engine.Position.Signed.{target, signed_position-fill}
use power_bridge.Engine.Trades.Booked.{IsBooked}
use power_bridge.Engine.FillLog.{record_fills}
use power_bridge.Engine.FillLog.Net.{net_fills, record_fills-net}
use power_bridge.Engine.Stops.{Bar}
use power_bridge.Engine.Outcomes.{verdict, int_or}
use power_bridge.Engine.Orders.{
  is_buy, market_orders, order_size, entry_refused, candidates, path_rank, fill_sized, fill_order,
  ambiguous_exit, check_named_exit, fill_and_record, fill_close_order, fill_at, fill_onclose,
  fill_market, fill_candidates, Candidate, execute_onclose_pending, execute_pending_fills,
}
use power_bridge.Engine.Invariant.Frame.{IsFrame, fill-IsFrame}
use power_bridge.Engine.Invariant.Outcomes.{
  Yields, Yields-bind, IsPositive, int_or-IsPositive, divides_by_zero-sized, IsSized, IsSizedClose,
  IsReady, filterb-All, sort_by-All, candidates-IsSized,
}
use power_bridge.Engine.Invariant.Fills.{IsSound, fill-IsBooked}

buys_rise : (a : Action) (qty : ℕ) (s : ℤ) → is_buy a ≡ true → s ≤ℤ target a qty s
unfolding ◌+ℤ◌
buys_rise buy qty s e = ground arith
buys_rise buytocover qty s e = ground arith
buys_rise _ qty s e = ground arith

sales_fall : (a : Action) (qty : ℕ) (s : ℤ) → is_buy a ≡ false → target a qty s ≤ℤ s
unfolding ◌-ℤ◌
sales_fall sell qty s e = ground arith
sales_fall sellshort qty s e = ground arith
sales_fall _ qty s e = ground arith

verdict-same :
    {A : Type 0} (strict : Bool) (a : Action) (n : Option String) (x : A)
    → Yields (λ y. y ≡ x) (verdict strict a n x)
verdict-same strict a none x = refl
verdict-same true a (some n) x = tt
verdict-same false a (some n) x = refl

module _ {W : Type 0} ⦃fl : Float W⦄ where
  pub record_fills-IsSound :
      (buy_side : Bool) (signal : String) (date time : ℕ) (price : W) (prev : ℤ) (v1 : ℕ)
      (e : FillEngine W)
      → IsConsistent e.position
      → IsBooked 0 e.account
      → net_fills e.fills ≡ prev
      → (buy_side ≡ true → prev ≤ℤ signed_position e.position)
      → (buy_side ≡ false → signed_position e.position ≤ℤ prev)
      → IsSound (record_fills buy_side signal date time price prev v1 e)
  unfolding record_fills
  record_fills-IsSound buy_side signal date time price prev v1 e c b h up down = record {
    shape = c;
    logged = record_fills-net buy_side signal date time price prev v1 e h up down;
    booked = b;
  }

  fill_and_record-IsSound :
      (o : Order W) (qty : ℕ) (price : W) (bar date time : ℕ) (v1 : ℕ → ℕ) (e : FillEngine W)
      → 0 < qty
      → IsSound e
      → IsSound (fill_and_record o qty price bar date time v1 e)
  unfolding fill_and_record
  fill_and_record-IsSound o qty price bar date time v1 e h s =
      let ctx : FillContext = record {
        bar = bar;
        date = date;
        time = time;
        name = o.label;
        cat = 3;
      } in
      let filled = fill o.action qty price ctx e in
      let now = signed_position-fill o.action qty price ctx e s.shape h in
      let before = signed_position e.position in
      let frame = fill-IsFrame o.action qty price ctx e in
      record_fills-IsSound (is_buy o.action) o.label date time price before _ filled
        (fill-IsConsistent o.action qty price ctx e s.shape h)
        (fill-IsBooked o.action qty price ctx e s.booked) (ap net_fills frame.fills_same ∙ s.logged)
        (λ b. rw now (buys_rise o.action qty before b))
        (λ b. rw now (sales_fall o.action qty before b))

  check_named_exit-same :
      (strict : Bool) (o : Order W) (e : FillEngine W)
      → Yields (λ e'. e' ≡ e) (check_named_exit strict o e)
  unfolding check_named_exit
  check_named_exit-same strict o e = verdict-same strict o.action (ambiguous_exit o e) e

  fill_sized-IsReady :
      (o : Order W) (k : ℤ) (price : W) (bar date time : ℕ) (v1 : ℕ → ℕ → ℕ) (e : FillEngine W)
      → IsPositive k
      → IsReady e
      → Yields IsReady (fill_sized o k price bar date time v1 e)
  unfolding fill_sized fill_and_record record_fills
  fill_sized-IsReady o (pos n) price bar date time v1 e h r =
      rw (divides_by_zero-sized o.action n e h) (record {
        sound = fill_and_record-IsSound o n price bar date time (v1 n) e h r.sound;
        queued = subst (All IsSized) (sym frame.pending_same) r.queued;
        closing = subst (All IsSizedClose) (sym frame.onclose_same) r.closing;
      })
    where
      ctx : FillContext
      ctx = record { bar = bar; date = date; time = time; name = o.label; cat = 3 }

      frame : IsFrame e (fill o.action n price ctx e)
      frame = fill-IsFrame o.action n price ctx e
  fill_sized-IsReady o (negsuc k) price bar date time v1 e h r = elim h [ ]

  -- An order that is refused, or stopped at an unverified exit, or fills.
  fill_order-IsReady :
      (strict : Bool) (o : Order W) (unsized : ℕ) (price : W) (bar date time : ℕ) (v1 : ℕ → ℕ → ℕ)
      (e : FillEngine W)
      → 0 < unsized
      → IsSized o
      → IsReady e
      → Yields IsReady (fill_order strict o unsized price bar date time v1 e)
  unfolding fill_order
  fill_order-IsReady strict o unsized price bar date time v1 e h sized r =
      elim (Bool-cases (entry_refused o.action e)) [
        | inl refused ↦ rw refused r
        | inr accepted ↦ rw accepted (
            Yields-bind IsPositive IsReady (int_or unsized o.qty) _
              (int_or-IsPositive unsized o.qty h sized)
              (λ k positive.
                Yields-bind (λ e'. e' ≡ e) IsReady (check_named_exit strict o e) _
                  (check_named_exit-same strict o e)
                  (λ e' same.
                    rw same (fill_sized-IsReady o k price bar date time v1 e positive r))))
      ]

  fill_onclose-IsReady :
      (strict : Bool) (cs : List (OnClose W)) (e : FillEngine W)
      → All IsSizedClose cs
      → IsReady e
      → Yields IsReady (fill_onclose strict cs e)
  unfolding fill_onclose fill_close_order
  fill_onclose-IsReady strict [] e sized r = r
  fill_onclose-IsReady strict (c ∷ cs) e (sized, more) r =
      Yields-bind IsReady IsReady (fill_close_order strict c e) (fill_onclose strict cs)
        (fill_order-IsReady strict c.order 1 _ _ _ _ _ e (omega arith) sized r)
        (λ e' r'. fill_onclose-IsReady strict cs e' more r')

  fill_at-IsReady :
      (strict : Bool) (b : Bar W) (o : Order W) (price : W) (e : FillEngine W)
      → IsSized o
      → IsReady e
      → Yields IsReady (fill_at strict b o price e)
  unfolding fill_at
  fill_at-IsReady strict b o price e sized r =
      fill_order-IsReady strict o (order_size o e) _ _ _ _ _ e (ground arith) sized r

  fill_market-IsReady :
      (strict : Bool) (b : Bar W) (os : List (Order W)) (e : FillEngine W)
      → All IsSized os
      → IsReady e
      → Yields IsReady (fill_market strict b os e)
  unfolding fill_market
  fill_market-IsReady strict b [] e sized r = r
  fill_market-IsReady strict b (o ∷ os) e (sized, more) r =
      Yields-bind IsReady IsReady (fill_at strict b o b.open_price e) (fill_market strict b os)
        (fill_at-IsReady strict b o b.open_price e sized r)
        (λ e' r'. fill_market-IsReady strict b os e' more r')

  fill_candidates-IsReady :
      (strict : Bool) (b : Bar W) (cs : List (Candidate W)) (e : FillEngine W)
      → All (λ c. IsSized c.order) cs
      → IsReady e
      → Yields IsReady (fill_candidates strict b cs e)
  unfolding fill_candidates
  fill_candidates-IsReady strict b [] e sized r = r
  fill_candidates-IsReady strict b (c ∷ cs) e (sized, more) r =
      Yields-bind IsReady IsReady (fill_at strict b c.order c.price e) (fill_candidates strict b cs)
        (fill_at-IsReady strict b c.order c.price e sized r)
        (λ e' r'. fill_candidates-IsReady strict b cs e' more r')

  -- The queues keep the engine ready.
  pub execute_onclose_pending-IsReady :
      (strict : Bool) (e : FillEngine W)
      → IsReady e
      → Yields IsReady (execute_onclose_pending strict e)
  unfolding execute_onclose_pending
  execute_onclose_pending-IsReady strict e r =
      Yields-bind IsReady IsReady (fill_onclose strict e.onclose_pending e) _
        (fill_onclose-IsReady strict e.onclose_pending e r.closing r)
        (λ e' r'.
          let s = r'.sound in
          record {
            sound = record { shape = s.shape; logged = s.logged; booked = s.booked };
            queued = r'.queued;
            closing = tt;
          })

  pub execute_pending_fills-IsReady :
      (strict : Bool) (b : Bar W) (e : FillEngine W)
      → IsReady e
      → Yields IsReady (execute_pending_fills strict b e)
  unfolding execute_pending_fills market_orders
  execute_pending_fills-IsReady strict b e r =
      Yields-bind IsReady IsReady _ _
        (Yields-bind IsReady IsReady (fill_market strict b (market_orders e.pending_orders) e) _
          (fill_market-IsReady strict b _ e (filterb-All IsSized _ e.pending_orders r.queued) r)
          (λ e' r'.
            fill_candidates-IsReady strict b _ e'
              (sort_by-All (λ c. IsSized c.order) (path_rank b) (candidates b e.pending_orders)
                (candidates-IsSized b e.pending_orders r.queued))
              r'))
        (λ e' r'.
          let s = r'.sound in
          record {
            sound = record { shape = s.shape; logged = s.logged; booked = s.booked };
            queued = tt;
            closing = r'.closing;
          })
