-- ===== src/Engine/Orders/Prices.antt =====
-- The prices at which limit and stop orders fill (engine.py, `_execute_pending_fills`), in single
-- precision, against the price of the order and the range of the bar.
use power_bridge.Base.{◌≡◌, Bool, true, false, Option, none, some, Bool-cases, inl, inr}
use power_bridge.Float.{Float, IsOrdered, ◌≼◌, ◌≺◌, min2, max2}
use mathlib.Core.Path.{subst}
use power_bridge.Engine.State.{Order}
use power_bridge.Engine.Stops.{Bar}
use power_bridge.Engine.Orders.{Candidate, waits_for_low, reached}

module _ {W : Type 0} ⦃fl : Float W⦄ where
  open fl use {f32}

  -- A bar whose open lies in its range.
  pub record IsBar (b : Bar W) : Type 0 where
    pub above_low : (b.low ≼ b.open_price) ≡ true
    pub below_high : (b.open_price ≼ b.high) ≡ true

  -- An order that waits for the low fills between the bar's low and its own price, one that waits for
  -- the high between its own price and the bar's high.
  abbrev pub InRange : Bool → Bar W → W → Candidate W → Type 0
  InRange true b price c = ((f32 b.low ≼ c.price) ≡ true) × ((c.price ≼ f32 price) ≡ true)
  InRange false b price c = ((f32 price ≼ c.price) ≡ true) × ((c.price ≼ f32 b.high) ≡ true)

  abbrev AllIn : Bool → Bar W → W → Option (Candidate W) → Type 0
  AllIn side b price none = Unit
  AllIn side b price (some c) = InRange side b price c

  module _ (ord : IsOrdered W ⦃fl = fl⦄) where
    low_bounds :
        (b : Bar W) (price : W)
        → IsBar b
        → (b.low ≼ price) ≡ true
        → ((f32 b.low ≼ f32 (min2 b.open_price price)) ≡ true)
          × ((f32 (min2 b.open_price price) ≼ f32 price) ≡ true)
    low_bounds b price i h =
        let fair = (ord.refl_of_le b.low price h).1 in
        elim (Bool-cases (price ≺ b.open_price)) [
          | inl below ↦ rw below (ord.f32_mono _ _ h, ord.f32_mono _ _ fair)
          | inr above ↦
              let known = (ord.refl_of_le _ _ i.above_low).1 in
              rw above (
                ord.f32_mono _ _ i.above_low,
                ord.f32_mono _ _ (ord.le_of_not_lt price b.open_price fair known above),
              )
        ]

    high_bounds :
        (b : Bar W) (price : W)
        → IsBar b
        → (price ≼ b.high) ≡ true
        → ((f32 price ≼ f32 (max2 b.open_price price)) ≡ true)
          × ((f32 (max2 b.open_price price) ≼ f32 b.high) ≡ true)
    high_bounds b price i h =
        let fair = (ord.refl_of_le price b.high h).0 in
        elim (Bool-cases (b.open_price ≺ price)) [
          | inl above ↦ rw above (ord.f32_mono _ _ fair, ord.f32_mono _ _ h)
          | inr below ↦
              let known = (ord.refl_of_le _ _ i.below_high).0 in
              rw below (
                ord.f32_mono _ _ (ord.le_of_not_lt b.open_price price known fair below),
                ord.f32_mono _ _ i.below_high,
              )
        ]

    reached_in :
        (b : Bar W) (o : Order W) (price : W)
        → IsBar b
        → AllIn (waits_for_low o.otype o.action) b price (reached b o price)
    unfolding reached
    reached_in b o price i = elim (Bool-cases (waits_for_low o.otype o.action)) [
      | inl low ↦ elim (Bool-cases (b.low ≼ price)) [
        | inl touched ↦ rw (low, touched) (low_bounds b price i touched)
        | inr missed ↦ rw (low, missed) tt
      ]
      | inr high ↦ elim (Bool-cases (price ≼ b.high)) [
        | inl touched ↦ rw (high, touched) (high_bounds b price i touched)
        | inr missed ↦ rw (high, missed) tt
      ]
    ]

    -- Where comparisons of prices have the laws of an order and the open lies in the bar's range: an order
    -- that fills and waits for the low (a buy limit, a sell stop) fills between the bar's low and its own
    -- price, one that waits for the high between its own price and the bar's high, in single precision.
    pub reached-InRange :
        (b : Bar W) (o : Order W) (price : W) (c : Candidate W)
        → IsBar b
        → reached b o price ≡ some c
        → InRange (waits_for_low o.otype o.action) b price c
    reached-InRange b o price c i e =
        subst (AllIn (waits_for_low o.otype o.action) b price) e (reached_in b o price i)
