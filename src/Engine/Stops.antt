-- ===== src/Engine/Stops.antt =====
-- _engine_stops.py: the money-management stops, walked along the bar's assumed price path.
use power_bridge.Base.{
  ℕ, Bool, true, false, not, ◌&&◌, ◌||◌, Option, none, some, List, [], ◌∷◌, ◌++◌, String, ℤ, pos,
  if◌then◌else◌, ◌==◌,
}
use power_bridge.Float.{Float, ◌⊕◌, ◌⊖◌, ◌⊗◌, ◌⊘◌, ◌≼◌, ◌≺◌, num, max2, is_positive, truthy}
use power_bridge.Engine.State.{MarketPosition, flat, long, short, FillEngine, is_flat, is_long}
use power_bridge.Engine.Trades.{FillContext, record_closed_trade, realise}
use power_bridge.Engine.Position.{reset_flat, signed_position}
use power_bridge.Engine.FillLog.{record_fills}

pub data Direction : Type 0 where
  nearest down up : Direction

-- The prices of a bar, with its number, date and time.
pub record Bar (W : Type 0) : Type 0 where
  pub open_price : W
  pub high : W
  pub low : W
  pub close_price : W
  pub number : ℕ
  pub date : ℕ
  pub time : ℕ

-- A stop or target that is armed: its price, its reason, and whether a rising price triggers it.
pub record Level (W : Type 0) : Type 0 where
  pub price : W
  pub reason : String
  pub up_trig : Bool

-- `a == b`
abbrev pub same : Bool → Bool → Bool
same a b = if a then b else not b

module _ {W : Type 0} ⦃fl : Float W⦄ where
  open fl use {nought, f32, floor, ceil, round, of_ℤ, eps, sub, abs}

  -- `market_position` as a factor of a product.
  abbrev pub side_factor : MarketPosition → W
  side_factor flat = of_ℤ (pos 0)
  side_factor long = of_ℤ (pos 1)
  side_factor short = sub (of_ℤ (pos 0)) (of_ℤ (pos 1))

  -- `_snap`
  unfoldable pub snap : W → W → Direction → W
  snap tick price direction =
      if not (truthy tick)
      then price
      else let q = price ⊘ tick in
        let n : ℤ = elim direction [
          | nearest ↦ round q
          | down ↦ floor (q ⊕ eps)
          | up ↦ ceil (q ⊖ eps)
        ] in
        f32 (of_ℤ n ⊗ tick)

  -- `d.get(key, 0) or 0`, and `bool(amount and amount > 0)` as the amount if it arms something.
  abbrev pub amount_or_0 : Option W → W
  amount_or_0 none = nought
  amount_or_0 (some x) = x

  -- A level at `entry ± offset`, snapped away from the position.
  abbrev away : FillEngine W → Bool → W → W
  away e below level = snap e.tick level (if below then down else up)

  -- `pv_ct`: dollars for a point of the whole position.
  abbrev pub position_value : FillEngine W → W
  position_value e = e.point_value ⊗ num (e.position).contracts

  -- `_levels(peak)` in the order in which the code collects them.
  unfoldable pub target_levels : FillEngine W → List (Level W)
  target_levels e =
      let long_pos = is_long (e.position).market_position in
      let entry = (e.position).entry_price in
      let amount = amount_or_0 (e.risk).profit_target in
      if is_positive amount
      then (let off = amount ⊘ e.point_value in
          record {
            price = if long_pos then away e false (entry ⊕ off) else away e true (entry ⊖ off);
            reason = "profit_target";
            up_trig = long_pos;
          }
          ∷ [])
      else []

  unfoldable pub loss_levels : FillEngine W → List (Level W)
  loss_levels e =
      let long_pos = is_long (e.position).market_position in
      let entry = (e.position).entry_price in
      let amount = amount_or_0 (e.risk).stop_loss in
      if is_positive amount
      then (let off = amount ⊘ e.point_value in
          record {
            price = if long_pos then away e true (entry ⊖ off) else away e false (entry ⊕ off);
            reason = "stop_loss";
            up_trig = not long_pos;
          }
          ∷ [])
      else []

  unfoldable pub breakeven_levels : FillEngine W → W → List (Level W)
  breakeven_levels e peak =
      let amount = amount_or_0 (e.risk).breakeven in
      if is_positive amount && (amount ≼ peak)
      then record {
        price = (e.position).entry_price;
        reason = "breakeven";
        up_trig = not (is_long (e.position).market_position);
      }
        ∷ []
      else []

  -- `entry ± base`, on the side of the position, for the two trailing stops.
  abbrev trail_level : FillEngine W → W → W
  trail_level e base =
      let entry = (e.position).entry_price in
      if is_long (e.position).market_position
      then away e true (entry ⊕ base)
      else away e false (entry ⊖ base)

  unfoldable pub trailing_levels : FillEngine W → W → List (Level W)
  trailing_levels e peak = elim ((e.risk).percent_trailing) [
    | none ↦ []
    | some (trail_floor, trail_pct) ↦
        let give = peak ⊗ trail_pct ⊘ num 100 in
        if is_positive trail_pct && (trail_floor ≼ peak)
        then record {
          price = trail_level e ((peak ⊖ give) ⊘ position_value e);
          reason = "trailing_stop";
          up_trig = not (is_long (e.position).market_position);
        }
          ∷ []
        else []
  ]

  unfoldable pub dollar_levels : FillEngine W → W → List (Level W)
  dollar_levels e peak =
      let amount = amount_or_0 (e.risk).dollar_trailing in
      if is_positive amount
      then record {
        price = trail_level e ((peak ⊖ amount) ⊘ position_value e);
        reason = "dollar_trailing";
        up_trig = not (is_long (e.position).market_position);
      }
        ∷ []
      else []

  unfoldable pub levels : FillEngine W → W → List (Level W)
  unfolding target_levels loss_levels breakeven_levels trailing_levels dollar_levels
  levels e peak =
      target_levels e
      ++ (loss_levels e
          ++ (breakeven_levels e peak ++ (trailing_levels e peak ++ dollar_levels e peak)))

  -- The part of `_close_at_stop` that realises the open position and resets it.
  unfoldable pub flatten_at : W → FillContext → FillEngine W → FillEngine W
  unfolding reset_flat
  flatten_at price ctx e =
      let p = e.position in
      let islong = is_long p.market_position in
      let gain = (if islong then price ⊖ p.entry_price else p.entry_price ⊖ price) in
      let pnl = gain ⊗ e.point_value ⊗ num p.contracts in
      let held = record p { position_profit = p.position_profit ⊕ pnl } in
      let closed =
        record_closed_trade e.point_value held price p.contracts islong ctx
          (realise pnl e.account) in
      record e {
        position = reset_flat held;
        account = record closed { open_position_profit = nought };
      }

  -- `_close_at_stop`: the exit is logged under a name, a date and a time of the caller.
  unfoldable pub close_at_stop : W → String → FillContext → ℕ → ℕ → FillEngine W → FillEngine W
  close_at_stop price signal ctx fill_date fill_time e =
      let p = e.position in
      if is_flat p.market_position
      then e
      else record_fills (not (is_long p.market_position)) signal fill_date fill_time price
          (signed_position p) 0 (flatten_at price ctx e)

  -- A stop found by the walk: the exit has no date, time or name of its own.
  abbrev pub fire : Bar W → W → String → FillEngine W → FillEngine W
  fire b price reason e =
      close_at_stop price reason (record { bar = b.number; date = 0; time = 0; name = ""; cat = 0 })
        b.date b.time e

  -- The first level that the open has already crossed.
  unfoldable pub gap_level : W → List (Level W) → Option (Level W)
  gap_level o [] = none
  gap_level o (l ∷ ls) =
      let rest = gap_level o ls in
      if (l.up_trig && ((l.price ⊖ eps) ≼ o)) || (not l.up_trig && (o ≼ (l.price ⊕ eps)))
      then some l
      else rest

  -- The levels in reach on the leg from `s` to `e`.
  unfoldable pub in_reach : W → W → List (Level W) → List (Level W)
  in_reach s e [] = []
  in_reach s e (l ∷ ls) =
      let moving_up = s ≼ e in
      let seg_lo = (if moving_up then s else e) in
      let seg_hi = (if moving_up then e else s) in
      let rest = in_reach s e ls in
      if same l.up_trig moving_up && (((seg_lo ⊖ eps) ≼ l.price) && (l.price ≼ (seg_hi ⊕ eps)))
      then l ∷ rest
      else rest

  -- `min(reach, key=...)` moving up, `max(...)` moving down: the first of equals.
  abbrev pick : Bool → Level W → Level W → Level W
  pick moving_up best l =
      if (if moving_up then l.price ≺ best.price else best.price ≺ l.price) then l else best

  unfoldable pub nearest_level : Bool → Level W → List (Level W) → Level W
  nearest_level moving_up best [] = best
  nearest_level moving_up best (l ∷ ls) = nearest_level moving_up (pick moving_up best l) ls

  abbrev pub first_reached : Bool → List (Level W) → Option (Level W)
  first_reached moving_up [] = none
  first_reached moving_up (l ∷ ls) = some (nearest_level moving_up l ls)

  -- The legs that are left of the walk: `none` if no level was reached on them.
  unfoldable pub walk : FillEngine W → W → W → W → List W → Option (Level W)
  walk e fav peak s [] = none
  walk e fav peak s (w ∷ ws) =
      let p = e.position in
      let ratcheted =
        if abs (w ⊖ fav) ≺ eps
        then max2 peak ((w ⊖ p.entry_price) ⊗ side_factor p.market_position ⊗ position_value e)
        else peak in
      let rest = walk e fav ratcheted w ws in
      elim (first_reached (s ≼ w) (in_reach s w (levels e peak))) [ some l ↦ some l | none ↦ rest ]

  -- The prices of the walk, with the close where a price is missing (not positive).
  abbrev pub or_close : W → W → W
  or_close price close_price = if is_positive price then price else close_price

  unfoldable pub path_of : Bar W → List W
  path_of b =
      let c = b.close_price in
      let o = or_close b.open_price c in
      let hi = or_close b.high c in
      let lo = or_close b.low c in
      let nearer_low = abs (o ⊖ lo) ≼ abs (o ⊖ hi) in
      (if nearer_low then lo else hi) ∷ (if nearer_low then hi else lo) ∷ c ∷ []

  -- What the stops make of a bar: an exit at a price for a reason, or none.
  unfoldable pub triggered : Bar W → FillEngine W → Option (W × String)
  triggered b e =
      let p = e.position in
      let c = b.close_price in
      let o = or_close b.open_price c in
      let fav = (if is_long p.market_position then or_close b.high c else or_close b.low c) in
      let walked : Option (W × String) = elim (walk e fav p.peak_profit o (path_of b)) [
        | some l ↦ some (l.price, l.reason)
        | none ↦ none
      ] in
      elim (gap_level o (levels e p.peak_profit)) [ some l ↦ some (o, l.reason) | none ↦ walked ]

  -- A stop that fires closes the position; else the peak is carried to the next bar.
  abbrev pub apply_stop : Bar W → FillEngine W → FillEngine W → Option (W × String) → FillEngine W
  apply_stop b e carried none = carried
  apply_stop b e carried (some (price, reason)) = fire b price reason e

  -- `_check_money_management_stops`
  unfoldable pub check_money_management_stops : Bar W → FillEngine W → FillEngine W
  check_money_management_stops b e =
      let p = e.position in
      let c = b.close_price in
      let fav = (if is_long p.market_position then or_close b.high c else or_close b.low c) in
      let best_pnl = (fav ⊖ p.entry_price) ⊗ side_factor p.market_position ⊗ position_value e in
      let carried = record e {
        position = record p { peak_profit = max2 p.peak_profit best_pnl };
      } in
      if is_flat p.market_position || p.entry_bar == 0
      then e
      else apply_stop b e carried (triggered b e)
