-- ===== src/Engine/Bar.antt =====
-- engine.py: `before_bar` and `after_bar`, the two halves of a bar, and what they compute around
-- the strategy's call: risk settings, excursions, mark to market and the intraday drawdown.
pub mod Sound
pub mod Queues
pub mod Ready
pub mod FastPath
pub mod Drawdown
use power_bridge.Base.{
  ℕ, Bool, true, false, not, ◌&&◌, ◌||◌, Option, none, some, List, [], ◌∷◌, ◌++◌, map, ltb, ◌==◌,
  if◌then◌else◌, sub_ℕ, ◌+◌,
}
use power_bridge.Float.{Float, ◌⊕◌, ◌⊖◌, ◌⊗◌, ◌≼◌, ◌≺◌, num, max2, min2, is_positive}
use power_bridge.Engine.State.{
  OrderType, close, Timing, this, Order, OnClose, Risk, RiskUpdate, Position, Account, FillEngine,
  is_flat, is_long,
}
use power_bridge.Engine.Stops.{Bar, amount_or_0, side_factor, check_money_management_stops}
use power_bridge.Engine.Outcomes.{Outcome, done, ◌>>=◌}
use power_bridge.Engine.Orders.{execute_onclose_pending, execute_pending_fills, high_first}

-- `dict.update` on one key.
abbrev pub or_old {ℓ} : {A : Type ℓ} → Option A → Option A → Option A
or_old none old = old
or_old (some x) old = some x

abbrev pub is_empty {ℓ} : {A : Type ℓ} → List A → Bool
is_empty [] = true
is_empty (x ∷ xs) = false

abbrev pub filter_some {ℓ} : {A : Type ℓ} → List (Option A) → List A
filter_some [] = []
filter_some (none ∷ xs) = filter_some xs
filter_some (some x ∷ xs) = x ∷ filter_some xs

abbrev pub is_set : Option Bool → Bool
is_set none = false
is_set (some b) = b

-- `timing in ('this', 'thisbar') and otype == 'close'`
abbrev pub is_this : Timing → Bool
is_this this = true
is_this _ = false

abbrev pub is_close : OrderType → Bool
is_close close = true
is_close _ = false

module _ {W : Type 0} ⦃fl : Float W⦄ where
  open fl use {nought, of_ℤ, sub, neg, abs, f32}

  abbrev pub times : W → Option W → Option W
  times pv none = none
  times pv (some x) = some (x ⊗ pv)

  -- `_resolve_point_risk`: a point amount arms the currency amount that it is worth.
  unfoldable pub resolve_point_risk : W → RiskUpdate W → Risk W
  resolve_point_risk pv u =
      let r = u.currency in
      let percent : Option (W × W) = elim (u.percent_trailing_pt) [
        | none ↦ r.percent_trailing
        | some (pts, pct) ↦ some (pts ⊗ pv, pct)
      ] in
      record {
        stop_loss = or_old (times pv u.stop_loss_pt) r.stop_loss;
        profit_target = or_old (times pv u.profit_target_pt) r.profit_target;
        breakeven = or_old (times pv u.breakeven_pt) r.breakeven;
        dollar_trailing = or_old (times pv u.trailing_stop_pt) r.dollar_trailing;
        percent_trailing = percent;
        exit_on_close = r.exit_on_close;
      }

  -- `self._risk.update(...)`
  unfoldable pub update_risk : Risk W → Risk W → Risk W
  update_risk new old = record {
    stop_loss = or_old new.stop_loss old.stop_loss;
    profit_target = or_old new.profit_target old.profit_target;
    breakeven = or_old new.breakeven old.breakeven;
    dollar_trailing = or_old new.dollar_trailing old.dollar_trailing;
    percent_trailing = or_old new.percent_trailing old.percent_trailing;
    exit_on_close = or_old new.exit_on_close old.exit_on_close;
  }

  abbrev pub has_positive_percent : Option (W × W) → Bool
  has_positive_percent none = false
  has_positive_percent (some (pts, pct)) = is_positive pct

  -- `_has_active_risk`
  unfoldable pub has_active_risk : Risk W → Bool
  has_active_risk r =
      is_positive (amount_or_0 r.stop_loss)
      || (is_positive (amount_or_0 r.profit_target)
          || (is_positive (amount_or_0 r.breakeven)
              || (is_positive (amount_or_0 r.dollar_trailing)
                  || (has_positive_percent r.percent_trailing || is_set r.exit_on_close))))

  -- `no_work_state`
  unfoldable pub no_work_state : FillEngine W → Bool
  unfolding has_active_risk
  no_work_state e =
      is_flat (e.position).market_position
      && (is_empty e.pending_orders && (is_empty e.onclose_pending && not (has_active_risk e.risk)))

  -- `_compute_pnl`
  unfoldable pub compute_pnl : W → FillEngine W → FillEngine W
  compute_pnl close_price e =
      let p = e.position in
      let a = e.account in
      let profit =
        (if is_flat p.market_position || (p.entry_bar == 0)
          then nought
          else (close_price ⊖ p.entry_price)
            ⊗ side_factor p.market_position
            ⊗ e.point_value
            ⊗ num p.contracts) in
      record e { account = record a { open_position_profit = profit } }

  -- `update_excursion`
  unfoldable pub update_excursion : W → W → FillEngine W → FillEngine W
  update_excursion high low e =
      let p = e.position in
      let pv = e.point_value in
      let islong = is_long p.market_position in
      let fav = (if islong then high ⊖ p.entry_price else p.entry_price ⊖ low) ⊗ pv in
      let adv = (if islong then low ⊖ p.entry_price else p.entry_price ⊖ high) ⊗ pv in
      if is_flat p.market_position || (p.contracts == 0) then e else record e {
        position = record p {
          mfe_pc = if p.mfe_pc ≺ fav then fav else p.mfe_pc;
          mae_pc = if adv ≺ p.mae_pc then adv else p.mae_pc;
        };
      }

  unfoldable pub count_bars_since_entry : ℕ → FillEngine W → FillEngine W
  count_bars_since_entry barnumber e =
      let p = e.position in
      if not (is_flat p.market_position) && ltb 0 p.entry_bar
      then record e { position = record p { bars_since_entry = sub_ℕ barnumber p.entry_bar } }
      else e

  -- The bar's prices in the order in which the drawdown walks them.
  abbrev pub drawdown_path : Bar W → List W
  drawdown_path b =
      if high_first b
      then b.open_price ∷ b.high ∷ b.low ∷ b.close_price ∷ []
      else b.open_price ∷ b.low ∷ b.high ∷ b.close_price ∷ []

  -- `_post_entry_walk`: from the first segment that holds the entry price, or the whole path.
  unfoldable pub walk_from_entry : W → List W → Option (List W)
  walk_from_entry entry [] = none
  walk_from_entry entry (a ∷ []) = none
  walk_from_entry entry (a ∷ b ∷ rest) =
      let later = walk_from_entry entry (b ∷ rest) in
      if (min2 a b ≼ entry) && (entry ≼ max2 a b) then some (entry ∷ b ∷ rest) else later

  unfoldable pub post_entry_walk : List W → W → List W
  unfolding walk_from_entry
  post_entry_walk path entry = elim (walk_from_entry entry path) [ none ↦ path | some w ↦ w ]

  -- `sign`, 1 for a long and -1 for a short.
  unfoldable pub equities : Bar W → FillEngine W → List W
  unfolding post_entry_walk
  equities b e =
      let p = e.position in
      let net = (e.account).net_profit in
      let path = drawdown_path b in
      let walked = (if p.entry_bar == b.number then post_entry_walk path p.entry_price else path) in
      if not (is_flat p.market_position) && ltb 0 p.contracts
      then map
          (λ px.
            net
            ⊕ side_factor p.market_position
              ⊗ (px ⊖ p.entry_price)
              ⊗ e.point_value
              ⊗ num p.contracts)
          walked
      else net ∷ []

  -- One equity of the walk: the running peak, and the drawdown if it is deeper.
  unfoldable pub fold_equity : W → Account W → Account W
  fold_equity eq a =
      let peak = max2 a.peak_equity eq in
      let dd = peak ⊖ eq in
      record a {
        peak_equity = peak;
        max_id_drawdown = if abs a.max_id_drawdown ≺ dd then f32 (neg dd) else a.max_id_drawdown;
      }

  unfoldable pub fold_equities : List W → Account W → Account W
  unfolding fold_equity
  fold_equities [] a = a
  fold_equities (eq ∷ eqs) a = fold_equities eqs (fold_equity eq a)

  unfoldable pub update_drawdown : Bar W → FillEngine W → FillEngine W
  update_drawdown b e = record e { account = fold_equities (equities b e) e.account }

  -- What follows the fills of a bar.
  unfoldable pub mark_bar : Bar W → FillEngine W → FillEngine W
  mark_bar b e = update_drawdown b (
      count_bars_since_entry b.number (update_excursion b.high b.low (compute_pnl b.close_price e)))

  -- The bar that `before_bar` runs when there is work.
  unfoldable pub full_bar : Bool → Bar W → FillEngine W → Outcome (FillEngine W)
  full_bar strict b e =
      execute_onclose_pending strict e >>= execute_pending_fills strict b >>= λ e'.
      done (mark_bar b (check_money_management_stops b e'))

  -- `before_bar`
  unfoldable pub before_bar : Bool → Bar W → FillEngine W → Outcome (FillEngine W)
  before_bar strict b e =
      if no_work_state e
      then done (record e { fast_path_hits = e.fast_path_hits + 1 })
      else full_bar strict b e

  abbrev pub is_on_close : Order W → Bool
  is_on_close o = is_this o.timing && is_close o.otype

  -- The loop of `after_bar` over the valid orders, with the two queues.
  unfoldable pub queue_orders : W → ℕ → ℕ → ℕ → List (Order W) → List (Order W) × List (OnClose W)
  queue_orders price bar date time [] = ([], [])
  queue_orders price bar date time (o ∷ os) =
      let rest = queue_orders price bar date time os in
      if is_on_close o
      then (
        rest.0,
        record { order = o; price = price; bar = bar; date = date; time = time } ∷ rest.1,
      )
      else (o ∷ rest.0, rest.1)

  -- `after_bar`: `none` is an order that is no tuple of at least five fields.
  unfoldable pub after_bar :
      List (Option (Order W)) → RiskUpdate W → W → ℕ → ℕ → ℕ → FillEngine W → FillEngine W
  after_bar orders risk close_price bar date time e =
      let queued = queue_orders (f32 close_price) bar date time (filter_some orders) in
      compute_pnl close_price (record e {
        pending_orders = queued.0;
        onclose_pending = e.onclose_pending ++ queued.1;
        risk = update_risk (resolve_point_risk e.point_value risk) e.risk;
      })
