-- ===== src/Engine/Report/Ledger.antt =====
-- What the performance words say of the ledger of a sound engine (_engine_report.py).
use power_bridge.Base.{
  ℕ, ◌≤◌, ◌<◌, ◌≡◌, refl, List, [], ◌∷◌, arith, ◌==◌, if◌then◌else◌, length, filterb, total, All,
}
use power_bridge.Float.{Float, ◌⊗◌, ◌⊘◌, num}
use power_bridge.Engine.State.{MarketPosition, flat, long, short, ClosedTrade, FillEngine}
use power_bridge.Engine.Orders.{open_entries_count}
use power_bridge.Engine.Position.Shape.{Shape}
use power_bridge.Engine.Trades.Rescan.{is_win}
use power_bridge.Engine.Invariant.{IsSound}
use power_bridge.Engine.Report.{max_shares, fill_pos_kwargs}

length-total : (qs : List ℕ) → All (λ q. 0 < q) qs → length qs ≤ total qs
length-total [] p = omega arith
length-total (q ∷ qs) (p, ps) = omega (arith, length-total qs ps)

module _ {W : Type 0} ⦃fl : Float W⦄ where
  -- The percentage of winners, counted in the ledger.
  abbrev pub percent_wins : List (ClosedTrade W) → W
  percent_wins ts =
      if length ts == 0
      then fl.nought
      else num (length (filterb is_win ts)) ⊘ num (length ts) ⊗ num 100

  -- On a sound engine, a strategy reads no more open entries than contracts, and no more contracts than
  -- MaxShares.
  pub fill_pos_kwargs-bounds :
      (e : FillEngine W)
      → IsSound e
      → let d = fill_pos_kwargs e in
        (d.openentriescount ≤ d.current_contracts) × (d.current_contracts ≤ d.maxshares)
  unfolding fill_pos_kwargs max_shares open_entries_count
  fill_pos_kwargs-bounds e s = go (e.position).market_position refl s.shape
    where
      go :
          (m : MarketPosition)
          → (e.position).market_position ≡ m
          → Shape m e.position
          → let d = fill_pos_kwargs e in
            (d.openentriescount ≤ d.current_contracts) × (d.current_contracts ≤ d.maxshares)
      go flat is (none_held, no_prices) = rw is (omega arith, omega arith)
      go long is o =
          rw is (omega (arith, length-total (e.position).entry_qtys o.positive, o.sizes), o.peak)
      go short is o =
          rw is (omega (arith, length-total (e.position).entry_qtys o.positive, o.sizes), o.peak)
