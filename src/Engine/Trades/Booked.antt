-- ===== src/Engine/Trades/Booked.antt =====
-- The ledger of closed positions stays in step with its statistics and with `total_trades`.
use power_bridge.Base.{
  ℕ, ◌+◌, ◌≤◌, ◌≡◌, refl, sym, ap, ◌∙◌, Bool, [], ◌∷◌, arith, Bool-cases, inl, inr, length,
  length-append,
}
use power_bridge.Float.{Float, ◌≺◌, is_positive}
use power_bridge.Engine.State.{Position, Account}
use power_bridge.Engine.Trades.{FillContext, fold_trade, snapshot, record_closed_trade, realise}
use power_bridge.Engine.Trades.Rescan.{rescan, fold_trade-rescan}

module _ {W : Type 0} ⦃fl : Float W⦄ where
  -- The statistics are those of a scan of the ledger, and at least `k` realised exits are not in
  -- the ledger (an exit of part of a position is a trade, but closes no position).
  pub record IsBooked (k : ℕ) (a : Account W) : Type 0 where
    pub scanned : a.stats ≡ rescan a.closed_trades
    pub traded : length a.closed_trades + k ≤ a.total_trades

  pub realise_keeps :
      (pnl : W) (a : Account W)
      → ((realise pnl a).closed_trades ≡ a.closed_trades)
        × ((realise pnl a).stats ≡ a.stats)
        × ((realise pnl a).total_trades ≡ a.total_trades + 1)
  unfolding realise
  realise_keeps pnl a = elim (Bool-cases (is_positive pnl)) [
    | inl gain ↦ simp gain (refl, refl, refl)
    | inr no_gain ↦ elim (Bool-cases (pnl ≺ fl.nought)) [
      | inl loss ↦ simp (no_gain, loss) (refl, refl, refl)
      | inr even ↦ simp (no_gain, even) (refl, refl, refl)
    ]
  ]

  pub realise-IsBooked :
      (k : ℕ) (pnl : W) (a : Account W) → IsBooked k a → IsBooked (k + 1) (realise pnl a)
  realise-IsBooked k pnl a b =
      let (ledger, stats, total) = realise_keeps pnl a in
      record {
        scanned = stats ∙ b.scanned ∙ ap rescan (sym ledger);
        traded = rw ledger (omega (arith, total, b.traded));
      }

  pub record_closed_trade-IsBooked :
      (k : ℕ) (pv : W) (p : Position W) (price : W) (size : ℕ) (islong : Bool) (ctx : FillContext)
      (a : Account W)
      → IsBooked (k + 1) a
      → IsBooked k (record_closed_trade pv p price size islong ctx a)
  unfolding record_closed_trade
  record_closed_trade-IsBooked k pv p price size islong ctx a b =
      let t = snapshot pv p price size islong ctx in
      record {
        scanned = ap (fold_trade t.pnl t.bars) b.scanned ∙ fold_trade-rescan a.closed_trades t;
        traded = omega (arith, b.traded, length-append a.closed_trades (t ∷ []));
      }
