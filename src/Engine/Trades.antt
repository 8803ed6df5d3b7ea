-- ===== src/Engine/Trades.antt =====
-- engine.py: `_record_closed_trade`, the ledger of closed positions and the statistics folded
-- from it at each close, with `_update_gross_pnl`.
pub mod Rescan
pub mod Booked
use power_bridge.Base.{
  ℕ, ◌+◌, Bool, ◌&&◌, [], ◌∷◌, ◌++◌, String, ℤ, pos, ◌+ℤ◌, ◌-ℤ◌, ltb, if◌then◌else◌,
}
use power_bridge.Float.{Float, ◌⊕◌, ◌⊖◌, ◌⊗◌, ◌≺◌, is_positive, truthy}
use power_bridge.Engine.State.{ClosedTrade, Stats, Position, Account}

-- The bar, date, time, name and category of an entry or an exit, which the methods pass along.
pub record FillContext : Type 0 where
  pub bar : ℕ
  pub date : ℕ
  pub time : ℕ
  pub name : String
  pub cat : ℕ

-- `exit_bar - entry_bar + 1`, or 0 for a position with no entry bar.
abbrev pub bars_in_trade : ℕ → ℕ → ℤ
bars_in_trade exit_bar entry_bar =
    if ltb 0 entry_bar then pos exit_bar -ℤ pos entry_bar +ℤ pos 1 else pos 0

module _ {W : Type 0} ⦃fl : Float W⦄ where
  open fl use {nought, f32}

  -- The statistics after one more closed trade.
  unfoldable pub fold_trade : W → ℤ → Stats W → Stats W
  fold_trade pnl bars s =
      if is_positive pnl
      then record s {
        nwin = s.nwin + 1;
        lrgwin = if s.lrgwin ≺ pnl then pnl else s.lrgwin;
        totbwin = s.totbwin +ℤ bars;
        cwin = s.cwin + 1;
        clos = 0;
        maxcwin = if ltb s.maxcwin (s.cwin + 1) then s.cwin + 1 else s.maxcwin;
      }
      else if pnl ≺ nought
      then record s {
        nlos = s.nlos + 1;
        lrglos = if pnl ≺ s.lrglos then pnl else s.lrglos;
        totblos = s.totblos +ℤ bars;
        clos = s.clos + 1;
        cwin = 0;
        maxclos = if ltb s.maxclos (s.clos + 1) then s.clos + 1 else s.maxclos;
      }
      else record s { neven = s.neven + 1; totbeven = s.totbeven +ℤ bars; cwin = 0; clos = 0 }

  -- The excursion of the exit itself, if both prices are set.
  abbrev exit_excursion : W → W → W → Bool → W → W
  exit_excursion pv entry exit islong unset =
      if truthy exit && truthy entry
      then (if islong then (f32 exit ⊖ entry) ⊗ pv else (entry ⊖ f32 exit) ⊗ pv)
      else unset

  -- The snapshot of the position that closes at this price.
  unfoldable pub snapshot : W → Position W → W → ℕ → Bool → FillContext → ClosedTrade W
  snapshot pv p exit_price size islong ctx =
      let best = exit_excursion pv p.entry_price exit_price islong p.mfe_pc in
      let worst = exit_excursion pv p.entry_price exit_price islong p.mae_pc in
      record {
        pnl = p.position_profit;
        bars = bars_in_trade ctx.bar p.entry_bar;
        mfe_pc = if p.mfe_pc ≺ best then best else p.mfe_pc;
        mae_pc = if worst ≺ p.mae_pc then worst else p.mae_pc;
        contracts = p.max_contracts;
        entries = p.entries;
        size = size;
        islong = islong;
        entry_px = p.entry_price;
        exit_px = f32 exit_price;
        entry_bar = p.entry_bar;
        exit_bar = ctx.bar;
        entry_date = p.entry_date;
        entry_time = p.entry_time;
        exit_date = ctx.date;
        exit_time = ctx.time;
        entry_name = p.entry_name;
        exit_name = ctx.name;
        entry_cat = p.entry_cat;
        exit_cat = ctx.cat;
      }

  unfoldable pub record_closed_trade :
      W → Position W → W → ℕ → Bool → FillContext → Account W → Account W
  unfolding snapshot fold_trade
  record_closed_trade pv p exit_price size islong ctx a =
      let t = snapshot pv p exit_price size islong ctx in
      record a {
        closed_trades = a.closed_trades ++ (t ∷ []);
        stats = fold_trade t.pnl t.bars a.stats;
      }

  unfoldable pub update_gross_pnl : W → Account W → Account W
  update_gross_pnl pnl a =
      if is_positive pnl
      then record a { gross_profit = a.gross_profit ⊕ pnl }
      else if pnl ≺ nought
      then record a { gross_loss = a.gross_loss ⊕ pnl }
      else a

  -- `net_profit`, `total_trades` and the gross totals after a realised amount.
  unfoldable pub realise : W → Account W → Account W
  unfolding update_gross_pnl
  realise pnl a =
      update_gross_pnl pnl
        (record a { net_profit = a.net_profit ⊕ pnl; total_trades = a.total_trades + 1 })
