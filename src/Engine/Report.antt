-- ===== src/Engine/Report.antt =====
-- _engine_report.py: the position and performance words that a strategy reads (`fill_pos_kwargs`),
-- and the statistics and the entry and exit data of a trace row. A dictionary is a record with a
-- field for each key; `_capture_stats` is the caller's choice of the last two.
pub mod Ledger
use power_bridge.Base.{
  ℕ, ◌+◌, Bool, true, false, not, List, [], ◌∷◌, String, ℤ, pos, ◌==◌, if◌then◌else◌,
}
use power_bridge.Float.{Float, ◌⊗◌, ◌⊘◌, num}
use power_bridge.Engine.State.{
  MarketPosition, ClosedTrade, Stats, Position, Account, FillEngine, is_flat,
}
use power_bridge.Engine.Orders.{open_entries_count}

-- `closed_trades[-1]`, or what stands for it if there is none.
abbrev pub last_or {ℓ} : {A : Type ℓ} → A → List A → A
last_or a [] = a
last_or a (x ∷ xs) = last_or x xs

-- The keys of `fill_pos_kwargs`, without `exit_price` and `bars_since_exit`.
pub record PosKwargs (W : Type 0) : Type 0 where
  pub market_position : MarketPosition
  pub current_contracts : ℕ
  pub entry_price : W
  pub entry_date : ℕ
  pub entry_time : ℕ
  pub avgentryprice : W
  pub bars_since_entry : ℤ
  pub open_position_profit : W
  pub position_profit : W
  pub net_profit : W
  pub gross_profit : W
  pub gross_loss : W
  pub totaltrades : ℕ
  pub maxcontractsheld : ℕ
  pub maxiddrawdown : W
  pub maxshares : ℕ
  pub openentriescount : ℕ
  pub stats : Stats W
  pub percentprofit : W
  pub avgbarswintrade : W
  pub avgbarslostrade : W
  pub avgbarseventrade : W

-- The keys of `_inject_trade_stats`.
pub record TradeStats (W : Type 0) : Type 0 where
  pub nwin : ℕ
  pub nlos : ℕ
  pub neven : ℕ
  pub lrgwin : W
  pub lrglos : W
  pub pctprofit : W
  pub maxcwin : ℕ
  pub maxclos : ℕ
  pub totbwin : ℤ
  pub totblos : ℤ
  pub totbeven : ℤ
  pub avgbwin : W
  pub avgblos : W
  pub avgbeven : W
  pub maxctrprofit : W
  pub maxposprofit : W
  pub maxposloss : W
  pub maxctr : ℕ
  pub maxentr : ℕ
  pub maxshr : ℕ
  pub maxshrheld : ℕ
  pub maxposago : ℕ

module _ {W : Type 0} ⦃fl : Float W⦄ where
  open fl use {nought, of_ℤ}

  -- `a / b if b else 0.0`
  abbrev pub ratio : W → ℕ → W
  ratio a b = if b == 0 then nought else a ⊘ num b

  unfoldable pub pct_profit : Stats W → W
  pct_profit s =
      let tt = s.nwin + s.nlos + s.neven in
      if tt == 0 then nought else num s.nwin ⊘ num tt ⊗ num 100

  unfoldable pub avg_bars_win : Stats W → W
  avg_bars_win s = ratio (of_ℤ s.totbwin) s.nwin

  unfoldable pub avg_bars_los : Stats W → W
  avg_bars_los s = ratio (of_ℤ s.totblos) s.nlos

  unfoldable pub avg_bars_even : Stats W → W
  avg_bars_even s = ratio (of_ℤ s.totbeven) s.neven

  unfoldable pub max_shares : Position W → ℕ
  max_shares p = if not (is_flat p.market_position) then p.max_contracts else 0

  unfoldable pub fill_pos_kwargs : FillEngine W → PosKwargs W
  fill_pos_kwargs e =
      let p = e.position in
      let a = e.account in
      record {
        market_position = p.market_position;
        current_contracts = p.contracts;
        entry_price = p.entry_price;
        entry_date = p.entry_date;
        entry_time = p.entry_time;
        avgentryprice = p.avgentryprice;
        bars_since_entry = p.bars_since_entry;
        open_position_profit = a.open_position_profit;
        position_profit = p.position_profit;
        net_profit = a.net_profit;
        gross_profit = a.gross_profit;
        gross_loss = a.gross_loss;
        totaltrades = a.total_trades;
        maxcontractsheld = a.max_contracts_held;
        maxiddrawdown = a.max_id_drawdown;
        maxshares = max_shares p;
        openentriescount = open_entries_count p;
        stats = a.stats;
        percentprofit = pct_profit a.stats;
        avgbarswintrade = avg_bars_win a.stats;
        avgbarslostrade = avg_bars_los a.stats;
        avgbarseventrade = avg_bars_even a.stats;
      }

  -- What the keys on the last closed position hold: its maxima, or zeros.
  abbrev pub last_maxima : List (ClosedTrade W) → W × W × ℕ × ℕ
  last_maxima [] = (nought, nought, 0, 0)
  last_maxima (t ∷ ts) =
      let last = last_or t ts in
      (
        last.mfe_pc ⊗ num last.contracts,
        last.mae_pc ⊗ num last.contracts,
        last.contracts,
        last.entries,
      )

  unfoldable pub inject_trade_stats : FillEngine W → TradeStats W
  inject_trade_stats e =
      let p = e.position in
      let a = e.account in
      let s = a.stats in
      let tt = s.nwin + s.nlos + s.neven in
      let (profit, loss, held, entered) = last_maxima a.closed_trades in
      record {
        nwin = s.nwin;
        nlos = s.nlos;
        neven = s.neven;
        lrgwin = s.lrgwin;
        lrglos = s.lrglos;
        pctprofit = if tt == 0 then nought else num s.nwin ⊘ num tt ⊗ num 100;
        maxcwin = s.maxcwin;
        maxclos = s.maxclos;
        totbwin = s.totbwin;
        totblos = s.totblos;
        totbeven = s.totbeven;
        avgbwin = ratio (of_ℤ s.totbwin) s.nwin;
        avgblos = ratio (of_ℤ s.totblos) s.nlos;
        avgbeven = ratio (of_ℤ s.totbeven) s.neven;
        maxctrprofit = if not (is_flat p.market_position) then p.mfe_pc else nought;
        maxposprofit = profit;
        maxposloss = loss;
        maxctr = held;
        maxentr = entered;
        maxshr = if not (is_flat p.market_position) then p.max_contracts else 0;
        maxshrheld = a.max_contracts_held;
        maxposago = a.total_trades + 1;
      }
