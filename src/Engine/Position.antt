-- ===== src/Engine/Position.antt =====
-- engine.py: `_fill` and the methods under it that open, add to, reduce and close the position.
pub mod Fifo
pub mod Shape
pub mod Signed
use Prim.Native.Nat.{min, max}
use power_bridge.Base.{
  ℕ, zero, suc, ◌+◌, ◌-◌, Bool, true, false, List, [], ◌∷◌, ◌++◌, String, pos, ltb, leb, ◌==◌,
  if◌then◌else◌, length, drop, replicate, ℤ, sub_ℕ,
}
use power_bridge.Float.{Float, ◌⊕◌, ◌⊖◌, ◌⊗◌, ◌⊘◌, num}
use power_bridge.Engine.State.{
  MarketPosition, flat, long, short, Action, buy, sellshort, sell, buytocover, other, Position,
  FillEngine, is_long, is_short,
}
use power_bridge.Engine.Trades.{FillContext, record_closed_trade, realise}

abbrev pub tail {ℓ} : {A : Type ℓ} → List A → List A
tail [] = []
tail (x ∷ xs) = xs

-- `_consume_entry_qtys`: the loop ends when the size is used up, which it is once an entry is left
-- with contracts.
unfoldable pub consume_entry_qtys : ℕ → List ℕ → List String → List ℕ × List String
consume_entry_qtys zero qtys labels = (qtys, labels)
consume_entry_qtys (suc n) [] labels = ([], labels)
consume_entry_qtys (suc n) (q ∷ qtys) labels =
    let taken = min (suc n) q in
    let rest = consume_entry_qtys (suc n - taken) qtys (tail labels) in
    if leb (q - taken) 0 then rest else ((q - taken) ∷ qtys, labels)

module _ {W : Type 0} ⦃fl : Float W⦄ where
  open fl use {nought, f32, sum}

  unfoldable pub reset_position_stats : Position W → Position W
  reset_position_stats p = record p {
    mfe_pc = nought;
    mae_pc = nought;
    max_contracts = 0;
    entries = 1;
  }

  -- `_reset_flat`: the sizes and labels of the entries stay, and nothing reads them while flat.
  unfoldable pub reset_flat : Position W → Position W
  reset_flat p = record p {
    market_position = flat;
    contracts = 0;
    entry_price = nought;
    avgentryprice = nought;
    entry_bar = 0;
    bars_since_entry = pos 0;
    position_profit = nought;
    breakeven_triggered = false;
    peak_profit = nought;
    entry_prices = [];
    entry_date = 0;
    entry_time = 0;
    entry_name = "";
    entry_cat = 0;
  }

  -- The part of the two `_open_or_add_*` methods under `if self.contracts == qty`: the first entry
  -- of a position, or one more. A long's `position_profit` is reset only here.
  unfoldable pub note_entry : MarketPosition → ℕ → FillContext → Position W → Position W
  unfolding reset_position_stats
  note_entry side qty ctx p =
      if p.contracts == qty
      then (let q = reset_position_stats p in
          record q {
            entry_bar = ctx.bar;
            position_profit = if is_long side then nought else p.position_profit;
            entry_date = ctx.date;
            entry_time = ctx.time;
            entry_name = ctx.name;
            entry_cat = ctx.cat;
            entry_qtys = qty ∷ [];
            entry_labels = ctx.name ∷ [];
          })
      else record p {
        entries = p.entries + 1;
        entry_qtys = p.entry_qtys ++ (qty ∷ []);
        entry_labels = p.entry_labels ++ (ctx.name ∷ []);
      }

  -- The rest of both methods: the new size and the average, then `note_entry`, then the trackers.
  unfoldable pub enter : MarketPosition → ℕ → W → W → FillContext → Position W → Position W
  unfolding note_entry
  enter side qty price average ctx p =
      let grown = note_entry side qty ctx (record p {
        market_position = side;
        contracts = p.contracts + qty;
        entry_prices = p.entry_prices ++ replicate qty price;
        entry_price = average;
        avgentryprice = average;
      }) in
      record grown {
        max_contracts = max grown.max_contracts grown.contracts;
        bars_since_entry = pos 0;
        position_profit = if is_short side then nought else grown.position_profit;
        breakeven_triggered = false;
        peak_profit = nought;
      }

  -- The size-weighted entry price, narrowed at each step.
  abbrev average_price : Position W → ℕ → W → W
  average_price p qty price =
      f32 ((f32 (p.entry_price ⊗ num p.contracts) ⊕ price ⊗ num qty) ⊘ num (p.contracts + qty))

  abbrev hold : Position W → FillEngine W → FillEngine W
  hold p e =
      let a = e.account in
      record e {
        position = p;
        account = record a { max_contracts_held = max a.max_contracts_held p.contracts };
      }

  unfoldable pub open_or_add_long : ℕ → W → FillContext → FillEngine W → FillEngine W
  unfolding enter
  open_or_add_long qty fill_price ctx e =
      let p = e.position in
      let price = f32 fill_price in
      let average = if ltb 0 (p.contracts + qty) then average_price p qty price else f32 price in
      hold (enter long qty price average ctx p) e

  -- The division by the new number of contracts raises where that is 0: see `divides_by_zero`.
  unfoldable pub open_or_add_short : ℕ → W → FillContext → FillEngine W → FillEngine W
  unfolding enter
  open_or_add_short qty fill_price ctx e =
      let p = e.position in
      let price = f32 fill_price in hold (enter short qty price (average_price p qty price) ctx p) e

  -- The position after the contracts of an exit are taken off, before it is flattened or priced.
  unfoldable pub reduce : ℕ → W → Position W → Position W
  unfolding consume_entry_qtys
  reduce closed pnl p =
      let left = consume_entry_qtys closed p.entry_qtys p.entry_labels in
      record p {
        position_profit = p.position_profit ⊕ pnl;
        contracts = p.contracts - closed;
        entry_prices = drop closed p.entry_prices;
        entry_qtys = left.0;
        entry_labels = left.1;
      }

  -- `sum(self._entry_prices) / len(self._entry_prices)`, if some are left.
  abbrev pub with_average : List W → Position W → Position W
  with_average [] p = p
  with_average (x ∷ xs) p =
      let average = f32 (sum (x ∷ xs) ⊘ num (length (x ∷ xs))) in
      record p { entry_price = average; avgentryprice = average }

  abbrev pub reprice : Position W → Position W
  reprice p = with_average p.entry_prices p

  unfoldable pub close_long_fifo : ℕ → W → FillContext → FillEngine W → FillEngine W
  unfolding reduce reset_flat
  close_long_fifo qty fill_price ctx e =
      let closed = min qty (e.position).contracts in
      let pnl = (fill_price ⊖ (e.position).entry_price) ⊗ e.point_value ⊗ num closed in
      let p = reduce closed pnl e.position in
      let a = realise pnl e.account in
      if ltb 0 p.contracts then record e { position = reprice p; account = a } else record e {
        position = reset_flat p;
        account = record_closed_trade e.point_value p fill_price closed true ctx a;
      }

  unfoldable pub close_short : W → FillContext → FillEngine W → FillEngine W
  unfolding reset_flat
  close_short fill_price ctx e =
      let p = e.position in
      let price = f32 fill_price in
      let prev = p.contracts in
      let pnl = (p.entry_price ⊖ price) ⊗ e.point_value ⊗ num prev in
      let q = record p { position_profit = p.position_profit ⊕ pnl } in
      record e {
        position = reset_flat q;
        account = record_closed_trade e.point_value q price prev false ctx (realise pnl e.account);
      }

  -- `_fill`: the verb decides whether a fill reverses or only closes.
  unfoldable pub fill : Action → ℕ → W → FillContext → FillEngine W → FillEngine W
  fill buy qty price ctx e =
      if is_short (e.position).market_position
      then open_or_add_long qty price ctx (close_short price ctx e)
      else open_or_add_long qty price ctx e
  fill sellshort qty price ctx e =
      if is_long (e.position).market_position
      then open_or_add_short qty price ctx (close_long_fifo (e.position).contracts price ctx e)
      else open_or_add_short qty price ctx e
  fill sell qty price ctx e =
      if is_long (e.position).market_position then close_long_fifo qty price ctx e else e
  fill buytocover qty price ctx e =
      if is_short (e.position).market_position then close_short price ctx e else e
  fill other qty price ctx e = e

-- `(old_value + fill_price * qty) / self.contracts` of `_open_or_add_short`, which `_fill` reaches with
-- an order to sell short, after the reversal that closes a long: whether the divisor is 0.
abbrev pub divides_by_zero : {W : Type 0} → Action → ℕ → FillEngine W → Bool
divides_by_zero sellshort qty e =
    let held = (if is_long (e.position).market_position then 0 else (e.position).contracts) in
    held + qty == 0
divides_by_zero _ qty e = false

-- Contracts of a position on this side, signed.
abbrev pub signed_contracts : MarketPosition → ℕ → ℤ
signed_contracts flat n = pos 0
signed_contracts long n = pos n
signed_contracts short n = sub_ℕ 0 n

-- `_signed_position`
abbrev pub signed_position : {W : Type 0} → Position W → ℤ
signed_position p = signed_contracts p.market_position p.contracts
