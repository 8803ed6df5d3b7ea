-- ===== src/Tests.antt =====
-- The theorems at concrete inputs, in whole cents.
use power_bridge.Base.{
  List, All, Option, map, ◌++◌, ◌&&◌, ◌==◌, ◌≤◌, ◌≡◌, refl, true, false, none, some, [], ◌∷◌, arith,
  ℤ, pos, ◌+ℤ◌, ◌-ℤ◌,
}
use power_bridge.Float.{◌≼◌, ◌≺◌, cents, cents-IsOrdered}
use power_bridge.Engine.State.{
  limit, number, long, close, this, truncates_to, zero_size, is_long, buy, sell, sellshort, market,
  next, Order, RiskUpdate, FillRecord, ClosedTrade, FillEngine, no_risk, no_position, new_engine,
}
use power_bridge.Engine.Trades.{FillContext, fold_trade, snapshot}
use power_bridge.Engine.Trades.Rescan.{rescan, fold_trade-rescan}
use power_bridge.Engine.Position.{consume_entry_qtys, fill, open_or_add_long, signed_position}
use power_bridge.Engine.Position.Fifo.{IsLeft, consume_entry_qtys-IsLeft}
use power_bridge.Engine.Position.Shape.{IsConsistent, fill-IsConsistent}
use power_bridge.Engine.Position.Signed.{target, signed_position-fill}
use power_bridge.Engine.FillLog.{record_fills}
use power_bridge.Engine.FillLog.Net.{net_fills, record_fills-net}
use power_bridge.Engine.Stops.{Bar, close_at_stop}
use power_bridge.Engine.Outcomes.{done, failed, zero_division}
use power_bridge.Engine.Orders.{
  entry_refused, open_entries_count, fill_at, fill_order, check_named_exit, ambiguous_exit,
  fill_sized, fill_and_record,
}
use power_bridge.Engine.Orders.{Candidate, reached}
use power_bridge.Engine.Orders.Cap.{fill-cap}
use power_bridge.Engine.Orders.Prices.{InRange, reached-InRange}
use power_bridge.Engine.Bar.{
  equities, update_drawdown, has_active_risk, no_work_state, full_bar, before_bar, after_bar,
  filter_some,
}
use power_bridge.Engine.Bar.Drawdown.{IsNumber, update_drawdown-peak}
use power_bridge.Engine.Bar.Queues.{stamped, after_bar-queues}
use power_bridge.Engine.Bar.Ready.{before_bar-IsReady, after_bar-IsReady}
use power_bridge.Engine.Bar.FastPath.{IsSettled, SettlesWhenFlat, full_bar-idle, before_bar-settles}
use power_bridge.Engine.Report.{fill_pos_kwargs}
use power_bridge.Engine.Report.Ledger.{fill_pos_kwargs-bounds}
use power_bridge.Engine.Invariant.{
  IsSound, IsReady, IsSized, Yields, Ensures, IsExited, close_at_stop-IsExited, new_engine-IsSound,
}

abbrev entry_context : FillContext
entry_context = record { bar = 3; date = 1240102; time = 935; name = "LE"; cat = 3 }

abbrev idle_engine : FillEngine ℤ
idle_engine = new_engine (pos 50) (pos 25) 2

abbrev bought_engine : FillEngine ℤ
bought_engine = fill buy 3 (pos 1000) entry_context idle_engine

idle_engine-IsConsistent : IsConsistent idle_engine.position
idle_engine-IsConsistent = (refl, refl)

bought_engine-IsConsistent : IsConsistent bought_engine.position
bought_engine-IsConsistent =
    fill-IsConsistent buy 3 (pos 1000) entry_context idle_engine idle_engine-IsConsistent
      (omega arith)

signed_position-fill_example :
    signed_position (fill sell 2 (pos 1025) entry_context bought_engine).position
    ≡ target sell 2 (signed_position bought_engine.position)
signed_position-fill_example =
    signed_position-fill sell 2 (pos 1025) entry_context bought_engine bought_engine-IsConsistent
      (omega arith)

fill-IsConsistent_example :
    IsConsistent (fill sellshort 1 (pos 990) entry_context bought_engine).position
fill-IsConsistent_example =
    fill-IsConsistent sellshort 1 (pos 990) entry_context bought_engine bought_engine-IsConsistent
      (omega arith)

consume_entry_qtys-IsLeft_example :
    IsLeft 3 (2 ∷ 4 ∷ []) ("A" ∷ "B" ∷ []) (consume_entry_qtys 3 (2 ∷ 4 ∷ []) ("A" ∷ "B" ∷ []))
consume_entry_qtys-IsLeft_example =
    consume_entry_qtys-IsLeft 3 (2 ∷ 4 ∷ []) ("A" ∷ "B" ∷ []) refl (omega arith, (omega arith, tt))

idle_engine-IsSound : IsSound idle_engine
idle_engine-IsSound = new_engine-IsSound (pos 50) (pos 25) 2

abbrev a_bar : Bar ℤ
a_bar = record {
  open_price = pos 1000;
  high = pos 1040;
  low = pos 980;
  close_price = pos 1020;
  number = 4;
  date = 1240102;
  time = 936;
}

abbrev buy_order : Order ℤ
buy_order = record {
  action = buy;
  otype = market;
  qty = truncates_to (pos 2);
  timing = next;
  label = "LE";
  extras = [];
}

abbrev stop_update : RiskUpdate ℤ
stop_update = record {
  currency = record no_risk { stop_loss = some (pos 5000) };
  stop_loss_pt = none;
  profit_target_pt = none;
  breakeven_pt = none;
  trailing_stop_pt = none;
  percent_trailing_pt = none;
}

-- An exit of the whole position on the close.
abbrev exit_order : Order ℤ
exit_order = record {
  action = sell;
  otype = close;
  qty = zero_size;
  timing = this;
  label = "LX";
  extras = [];
}

abbrev some_orders : List (Option (Order ℤ))
some_orders = some buy_order ∷ none ∷ some exit_order ∷ []

abbrev ordered_engine : FillEngine ℤ
ordered_engine = after_bar some_orders stop_update (pos 1010) 3 1240102 935 idle_engine

after_bar-queues_example :
    (ordered_engine.pending_orders ≡ buy_order ∷ [])
    × (ordered_engine.onclose_pending
        ≡ idle_engine.onclose_pending ++ map (stamped (pos 1010) 3 1240102 935) (exit_order ∷ []))
after_bar-queues_example =
    after_bar-queues some_orders stop_update (pos 1010) 3 1240102 935 idle_engine

some_orders-IsSized : All IsSized (filter_some some_orders)
some_orders-IsSized = (refl, (refl, tt))

idle_engine-IsReady : IsReady idle_engine
idle_engine-IsReady = record { sound = idle_engine-IsSound; queued = tt; closing = tt }

ordered_engine-IsReady : IsReady ordered_engine
ordered_engine-IsReady =
    after_bar-IsReady some_orders stop_update (pos 1010) 3 1240102 935 idle_engine
      some_orders-IsSized idle_engine-IsReady

before_bar-IsReady_example : Yields IsReady (before_bar true a_bar ordered_engine)
before_bar-IsReady_example = before_bar-IsReady true a_bar ordered_engine ordered_engine-IsReady

-- The bar above with its fill and its stop.
abbrev held_engine : FillEngine ℤ
held_engine = record idle_engine {
  position = record no_position {
    market_position = long;
    contracts = 2;
    entry_price = pos 1000;
    avgentryprice = pos 1000;
    entry_bar = 4;
    entry_prices = pos 1000 ∷ pos 1000 ∷ [];
    entry_qtys = 2 ∷ [];
    entry_labels = "LE" ∷ [];
    max_contracts = 2;
    entries = 1;
  };
  fills = a_fill ∷ a_fill ∷ [];
}
  where
    a_fill : FillRecord ℤ
    a_fill = record { buy_side = true; signal = "LE"; date = 1240102; time = 936; price = pos 1000 }

held_engine-IsSound : IsSound held_engine
unfolding ◌+ℤ◌
held_engine-IsSound = record {
  shape = record {
    some_contracts = omega arith;
    prices = refl;
    sizes = refl;
    named = refl;
    positive = (omega arith, tt);
    peak = omega arith;
    counted = omega arith;
  };
  logged = refl;
  booked = record { scanned = (idle_engine-IsSound.booked).scanned; traded = omega arith };
}

close_at_stop-IsExited_example :
    IsExited held_engine (close_at_stop (pos 980) "stop_loss" entry_context 1240102 936 held_engine)
close_at_stop-IsExited_example =
    close_at_stop-IsExited (pos 980) "stop_loss" entry_context 1240102 936 held_engine
      held_engine-IsSound refl

-- A buy of 0.4 contracts makes a flat engine long with no contract, and a short sale of 0.4 raises.
phantom_long :
    elim (fill_at true a_bar
      (record buy_order { qty = truncates_to (pos 0) })
      (pos 1000)
      idle_engine) [
        | done e ↦ is_long (e.position).market_position && ((e.position).contracts == 0)
        | _ ↦ false
      ]
    ≡ true
unfolding fill_at fill_order entry_refused check_named_exit ambiguous_exit fill_sized
    fill_and_record record_fills fill open_or_add_long
phantom_long = refl

short_of_nothing :
    fill_at true a_bar
      (record buy_order { action = sellshort; qty = truncates_to (pos 0) })
      (pos 1000)
      idle_engine
    ≡ failed zero_division
unfolding fill_at fill_order entry_refused check_named_exit ambiguous_exit fill_sized
short_of_nothing = refl

abbrev a_trade : ClosedTrade ℤ
a_trade = snapshot (pos 50) held_engine.position (pos 1025) 2 true entry_context

fold_trade-rescan_example :
    fold_trade a_trade.pnl a_trade.bars (rescan (a_trade ∷ [])) ≡ rescan (a_trade ∷ a_trade ∷ [])
fold_trade-rescan_example = fold_trade-rescan (a_trade ∷ []) a_trade

idle_engine-IsSettled : IsSettled idle_engine.account
unfolding ◌-ℤ◌
idle_engine-IsSettled = record { no_open_profit = refl; peak_reached = refl; depth_reached = refl }

idle_engine_idle : no_work_state idle_engine ≡ true
unfolding no_work_state has_active_risk
idle_engine_idle = refl

full_bar-idle_example : full_bar true a_bar idle_engine ≡ done idle_engine
full_bar-idle_example = full_bar-idle true a_bar idle_engine idle_engine_idle idle_engine-IsSettled

ltb_ℤ_irrefl : (x : ℤ) → (x ≺ x) ≡ false
ltb_ℤ_irrefl x = ground arith

before_bar-settles_example : Ensures SettlesWhenFlat (before_bar true a_bar idle_engine)
before_bar-settles_example =
    before_bar-settles ltb_ℤ_irrefl true a_bar idle_engine (λ f. idle_engine-IsSettled)

-- The two contracts that are held are not logged yet.
abbrev unlogged_engine : FillEngine ℤ
unlogged_engine = record held_engine { fills = [] }

record_fills-net_example :
    net_fills (record_fills true "LE" 1240102 936 (pos 1000) (pos 0) 2 unlogged_engine).fills
    ≡ pos 2
record_fills-net_example =
    record_fills-net true "LE" 1240102 936 (pos 1000) (pos 0) 2 unlogged_engine refl
      (λ b. omega arith) (λ b. cc)

fill_pos_kwargs-bounds_example :
    ((fill_pos_kwargs held_engine).openentriescount
      ≤ (fill_pos_kwargs held_engine).current_contracts)
    × ((fill_pos_kwargs held_engine).current_contracts ≤ (fill_pos_kwargs held_engine).maxshares)
fill_pos_kwargs-bounds_example = fill_pos_kwargs-bounds held_engine held_engine-IsSound

abbrev limit_order : Order ℤ
limit_order = record buy_order { otype = limit; extras = number (pos 990) ∷ [] }

abbrev limit_fill : Candidate ℤ
limit_fill = record { low_side = true; at_open = false; order = limit_order; price = pos 990 }

limit_reached : reached a_bar limit_order (pos 990) ≡ some limit_fill
unfolding reached
limit_reached = refl

reached-InRange_example : InRange true a_bar (pos 990) limit_fill
reached-InRange_example =
    reached-InRange cents-IsOrdered a_bar limit_order (pos 990) limit_fill
      (record { above_low = refl; below_high = refl }) limit_reached

cents-IsNumber : (x : ℤ) → IsNumber cents-IsOrdered x
cents-IsNumber x = ground arith

cents-All : (xs : List ℤ) → All (IsNumber cents-IsOrdered) xs
cents-All [] = tt
cents-All (x ∷ xs) = (cents-IsNumber x, cents-All xs)

update_drawdown-peak_example :
    ((pos 0 ≼ ((update_drawdown a_bar held_engine).account).peak_equity) ≡ true)
    × All
        (λ eq. (eq ≼ ((update_drawdown a_bar held_engine).account).peak_equity) ≡ true)
        (equities a_bar held_engine)
update_drawdown-peak_example =
    update_drawdown-peak cents-IsOrdered a_bar held_engine (cents-IsNumber (pos 0))
      (cents-All (equities a_bar held_engine))

room_for_more : entry_refused buy held_engine ≡ false
unfolding entry_refused open_entries_count
room_for_more = refl

one_is_open : open_entries_count held_engine.position ≤ 2
unfolding open_entries_count
one_is_open = omega arith

fill-cap_example : open_entries_count (fill buy 1 (pos 1005) entry_context held_engine).position ≤ 2
fill-cap_example =
    fill-cap buy 1 (pos 1005) entry_context held_engine held_engine-IsSound.shape (omega arith)
      room_for_more one_is_open
