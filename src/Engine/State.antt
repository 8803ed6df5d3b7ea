-- ===== src/Engine/State.antt =====
-- The state of `FillEngine` (engine.py, `__init__`), its orders, its risk settings and its logs.
-- The flat attributes stand in three records, for the open position, the account and the running
-- trade statistics; `market_position` (0, 1 or -1) is an enumeration.
use power_bridge.Base.{ℕ, Bool, true, false, Option, none, List, [], String, ℤ, pos}
use power_bridge.Float.{Float}

pub data MarketPosition : Type 0 where
  flat long short : MarketPosition

-- `order[0].lower()`; `other` is any verb that `_fill` does not name.
pub data Action : Type 0 where
  buy sellshort sell buytocover other : Action

-- `order[1].lower()`.
pub data OrderType : Type 0 where
  market limit stop close unknown : OrderType

-- `order[3].lower()`; `this` is 'this' or 'thisbar'.
pub data Timing : Type 0 where
  next this elsewhen : Timing

-- An element of `order[5:]`.
pub data Extra (W : Type 0) : Type 0 where
  number : W → Extra W
  word : String → Extra W

-- A size `order[2]` is any number, and two things are read of it: whether it is false (0 or 0.0), and
-- else what `int()` makes of it: 0.4 truncates to 0 and -3.5 to -3, and a nan or an infinity raises.
pub data Size : Type 0 where
  zero_size : Size
  truncates_to : ℤ → Size
  not_finite : Size

-- An order tuple of at least five fields.
pub record Order (W : Type 0) : Type 0 where
  pub action : Action
  pub otype : OrderType
  pub qty : Size
  pub timing : Timing
  pub label : String
  pub extras : List (Extra W)

-- A 'this bar on close' order with its price, bar number, date and time.
pub record OnClose (W : Type 0) : Type 0 where
  pub order : Order W
  pub price : W
  pub bar : ℕ
  pub date : ℕ
  pub time : ℕ

-- `_risk`: a missing key is `none`.
pub record Risk (W : Type 0) : Type 0 where
  pub stop_loss : Option W
  pub profit_target : Option W
  pub breakeven : Option W
  pub dollar_trailing : Option W
  pub percent_trailing : Option (W × W)
  pub exit_on_close : Option Bool

-- The dictionary that a strategy hands to `after_bar`: currency keys and point keys.
pub record RiskUpdate (W : Type 0) : Type 0 where
  pub currency : Risk W
  pub stop_loss_pt : Option W
  pub profit_target_pt : Option W
  pub breakeven_pt : Option W
  pub trailing_stop_pt : Option W
  pub percent_trailing_pt : Option (W × W)

-- A record of `fills`: one contract. `buy_side` is the type 'EntryLong', else 'ExitLong'.
pub record FillRecord (W : Type 0) : Type 0 where
  pub buy_side : Bool
  pub signal : String
  pub date : ℕ
  pub time : ℕ
  pub price : W

-- A snapshot in `closed_trades`.
pub record ClosedTrade (W : Type 0) : Type 0 where
  pub pnl : W
  pub bars : ℤ
  pub mfe_pc : W
  pub mae_pc : W
  pub contracts : ℕ
  pub entries : ℕ
  pub size : ℕ
  pub islong : Bool
  pub entry_px : W
  pub exit_px : W
  pub entry_bar : ℕ
  pub exit_bar : ℕ
  pub entry_date : ℕ
  pub entry_time : ℕ
  pub exit_date : ℕ
  pub exit_time : ℕ
  pub entry_name : String
  pub exit_name : String
  pub entry_cat : ℕ
  pub exit_cat : ℕ

-- The `_st_*` aggregates.
pub record Stats (W : Type 0) : Type 0 where
  pub nwin : ℕ
  pub nlos : ℕ
  pub neven : ℕ
  pub lrgwin : W
  pub lrglos : W
  pub totbwin : ℤ
  pub totblos : ℤ
  pub totbeven : ℤ
  pub cwin : ℕ
  pub clos : ℕ
  pub maxcwin : ℕ
  pub maxclos : ℕ

-- The open position.
pub record Position (W : Type 0) : Type 0 where
  pub market_position : MarketPosition
  pub contracts : ℕ
  pub entry_price : W
  pub avgentryprice : W
  pub bars_since_entry : ℤ
  pub position_profit : W
  pub entry_bar : ℕ
  pub breakeven_triggered : Bool
  pub peak_profit : W
  pub entry_prices : List W
  pub entry_qtys : List ℕ
  pub entry_labels : List String
  pub mfe_pc : W
  pub mae_pc : W
  pub max_contracts : ℕ
  pub entries : ℕ
  pub entry_date : ℕ
  pub entry_time : ℕ
  pub entry_name : String
  pub entry_cat : ℕ

-- The running totals and the ledger of closed positions.
pub record Account (W : Type 0) : Type 0 where
  pub open_position_profit : W
  pub net_profit : W
  pub gross_profit : W
  pub gross_loss : W
  pub total_trades : ℕ
  pub max_contracts_held : ℕ
  pub max_id_drawdown : W
  pub peak_equity : W
  pub closed_trades : List (ClosedTrade W)
  pub stats : Stats W

pub record FillEngine (W : Type 0) : Type 0 where
  pub point_value : W
  pub tick : W
  pub max_entries_per_direction : ℕ
  pub position : Position W
  pub account : Account W
  pub pending_orders : List (Order W)
  pub onclose_pending : List (OnClose W)
  pub risk : Risk W
  pub fills : List (FillRecord W)
  pub fills_v1 : List (FillRecord W)
  pub fast_path_hits : ℕ

abbrev pub is_flat : MarketPosition → Bool
is_flat flat = true
is_flat _ = false

abbrev pub is_long : MarketPosition → Bool
is_long long = true
is_long _ = false

abbrev pub is_short : MarketPosition → Bool
is_short short = true
is_short _ = false

module _ {W : Type 0} ⦃fl : Float W⦄ where
  open fl use {nought}

  abbrev pub no_risk : Risk W
  no_risk = record {
    stop_loss = none;
    profit_target = none;
    breakeven = none;
    dollar_trailing = none;
    percent_trailing = none;
    exit_on_close = none;
  }

  abbrev pub no_stats : Stats W
  no_stats = record {
    nwin = 0;
    nlos = 0;
    neven = 0;
    lrgwin = nought;
    lrglos = nought;
    totbwin = pos 0;
    totblos = pos 0;
    totbeven = pos 0;
    cwin = 0;
    clos = 0;
    maxcwin = 0;
    maxclos = 0;
  }

  abbrev pub no_position : Position W
  no_position = record {
    market_position = flat;
    contracts = 0;
    entry_price = nought;
    avgentryprice = nought;
    bars_since_entry = pos 0;
    position_profit = nought;
    entry_bar = 0;
    breakeven_triggered = false;
    peak_profit = nought;
    entry_prices = [];
    entry_qtys = [];
    entry_labels = [];
    mfe_pc = nought;
    mae_pc = nought;
    max_contracts = 0;
    entries = 0;
    entry_date = 0;
    entry_time = 0;
    entry_name = "";
    entry_cat = 0;
  }

  abbrev pub no_account : Account W
  no_account = record {
    open_position_profit = nought;
    net_profit = nought;
    gross_profit = nought;
    gross_loss = nought;
    total_trades = 0;
    max_contracts_held = 0;
    max_id_drawdown = nought;
    peak_equity = nought;
    closed_trades = [];
    stats = no_stats;
  }

  -- `FillEngine(point_value, tick, max_entries_per_direction=cap)`
  abbrev pub new_engine : W → W → ℕ → FillEngine W
  new_engine point_value tick cap = record {
    point_value = point_value;
    tick = tick;
    max_entries_per_direction = cap;
    position = no_position;
    account = no_account;
    pending_orders = [];
    onclose_pending = [];
    risk = no_risk;
    fills = [];
    fills_v1 = [];
    fast_path_hits = 0;
  }
