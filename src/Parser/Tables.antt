-- ===== src/Parser/Tables.antt =====
-- parser_tables.py: the lookup tables of the parser, in the order of the source.
mod Builtins
mod Keywords
unfoldable pub use Builtins.*
unfoldable pub use Keywords.*
use power_bridge.Base.{ℕ, String, List, [], ◌∷◌}

-- `ORDER_ACTIONS`
unfoldable pub order_actions : List String
order_actions = "buy" ∷ "sell" ∷ "sellshort" ∷ "buytocover" ∷ []

-- `RISK_FUNCS`
unfoldable pub risk_funcs : List String
risk_funcs =
    "setbreakeven" ∷ "setbreakeven_pt" ∷ "setdollartrailing" ∷ "setexitonclose"
    ∷ "setpercenttrailing" ∷ "setpercenttrailing_pt" ∷ "setprofittarget" ∷ "setprofittarget_pt"
    ∷ "setstopcontract" ∷ "setstoploss" ∷ "setstoploss_pt" ∷ "setstopposition" ∷ "setstopshare"
    ∷ "settrailingstop_pt" ∷ []

-- `PLOT_NAMES`: plot1 to plot9, and plotpb.
unfoldable pub plot_names : List String
plot_names =
    "plot1" ∷ "plot2" ∷ "plot3" ∷ "plot4" ∷ "plot5" ∷ "plot6" ∷ "plot7" ∷ "plot8" ∷ "plot9"
    ∷ "plotpb" ∷ []

-- `DATA_SERIES`
unfoldable pub data_series : List String
data_series =
    "close" ∷ "open" ∷ "high" ∷ "low" ∷ "volume" ∷ "date" ∷ "time" ∷ "time_s" ∷ "ticks" ∷ "upticks"
    ∷ "downticks" ∷ "openint" ∷ "barnumber" ∷ "currentbar" ∷ "lastbaronchart" ∷ "barstatus"
    ∷ "bartype" ∷ "barinterval" ∷ "sessionnumber" ∷ "dayofweek" ∷ "dayofmonth" ∷ "month" ∷ "year"
    ∷ []

-- `COLOR_CONSTANTS`
unfoldable pub color_constants : List (String × ℕ)
color_constants =
    ("black", 0)
    ∷ ("white", 16777215)
    ∷ ("red", 255)
    ∷ ("green", 65280)
    ∷ ("blue", 16711680)
    ∷ ("yellow", 65535)
    ∷ ("cyan", 16776960)
    ∷ ("magenta", 16711935)
    ∷ ("darkred", 128)
    ∷ ("darkgreen", 32768)
    ∷ ("darkblue", 8388608)
    ∷ ("darkcyan", 8421376)
    ∷ ("darkmagenta", 8388736)
    ∷ ("darkyellow", 32896)
    ∷ ("gray", 8421504)
    ∷ ("darkgray", 8421504)
    ∷ ("lightgray", 12632256)
    ∷ ("darkbrown", 2179941)
    ∷ []

-- `STYLE_CONSTANTS`
unfoldable pub style_constants : List (String × ℕ)
style_constants =
    ("tool_solid", 1)
    ∷ ("tool_dashed", 2)
    ∷ ("tool_dotted", 3)
    ∷ ("tool_dashed2", 4)
    ∷ ("tool_dashed3", 5)
    ∷ []

-- `PERIOD_FUNCS`
unfoldable pub period_funcs : List String
period_funcs =
    "opend" ∷ "highd" ∷ "lowd" ∷ "closed" ∷ "volumed" ∷ "openw" ∷ "highw" ∷ "loww" ∷ "closew"
    ∷ "openm" ∷ "highm" ∷ "lowm" ∷ "closem" ∷ []

-- `BUILTIN_ARITY`: every set of accepted counts has one member.
unfoldable pub builtin_arity : List (String × ℕ)
builtin_arity =
    ("average", 2)
    ∷ ("averagefc", 2)
    ∷ ("averagetfc", 2)
    ∷ ("xaverage", 2)
    ∷ ("weightedaverage", 2)
    ∷ ("waverage", 2)
    ∷ ("highest", 2)
    ∷ ("lowest", 2)
    ∷ ("highestbar", 2)
    ∷ ("lowestbar", 2)
    ∷ ("summation", 2)
    ∷ ("momentum", 2)
    ∷ ("roc", 2)
    ∷ ("rateofchange", 2)
    ∷ ("rsi", 2)
    ∷ ("stddev", 3)
    ∷ ("standarddev", 3)
    ∷ ("variance", 3)
    ∷ ("correlation", 3)
    ∷ ("crossesabove", 2)
    ∷ ("crossesbelow", 2)
    ∷ ("absvalue", 1)
    ∷ ("sign", 1)
    ∷ ("square", 1)
    ∷ ("squareroot", 1)
    ∷ ("sqrt", 1)
    ∷ ("intportion", 1)
    ∷ ("fracportion", 1)
    ∷ ("ceiling", 1)
    ∷ ("floor", 1)
    ∷ ("log", 1)
    ∷ ("expvalue", 1)
    ∷ ("power", 2)
    ∷ ("round", 2)
    ∷ ("truerange", 0)
    ∷ ("cci", 1)
    ∷ ("atr", 1)
    ∷ ("avgtruerange", 1)
    ∷ []

-- `_SYMBOL_INFO_KEYWORDS`
unfoldable pub symbol_info_keywords : List String
symbol_info_keywords =
    "symbol" ∷ "symbolname" ∷ "description" ∷ "category" ∷ "symbolcurrencycode" ∷ "expirationdate"
    ∷ []

-- `_PRICE_ABBREVIATIONS`
unfoldable pub price_abbreviations : List (String × String)
price_abbreviations =
    ("o", "open")
    ∷ ("h", "high")
    ∷ ("l", "low")
    ∷ ("c", "close")
    ∷ ("v", "volume")
    ∷ ("i", "openint")
    ∷ []
