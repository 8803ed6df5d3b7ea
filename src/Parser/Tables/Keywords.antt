-- ===== src/Parser/Tables/Keywords.antt =====
-- _parser_expr.py: its keyword tables, in the order of the source.
use power_bridge.Base.{String, List, [], ◌∷◌}

-- `_POSITION_KEYWORDS`
unfoldable pub position_keywords : List (String × String)
position_keywords =
    ("entryprice", "entry_price")
    ∷ ("exitprice", "exit_price")
    ∷ ("positionprofit", "position_profit")
    ∷ ("barssinceentry", "bars_since_entry")
    ∷ ("barssinceexit", "bars_since_exit")
    ∷ ("grossprofit", "gross_profit")
    ∷ ("grossloss", "gross_loss")
    ∷ ("netprofit", "net_profit")
    ∷ ("maxpositionprofit", "max_position_profit")
    ∷ ("maxpositionloss", "max_position_loss")
    ∷ ("openpositionprofit", "open_position_profit")
    ∷ ("contractprofit", "contract_profit")
    ∷ ("entrydate", "entry_date")
    ∷ ("entrytime", "entry_time")
    ∷ ("exitdate", "exit_date")
    ∷ ("exittime", "exit_time")
    ∷ ("lastbaronchartex", "lastbaronchartex")
    ∷ ("alertenabled", "alert_enabled")
    ∷ ("checkalert", "check_alert")
    ∷ ("maxcontracts", "max_contracts")
    ∷ ("currentcontracts", "current_contracts")
    ∷ ("maxentries", "max_entries")
    ∷ ("maxcontractsheld", "maxcontractsheld")
    ∷ ("maxiddrawdown", "maxiddrawdown")
    ∷ ("maxshares", "maxshares")
    ∷ ("maxsharesheld", "maxcontractsheld")
    ∷ ("openentriescount", "openentriescount")
    ∷ ("marketposition_checked", "_market_position")
    ∷ ("positionprofit_checked", "position_profit")
    ∷ ("barssinceentry_checked", "bars_since_entry")
    ∷ ("barssinceexit_checked", "bars_since_exit")
    ∷ ("entryprice_checked", "entry_price")
    ∷ ("exitprice_checked", "exit_price")
    ∷ ("entrydate_checked", "entry_date")
    ∷ ("entrytime_checked", "entry_time")
    ∷ ("exitdate_checked", "exit_date")
    ∷ ("exittime_checked", "exit_time")
    ∷ ("maxpositionprofit_checked", "max_position_profit")
    ∷ ("maxpositionloss_checked", "max_position_loss")
    ∷ ("contractprofit_checked", "contract_profit")
    ∷ ("avgbarseventrade", "avgbarseventrade")
    ∷ ("avgbarslostrade", "avgbarslostrade")
    ∷ ("avgbarswintrade", "avgbarswintrade")
    ∷ ("avgentryprice", "avgentryprice")
    ∷ ("avgentryprice_at_broker", "avgentryprice_at_broker")
    ∷ ("currententries", "currententries")
    ∷ ("currentshares", "currentshares")
    ∷ ("entrydatetime", "entrydatetime")
    ∷ ("entrydatetime_checked", "entrydatetime_checked")
    ∷ ("exitdatetime", "exitdatetime")
    ∷ ("exitdatetime_checked", "exitdatetime_checked")
    ∷ ("i_avgentryprice", "i_avgentryprice")
    ∷ ("i_avgentryprice_at_broker", "i_avgentryprice_at_broker")
    ∷ ("i_marketposition", "i_marketposition")
    ∷ ("i_marketposition_at_broker", "i_marketposition_at_broker")
    ∷ ("largestlostrade", "largestlostrade")
    ∷ ("largestwintrade", "largestwintrade")
    ∷ ("marketposition_at_broker", "marketposition_at_broker")
    ∷ ("maxconseclosers", "maxconseclosers")
    ∷ ("maxconsecwinners", "maxconsecwinners")
    ∷ ("maxcontractprofit", "maxcontractprofit")
    ∷ ("maxpositionsago", "maxpositionsago")
    ∷ ("numeventrades", "numeventrades")
    ∷ ("numlostrades", "numlostrades")
    ∷ ("numwintrades", "numwintrades")
    ∷ ("openentrycomission", "openentrycomission")
    ∷ ("openentrycontracts", "openentrycontracts")
    ∷ ("openentrydate", "openentrydate")
    ∷ ("openentrymaxprofit", "openentrymaxprofit")
    ∷ ("openentrymaxprofitpercontract", "openentrymaxprofitpercontract")
    ∷ ("openentryminprofit", "openentryminprofit")
    ∷ ("openentryminprofitpercontract", "openentryminprofitpercontract")
    ∷ ("openentryprice", "openentryprice")
    ∷ ("openentryprofit", "openentryprofit")
    ∷ ("openentryprofitpercontract", "openentryprofitpercontract")
    ∷ ("openentrytime", "openentrytime")
    ∷ ("percentprofit", "percentprofit")
    ∷ ("portfolio_grossloss", "portfolio_grossloss")
    ∷ ("portfolio_grossprofit", "portfolio_grossprofit")
    ∷ ("portfolio_netprofit", "portfolio_netprofit")
    ∷ ("portfolio_numlosstrades", "portfolio_numlosstrades")
    ∷ ("portfolio_numwintrades", "portfolio_numwintrades")
    ∷ ("portfolio_openpositionprofit", "portfolio_openpositionprofit")
    ∷ ("portfolio_percentprofit", "portfolio_percentprofit")
    ∷ ("portfolio_totaltrades", "portfolio_totaltrades")
    ∷ ("postradecommission", "postradecommission")
    ∷ ("postradecount", "postradecount")
    ∷ ("postradeentrybar", "postradeentrybar")
    ∷ ("postradeentrycategory", "postradeentrycategory")
    ∷ ("postradeentrydatetime", "postradeentrydatetime")
    ∷ ("postradeentryname", "postradeentryname")
    ∷ ("postradeentryprice", "postradeentryprice")
    ∷ ("postradeexitbar", "postradeexitbar")
    ∷ ("postradeexitcategory", "postradeexitcategory")
    ∷ ("postradeexitdatetime", "postradeexitdatetime")
    ∷ ("postradeexitname", "postradeexitname")
    ∷ ("postradeexitprice", "postradeexitprice")
    ∷ ("postradeislong", "postradeislong")
    ∷ ("postradeisopen", "postradeisopen")
    ∷ ("postradeprofit", "postradeprofit")
    ∷ ("postradesize", "postradesize")
    ∷ ("totalbarseventrades", "totalbarseventrades")
    ∷ ("totalbarslostrades", "totalbarslostrades")
    ∷ ("totalbarswintrades", "totalbarswintrades")
    ∷ ("totaltrades", "totaltrades")
    ∷ ("tradedate", "tradedate")
    ∷ ("tradetime", "tradetime")
    ∷ ("tradevolume", "tradevolume")
    ∷ []

-- `_DATA_SERIES_KEYWORDS`
unfoldable pub data_series_keywords : List (String × String)
data_series_keywords =
    ("ticks", "ticks")
    ∷ ("upticks", "upticks")
    ∷ ("downticks", "downticks")
    ∷ ("openint", "openint")
    ∷ ("barnumber", "barnumber")
    ∷ ("currentbar", "currentbar")
    ∷ ("lastbaronchart", "lastbaronchart")
    ∷ ("barstatus", "barstatus")
    ∷ ("bartype", "bartype")
    ∷ ("barinterval", "barinterval")
    ∷ ("sessionnumber", "sessionnumber")
    ∷ ("dayofweek", "dayofweek")
    ∷ ("dayofmonth", "dayofmonth")
    ∷ ("month", "month")
    ∷ ("year", "year")
    ∷ ("currentdate", "current_date")
    ∷ ("currenttime", "current_time")
    ∷ ("datetime", "datetime")
    ∷ ("sess1starttime", "sess1starttime")
    ∷ ("sessionstarttime", "sessionstarttime")
    ∷ ("sessionendtime", "sessionendtime")
    ∷ ("currentsession", "currentsession")
    ∷ ("dailyopen", "dailyopen")
    ∷ ("dailyhigh", "dailyhigh")
    ∷ ("dailylow", "dailylow")
    ∷ ("dailyclose", "dailyclose")
    ∷ ("prevclose", "prevclose")
    ∷ ("pointvalue", "pointvalue")
    ∷ ("bigpointvalue", "bigpointvalue")
    ∷ ("minmove", "minmove")
    ∷ ("pricescale", "pricescale")
    ∷ ("symbol", "symbol")
    ∷ ("symbolname", "symbolname")
    ∷ ("description", "description")
    ∷ ("category", "category")
    ∷ ("symbolcurrencycode", "symbolcurrencycode")
    ∷ ("expirationdate", "expirationdate")
    ∷ []

-- `_MC_KEYWORDS`
unfoldable pub mc_keywords : List (String × String)
mc_keywords = ("time_s", "time_s") ∷ ("bartype_ex", "bartype_ex") ∷ []

-- `_DATA_OF_SERIES`
unfoldable pub data_of_series : List String
data_of_series =
    "close" ∷ "high" ∷ "low" ∷ "open" ∷ "volume" ∷ "date" ∷ "time" ∷ "ticks" ∷ "upticks"
    ∷ "downticks" ∷ "openint" ∷ []
