-- ===== src/Parser/Tables/Builtins/Third.antt =====
-- parser_tables.py: `BUILTIN_FUNC_MAP`, the runtime function of each builtin: the third part.
use power_bridge.Base.{String, List, [], ◌∷◌}

unfoldable pub third_part : List (String × String)
third_part =
    ("getplotbgcolor", "pl_getplotbgcolor")
    ∷ ("getplotcolor", "pl_getplotcolor")
    ∷ ("getplotwidth", "pl_getplotwidth")
    ∷ ("getpositionaverageprice", "pl_getpositionaverageprice")
    ∷ ("getpositionopenpl", "pl_getpositionopenpl")
    ∷ ("getpositionquantity", "pl_getpositionquantity")
    ∷ ("getpositionsymbol", "pl_getpositionsymbol")
    ∷ ("getpositiontotalcost", "pl_getpositiontotalcost")
    ∷ ("getrtaccountequity", "pl_getrtaccountequity")
    ∷ ("getrtaccountnetworth", "pl_getrtaccountnetworth")
    ∷ ("getrtsymbolname", "pl_getrtsymbolname")
    ∷ ("getrtunrealizedpl", "pl_getrtunrealizedpl")
    ∷ ("getrvalue", "pl_getrvalue")
    ∷ ("getstrategyname", "pl_getstrategyname")
    ∷ ("getsymbolname", "pl_getsymbolname")
    ∷ ("getuserid", "pl_getuserid")
    ∷ ("getusername", "pl_getusername")
    ∷ ("gradientcolor", "pl_gradientcolor")
    ∷ ("hoursfromdatetime", "pl_hoursfromdatetime")
    ∷ ("i_closedequity", "pl_i_closedequity")
    ∷ ("i_currentcontracts", "pl_i_currentcontracts")
    ∷ ("i_currentshares", "pl_i_currentshares")
    ∷ ("i_getplotvalue", "pl_i_getplotvalue")
    ∷ ("i_openequity", "pl_i_openequity")
    ∷ ("i_setplotvalue", "pl_i_setplotvalue")
    ∷ ("incmonth", "pl_incmonth")
    ∷ ("initialcapital", "pl_initialcapital")
    ∷ ("insideask", "pl_insideask")
    ∷ ("insidebid", "pl_insidebid")
    ∷ ("instr", "pl_instr")
    ∷ ("intrabarordergeneration", "pl_intrabarordergeneration")
    ∷ ("jpy", "pl_jpy")
    ∷ ("juliantodate", "pl_juliantodate")
    ∷ ("last", "pl_last")
    ∷ ("lastcalcdatetime", "pl_lastcalcdatetime")
    ∷ ("lastcalcjdate", "pl_lastcalcjdate")
    ∷ ("lastcalcmmtime", "pl_lastcalcmmtime")
    ∷ ("lastcalcmstime", "pl_lastcalcmstime")
    ∷ ("lastcalcsstime", "pl_lastcalcsstime")
    ∷ ("legacycolortorgb", "pl_legacycolortorgb")
    ∷ ("legacycolorvalue", "pl_legacycolorvalue")
    ∷ ("lower", "pl_lower")
    ∷ ("lpbool", "pl_lpbool")
    ∷ ("lpbyte", "pl_lpbyte")
    ∷ ("lpdouble", "pl_lpdouble")
    ∷ ("lpdword", "pl_lpdword")
    ∷ ("lpfloat", "pl_lpfloat")
    ∷ ("lpint", "pl_lpint")
    ∷ ("lplong", "pl_lplong")
    ∷ ("lpstr", "pl_lpstr")
    ∷ ("lpword", "pl_lpword")
    ∷ ("margin", "pl_margin")
    ∷ ("maxbarsback", "pl_maxbarsback")
    ∷ ("maxbarsforward", "pl_maxbarsforward")
    ∷ ("maxcontractsheld", "pl_maxcontractsheld")
    ∷ ("maxiddrawdown", "pl_maxiddrawdown")
    ∷ ("maxlist2", "pl_maxlist2")
    ∷ ("mc_arw_getactive", "pl_mc_arw_getactive")
    ∷ ("mc_text_getactive", "pl_mc_text_getactive")
    ∷ ("mc_tl_getactive", "pl_mc_tl_getactive")
    ∷ ("mc_tl_new", "pl_mc_tl_new")
    ∷ ("mc_tl_new_bn", "pl_mc_tl_new_bn")
    ∷ ("mc_tl_new_dt", "pl_mc_tl_new_dt")
    ∷ ("mc_tl_new_self", "pl_mc_tl_new_self")
    ∷ ("mc_tl_new_self_bn", "pl_mc_tl_new_self_bn")
    ∷ ("messagelog", "pl_messagelog")
    ∷ ("millisecondsfromdatetime", "pl_millisecondsfromdatetime")
    ∷ ("minlist2", "pl_minlist2")
    ∷ ("minmove", "pl_minmove")
    ∷ ("minutesfromdatetime", "pl_minutesfromdatetime")
    ∷ ("monthfromdatetime", "pl_monthfromdatetime")
    ∷ ("mouseclickbarnumber", "pl_mouseclickbarnumber")
    ∷ ("mouseclickctrlpressed", "pl_mouseclickctrlpressed")
    ∷ ("mouseclickdatanumber", "pl_mouseclickdatanumber")
    ∷ ("mouseclickdatetime", "pl_mouseclickdatetime")
    ∷ ("mouseclickprice", "pl_mouseclickprice")
    ∷ ("mouseclickshiftpressed", "pl_mouseclickshiftpressed")
    ∷ ("nthmaxlist", "pl_nthmaxlist")
    ∷ ("nthminlist", "pl_nthminlist")
    ∷ ("optiontype", "pl_optiontype")
    ∷ ("placemarketorder", "pl_placemarketorder")
    ∷ ("playsound", "pl_playsound")
    ∷ ("plotpaintbar", "pl_plotpaintbar")
    ∷ ("pmm_get_global_named_num", "pl_pmm_get_global_named_num")
    ∷ ("pmm_get_global_named_str", "pl_pmm_get_global_named_str")
    ∷ ("pmm_get_my_named_num", "pl_pmm_get_my_named_num")
    ∷ ("pmm_get_my_named_str", "pl_pmm_get_my_named_str")
    ∷ ("pmm_set_global_named_num", "pl_pmm_set_global_named_num")
    ∷ ("pmm_set_global_named_str", "pl_pmm_set_global_named_str")
    ∷ ("pmm_set_my_named_num", "pl_pmm_set_my_named_num")
    ∷ ("pmm_set_my_named_str", "pl_pmm_set_my_named_str")
    ∷ ("pmm_set_my_status", "pl_pmm_set_my_status")
    ∷ ("pmms_get_strategy_named_num", "pl_pmms_get_strategy_named_num")
    ∷ ("pmms_get_strategy_named_str", "pl_pmms_get_strategy_named_str")
    ∷ ("pmms_set_strategy_named_num", "pl_pmms_set_strategy_named_num")
    ∷ ("pmms_set_strategy_named_str", "pl_pmms_set_strategy_named_str")
    ∷ ("pmms_strategies_allow_entries_all", "pl_pmms_strategies_allow_entries_all")
    ∷ ("pmms_strategies_count", "pl_pmms_strategies_count")
    ∷ ("pmms_strategies_deny_entries_all", "pl_pmms_strategies_deny_entries_all")
    ∷ ("pmms_strategies_get_by_symbol_name", "pl_pmms_strategies_get_by_symbol_name")
    ∷ ("pmms_strategies_in_long_count", "pl_pmms_strategies_in_long_count")
    ∷ ("pmms_strategies_in_short_count", "pl_pmms_strategies_in_short_count")
    ∷ ("pmms_strategies_pause_all", "pl_pmms_strategies_pause_all")
    ∷ ("pmms_strategies_resume_all", "pl_pmms_strategies_resume_all")
    ∷ ("pmms_strategies_set_status_for_all", "pl_pmms_strategies_set_status_for_all")
    ∷ ("pmms_strategy_allow_entries", "pl_pmms_strategy_allow_entries")
    ∷ ("pmms_strategy_allow_long_entries", "pl_pmms_strategy_allow_long_entries")
    ∷ ("pmms_strategy_allow_short_entries", "pl_pmms_strategy_allow_short_entries")
    ∷ ("pmms_strategy_currentcontracts", "pl_pmms_strategy_currentcontracts")
    ∷ ("pmms_strategy_deny_entries", "pl_pmms_strategy_deny_entries")
    ∷ ("pmms_strategy_deny_long_entries", "pl_pmms_strategy_deny_long_entries")
    ∷ ("pmms_strategy_deny_short_entries", "pl_pmms_strategy_deny_short_entries")
    ∷ ("pmms_strategy_is_paused", "pl_pmms_strategy_is_paused")
    ∷ ("pmms_strategy_pause", "pl_pmms_strategy_pause")
    ∷ ("pmms_strategy_resume", "pl_pmms_strategy_resume")
    ∷ ("pmms_strategy_set_status", "pl_pmms_strategy_set_status")
    ∷ ("pmms_strategy_symbol", "pl_pmms_strategy_symbol")
    ∷ ("pointvalue", "pl_pointvalue")
    ∷ ("portfolio_currencycode", "pl_portfolio_currencycode")
    ∷ ("portfolio_currententries", "pl_portfolio_currententries")
    ∷ ("portfolio_getmarginpercontract", "pl_portfolio_getmarginpercontract")
    ∷ ("portfolio_investedcapital", "pl_portfolio_investedcapital")
    ∷ ("portfolio_maxiddrawdown", "pl_portfolio_maxiddrawdown")
    ∷ ("portfolio_maxriskequityperpospercent", "pl_portfolio_maxriskequityperpospercent")
    ∷ ("portfolio_strategydrawdown", "pl_portfolio_strategydrawdown")
    ∷ ("portfolioentriespriority", "pl_portfolioentriespriority")
    ∷ ("prevclose", "pl_prevclose")
    ∷ ("pricescale", "pl_pricescale")
    ∷ ("printer", "pl_printer")
    ∷ ("processmouseevents", "pl_processmouseevents")
    ∷ ("q_ask", "pl_q_ask")
    ∷ ("q_asksize", "pl_q_asksize")
    ∷ ("q_bid", "pl_q_bid")
    ∷ ("q_bidsize", "pl_q_bidsize")
    ∷ ("q_bigpointvalue", "pl_q_bigpointvalue")
    ∷ ("q_date", "pl_q_date")
    ∷ ("q_exchangelisted", "pl_q_exchangelisted")
    ∷ ("q_last", "pl_q_last")
    ∷ ("q_openinterest", "pl_q_openinterest")
    ∷ ("q_previousclose", "pl_q_previousclose")
    ∷ []
