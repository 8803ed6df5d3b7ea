-- ===== src/Parser/Tables/Builtins/Fourth.antt =====
-- parser_tables.py: `BUILTIN_FUNC_MAP`, the runtime function of each builtin: the fourth part.
use power_bridge.Base.{String, List, [], ◌∷◌}

unfoldable pub fourth_part : List (String × String)
fourth_part =
    ("q_time", "pl_q_time")
    ∷ ("q_time_dt", "pl_q_time_dt")
    ∷ ("q_time_s", "pl_q_time_s")
    ∷ ("q_totalvolume", "pl_q_totalvolume")
    ∷ ("raiseruntimeerror", "pl_raiseruntimeerror")
    ∷ ("random", "pl_random")
    ∷ ("recalclastbarafter", "pl_recalclastbarafter")
    ∷ ("recalcpersist", "pl_recalcpersist")
    ∷ ("regularsession", "pl_regularsession")
    ∷ ("revsize", "pl_revsize")
    ∷ ("rgb", "pl_rgb")
    ∷ ("rgbtolegacycolor", "pl_rgbtolegacycolor")
    ∷ ("sameexitfromoneentryonce", "pl_sameexitfromoneentryonce")
    ∷ ("scrolltobar", "pl_scrolltobar")
    ∷ ("secondsfromdatetime", "pl_secondsfromdatetime")
    ∷ ("sess1endtime", "pl_sess1endtime")
    ∷ ("sess1firstbartime", "pl_sess1firstbartime")
    ∷ ("sess1starttime", "pl_sess1starttime")
    ∷ ("sess2endtime", "pl_sess2endtime")
    ∷ ("sess2firstbartime", "pl_sess2firstbartime")
    ∷ ("sess2starttime", "pl_sess2starttime")
    ∷ ("sessioncount", "pl_sessioncount")
    ∷ ("sessioncountms", "pl_sessioncountms")
    ∷ ("sessionendday", "pl_sessionendday")
    ∷ ("sessionenddayms", "pl_sessionenddayms")
    ∷ ("sessionendtime", "pl_sessionendtime")
    ∷ ("sessionendtimems", "pl_sessionendtimems")
    ∷ ("sessionlastbar", "pl_sessionlastbar")
    ∷ ("sessionstartday", "pl_sessionstartday")
    ∷ ("sessionstartdayms", "pl_sessionstartdayms")
    ∷ ("sessionstarttime", "pl_sessionstarttime")
    ∷ ("sessionstarttimems", "pl_sessionstarttimems")
    ∷ ("setcustomfitnessvalue", "pl_setcustomfitnessvalue")
    ∷ ("setfpcompareaccuracy", "pl_setfpcompareaccuracy")
    ∷ ("setmaxbarsback", "pl_setmaxbarsback")
    ∷ ("setstopcontract", "pl_setstopcontract")
    ∷ ("setstopshare", "pl_setstopshare")
    ∷ ("sine", "pl_sine")
    ∷ ("slippage", "pl_slippage")
    ∷ ("squareroot", "pl_squareroot")
    ∷ ("strike", "pl_strike")
    ∷ ("stringtodate", "pl_stringtodate")
    ∷ ("stringtodatetime", "pl_stringtodatetime")
    ∷ ("stringtodtformatted", "pl_stringtodtformatted")
    ∷ ("stringtotime", "pl_stringtotime")
    ∷ ("sumlist", "pl_sumlist")
    ∷ ("symbol_close", "pl_symbol_close")
    ∷ ("symbol_date", "pl_symbol_date")
    ∷ ("symbol_downticks", "pl_symbol_downticks")
    ∷ ("symbol_high", "pl_symbol_high")
    ∷ ("symbol_low", "pl_symbol_low")
    ∷ ("symbol_open", "pl_symbol_open")
    ∷ ("symbol_openint", "pl_symbol_openint")
    ∷ ("symbol_tickid", "pl_symbol_tickid")
    ∷ ("symbol_ticks", "pl_symbol_ticks")
    ∷ ("symbol_time", "pl_symbol_time")
    ∷ ("symbol_time_s", "pl_symbol_time_s")
    ∷ ("symbol_upticks", "pl_symbol_upticks")
    ∷ ("symbol_volume", "pl_symbol_volume")
    ∷ ("tangent", "pl_tangent")
    ∷ ("text_anchor_to_bars", "pl_text_anchor_to_bars")
    ∷ ("text_get_anchor_to_bars", "pl_text_get_anchor_to_bars")
    ∷ ("text_getactive", "pl_text_getactive")
    ∷ ("text_getattribute", "pl_text_getattribute")
    ∷ ("text_getbarnumber", "pl_text_getbarnumber")
    ∷ ("text_getbgcolor", "pl_text_getbgcolor")
    ∷ ("text_getborder", "pl_text_getborder")
    ∷ ("text_getcolor", "pl_text_getcolor")
    ∷ ("text_getdate", "pl_text_getdate")
    ∷ ("text_getfirst", "pl_text_getfirst")
    ∷ ("text_getfontname", "pl_text_getfontname")
    ∷ ("text_gethstyle", "pl_text_gethstyle")
    ∷ ("text_getlock", "pl_text_getlock")
    ∷ ("text_getnext", "pl_text_getnext")
    ∷ ("text_getsize", "pl_text_getsize")
    ∷ ("text_gettime", "pl_text_gettime")
    ∷ ("text_gettime_dt", "pl_text_gettime_dt")
    ∷ ("text_gettime_s", "pl_text_gettime_s")
    ∷ ("text_getvalue", "pl_text_getvalue")
    ∷ ("text_getvstyle", "pl_text_getvstyle")
    ∷ ("text_lock", "pl_text_lock")
    ∷ ("text_new_bn", "pl_text_new_bn")
    ∷ ("text_new_dt", "pl_text_new_dt")
    ∷ ("text_setattribute", "pl_text_setattribute")
    ∷ ("text_setbarnumber", "pl_text_setbarnumber")
    ∷ ("text_setbgcolor", "pl_text_setbgcolor")
    ∷ ("text_setborder", "pl_text_setborder")
    ∷ ("text_setlocation_bn", "pl_text_setlocation_bn")
    ∷ ("text_setlocation_dt", "pl_text_setlocation_dt")
    ∷ ("text_setlocation_s", "pl_text_setlocation_s")
    ∷ ("text_setsize", "pl_text_setsize")
    ∷ ("tickid", "pl_tickid")
    ∷ ("time2time_s", "pl_time2time_s")
    ∷ ("time_s2time", "pl_time_s2time")
    ∷ ("tl_anchor_to_bars", "pl_tl_anchor_to_bars")
    ∷ ("tl_get_anchor_to_bars", "pl_tl_get_anchor_to_bars")
    ∷ ("tl_getactive", "pl_tl_getactive")
    ∷ ("tl_getalert", "pl_tl_getalert")
    ∷ ("tl_getbegin_bn", "pl_tl_getbegin_bn")
    ∷ ("tl_getbegin_dt", "pl_tl_getbegin_dt")
    ∷ ("tl_getbegindate", "pl_tl_getbegindate")
    ∷ ("tl_getbegintime", "pl_tl_getbegintime")
    ∷ ("tl_getbegintime_s", "pl_tl_getbegintime_s")
    ∷ ("tl_getcolor", "pl_tl_getcolor")
    ∷ ("tl_getend_bn", "pl_tl_getend_bn")
    ∷ ("tl_getend_dt", "pl_tl_getend_dt")
    ∷ ("tl_getenddate", "pl_tl_getenddate")
    ∷ ("tl_getendtime", "pl_tl_getendtime")
    ∷ ("tl_getendtime_s", "pl_tl_getendtime_s")
    ∷ ("tl_getextleft", "pl_tl_getextleft")
    ∷ ("tl_getextright", "pl_tl_getextright")
    ∷ ("tl_getfirst", "pl_tl_getfirst")
    ∷ ("tl_getlock", "pl_tl_getlock")
    ∷ ("tl_getnext", "pl_tl_getnext")
    ∷ ("tl_getsize", "pl_tl_getsize")
    ∷ ("tl_getstyle", "pl_tl_getstyle")
    ∷ ("tl_getvalue", "pl_tl_getvalue")
    ∷ ("tl_getvalue_bn", "pl_tl_getvalue_bn")
    ∷ ("tl_getvalue_dt", "pl_tl_getvalue_dt")
    ∷ ("tl_getvalue_s", "pl_tl_getvalue_s")
    ∷ ("tl_lock", "pl_tl_lock")
    ∷ ("tl_new_bn", "pl_tl_new_bn")
    ∷ ("tl_new_dt", "pl_tl_new_dt")
    ∷ ("tl_setalert", "pl_tl_setalert")
    ∷ ("tl_setbegin_bn", "pl_tl_setbegin_bn")
    ∷ ("tl_setbegin_dt", "pl_tl_setbegin_dt")
    ∷ ("tl_setbegin_s", "pl_tl_setbegin_s")
    ∷ ("tl_setend_bn", "pl_tl_setend_bn")
    ∷ ("tl_setend_dt", "pl_tl_setend_dt")
    ∷ ("tl_setend_s", "pl_tl_setend_s")
    ∷ ("tl_setsize", "pl_tl_setsize")
    ∷ ("tool_dashed2", "pl_tool_dashed2")
    ∷ ("tool_dashed3", "pl_tool_dashed3")
    ∷ ("varsize", "pl_varsize")
    ∷ ("varstartaddr", "pl_varstartaddr")
    ∷ ("yearfromdatetime", "pl_yearfromdatetime")
    ∷ ("yesterday", "pl_yesterday")
    ∷ []
