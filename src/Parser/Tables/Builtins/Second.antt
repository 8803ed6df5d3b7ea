-- ===== src/Parser/Tables/Builtins/Second.antt =====
-- parser_tables.py: `BUILTIN_FUNC_MAP`, the runtime function of each builtin: the second part.
use power_bridge.Base.{String, List, [], ◌∷◌}

unfoldable pub second_part : List (String × String)
second_part =
    ("array_sum", "pl_array_sum")
    ∷ ("array_highest", "pl_array_highest")
    ∷ ("array_lowest", "pl_array_lowest")
    ∷ ("variancearray", "pl_variancearray")
    ∷ ("sortarray", "pl_sortarray")
    ∷ ("barnumberofdata", "__barnumberofdata__")
    ∷ ("setplotbgcolor", "__setplotbgcolor__")
    ∷ ("noplot", "__noplot__")
    ∷ ("setbreakeven", "__setbreakeven__")
    ∷ ("entryname", "__entryname__")
    ∷ ("exitname", "__exitname__")
    ∷ ("allowsendordersalways", "pl_allowsendordersalways")
    ∷ ("arctangent", "pl_arctangent")
    ∷ ("array_compare", "pl_array_compare")
    ∷ ("array_contains", "pl_array_contains")
    ∷ ("array_copy", "pl_array_copy")
    ∷ ("array_getbooleanvalue", "pl_array_getbooleanvalue")
    ∷ ("array_getfloatvalue", "pl_array_getfloatvalue")
    ∷ ("array_getintegervalue", "pl_array_getintegervalue")
    ∷ ("array_getstringvalue", "pl_array_getstringvalue")
    ∷ ("array_gettype", "pl_array_gettype")
    ∷ ("array_indexof", "pl_array_indexof")
    ∷ ("array_setbooleanvalue", "pl_array_setbooleanvalue")
    ∷ ("array_setfloatvalue", "pl_array_setfloatvalue")
    ∷ ("array_setintegervalue", "pl_array_setintegervalue")
    ∷ ("array_setstringvalue", "pl_array_setstringvalue")
    ∷ ("array_setvalrange", "pl_array_setvalrange")
    ∷ ("array_sort", "pl_array_sort")
    ∷ ("arraysize", "pl_arraysize")
    ∷ ("arraystartaddr", "pl_arraystartaddr")
    ∷ ("arw_anchor_to_bars", "pl_arw_anchor_to_bars")
    ∷ ("arw_delete", "pl_arw_delete")
    ∷ ("arw_get_anchor_to_bars", "pl_arw_get_anchor_to_bars")
    ∷ ("arw_getactive", "pl_arw_getactive")
    ∷ ("arw_getbarnumber", "pl_arw_getbarnumber")
    ∷ ("arw_getcolor", "pl_arw_getcolor")
    ∷ ("arw_getdate", "pl_arw_getdate")
    ∷ ("arw_getdirection", "pl_arw_getdirection")
    ∷ ("arw_getfirst", "pl_arw_getfirst")
    ∷ ("arw_getlock", "pl_arw_getlock")
    ∷ ("arw_getnext", "pl_arw_getnext")
    ∷ ("arw_getsize", "pl_arw_getsize")
    ∷ ("arw_getstyle", "pl_arw_getstyle")
    ∷ ("arw_gettext", "pl_arw_gettext")
    ∷ ("arw_gettextattribute", "pl_arw_gettextattribute")
    ∷ ("arw_gettextbgcolor", "pl_arw_gettextbgcolor")
    ∷ ("arw_gettextcolor", "pl_arw_gettextcolor")
    ∷ ("arw_gettextfontname", "pl_arw_gettextfontname")
    ∷ ("arw_gettextsize", "pl_arw_gettextsize")
    ∷ ("arw_gettime", "pl_arw_gettime")
    ∷ ("arw_gettime_dt", "pl_arw_gettime_dt")
    ∷ ("arw_gettime_s", "pl_arw_gettime_s")
    ∷ ("arw_getval", "pl_arw_getval")
    ∷ ("arw_lock", "pl_arw_lock")
    ∷ ("arw_new_bn", "pl_arw_new_bn")
    ∷ ("arw_new_dt", "pl_arw_new_dt")
    ∷ ("arw_setbarnumber", "pl_arw_setbarnumber")
    ∷ ("arw_setcolor", "pl_arw_setcolor")
    ∷ ("arw_setlocation", "pl_arw_setlocation")
    ∷ ("arw_setlocation_bn", "pl_arw_setlocation_bn")
    ∷ ("arw_setlocation_dt", "pl_arw_setlocation_dt")
    ∷ ("arw_setlocation_s", "pl_arw_setlocation_s")
    ∷ ("arw_setsize", "pl_arw_setsize")
    ∷ ("arw_setstyle", "pl_arw_setstyle")
    ∷ ("arw_settext", "pl_arw_settext")
    ∷ ("arw_settextattribute", "pl_arw_settextattribute")
    ∷ ("arw_settextbgcolor", "pl_arw_settextbgcolor")
    ∷ ("arw_settextcolor", "pl_arw_settextcolor")
    ∷ ("arw_settextfontname", "pl_arw_settextfontname")
    ∷ ("arw_settextsize", "pl_arw_settextsize")
    ∷ ("asksize", "pl_asksize")
    ∷ ("atcommentarybar", "pl_atcommentarybar")
    ∷ ("autosession", "pl_autosession")
    ∷ ("avglist", "pl_avglist")
    ∷ ("bidsize", "pl_bidsize")
    ∷ ("bigpointvalue", "pl_bigpointvalue")
    ∷ ("boxsize", "pl_boxsize")
    ∷ ("changemarketposition", "pl_changemarketposition")
    ∷ ("checkcommentary", "pl_checkcommentary")
    ∷ ("cleardebug", "pl_cleardebug")
    ∷ ("clearprintlog", "pl_clearprintlog")
    ∷ ("commandline", "pl_commandline")
    ∷ ("commentarycl", "pl_commentarycl")
    ∷ ("commentaryenabled", "pl_commentaryenabled")
    ∷ ("commission", "pl_commission")
    ∷ ("computerdatetime", "pl_computerdatetime")
    ∷ ("convert_currency", "pl_convert_currency")
    ∷ ("cosine", "pl_cosine")
    ∷ ("cotangent", "pl_cotangent")
    ∷ ("currentopenint", "pl_currentopenint")
    ∷ ("currenttime_s", "pl_currenttime_s")
    ∷ ("dailyclose", "pl_dailyclose")
    ∷ ("dailyhigh", "pl_dailyhigh")
    ∷ ("dailylimit", "pl_dailylimit")
    ∷ ("dailylow", "pl_dailylow")
    ∷ ("dailyopen", "pl_dailyopen")
    ∷ ("dailyvolume", "pl_dailyvolume")
    ∷ ("datacompression", "pl_datacompression")
    ∷ ("datetime", "pl_datetime")
    ∷ ("datetime2eltime", "pl_datetime2eltime")
    ∷ ("datetime2eltime_s", "pl_datetime2eltime_s")
    ∷ ("datetime_bar_update", "pl_datetime_bar_update")
    ∷ ("datetimetostring", "pl_datetimetostring")
    ∷ ("datetimetostring_ms", "pl_datetimetostring_ms")
    ∷ ("datetojulian", "pl_datetojulian")
    ∷ ("dayfromdatetime", "pl_dayfromdatetime")
    ∷ ("dayofweekfromdatetime", "pl_dayofweekfromdatetime")
    ∷ ("dom_askprice", "pl_dom_askprice")
    ∷ ("dom_askscount", "pl_dom_askscount")
    ∷ ("dom_asksize", "pl_dom_asksize")
    ∷ ("dom_bidprice", "pl_dom_bidprice")
    ∷ ("dom_bidscount", "pl_dom_bidscount")
    ∷ ("dom_bidsize", "pl_dom_bidsize")
    ∷ ("dom_isconnected", "pl_dom_isconnected")
    ∷ ("encodedate", "pl_encodedate")
    ∷ ("encodetime", "pl_encodetime")
    ∷ ("exchlisted", "pl_exchlisted")
    ∷ ("execoffset", "pl_execoffset")
    ∷ ("expirationdatefromvendor", "pl_expirationdatefromvendor")
    ∷ ("fileappend", "pl_fileappend")
    ∷ ("filedelete", "pl_filedelete")
    ∷ ("fill_array", "pl_fill_array")
    ∷ ("formatdate", "pl_formatdate")
    ∷ ("formattime", "pl_formattime")
    ∷ ("getaccount", "pl_getaccount")
    ∷ ("getaccountid", "pl_getaccountid")
    ∷ ("getappinfo", "pl_getappinfo")
    ∷ ("getbackgroundcolor", "pl_getbackgroundcolor")
    ∷ ("getbvalue", "pl_getbvalue")
    ∷ ("getcdromdrive", "pl_getcdromdrive")
    ∷ ("getcountry", "pl_getcountry")
    ∷ ("getcurrency", "pl_getcurrency")
    ∷ ("getexchangename", "pl_getexchangename")
    ∷ ("getgvalue", "pl_getgvalue")
    ∷ ("getnumaccounts", "pl_getnumaccounts")
    ∷ ("getnumpositions", "pl_getnumpositions")
    ∷ []
