-- ===== src/Parser/Tables/Builtins/First.antt =====
-- parser_tables.py: `BUILTIN_FUNC_MAP`, the runtime function of each builtin: the first part.
use power_bridge.Base.{String, List, [], ◌∷◌}

unfoldable pub first_part : List (String × String)
first_part =
    ("average", "pl_average")
    ∷ ("averagefc", "pl_average")
    ∷ ("highest", "pl_highest")
    ∷ ("lowest", "pl_lowest")
    ∷ ("crossesabove", "pl_crosses_above")
    ∷ ("crossesbelow", "pl_crosses_below")
    ∷ ("rsi", "pl_rsi")
    ∷ ("momentum", "pl_momentum")
    ∷ ("summation", "pl_summation")
    ∷ ("stddev", "pl_std_dev")
    ∷ ("absvalue", "__abs__")
    ∷ ("maxlist", "__max__")
    ∷ ("minlist", "__min__")
    ∷ ("log", "__log__")
    ∷ ("sqrt", "__sqrt__")
    ∷ ("power", "__power__")
    ∷ ("truerange", "pl_true_range")
    ∷ ("intportion", "__intportion__")
    ∷ ("fracportion", "__fracportion__")
    ∷ ("sign", "__sign__")
    ∷ ("square", "__square__")
    ∷ ("numtostr", "__numtostr__")
    ∷ ("strtonum", "__strtonum__")
    ∷ ("standarddev", "pl_std_dev")
    ∷ ("macd", "pl_macd")
    ∷ ("macdvalue", "pl_macd")
    ∷ ("macddiff", "pl_macd_diff")
    ∷ ("macdsignal", "pl_macd_signal")
    ∷ ("roc", "pl_roc")
    ∷ ("cci", "pl_cci")
    ∷ ("atr", "pl_atr")
    ∷ ("avgtruerange", "pl_atr")
    ∷ ("fastk", "pl_fast_k")
    ∷ ("fastd", "pl_fast_d")
    ∷ ("slowk", "pl_slow_k")
    ∷ ("slowd", "pl_slow_d")
    ∷ ("linearregvalue", "pl_linear_reg_value")
    ∷ ("linearregslope", "pl_linear_reg_slope")
    ∷ ("variance", "pl_variance")
    ∷ ("ceiling", "__ceiling__")
    ∷ ("floor", "__floor__")
    ∷ ("round", "__round__")
    ∷ ("expvalue", "__expvalue__")
    ∷ ("leftstr", "__leftstr__")
    ∷ ("rightstr", "__rightstr__")
    ∷ ("midstr", "__midstr__")
    ∷ ("strlen", "__strlen__")
    ∷ ("strcontains", "__strcontains__")
    ∷ ("strreplace", "__strreplace__")
    ∷ ("strfind", "__strfind__")
    ∷ ("lowerstr", "__lowerstr__")
    ∷ ("upperstr", "__upperstr__")
    ∷ ("stringformat", "__stringformat__")
    ∷ ("hour", "__hour__")
    ∷ ("minute", "__minute__")
    ∷ ("second", "__second__")
    ∷ ("tl_new", "pl_tl_new")
    ∷ ("tl_setcolor", "pl_tl_setcolor")
    ∷ ("tl_setstyle", "pl_tl_setstyle")
    ∷ ("tl_setwidth", "pl_tl_setwidth")
    ∷ ("tl_delete", "pl_tl_delete")
    ∷ ("text_new", "pl_text_new")
    ∷ ("text_setstring", "pl_text_setstring")
    ∷ ("text_setcolor", "pl_text_setcolor")
    ∷ ("text_delete", "pl_text_delete")
    ∷ ("arw_new", "pl_arw_new")
    ∷ ("plotpb", "__plotpb__")
    ∷ ("printlog", "__printlog__")
    ∷ ("setplotcolor", "__setplotcolor__")
    ∷ ("setplotwidth", "__setplotwidth__")
    ∷ ("setplotstyle", "__setplotstyle__")
    ∷ ("recalculate", "__recalculate__")
    ∷ ("setstopposition", "__setstopposition__")
    ∷ ("averagetfc", "pl_average")
    ∷ ("weightedaverage", "pl_weighted_average")
    ∷ ("waverage", "pl_weighted_average")
    ∷ ("xaverage", "pl_xaverage")
    ∷ ("highestbar", "pl_highest_bar")
    ∷ ("lowestbar", "pl_lowest_bar")
    ∷ ("correlation", "pl_correlation")
    ∷ ("stochk", "__fastk__")
    ∷ ("stochd", "__slowd__")
    ∷ ("calcdate", "pl_calcdate")
    ∷ ("calctime", "pl_calctime")
    ∷ ("dayofweek", "pl_dayofweek")
    ∷ ("iff", "pl_iff")
    ∷ ("currentsession", "pl_currentsession")
    ∷ ("barinterval", "pl_barinterval")
    ∷ ("setdollartrailing", "__setdollartrailing__")
    ∷ ("currentdate", "__currentdate__")
    ∷ ("currenttime", "__currenttime__")
    ∷ ("timetostring", "__timetostring__")
    ∷ ("datetostring", "__datetostring__")
    ∷ ("eldatetodatetime", "eldatetodatetime")
    ∷ ("eltimetodatetime", "__eltimetodatetime__")
    ∷ ("datetimetoeldate", "__datetimetoeldate__")
    ∷ ("datetimetoeltime", "__datetimetoeltime__")
    ∷ ("opend", "__period_data__")
    ∷ ("highd", "__period_data__")
    ∷ ("lowd", "__period_data__")
    ∷ ("closed", "__period_data__")
    ∷ ("volumed", "__period_data__")
    ∷ ("openw", "__period_data__")
    ∷ ("highw", "__period_data__")
    ∷ ("loww", "__period_data__")
    ∷ ("closew", "__period_data__")
    ∷ ("openm", "__period_data__")
    ∷ ("highm", "__period_data__")
    ∷ ("lowm", "__period_data__")
    ∷ ("closem", "__period_data__")
    ∷ ("tl_new_s", "pl_tl_new_s")
    ∷ ("tl_setbegin", "pl_tl_setbegin")
    ∷ ("tl_setend", "pl_tl_setend")
    ∷ ("tl_setextleft", "pl_tl_setextleft")
    ∷ ("tl_setextright", "pl_tl_setextright")
    ∷ ("tl_getbeginbar", "pl_tl_getbeginbar")
    ∷ ("tl_getendbar", "pl_tl_getendbar")
    ∷ ("tl_getbeginval", "pl_tl_getbeginval")
    ∷ ("tl_getendval", "pl_tl_getendval")
    ∷ ("text_new_s", "pl_text_new_s")
    ∷ ("text_setstyle", "pl_text_setstyle")
    ∷ ("text_setlocation", "pl_text_setlocation")
    ∷ ("text_getstring", "pl_text_getstring")
    ∷ ("text_setfontname", "pl_text_setfontname")
    ∷ ("text_setfontsize", "pl_text_setfontsize")
    ∷ ("arw_new_s", "pl_arw_new_s")
    ∷ ("array_setmaxindex", "pl_array_setmaxindex")
    ∷ ("array_getmaxindex", "pl_array_getmaxindex")
    ∷ []
