-- ===== src/Parser/Tables/Builtins.antt =====
-- parser_tables.py: `BUILTIN_FUNC_MAP`, the runtime function of each builtin, in four parts.
mod First
mod Second
mod Third
mod Fourth
use power_bridge.Base.{String, List, ◌++◌}
use First.{first_part}
use Second.{second_part}
use Third.{third_part}
use Fourth.{fourth_part}

unfoldable pub builtin_func_map : List (String × String)
builtin_func_map = first_part ++ (second_part ++ (third_part ++ fourth_part))
