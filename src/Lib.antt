-- ===== src/Lib.antt =====
-- PowerBridge runs EasyLanguage strategies: pl_transpiler/lexer.py and pl_transpiler/parser.py turn
-- source text into a syntax tree, from which Python is generated, and pl_transpiler/bar_loop.py
-- drives the translated strategy over a tape of bars, with pl_transpiler/engine.py filling its
-- orders. This library models the lexer, the parser, the bar loop, the fill engine, the lookback
-- histories and the dates of the tape.
--
-- How the parts interact: for each bar `_drive_bars` (BarLoop.antt) flattens at a change of day if
-- the strategy asked for it, calls `before_bar` of the engine (fills of the orders queued on the
-- bar before, stops, mark to market), calls the strategy, and hands its orders and risk settings to
-- `after_bar`. The engine keeps a position, an account with a ledger of closed trades, two queues
-- of orders, risk settings and a log of fills.
--
--   Base.antt, Base/       lists, tests and integers shared by all files
--   Float.antt             Python's float as a parameter, and whole cents as an instance of it
--   Engine/State.antt      attributes of `FillEngine` (engine.py, `__init__`), in the records Position,
--                          Account, Stats and FillEngine
--   Engine/Position.antt   `_fill`, `_open_or_add_long`, `_open_or_add_short`, `_close_long_fifo`,
--                          `_close_short`, `_consume_entry_qtys`, `_reset_flat`
--   Engine/Trades.antt     `_record_closed_trade` and the running trade statistics
--   Engine/FillLog.antt    `_record_fills`, and `get_mc_trades` of _engine_report.py
--   Engine/Stops.antt      _engine_stops.py: the walk along a bar and `_close_at_stop`
--   Engine/Outcomes.antt   how fills can end: an engine, an unverified exit, a size that fails
--   Engine/Orders.antt     `_execute_onclose_pending`, `_execute_pending_fills`, `_fill_at`,
--                          `_entry_refused`, `_check_named_exit`
--   Engine/Bar.antt        `before_bar`, `after_bar`, `no_work_state`, drawdown and excursions
--   Engine/Report.antt     the position and performance words of _engine_report.py
--   Engine/Invariant/      what fills, stops and bars preserve; the other proofs stand below the file
--                          of the operation
--   BarLoop.antt           bar_loop.py: `_drive_bars`, `_exit_on_close`, `_validate_window`
--   BarLoop/Daily.antt     `_DailyOHLC`, `_session_last_bar`, `_infer_session_end_tm`
--   Lexer/                 lexer.py: characters, positions, one round of the loop, the loop
--   Parser/Tables.antt     parser_tables.py and the keyword tables of _parser_expr.py
--   Parser/Syntax.antt     the nodes of the tree, a constructor for each `type`
--   Parser/Monad.antt      `Parser` of parser.py: its state, `peek`, `advance`, `expect`, `match`, errors
--   Parser/Primary.antt    `parse_primary` and the methods below it, in _parser_expr.py
--   Parser/Operators.antt  `parse_or` down to `parse_unary`, and `parse_expression`
--   Parser/Declarations.antt, Control.antt, Actions.antt, Orders.antt   _parser_stmts.py
--   Parser/Program.antt    `parse_statement`, `parse_program`, `_collect_declared_names`
--   Parser/Safe.antt       the postcondition of the methods; Terminates.antt below each of the files
--                          above proves it of that file's methods
--   SourceCache.antt       `_source_entry`, `tokenise_source`, `parse_source` of parser.py
--   Spelling.antt          codegen_el.py: `_invert_first_wins`, `_INV_POSKW`, `el_keyword`
--   Semantic.antt          semantic.py: `is_known_name`, `semantic_check`; Semantic/Walk.antt: its walk,
--                          as the list of the calls and identifiers that it meets;
--                          Semantic/Scratch.antt: `add_scratch_decls`
--   History.antt           runtime/_rt_history.py
--   Dates.antt             engine_dates.py
--   Tests.antt, RunTests.antt, ParserTests.antt   the theorems at concrete inputs
--
-- Choices. Prices and money are a type with the operations of `Float`, about which nothing is
-- assumed unless a theorem says so. A size of an order is any number that a strategy emits, seen
-- through its truth and its `int()`; contracts are natural numbers. A size of a nan or an
-- infinity, and the division by 0 contracts that a short sale of 0.4 comes to, are failures; a
-- size below 0, of which the code makes a negative count of contracts, is the one size that the
-- model stops at and does not follow. The sign of `market_position` is an enumeration. The method
-- that raises on an unverified exit returns the outcome `unverified`, and whether it raises is the
-- argument `strict`. The seven history lists are one list of bars, which begins with the bars of
-- the caller or with one leading 0. The shared list under a lookback view is an argument of each
-- read, so that later appends are a longer list. The lexer runs on code points, on fuel of one
-- unit for each character and one for the end; every round uses up at least a character. The
-- methods of the parser take what they call recursively, `parse_expression` or `parse_statement`,
-- as an argument; these two, the loops and the prefix operators take as fuel the number of tokens
-- that are left, and one more. Digits and blanks of Unicode, the lengths of months, weekdays, the
-- `int` of a field of a date and the splitting of texts are Python's and are parameters or inputs.
-- The `int` of a number token is that of ASCII digits.
--
-- Not modelled: the words ExitPrice and BarsSinceExit of the reports with the attributes behind
-- them, instrument settings, the choice of which keyword values a strategy receives,
-- `per_bar_extra`, the source positions and spellings in the tree, the code generators, the
-- runtime's builtins, files and command lines, and the accelerator in Rust.
pub mod Base
pub mod Float
pub mod Tests
pub mod RunTests
pub mod ParserTests
pub mod Engine
pub mod Lexer
pub mod Parser
pub mod Spelling
pub mod SourceCache
pub mod Semantic
pub mod BarLoop
pub mod History
pub mod Dates
