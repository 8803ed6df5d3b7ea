-- ===== src/Parser/Program/Unclosed.antt =====
-- _parser_stmts.py and parser.py: a block of statements that no `end` closes.
use power_bridge.Base.{ℕ, suc, ◌<◌, ◌≡◌, false, length}
use power_bridge.Parser.Monad.{ParserState}
use power_bridge.Parser.Control.{parse_block}
use power_bridge.Parser.Control.Unclosed.{has_end, parse_block-refused}
use power_bridge.Parser.Program.{statement_at}
use power_bridge.Parser.Program.Terminates.{Safe-statement_at}
use power_bridge.Parser.Safe.{Ensures, Inside}

-- On a state in whose tokens the keyword `end` does not stand, with fewer tokens than `m` + 1:
-- `parse_block`, whose statements take the fuel `m`, raises an error; a syntax error is at a token that
-- the state has counted or holds, or just after the last one.
pub parse_block-unclosed :
    (m : ℕ) (s : ParserState)
    → length s.tokens < suc m
    → has_end s.tokens ≡ false
    → Ensures (λ _. ⊥) (Inside s) (parse_block (statement_at m) s)
parse_block-unclosed m s few missing = parse_block-refused s (Safe-statement_at m) few missing
