-- ===== src/ParserTests.antt =====
-- Runs of the parser, and the properties of the front end at concrete programs.
use power_bridge.Base.{
  ℕ, List, [], ◌∷◌, String, ◌≡◌, refl, length, Bool, leb, ◌&&◌, some, arith, true, false, All, ◌↔◌,
}
use power_bridge.Lexer.Chars.{codes, is_blank, one_of}
use power_bridge.Lexer.Step.{
  TokenType, Token, LexError, keyword, ident, number, op, lparen, rparen, semicolon, comma, eof,
}
use power_bridge.Lexer.Loop.{LexResult, lexed, error, out_of_fuel, tokenise_with_comments}
use power_bridge.Parser.Syntax.{
  Text, Stmts, position_kw, ident, call, expr, no_exprs, expr_stmt, stmt, no_stmts, assign,
}
use power_bridge.Parser.Tables.{position_keywords, data_series_keywords, builtin_arity}
use power_bridge.Parser.Monad.{ParserState, Result, ok, find}
use power_bridge.Parser.Primary.{parse_ident_primary, is_user_name}
use power_bridge.Parser.Operators.{parse_expression}
use power_bridge.Parser.Safe.{Ensures, Inside}
use power_bridge.Parser.Program.{statement_at, new_parser, parse}
use power_bridge.Parser.Control.{parse_block}
use power_bridge.Parser.Program.Unclosed.{parse_block-unclosed}
use power_bridge.Parser.Program.Terminates.{IsFinished, IsLocated, parse-IsFinished}
use power_bridge.Semantic.{warnings, wrong_arity, takes, check_visits, semantic_check, scratch_vars}
use power_bridge.Semantic.Walk.{walk_stmt, walk_stmts, collect_declared, walk_expr, names_in}
use power_bridge.Semantic.Checks.{
  first_wrong, unknown_names, report_of, IsFine, semantic_check-report, semantic_check-strict,
}
use power_bridge.Semantic.Scratch.{used_scratch, declared_names_of, add_scratch_decls}
use power_bridge.Semantic.Scratch.Declares.{add_scratch_decls-declares}
use power_bridge.Semantic.Scratch.Once.{add_scratch_decls-once}
use power_bridge.Parser.Numerals.{decimal}
use power_bridge.Parser.Primary.Shadowing.{parse_ident_primary-shadowed}
use power_bridge.Spelling.{inv_poskw}
use power_bridge.Spelling.Reparse.{at_word, past_word, inv_poskw-reparse}
use power_bridge.SourceCache.{
  Answer, done, raised, Cache, tokenise_source, parse_source, parse_afresh,
}
use power_bridge.SourceCache.Refines.{IsSound, parse_source-refines, tokenise_source-refines}

abbrev tok : TokenType → String → Token
tok kind text = (kind, codes text)

-- `Inputs: len(14); If Close > Average(C, len) Then Begin Buy next bar at market; End;`
abbrev crossing : List Token
crossing =
    tok keyword "inputs"
    ∷ tok op ":"
    ∷ tok ident "len"
    ∷ tok lparen "("
    ∷ tok number "14"
    ∷ tok rparen ")"
    ∷ tok semicolon ";"
    ∷ tok keyword "if"
    ∷ tok ident "close"
    ∷ tok op ">"
    ∷ tok ident "average"
    ∷ tok lparen "("
    ∷ tok ident "c"
    ∷ tok comma ","
    ∷ tok ident "len"
    ∷ tok rparen ")"
    ∷ tok keyword "then"
    ∷ tok keyword "begin"
    ∷ tok ident "buy"
    ∷ tok keyword "next"
    ∷ tok ident "bar"
    ∷ tok ident "at"
    ∷ tok ident "market"
    ∷ tok semicolon ";"
    ∷ tok keyword "end"
    ∷ tok semicolon ";"
    ∷ (eof, [])
    ∷ []

parse-IsFinished_example :
    Ensures (IsFinished crossing) (IsLocated (length crossing)) (parse crossing)
parse-IsFinished_example = parse-IsFinished crossing

-- Tokens and the end token, from the lexer of the front end.
abbrev lex_answer : LexResult → Answer LexError (List Token)
lex_answer (lexed l) = done l.tokens
lex_answer (error x p) = raised x
lex_answer out_of_fuel = done []

abbrev ascii_digit : ℕ → Bool
ascii_digit c = leb b'0' c && leb c b'9'

abbrev lex_source : Text → Answer LexError (List Token)
lex_source source = lex_answer (tokenise_with_comments ascii_digit is_blank source)

abbrev parse_tokens : Text → List Token → Answer LexError (Result (Stmts × ParserState))
parse_tokens source toks = done (parse toks)

abbrev stop_source : Text
stop_source = codes "SetExitOnClose;"

abbrev no_entries : Cache (List Token) (Result (Stmts × ParserState))
no_entries = []

parse_source-refines_example :
    ((parse_source lex_source parse_tokens stop_source no_entries).0
      ≡ parse_afresh lex_source parse_tokens stop_source)
    × IsSound lex_source parse_tokens
        (parse_source lex_source parse_tokens stop_source no_entries).1
parse_source-refines_example =
    parse_source-refines lex_source parse_tokens stop_source no_entries
      (record { entries = tt; size = omega arith })

tokenise_source-refines_example :
    ((tokenise_source lex_source parse_tokens stop_source no_entries).0 ≡ lex_source stop_source)
    × IsSound lex_source parse_tokens
        (tokenise_source lex_source parse_tokens stop_source no_entries).1
tokenise_source-refines_example =
    tokenise_source-refines lex_source parse_tokens stop_source no_entries
      (record { entries = tt; size = omega arith })

-- `EntryPrice` is written for `entry_price`, here in front of a semicolon.
entry_price_spelling : find inv_poskw (codes "entry_price") ≡ some "entryprice"
unfolding inv_poskw position_keywords data_series_keywords
entry_price_spelling = refl

inv_poskw-reparse_example :
    parse_ident_primary parse_expression
      (codes "entryprice")
      (at_word (codes "entryprice") (tok semicolon ";") [] 0 [] [])
    ≡ ok (position_kw (codes "entry_price"), past_word (tok semicolon ";") [] 0 [] [])
inv_poskw-reparse_example =
    inv_poskw-reparse parse_expression (tok semicolon ";") [] 0 [] [] (codes "entry_price")
      "entryprice" entry_price_spelling refl refl refl

-- `begin Buy;` and the end of the source.
abbrev unclosed : ParserState
unclosed = new_parser (tok keyword "begin" ∷ tok ident "buy" ∷ tok semicolon ";" ∷ (eof, []) ∷ [])

parse_block-unclosed_example :
    Ensures (λ _. ⊥) (Inside unclosed) (parse_block (statement_at 4) unclosed)
unfolding new_parser
parse_block-unclosed_example = parse_block-unclosed 4 unclosed (omega arith) refl

-- `Average(Close);`, with an argument too few.
abbrev short_call : Stmts
short_call =
    stmt (expr_stmt (call (codes "average") (expr (ident (codes "close")) no_exprs))) no_stmts

semantic_check-report_example :
    semantic_check false short_call
    ≡ report_of
        (first_wrong (walk_stmts short_call))
        (unknown_names (collect_declared short_call) (walk_stmts short_call))
semantic_check-report_example = semantic_check-report short_call

short_call_report : semantic_check false short_call ≡ wrong_arity (codes "average") 1
unfolding semantic_check check_visits takes builtin_arity walk_stmt walk_expr collect_declared
short_call_report = refl

semantic_check-strict_example :
    (semantic_check true short_call ≡ warnings [])
    ↔ All (IsFine (collect_declared short_call)) (walk_stmts short_call)
semantic_check-strict_example = semantic_check-strict short_call

-- `Value1 = Close;`, which uses a predeclared name.
abbrev scratch_program : Stmts
scratch_program = stmt (assign (ident (codes "value1")) (ident (codes "close"))) no_stmts

value1_used : one_of (codes "value1") (used_scratch scratch_program) ≡ true
unfolding used_scratch walk_stmt walk_expr names_in scratch_vars decimal
value1_used = refl

add_scratch_decls-declares_example :
    one_of (codes "value1") (declared_names_of (add_scratch_decls scratch_program)) ≡ true
add_scratch_decls-declares_example =
    add_scratch_decls-declares scratch_program (codes "value1") value1_used

add_scratch_decls-once_example :
    add_scratch_decls (add_scratch_decls scratch_program) ≡ add_scratch_decls scratch_program
add_scratch_decls-once_example = add_scratch_decls-once scratch_program

-- `EntryPrice;` where `EntryPrice` is a user name.
abbrev own_entry_price : ParserState
own_entry_price = record {
  tokens = tok ident "entryprice" ∷ tok semicolon ";" ∷ (eof, []) ∷ [];
  pos = 0;
  user_names = codes "entryprice" ∷ [];
  declared_names = codes "entryprice" ∷ [];
}

entry_price_keyword : find position_keywords (codes "entryprice") ≡ some "entry_price"
unfolding position_keywords
entry_price_keyword = refl

own_entry_price_named : is_user_name (codes "entryprice") own_entry_price ≡ true
unfolding is_user_name
own_entry_price_named = refl

parse_ident_primary-shadowed_example :
    parse_ident_primary parse_expression (codes "entryprice") own_entry_price
    ≡ ok (
      ident (codes "entryprice"),
      record own_entry_price { tokens = tok semicolon ";" ∷ (eof, []) ∷ []; pos = 1 },
    )
parse_ident_primary-shadowed_example =
    parse_ident_primary-shadowed parse_expression (codes "entryprice") "entry_price"
      (tok semicolon ";") own_entry_price ((eof, []) ∷ []) entry_price_keyword refl
      own_entry_price_named refl refl
