-- ===== src/Lexer.antt =====
-- pl_transpiler/lexer.py: the PowerLanguage lexer. A source is the list of its code points; an
-- index of the loop is an offset with the rest of the source behind it. What `\d` and `str.strip`
-- take for a digit and for white space comes from Unicode's tables, and is a parameter.
pub mod Chars
pub mod Words
pub mod Positions
pub mod Step
pub mod Loop
pub mod Progress
