-- ===== src/Lexer/Chars.antt =====
-- lexer.py: the characters, words and keywords of the language.
use Prim.Native.Char.{code}
use power_bridge.Base.{
  ℕ, suc, ◌+◌, Bool, true, false, ◌&&◌, ◌||◌, List, [], ◌∷◌, String, leb, ◌==◌, if◌then◌else◌, map,
}

-- The code points of a literal.
abbrev pub codes : String → List ℕ
codes String.[] = []
codes (String.◌∷◌ c s) = code c ∷ codes s

abbrev pub list_eq : List ℕ → List ℕ → Bool
list_eq [] [] = true
list_eq [] (y ∷ ys) = false
list_eq (x ∷ xs) [] = false
list_eq (x ∷ xs) (y ∷ ys) = x == y && list_eq xs ys

abbrev pub one_of : List ℕ → List (List ℕ) → Bool
one_of w [] = false
one_of w (k ∷ ks) = list_eq w k || one_of w ks

abbrev pub newline : ℕ
newline = 10

-- `c in ' \t\r\n'`
abbrev pub is_blank : ℕ → Bool
is_blank c = c == 32 || (c == 9 || (c == 13 || c == 10))

abbrev pub is_upper : ℕ → Bool
is_upper c = leb b'A' c && leb c b'Z'

abbrev pub is_letter : ℕ → Bool
is_letter c = is_upper c || (leb b'a' c && leb c b'z')

-- `[A-Za-z_#]` and `[A-Za-z0-9_.]`
abbrev pub is_word_start : ℕ → Bool
is_word_start c = is_letter c || (c == b'_' || c == b'#')

abbrev pub is_word_char : ℕ → Bool
is_word_char c = is_letter c || ((leb b'0' c && leb c b'9') || (c == b'_' || c == b'.'))

-- `str.lower()` on a word, whose letters are ASCII.
abbrev pub lower : ℕ → ℕ
lower c = if is_upper c then c + 32 else c

-- The length of the longest prefix whose characters pass.
abbrev pub run : (ℕ → Bool) → List ℕ → ℕ
run p [] = 0
run p (c ∷ cs) = if p c then suc (run p cs) else 0

-- `KEYWORDS`
abbrev pub keywords : List (List ℕ)
keywords = map codes (
    "if" ∷ "then" ∷ "else" ∷ "begin" ∷ "end" ∷ "for" ∷ "to" ∷ "downto" ∷ "next" ∷ "while" ∷ "do"
    ∷ "repeat" ∷ "until" ∷ "break" ∷ "continue" ∷ "return" ∷ "abort" ∷ "switch" ∷ "case" ∷ "default"
    ∷ "once" ∷ "inputs" ∷ "input" ∷ "variables" ∷ "variable" ∷ "vars" ∷ "var" ∷ "arrays" ∷ "array"
    ∷ "intrabarpersist" ∷ "and" ∷ "or" ∷ "not" ∷ "mod" ∷ "true" ∷ "false" ∷ "crossesabove"
    ∷ "crossesbelow" ∷ [])
