-- ===== src/Lexer/Words.antt =====
-- lexer.py: the words that the test of equality tells apart.
use power_bridge.Base.{ℕ, Bool, true, false, not, List, [], ◌∷◌, ◌≡◌, refl, ◌==◌, ==_iff, &&-both}
use power_bridge.Lexer.Chars.{list_eq}

pub list_eq_sound : (a b : List ℕ) → list_eq a b ≡ true → a ≡ b
list_eq_sound [] [] e = refl
list_eq_sound [] (y ∷ b) e = cc
list_eq_sound (x ∷ a) [] e = cc
list_eq_sound (x ∷ a) (y ∷ b) e =
    let (h, k) = &&-both (x == y) (list_eq a b) e in cc ((==_iff x y).0 h, list_eq_sound a b k)

pub list_eq_refl : (a : List ℕ) → list_eq a a ≡ true
list_eq_refl [] = refl
list_eq_refl (x ∷ a) = simp ((==_iff x x).1 refl) (list_eq_refl a)

pub not-true : (b : Bool) → not b ≡ true → b ≡ false
not-true true e = cc
not-true false e = refl
