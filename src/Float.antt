-- ===== src/Float.antt =====
-- Python's `float` and what the engine does with it: arithmetic, comparisons, `sum`, `math.floor`,
-- `math.ceil`, `round` and the narrowing `f32` of pl_transpiler/runtime/_rt_core.py (a `c_float`).
-- None of it is code of the repository, so the type and its operations are a parameter.
use power_bridge.Base.{
  ℕ, ◌/◌, ◌≡◌, Bool, true, false, not, List, [], ◌∷◌, arith, if◌then◌else◌, ◌==◌, ◌&&◌, ℤ, pos,
  neg_part, sub_ℕ, abs_ℤ, ◌+ℤ◌, ◌-ℤ◌, ◌*ℤ◌, ltb_ℤ, leb_ℤ,
}

pub record Float (W : Type 0) : Type 0 where
  pub nought : W
  pub of_ℤ : ℤ → W
  pub add : W → W → W
  pub sub : W → W → W
  pub mul : W → W → W
  pub div : W → W → W
  pub neg : W → W
  pub abs : W → W
  pub lt : W → W → Bool
  pub le : W → W → Bool
  pub eq : W → W → Bool
  pub sum : List W → W
  pub floor : W → ℤ
  pub ceil : W → ℤ
  pub round : W → ℤ
  pub f32 : W → W
  -- the constant `1e-9`
  pub eps : W

module _ {W : Type 0} ⦃fl : Float W⦄ where
  infixl 65 ◌⊕◌ ◌⊖◌
  infixl 70 ◌⊗◌ ◌⊘◌
  infix 50 ◌≼◌ ◌≺◌
  abbrev pub ◌⊕◌ : W → W → W
  a ⊕ b = fl.add a b

  abbrev pub ◌⊖◌ : W → W → W
  a ⊖ b = fl.sub a b

  abbrev pub ◌⊗◌ : W → W → W
  a ⊗ b = fl.mul a b

  abbrev pub ◌⊘◌ : W → W → W
  a ⊘ b = fl.div a b

  -- `a <= b` and `a < b`, as tests.
  abbrev pub ◌≼◌ : W → W → Bool
  a ≼ b = fl.le a b

  abbrev pub ◌≺◌ : W → W → Bool
  a ≺ b = fl.lt a b

  -- An `int` in an arithmetic expression with floats.
  abbrev pub num : ℕ → W
  num n = fl.of_ℤ (pos n)

  -- `max(a, b)` and `min(a, b)` keep the first argument on a tie.
  abbrev pub max2 : W → W → W
  max2 a b = if fl.lt a b then b else a

  abbrev pub min2 : W → W → W
  min2 a b = if fl.lt b a then b else a

  -- `x > 0`
  abbrev pub is_positive : W → Bool
  is_positive x = fl.lt fl.nought x

  -- `bool(x)`
  abbrev pub truthy : W → Bool
  truthy x = not (fl.eq x fl.nought)

-- What IEEE comparison promises; a NaN is the value that is not `<=` itself.
pub record IsOrdered (W : Type 0) ⦃fl : Float W⦄ : Type 0 where
  pub refl_of_le : (x y : W) → fl.le x y ≡ true → (fl.le x x ≡ true) × (fl.le y y ≡ true)
  pub le_of_not_lt :
      (x y : W) → fl.le x x ≡ true → fl.le y y ≡ true → fl.lt x y ≡ false → fl.le y x ≡ true
  pub le_of_lt : (x y : W) → fl.lt x y ≡ true → fl.le x y ≡ true
  pub not_lt_of_le : (x y : W) → fl.le x y ≡ true → fl.lt y x ≡ false
  pub le_trans : (x y z : W) → fl.le x y ≡ true → fl.le y z ≡ true → fl.le x z ≡ true
  -- Narrowing rounds to the nearest single, so it keeps the order.
  pub f32_mono : (x y : W) → fl.le x y ≡ true → fl.le (fl.f32 x) (fl.f32 y) ≡ true

-- Whole cents: an instance in which the tests run and the laws hold.
abbrev div_cents : ℤ → ℤ → ℤ
div_cents a b =
    let q = abs_ℤ a / abs_ℤ b in
    if neg_part a == 0
    then (if neg_part b == 0 then pos q else sub_ℕ 0 q)
    else (if neg_part b == 0 then sub_ℕ 0 q else pos q)

abbrev sum_cents : List ℤ → ℤ
sum_cents [] = pos 0
sum_cents (x ∷ xs) = x +ℤ sum_cents xs

instance abbrev pub cents : Float ℤ
cents = record {
  nought = pos 0;
  of_ℤ = λ n. n;
  add = ◌+ℤ◌;
  sub = ◌-ℤ◌;
  mul = ◌*ℤ◌;
  div = div_cents;
  neg = λ a. pos 0 -ℤ a;
  abs = λ a. pos (abs_ℤ a);
  lt = ltb_ℤ;
  le = leb_ℤ;
  eq = λ a b. leb_ℤ a b && leb_ℤ b a;
  sum = sum_cents;
  floor = λ a. a;
  ceil = λ a. a;
  round = λ a. a;
  f32 = λ a. a;
  eps = pos 0;
}

pub cents-IsOrdered : IsOrdered ℤ ⦃fl = cents⦄
cents-IsOrdered = record {
  refl_of_le = λ x y h. (ground arith, ground arith);
  le_of_not_lt = λ x y p q h. ground arith;
  le_of_lt = λ x y h. ground arith;
  not_lt_of_le = λ x y h. ground arith;
  le_trans = λ x y z h k. ground arith;
  f32_mono = λ x y h. h;
}
