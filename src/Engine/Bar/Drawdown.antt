-- ===== src/Engine/Bar/Drawdown.antt =====
-- The peak of equity that the intraday drawdown is measured from (engine.py, `before_bar`).
use power_bridge.Base.{◌≡◌, true, List, [], ◌∷◌, Bool-cases, inl, inr, All}
use power_bridge.Float.{Float, IsOrdered, ◌≼◌, ◌≺◌, max2}
use power_bridge.Engine.State.{Account, FillEngine}
use power_bridge.Engine.Stops.{Bar}
use power_bridge.Engine.Bar.{equities, fold_equity, fold_equities, update_drawdown}

module _ {W : Type 0} ⦃fl : Float W⦄ (ord : IsOrdered W ⦃fl = fl⦄) where
  -- A number, not a NaN.
  abbrev pub IsNumber : W → Type 0
  IsNumber x = (x ≼ x) ≡ true

  max2_bounds :
      (x y : W)
      → IsNumber x
      → IsNumber y
      → ((x ≼ max2 x y) ≡ true) × ((y ≼ max2 x y) ≡ true) × IsNumber (max2 x y)
  max2_bounds x y p q = elim (Bool-cases (x ≺ y)) [
    | inl less ↦ rw less (ord.le_of_lt x y less, q, q)
    | inr no_less ↦ rw no_less (p, ord.le_of_not_lt x y p q no_less, p)
  ]

  fold_equities_peak :
      (eqs : List W) (a : Account W)
      → IsNumber a.peak_equity
      → All IsNumber eqs
      → let a' = fold_equities eqs a in
        ((a.peak_equity ≼ a'.peak_equity) ≡ true) × All (λ eq. (eq ≼ a'.peak_equity) ≡ true) eqs
  unfolding fold_equities fold_equity
  fold_equities_peak [] a p ps = (p, tt)
  fold_equities_peak (eq ∷ eqs) a p (q, qs) =
      let (kept, reached, known) = max2_bounds a.peak_equity eq p q in
      let (higher, all_below) = fold_equities_peak eqs (fold_equity eq a) known qs in
      (ord.le_trans _ _ _ kept higher, (ord.le_trans _ _ _ reached higher, all_below))

  -- Where comparisons have the laws of an order and no equity of the bar's walk is a NaN, nor the old peak:
  -- the peak equity does not fall, and no equity that the bar walks through is above the new peak.
  pub update_drawdown-peak :
      (b : Bar W) (e : FillEngine W)
      → IsNumber (e.account).peak_equity
      → All IsNumber (equities b e)
      → let peak = ((update_drawdown b e).account).peak_equity in
        (((e.account).peak_equity ≼ peak) ≡ true) × All (λ eq. (eq ≼ peak) ≡ true) (equities b e)
  unfolding update_drawdown
  update_drawdown-peak b e p ps = fold_equities_peak (equities b e) e.account p ps
