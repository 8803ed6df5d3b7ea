-- ===== src/Engine/Position/Signed.antt =====
-- What each order verb does to the signed position: `_fill` refines an automaton over the integers.
use Prim.Native.Nat.{min}
use power_bridge.Base.{
  ℕ, ◌+◌, ◌-◌, ◌<◌, ◌≡◌, refl, ◌∙◌, ap, arith, ltb, if◌then◌else◌, Bool-cases, inl, inr, ℤ, pos,
  sub_ℕ, ◌+ℤ◌, ◌-ℤ◌, ltb_ℤ,
}
use power_bridge.Float.{Float}
use power_bridge.Engine.State.{
  long, short, Action, buy, sellshort, sell, buytocover, other, FillEngine,
}
use power_bridge.Engine.Trades.{FillContext}
use power_bridge.Engine.Position.{
  open_or_add_long, open_or_add_short, close_long_fifo, close_short, fill, signed_contracts,
  signed_position,
}
use power_bridge.Engine.Position.Shape.{
  IsConsistent, Shape-cases, market_position-enter, contracts-enter, close_all_long,
  close_all_short, market_position-with_average, contracts-with_average,
}

-- The position that a verb asks for: `buy` and `sellshort` add on their own side and reverse the
-- other, `sell` and `buytocover` close their side and never pass zero.
abbrev pub target : Action → ℕ → ℤ → ℤ
target buy qty s = if ltb_ℤ s (pos 0) then pos qty else s +ℤ pos qty
target sellshort qty s = if ltb_ℤ (pos 0) s then sub_ℕ 0 qty else s -ℤ pos qty
target sell qty s =
    if ltb_ℤ (pos 0) s then (if ltb_ℤ (pos qty) s then s -ℤ pos qty else pos 0) else s
target buytocover qty s = if ltb_ℤ s (pos 0) then pos 0 else s
target other qty s = s

module _ {W : Type 0} ⦃fl : Float W⦄ where
  signed_position-long :
      (qty : ℕ) (price : W) (ctx : FillContext) (e : FillEngine W)
      → signed_position (open_or_add_long qty price ctx e).position
        ≡ pos ((e.position).contracts + qty)
  unfolding open_or_add_long
  signed_position-long qty price ctx e =
      rw (market_position-enter long qty _ _ ctx e.position)
        (ap pos (contracts-enter long qty _ _ ctx e.position))

  signed_position-short :
      (qty : ℕ) (price : W) (ctx : FillContext) (e : FillEngine W)
      → signed_position (open_or_add_short qty price ctx e).position
        ≡ sub_ℕ 0 ((e.position).contracts + qty)
  unfolding open_or_add_short
  signed_position-short qty price ctx e =
      rw (market_position-enter short qty _ _ ctx e.position)
        (ap (sub_ℕ 0) (contracts-enter short qty _ _ ctx e.position))

  signed_position-close_long :
      (qty : ℕ) (price : W) (ctx : FillContext) (e : FillEngine W)
      → (e.position).market_position ≡ long
      → signed_position (close_long_fifo qty price ctx e).position
        ≡ pos ((e.position).contracts - qty)
  unfolding close_long_fifo
  signed_position-close_long qty price ctx e is =
      let p = e.position in
      elim (Bool-cases (ltb 0 (p.contracts - min qty p.contracts))) [
        | inl some_left ↦
            rw (some_left, market_position-with_average, contracts-with_average, is)
              (ap pos (omega arith))
        | inr none_left ↦ rw none_left (ground arith)
      ]

  -- On a well-formed position, a fill of at least one contract moves the signed position as the
  -- verb's automaton says: `buy` and `sellshort` add on their own side and reverse the other side
  -- whole, `sell` takes at most what a long holds, `buytocover` closes a short whole, whatever the
  -- number of contracts, and no other verb moves it.
  pub signed_position-fill :
      (a : Action) (qty : ℕ) (price : W) (ctx : FillContext) (e : FillEngine W)
      → IsConsistent e.position
      → 0 < qty
      → signed_position (fill a qty price ctx e).position
        ≡ target a qty (signed_position e.position)
  unfolding fill ◌+ℤ◌ ◌-ℤ◌
  signed_position-fill buy qty price ctx e c h = elim (Shape-cases e.position c) [
    | inl (m, n, l) ↦ simp m (signed_position-long qty price ctx e ∙ ground arith)
    | inr (inl (m, o)) ↦ simp m (signed_position-long qty price ctx e ∙ ground arith)
    | inr (inr (m, o)) ↦ simp m (
        signed_position-long qty price ctx (close_short price ctx e)
        ∙ ground (arith, (close_all_short price ctx e).1, o.some_contracts))
  ]
  signed_position-fill sellshort qty price ctx e c h = elim (Shape-cases e.position c) [
    | inl (m, n, l) ↦ simp m (signed_position-short qty price ctx e ∙ ground arith)
    | inr (inl (m, o)) ↦
        let all = (e.position).contracts in
        simp m (
          signed_position-short qty price ctx (close_long_fifo all price ctx e)
          ∙ ground (arith, (close_all_long all price ctx e (omega arith)).1, o.some_contracts))
    | inr (inr (m, o)) ↦ simp m (signed_position-short qty price ctx e ∙ ground arith)
  ]
  signed_position-fill sell qty price ctx e c h = elim (Shape-cases e.position c) [
    | inl (m, n, l) ↦ simp m (ground arith)
    | inr (inl (m, o)) ↦
        simp m (signed_position-close_long qty price ctx e m ∙ ground (arith, o.some_contracts))
    | inr (inr (m, o)) ↦ simp m (ground arith)
  ]
  signed_position-fill buytocover qty price ctx e c h = elim (Shape-cases e.position c) [
    | inl (m, n, l) ↦ simp m (ground arith)
    | inr (inl (m, o)) ↦ simp m (ground arith)
    | inr (inr (m, o)) ↦
        let q = (close_short price ctx e).position in
        let closed = close_all_short price ctx e in
        simp m
          (ap (λ k. signed_contracts k q.contracts) closed.0 ∙ ground (arith, o.some_contracts))
  ]
  signed_position-fill other qty price ctx e c h = refl
