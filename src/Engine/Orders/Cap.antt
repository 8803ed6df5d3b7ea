-- ===== src/Engine/Orders/Cap.antt =====
-- The cap on entries in one direction (engine.py, `max_entries_per_direction` and `_entry_refused`).
use power_bridge.Base.{
  ℕ, ◌+◌, ◌-◌, ◌≤◌, ◌<◌, ◌≡◌, refl, false, List, [], ◌∷◌, arith, ltb, leb, ◌==◌, if◌then◌else◌,
  Bool-cases, inl, inr, length, length-append,
}
use Prim.Native.Nat.{min}
use power_bridge.Float.{Float}
use power_bridge.Engine.State.{
  MarketPosition, flat, long, short, Action, buy, sellshort, sell, buytocover, other, Position,
  FillEngine, is_short,
}
use power_bridge.Engine.Trades.{FillContext}
use power_bridge.Engine.Position.{
  note_entry, enter, reset_flat, reduce, open_or_add_long, open_or_add_short, close_long_fifo,
  close_short, fill, with_average,
}
use power_bridge.Engine.Position.Fifo.{consume_entry_qtys-IsLeft}
use power_bridge.Engine.Position.Shape.{
  IsOpen, IsConsistent, Shape-cases, close_all_long, close_all_short, market_position-enter,
  market_position-with_average,
}
use power_bridge.Engine.Orders.{open_entries_count, entry_refused}

-- An entry that the cap does not refuse leaves room for itself.
room : (cap n : ℕ) → 0 < cap → (if leb cap 0 then false else leb cap n) ≡ false → n < cap
room cap n some_cap ok = ground arith

one_entry :
    (cap k held qty n : ℕ)
    → 0 < cap
    → k ≡ (if held + qty == qty then 1 else n + 1)
    → held ≡ 0
    → k ≤ cap
one_entry cap k held qty n some_cap is none_held = ground arith

one_more :
    (cap k held qty n : ℕ)
    → 0 < cap
    → k ≡ (if held + qty == qty then 1 else n + 1)
    → n < cap
    → k ≤ cap
one_more cap k held qty n some_cap is below = ground arith

module _ {W : Type 0} ⦃fl : Float W⦄ where
  -- An entry on no contracts is the only one; any other is one more.
  entries-enter :
      (side : MarketPosition) (qty : ℕ) (price average : W) (ctx : FillContext) (p : Position W)
      → length (enter side qty price average ctx p).entry_qtys
        ≡ (if p.contracts + qty == qty then 1 else length p.entry_qtys + 1)
  unfolding enter note_entry
  entries-enter side qty price average ctx p = elim (Bool-cases (p.contracts + qty == qty)) [
    | inl first ↦ rw first refl
    | inr more ↦ rw more (length-append p.entry_qtys (qty ∷ []))
  ]

  -- How many entries are open, at most, once an entry has filled.
  count-long :
      (qty : ℕ) (price : W) (ctx : FillContext) (e : FillEngine W)
      → open_entries_count (open_or_add_long qty price ctx e).position
        ≡ (if (e.position).contracts + qty == qty then 1 else length (e.position).entry_qtys + 1)
  unfolding open_or_add_long open_entries_count
  count-long qty price ctx e =
      rw (market_position-enter long qty _ _ ctx e.position)
        (entries-enter long qty _ _ ctx e.position)

  count-short :
      (qty : ℕ) (price : W) (ctx : FillContext) (e : FillEngine W)
      → open_entries_count (open_or_add_short qty price ctx e).position
        ≡ (if (e.position).contracts + qty == qty then 1 else length (e.position).entry_qtys + 1)
  unfolding open_or_add_short open_entries_count
  count-short qty price ctx e =
      rw (market_position-enter short qty _ _ ctx e.position)
        (entries-enter short qty _ _ ctx e.position)

  entries-with_average :
      (xs : List W) (p : Position W) → (with_average xs p).entry_qtys ≡ p.entry_qtys
  entries-with_average [] p = refl
  entries-with_average (x ∷ xs) p = refl

  -- An exit opens no entry.
  count-close_long :
      (qty : ℕ) (price : W) (ctx : FillContext) (e : FillEngine W)
      → (e.position).market_position ≡ long
      → IsOpen e.position
      → open_entries_count (close_long_fifo qty price ctx e).position
        ≤ length (e.position).entry_qtys
  unfolding close_long_fifo open_entries_count reset_flat reduce
  count-close_long qty price ctx e is o =
      let p = e.position in
      let closed = min qty p.contracts in
      let left = consume_entry_qtys-IsLeft closed p.entry_qtys p.entry_labels o.named o.positive in
      elim (Bool-cases (ltb 0 (p.contracts - closed))) [
        | inl some_left ↦
            rw (some_left, market_position-with_average, is, entries-with_average) left.fewer
        | inr none_left ↦ rw none_left (omega arith)
      ]

  -- With a cap of at least one entry for each direction, on a well-formed position: a fill that
  -- `_entry_refused` lets through leaves no more entries open than the cap if no more were open before.
  pub fill-cap :
      (a : Action) (qty : ℕ) (price : W) (ctx : FillContext) (e : FillEngine W)
      → IsConsistent e.position
      → 0 < e.max_entries_per_direction
      → entry_refused a e ≡ false
      → open_entries_count e.position ≤ e.max_entries_per_direction
      → open_entries_count (fill a qty price ctx e).position ≤ e.max_entries_per_direction
  unfolding fill entry_refused open_entries_count
  fill-cap buy qty price ctx e c some_cap ok h = elim (Shape-cases e.position c) [
    | inl (m, n, l) ↦ simp m (one_entry _ _ _ qty _ some_cap (count-long qty price ctx e) n)
    | inr (inl (m, o)) ↦
        let below : length (e.position).entry_qtys < e.max_entries_per_direction =
          room _ _ some_cap (simp m at ok) in
        simp m (one_more _ _ _ qty _ some_cap (count-long qty price ctx e) below)
    | inr (inr (m, o)) ↦ simp m (
        one_entry _ _ _ qty _ some_cap (count-long qty price ctx (close_short price ctx e))
          (close_all_short price ctx e).1)
  ]
  fill-cap sellshort qty price ctx e c some_cap ok h = elim (Shape-cases e.position c) [
    | inl (m, n, l) ↦ simp m (one_entry _ _ _ qty _ some_cap (count-short qty price ctx e) n)
    | inr (inl (m, o)) ↦
        let all = (e.position).contracts in
        simp m (
          one_entry _ _ _ qty _ some_cap
            (count-short qty price ctx (close_long_fifo all price ctx e))
            (close_all_long all price ctx e (omega arith)).1)
    | inr (inr (m, o)) ↦
        let below : length (e.position).entry_qtys < e.max_entries_per_direction =
          room _ _ some_cap (simp m at ok) in
        simp m (one_more _ _ _ qty _ some_cap (count-short qty price ctx e) below)
  ]
  fill-cap sell qty price ctx e c some_cap ok h = elim (Shape-cases e.position c) [
    | inl (m, n, l) ↦ simp m (omega arith)
    | inr (inl (m, o)) ↦
        let held : length (e.position).entry_qtys ≤ e.max_entries_per_direction = simp m at h in
        simp m (omega (arith, count-close_long qty price ctx e m o))
    | inr (inr (m, o)) ↦ simp m (simp m at h)
  ]
  fill-cap buytocover qty price ctx e c some_cap ok h =
      elim (Bool-cases (is_short (e.position).market_position)) [
        | inl covers ↦
            rw covers (none_open (close_short price ctx e).position (close_all_short price ctx e).0)
        | inr stays ↦ rw stays h
      ]
    where
      none_open :
          (p : Position W)
          → p.market_position ≡ flat
          → open_entries_count p ≤ e.max_entries_per_direction
      none_open p is = rw is (omega arith)
  fill-cap other qty price ctx e c some_cap ok h = h
