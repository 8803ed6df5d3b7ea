-- ===== src/Engine/Trades/Rescan.antt =====
-- The running statistics are those of a scan of the whole ledger (engine.py, `_record_closed_trade`
-- and the comment on `_st_*`: "these equal a full rescan").
use Prim.Native.Nat.{max}
use power_bridge.Base.{
  ℕ, suc, ◌+◌, ◌≤◌, ◌≡◌, refl, Bool, true, not, ◌&&◌, List, [], ◌∷◌, ◌++◌, arith, if◌then◌else◌,
  Bool-cases, inl, inr, length, filterb, ℤ, pos, ◌+ℤ◌, int_laws,
}
use power_bridge.Float.{Float, ◌≺◌, is_positive}
use power_bridge.Engine.State.{ClosedTrade, Stats}
use power_bridge.Engine.Trades.{fold_trade}

-- Runs of elements that pass a test: the one at the front, the one at the end, the longest one.
module _ {A : Type 0} (p : A → Bool) where
  abbrev pub all_pass : List A → Bool
  all_pass [] = true
  all_pass (x ∷ xs) = p x && all_pass xs

  abbrev pub leading_run : List A → ℕ
  leading_run [] = 0
  leading_run (x ∷ xs) = if p x then suc (leading_run xs) else 0

  abbrev pub trailing_run : List A → ℕ
  trailing_run [] = 0
  trailing_run (x ∷ xs) = if p x && all_pass xs then suc (length xs) else trailing_run xs

  abbrev pub longest_run : List A → ℕ
  longest_run [] = 0
  longest_run (x ∷ xs) = max (leading_run (x ∷ xs)) (longest_run xs)

  abbrev weight : A → ℕ
  weight x = if p x then 1 else 0

  length-filterb_snoc :
      (xs : List A) (x : A) → length (filterb p (xs ++ (x ∷ []))) ≡ length (filterb p xs) + weight x
  length-filterb_snoc [] x = ground arith
  length-filterb_snoc (y ∷ xs) x = ground (arith, length-filterb_snoc xs x)

  length_snoc : (xs : List A) (x : A) → length (xs ++ (x ∷ [])) ≡ length xs + 1
  length_snoc [] x = omega arith
  length_snoc (y ∷ xs) x = omega (arith, length_snoc xs x)

  all_pass_snoc : (xs : List A) (x : A) → all_pass (xs ++ (x ∷ [])) ≡ (all_pass xs && p x)
  all_pass_snoc [] x = ground arith
  all_pass_snoc (y ∷ xs) x = ground (arith, all_pass_snoc xs x)

  leading_run_snoc :
      (xs : List A) (x : A)
      → leading_run (xs ++ (x ∷ []))
        ≡ (if all_pass xs then length xs + weight x else leading_run xs)
  leading_run_snoc [] x = ground arith
  leading_run_snoc (y ∷ xs) x = ground (arith, leading_run_snoc xs x)

  trailing_run_snoc :
      (xs : List A) (x : A)
      → trailing_run (xs ++ (x ∷ [])) ≡ (if p x then trailing_run xs + 1 else 0)
  trailing_run_snoc [] x = ground arith
  trailing_run_snoc (y ∷ xs) x =
      ground (arith, trailing_run_snoc xs x, all_pass_snoc xs x, length_snoc xs x)

  runs_bound :
      (xs : List A)
      → (longest_run xs ≤ length xs)
        × (leading_run xs ≤ longest_run xs)
        × (trailing_run xs ≤ longest_run xs)
        × (all_pass xs ≡ true → leading_run xs ≡ length xs)
        × (all_pass xs ≡ true → trailing_run xs ≡ length xs)
  runs_bound [] = ground arith
  runs_bound (x ∷ xs) = ground (arith, runs_bound xs)

  longest_run_snoc :
      (xs : List A) (x : A)
      → longest_run (xs ++ (x ∷ [])) ≡ max (longest_run xs) (if p x then trailing_run xs + 1 else 0)
  longest_run_snoc [] x = ground arith
  longest_run_snoc (y ∷ xs) x =
      ground (arith, longest_run_snoc xs x, leading_run_snoc xs x, runs_bound xs)

+ℤ_zero : (a : ℤ) → a +ℤ pos 0 ≡ a
+ℤ_zero a = omega int_laws

module _ {W : Type 0} ⦃fl : Float W⦄ where
  open fl use {nought}

  abbrev pub is_win : ClosedTrade W → Bool
  is_win t = is_positive t.pnl

  abbrev pub is_loss : ClosedTrade W → Bool
  is_loss t = not (is_positive t.pnl) && (t.pnl ≺ nought)

  abbrev pub is_even : ClosedTrade W → Bool
  is_even t = not (is_positive t.pnl) && not (t.pnl ≺ nought)

  -- The bars of the trades that pass a test.
  abbrev pub total_bars : (ClosedTrade W → Bool) → List (ClosedTrade W) → ℤ
  total_bars p [] = pos 0
  total_bars p (t ∷ ts) = (if p t then t.bars else pos 0) +ℤ total_bars p ts

  -- The largest profit and the largest loss, from the floor 0, the first of equals.
  abbrev pub largest_win : W → List (ClosedTrade W) → W
  largest_win best [] = best
  largest_win best (t ∷ ts) = largest_win (if is_win t && (best ≺ t.pnl) then t.pnl else best) ts

  abbrev pub largest_loss : W → List (ClosedTrade W) → W
  largest_loss worst [] = worst
  largest_loss worst (t ∷ ts) =
      largest_loss (if is_loss t && (t.pnl ≺ worst) then t.pnl else worst) ts

  -- The statistics of a ledger, each by a scan of its own.
  unfoldable pub rescan : List (ClosedTrade W) → Stats W
  rescan ts = record {
    nwin = length (filterb is_win ts);
    nlos = length (filterb is_loss ts);
    neven = length (filterb is_even ts);
    lrgwin = largest_win nought ts;
    lrglos = largest_loss nought ts;
    totbwin = total_bars is_win ts;
    totblos = total_bars is_loss ts;
    totbeven = total_bars is_even ts;
    cwin = trailing_run is_win ts;
    clos = trailing_run is_loss ts;
    maxcwin = longest_run is_win ts;
    maxclos = longest_run is_loss ts;
  }

  total_bars_snoc :
      (p : ClosedTrade W → Bool) (ts : List (ClosedTrade W)) (t : ClosedTrade W)
      → total_bars p (ts ++ (t ∷ [])) ≡ total_bars p ts +ℤ (if p t then t.bars else pos 0)
  total_bars_snoc p [] t = omega int_laws
  total_bars_snoc p (u ∷ ts) t = rw (total_bars_snoc p ts t) (omega int_laws)

  largest_win_snoc :
      (best : W) (ts : List (ClosedTrade W)) (t : ClosedTrade W)
      → let now = largest_win best ts in
        largest_win best (ts ++ (t ∷ [])) ≡ (if is_win t && (now ≺ t.pnl) then t.pnl else now)
  largest_win_snoc best [] t = refl
  largest_win_snoc best (u ∷ ts) t =
      largest_win_snoc (if is_win u && (best ≺ u.pnl) then u.pnl else best) ts t

  largest_loss_snoc :
      (worst : W) (ts : List (ClosedTrade W)) (t : ClosedTrade W)
      → let now = largest_loss worst ts in
        largest_loss worst (ts ++ (t ∷ [])) ≡ (if is_loss t && (t.pnl ≺ now) then t.pnl else now)
  largest_loss_snoc worst [] t = refl
  largest_loss_snoc worst (u ∷ ts) t =
      largest_loss_snoc (if is_loss u && (u.pnl ≺ worst) then u.pnl else worst) ts t

  ruleset snoc_laws = (
    length-filterb_snoc, trailing_run_snoc, longest_run_snoc, total_bars_snoc, largest_win_snoc,
    largest_loss_snoc,
  )

  -- Folding one more closed trade into the statistics of a ledger gives the statistics of a full scan
  -- of the longer ledger: counts, extremes, bars, and runs of wins and losses.
  pub fold_trade-rescan :
      (ts : List (ClosedTrade W)) (t : ClosedTrade W)
      → fold_trade t.pnl t.bars (rescan ts) ≡ rescan (ts ++ (t ∷ []))
  unfolding fold_trade rescan
  fold_trade-rescan ts t = elim (Bool-cases (is_positive t.pnl)) [
    | inl win ↦ simp (snoc_laws, win, +ℤ_zero) (ground arith)
    | inr not_win ↦ elim (Bool-cases (t.pnl ≺ nought)) [
      | inl loss ↦ simp (snoc_laws, not_win, loss, +ℤ_zero) (ground arith)
      | inr even ↦ simp (snoc_laws, not_win, even, +ℤ_zero) (ground arith)
    ]
  ]

  -- In the scan of a ledger, wins, losses and even trades add up to its length.
  pub rescan_counts :
      (ts : List (ClosedTrade W))
      → (rescan ts).nwin + (rescan ts).nlos + (rescan ts).neven ≡ length ts
  unfolding rescan
  rescan_counts [] = omega arith
  rescan_counts (t ∷ ts) = elim (Bool-cases (is_positive t.pnl)) [
    | inl win ↦ simp win (ground (arith, rescan_counts ts))
    | inr not_win ↦ elim (Bool-cases (t.pnl ≺ nought)) [
      | inl loss ↦ simp (not_win, loss) (ground (arith, rescan_counts ts))
      | inr even ↦ simp (not_win, even) (ground (arith, rescan_counts ts))
    ]
  ]
