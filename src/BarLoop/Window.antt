-- ===== src/BarLoop/Window.antt =====
-- The window of a run (bar_loop.py, `_drive_bars`: `trade_from`, `max_bars_back` and `warmup`): what
-- is counted, what is emitted, and that nothing fills before the window.
use Prim.Native.Nat.{max}
use power_bridge.Base.{
  ℕ, ◌+◌, ◌-◌, ◌≡◌, refl, ap, ◌∙◌, Bool, true, false, ◌&&◌, ◌||◌, Option, List, [], ◌∷◌, ◌++◌,
  arith, Bool-cases, inl, inr, ltb, if◌then◌else◌, length, length-append,
}
use mathlib.Core.Path.{subst, sym}
use mathlib.Core.List.{append-nil, append_assoc}
use power_bridge.Float.{Float}
use power_bridge.Engine.State.{FillEngine}
use power_bridge.Engine.Outcomes.{Outcome, done, unverified, failed}
use power_bridge.Engine.Invariant.{Ensures, Ensures-bind}
use power_bridge.BarLoop.{
  Settings, Call, Answer, answered, threw, Loop, start, init_history, is_history_only, take_in,
  fills_of, take_answer, emit, call, drive_bar, head_date, unless_raised, drive_bars,
}
use power_bridge.BarLoop.Daily.{Tick}

Ensures-all : {A : Type 0} (P : A → Type 0) (m : Outcome A) → ((a : A) → P a) → Ensures P m
Ensures-all P (done a) h = h a
Ensures-all P (unverified v n) h = tt
Ensures-all P (failed x) h = tt

module _ {W : Type 0} ⦃fl : Float W⦄ {S : Type 0} (weekday : ℕ → ℕ)
    (strategy : S → Call W → S × Answer W) (set : Settings) where
  -- The first tape index that is emitted.
  abbrev pub first_row : ℕ
  first_row = max set.max_bars_back (max set.trade_from set.warmup)

  -- The counts after `i` bars of the tape, and the history then.
  pub record IsCounted (i : ℕ) (seen : List (Tick W)) (l : Loop W S) : Type 0 where
    pub numbered : l.barnumber ≡ i - set.max_bars_back
    pub called : l.strategy_calls ≡ i - set.max_bars_back
    pub known : l.history ≡ seen
    pub emitted : length l.rows ≡ i - first_row

  take_answer-counts :
      (i : ℕ) (t : Tick W) (a : S × Answer W) (l : Loop W S)
      → let l' = take_answer weekday strategy set i t a l in
        (l'.barnumber ≡ l.barnumber)
        × (l'.strategy_calls ≡ l.strategy_calls)
        × (l'.history ≡ l.history)
        × (l'.rows ≡ l.rows)
  unfolding take_answer
  take_answer-counts i t (s, answered orders risk) l = (refl, refl, refl, refl)
  take_answer-counts i t (s, threw unimplemented) l = (refl, refl, refl, refl)

  emit-IsCounted :
      (i : ℕ) (seen : List (Tick W)) (l : Loop W S)
      → is_history_only weekday strategy set i ≡ false
      → l.barnumber ≡ i + 1 - set.max_bars_back
      → l.strategy_calls ≡ i + 1 - set.max_bars_back
      → l.history ≡ seen
      → length l.rows ≡ i - first_row
      → let l' = emit weekday strategy set i l in l'.raised ≡ false → IsCounted (i + 1) seen l'
  unfolding emit
  emit-IsCounted i seen l plays n c k r alive = go l.raised refl alive
    where
      quiet : Bool
      quiet = ltb i set.trade_from || (ltb 0 set.warmup && ltb i set.warmup)

      after : Loop W S
      after = record l {
        first_bar = false;
        rows = if quiet then l.rows else l.rows ++ ((i, l.barnumber) ∷ []);
      }

      rows_now :
          length (if quiet then l.rows else l.rows ++ ((i, l.barnumber) ∷ [])) ≡ i + 1 - first_row
      rows_now = elim (Bool-cases quiet) [
        | inl no_row ↦ rw no_row (r ∙ ground arith)
        | inr a_row ↦ rw a_row (length-append l.rows ((i, l.barnumber) ∷ []) ∙ ground arith)
      ]

      go :
          (b : Bool)
          → l.raised ≡ b
          → (if b then l else after).raised ≡ false
          → IsCounted (i + 1) seen (if b then l else after)
      go true is now = cc
      go false is now = record { numbered = n; called = c; known = k; emitted = rows_now }

  -- The counts once the strategy has been called.
  call-IsCounted :
      (i : ℕ) (seen : List (Tick W)) (next : Option ℕ) (t : Tick W) (l : Loop W S)
      → is_history_only weekday strategy set i ≡ false
      → l.barnumber ≡ i + 1 - set.max_bars_back
      → l.strategy_calls ≡ i - set.max_bars_back
      → l.history ≡ seen
      → length l.rows ≡ i - first_row
      → let l' = call weekday strategy set i next t l in
        l'.raised ≡ false → IsCounted (i + 1) seen l'
  unfolding call
  call-IsCounted i seen next t l plays n c k r =
      let (same_number, same_calls, same_history, same_rows) = take_answer-counts i t _ _ in
      emit-IsCounted i seen _ plays (same_number ∙ n) (same_calls ∙ ground arith) (same_history ∙ k)
        (ap length same_rows ∙ r)

  drive_bar-IsCounted :
      (i : ℕ) (seen : List (Tick W)) (next : Option ℕ) (t : Tick W) (l : Loop W S)
      → IsCounted i seen l
      → Ensures
          (λ l'. l'.raised ≡ false → IsCounted (i + 1) (seen ++ (t ∷ [])) l')
          (drive_bar weekday strategy set i next t l)
  unfolding drive_bar take_in
  drive_bar-IsCounted i seen next t l s =
      let l' : Loop W S = take_in weekday strategy set i t l in
      Ensures-bind (λ e. Unit)
        (λ l''. l''.raised ≡ false → IsCounted (i + 1) (seen ++ (t ∷ [])) l'')
        (fills_of weekday strategy set i t l'.barnumber l)
        (λ e. done (
          if is_history_only weekday strategy set i
          then record l' { engine = e }
          else call weekday strategy set i next t (record l' { engine = e })))
        (Ensures-all (λ e. Unit) (fills_of weekday strategy set i t l'.barnumber l) (λ e. tt))
        (λ e q. elim (Bool-cases (is_history_only weekday strategy set i)) [
          | inl history ↦ rw history (λ alive. record {
            numbered = s.numbered ∙ ground arith;
            called = s.called ∙ ground arith;
            known = ap (◌++ (t ∷ [])) s.known;
            emitted = s.emitted ∙ ground arith;
          })
          | inr plays ↦ rw plays (
              call-IsCounted i (seen ++ (t ∷ [])) next t _ plays (ground (arith, s.numbered))
                s.called (ap (◌++ (t ∷ [])) s.known) s.emitted)
        ])

  unless-IsCounted :
      (i n : ℕ) (seen all : List (Tick W)) (l : Loop W S) (rest : Outcome (Loop W S))
      → (l.raised ≡ false → IsCounted i seen l)
      → (IsCounted i seen l → Ensures (λ l'. l'.raised ≡ false → IsCounted n all l') rest)
      → Ensures
          (λ l'. l'.raised ≡ false → IsCounted n all l')
          (unless_raised weekday strategy set l rest)
  unless-IsCounted i n seen all l rest s next = go l.raised refl
    where
      go :
          (b : Bool)
          → l.raised ≡ b
          → Ensures (λ l'. l'.raised ≡ false → IsCounted n all l') (if b then done l else rest)
      go true ends = λ alive. cc
      go false goes_on = next (s goes_on)

  drive_from-IsCounted :
      (i : ℕ) (seen ts : List (Tick W)) (l : Loop W S)
      → IsCounted i seen l
      → Ensures
          (λ l'. l'.raised ≡ false → IsCounted (i + length ts) (seen ++ ts) l')
          (drive_bars weekday strategy set i ts l)
  unfolding drive_bars
  drive_from-IsCounted i seen [] l s = λ alive. record {
    numbered = s.numbered ∙ omega arith;
    called = s.called ∙ omega arith;
    known = s.known ∙ sym (append-nil seen);
    emitted = s.emitted ∙ omega arith;
  }
  drive_from-IsCounted i seen (t ∷ ts) l s =
      Ensures-bind (λ l'. l'.raised ≡ false → IsCounted (i + 1) (seen ++ (t ∷ [])) l')
        (λ l'. l'.raised ≡ false → IsCounted (i + length (t ∷ ts)) (seen ++ (t ∷ ts)) l') _ _
        (drive_bar-IsCounted i seen (head_date weekday strategy set ts) t l s)
        (λ l' q.
          unless-IsCounted (i + 1) (i + length (t ∷ ts)) (seen ++ (t ∷ [])) (seen ++ (t ∷ ts)) l' _
            q
            (λ s'.
              subst
                (λ n.
                  Ensures (λ l''. l''.raised ≡ false → IsCounted n (seen ++ (t ∷ ts)) l'')
                    (drive_bars weekday strategy set (i + 1) ts l'))
                (omega arith)
                (subst
                  (λ h.
                    Ensures (λ l''. l''.raised ≡ false → IsCounted (i + 1 + length ts) h l'')
                      (drive_bars weekday strategy set (i + 1) ts l'))
                  (append_assoc seen (t ∷ []) ts)
                  (drive_from-IsCounted (i + 1) (seen ++ (t ∷ [])) ts l' s'))))

  -- A run over a whole tape, from the first bar, that no exception, unverified exit or size ends has a
  -- bar number and a count of strategy calls equal to the bars past `max_bars_back`, holds the history
  -- it began with (the bars of the caller, or one leading 0) followed by the bars of the tape, and has
  -- emitted one row for each bar past the largest of `max_bars_back`, `trade_from` and `warmup`.
  pub drive_bars-IsCounted :
      (init_hist : Option (List (Tick W))) (ts : List (Tick W)) (s : S) (e : FillEngine W)
      → Ensures
          (λ l. l.raised ≡ false → IsCounted (length ts) (init_history init_hist ++ ts) l)
          (drive_bars weekday strategy set 0 ts (start weekday strategy set init_hist s e))
  drive_bars-IsCounted init_hist ts s e =
      subst
        (λ n.
          Ensures (λ l. l.raised ≡ false → IsCounted n (init_history init_hist ++ ts) l)
            (drive_bars weekday strategy set 0 ts (start weekday strategy set init_hist s e)))
        (omega arith)
        (drive_from-IsCounted 0 (init_history init_hist) ts
          (start weekday strategy set init_hist s e)
          (record {
            numbered = omega arith;
            called = omega arith;
            known = refl;
            emitted = omega arith;
          }))
