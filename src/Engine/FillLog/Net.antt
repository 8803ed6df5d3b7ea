-- ===== src/Engine/FillLog/Net.antt =====
-- The trade list as an account of the position: what the logged fills add up to.
use power_bridge.Base.{
  ℕ, zero, suc, ◌≡◌, refl, ◌∙◌, Bool, true, false, List, [], ◌∷◌, ◌++◌, String, arith,
  if◌then◌else◌, replicate, ℤ, pos, negsuc, sub_ℕ, ◌+ℤ◌, ◌-ℤ◌, ◌≤ℤ◌, abs_ℤ, int_laws,
}
use power_bridge.Engine.State.{FillRecord, FillEngine}
use power_bridge.Engine.Position.{signed_position}
use power_bridge.Engine.FillLog.{record_fills}

moved_up : (a b : ℤ) → a ≤ℤ b → a +ℤ pos (abs_ℤ (b -ℤ a)) ≡ b
unfolding ◌+ℤ◌ ◌-ℤ◌
moved_up a b le = ground arith

moved_down : (a b : ℤ) → b ≤ℤ a → a +ℤ sub_ℕ 0 (abs_ℤ (b -ℤ a)) ≡ b
unfolding ◌+ℤ◌ ◌-ℤ◌
moved_down a b le = ground arith

module _ {W : Type 0} where
  -- Contracts bought less contracts sold.
  abbrev pub net_fills : List (FillRecord W) → ℤ
  net_fills [] = pos 0
  net_fills (f ∷ fs) = (if f.buy_side then pos 1 else negsuc 0) +ℤ net_fills fs

  net_fills-append :
      (xs ys : List (FillRecord W)) → net_fills (xs ++ ys) ≡ net_fills xs +ℤ net_fills ys
  net_fills-append [] ys = omega int_laws
  net_fills-append (x ∷ xs) ys = rw (net_fills-append xs ys) (omega int_laws)

  net_fills-bought :
      (n : ℕ) (f : FillRecord W) → f.buy_side ≡ true → net_fills (replicate n f) ≡ pos n
  unfolding ◌+ℤ◌
  net_fills-bought zero f e = refl
  net_fills-bought (suc n) f e = simp (e, net_fills-bought n f e) (ground arith)

  net_fills-sold :
      (n : ℕ) (f : FillRecord W) → f.buy_side ≡ false → net_fills (replicate n f) ≡ sub_ℕ 0 n
  unfolding ◌+ℤ◌
  net_fills-sold zero f e = refl
  net_fills-sold (suc n) f e = simp (e, net_fills-sold n f e) (ground arith)

  -- If the logged fills add up to the signed position before a fill, and the position has not fallen for
  -- a record on the buy side nor risen for one on the sell side, then with the new records they add up
  -- to the position after it.
  pub record_fills-net :
      (buy_side : Bool) (signal : String) (date time : ℕ) (price : W) (prev : ℤ) (v1 : ℕ)
      (e : FillEngine W)
      → net_fills e.fills ≡ prev
      → (buy_side ≡ true → prev ≤ℤ signed_position e.position)
      → (buy_side ≡ false → signed_position e.position ≤ℤ prev)
      → net_fills (record_fills buy_side signal date time price prev v1 e).fills
        ≡ signed_position e.position
  unfolding record_fills
  record_fills-net true signal date time price prev v1 e h up down =
      let r : FillRecord W = record {
        buy_side = true;
        signal = signal;
        date = date;
        time = time;
        price = price;
      } in
      net_fills-append e.fills _
      ∙ rw (h, net_fills-bought (abs_ℤ (signed_position e.position -ℤ prev)) r refl)
          (moved_up prev (signed_position e.position) (up refl))
  record_fills-net false signal date time price prev v1 e h up down =
      let r : FillRecord W = record {
        buy_side = false;
        signal = signal;
        date = date;
        time = time;
        price = price;
      } in
      net_fills-append e.fills _
      ∙ rw (h, net_fills-sold (abs_ℤ (signed_position e.position -ℤ prev)) r refl)
          (moved_down prev (signed_position e.position) (down refl))
