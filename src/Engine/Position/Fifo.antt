-- ===== src/Engine/Position/Fifo.antt =====
-- The first-in first-out use of the entries by an exit (engine.py, `_consume_entry_qtys`).
use Prim.Native.Nat.{min}
use power_bridge.Base.{
  ℕ, zero, suc, ◌-◌, ◌≤◌, ◌<◌, ◌≡◌, refl, sym, ap, ◌∙◌, List, [], ◌∷◌, ◌++◌, String, arith, leb,
  Bool-cases, inl, inr, length, drop, replicate, total, All,
}
use power_bridge.Engine.Position.{consume_entry_qtys}

-- The label of each open contract, the oldest first.
abbrev pub contract_labels : List ℕ → List String → List String
contract_labels [] labels = []
contract_labels (q ∷ qtys) [] = []
contract_labels (q ∷ qtys) (l ∷ labels) = replicate q l ++ contract_labels qtys labels

drop-replicate_append :
    (n q : ℕ) (l : String) (xs : List String)
    → n ≤ q
    → drop n (replicate q l ++ xs) ≡ replicate (q - n) l ++ xs
drop-replicate_append zero q l xs h = ap (λ k. replicate k l ++ xs) (omega arith)
drop-replicate_append (suc n) zero l xs h = elim h [ ]
drop-replicate_append (suc n) (suc q) l xs h =
    drop-replicate_append n q l xs (omega arith) ∙ ap (λ k. replicate k l ++ xs) (omega arith)

drop-replicate_past :
    (n q : ℕ) (l : String) (xs : List String)
    → q ≤ n
    → drop n (replicate q l ++ xs) ≡ drop (n - q) xs
drop-replicate_past n zero l xs h = ap (λ k. drop k xs) (omega arith)
drop-replicate_past zero (suc q) l xs h = elim h [ ]
drop-replicate_past (suc n) (suc q) l xs h =
    drop-replicate_past n q l xs (omega arith) ∙ ap (λ k. drop k xs) (omega arith)

-- What an exit leaves of the entries: `n` contracts fewer, a label for each entry, no empty entry.
pub record IsLeft (n : ℕ) (qtys : List ℕ) (labels : List String) (r : List ℕ × List String)
    : Type 0 where
  pub size : total r.0 ≡ total qtys - n
  pub named : length r.1 ≡ length r.0
  pub positive : All (λ q. 0 < q) r.0
  pub fewer : length r.0 ≤ length qtys
  pub oldest : contract_labels r.0 r.1 ≡ drop n (contract_labels qtys labels)

-- Where the entries have a label each and none is empty, an exit of `n` contracts uses up the oldest
-- contracts: the labels of the contracts left are those before without the first `n`, the entries
-- left add up to `n` less, have a label each, are not empty and are no more than before.
pub consume_entry_qtys-IsLeft :
    (n : ℕ) (qtys : List ℕ) (labels : List String)
    → length labels ≡ length qtys
    → All (λ q. 0 < q) qtys
    → IsLeft n qtys labels (consume_entry_qtys n qtys labels)
unfolding consume_entry_qtys
consume_entry_qtys-IsLeft zero qtys labels e p = record {
  size = omega arith;
  named = e;
  positive = p;
  fewer = omega arith;
  oldest = refl;
}
consume_entry_qtys-IsLeft (suc n) [] [] e p = record {
  size = omega arith;
  named = e;
  positive = p;
  fewer = omega arith;
  oldest = refl;
}
consume_entry_qtys-IsLeft (suc n) [] (l ∷ labels) e p = absurd (omega arith)
consume_entry_qtys-IsLeft (suc n) (q ∷ qtys) [] e p = absurd (omega arith)
consume_entry_qtys-IsLeft (suc n) (q ∷ qtys) (l ∷ labels) e p =
    elim (Bool-cases (leb (q - min (suc n) q) 0)) [
      | inl used ↦
          let le : q ≤ suc n = ground arith in
          let same : suc n - min (suc n) q ≡ suc n - q = omega arith in
          let ih = consume_entry_qtys-IsLeft (suc n - q) qtys labels (omega arith) p.1 in
          rw (used, same)
            (record {
              size = omega (arith, ih.size);
              named = ih.named;
              positive = ih.positive;
              fewer = omega (arith, ih.fewer);
              oldest = ih.oldest ∙ sym (drop-replicate_past (suc n) q l _ le);
            })
      | inr more ↦
          let lt : suc n < q = ground arith in
          let same : q - min (suc n) q ≡ q - suc n = omega arith in
          rw (more, same)
            (record {
              size = omega arith;
              named = e;
              positive = (omega arith, p.1);
              fewer = omega arith;
              oldest = sym (drop-replicate_append (suc n) q l _ (omega arith));
            })
    ]
