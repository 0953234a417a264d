-- ===== src/McPacket/BitField/Flags.antt =====
-- One-bit fields of MCPacket/Bitfield.hpp, as in the ability and relative-position flags.
use cerios_cluster.Common.{
  ℕ, ◌<◌, ◌≡◌, refl, Bool, true, false, ◌&&◌, ◌==◌, if◌then◌else◌, ltb, ltb→lt,
}
use cerios_cluster.Common.Tables.{every_below, every_below→at, same, same→eq}
use cerios_cluster.McPacket.BitField.{assign_flag, read_flag}

-- The two laws at one storage byte, one assigned and one read flag.
abbrev assigned_well : Bool → ℕ → ℕ → ℕ → Bool
assigned_well v storage i j =
    same (read_flag j (assign_flag i storage v)) (if i == j then v else read_flag j storage)
    && ltb (assign_flag i storage v) 256

abbrev table : Bool → Bool
table v = every_below 256 (λ s. every_below 8 (λ i. every_below 8 (λ j. assigned_well v s i j)))

table_holds : (v : Bool) → table v ≡ true
unfolding every_below assign_flag read_flag
table_holds true = refl
table_holds false = refl

entry :
    (v : Bool) (storage i j : ℕ)
    → storage < 256
    → i < 8
    → j < 8
    → assigned_well v storage i j ≡ true
entry v storage i j hs hi hj =
    every_below→at 8 _ j (every_below→at 8 _ i (every_below→at 256 _ storage (table_holds v) hs) hi)
      hj

and_left : (a b : Bool) → (a && b) ≡ true → a ≡ true
and_left true b e = refl
and_left false b e = e

and_right : (a b : Bool) → (a && b) ≡ true → b ≡ true
and_right true b e = e
and_right false b e = cc

-- In a byte of flags an assignment sets the flag that it names, keeps the seven others and stays a
-- byte.
pub read_flag-assign_flag :
    (v : Bool) (storage i j : ℕ)
    → storage < 256
    → i < 8
    → j < 8
    → (read_flag j (assign_flag i storage v) ≡ (if i == j then v else read_flag j storage))
      × (assign_flag i storage v < 256)
read_flag-assign_flag v storage i j hs hi hj =
    let e = entry v storage i j hs hi hj in
    (same→eq _ _ (and_left _ _ e), ltb→lt _ _ (and_right _ _ e))
