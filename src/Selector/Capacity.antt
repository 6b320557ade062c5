-- ===== src/Selector/Capacity.antt =====
-- src/lib/selector.c: the capacity of the table.
use smtp_protos.Prelude.{ℕ, zero, suc, ◌+◌, ◌*◌, ◌/◌, ◌^◌, ◌≤◌, ◌<◌, ◌≡◌, arith, false, ◌==◌}
use native.Mathlib.Nat.{mul-le-mul_right, le_trans, pow-suc}
use smtp_protos.Selector.{count_bits, next_capacity, items_max_size}

halves : (t h q p : ℕ) → t ≤ 2 * h + 1 → p ≡ q * 2 → (t + 1) * q ≤ (h + 1) * p
halves t h q p k e =
    let twice : t + 1 ≤ (h + 1) * 2 = omega arith in rw e (grind (arith, mul-le-mul_right q twice))

count_bits_lem :
    (fuel tmp bits : ℕ) → tmp < 2 ^ fuel → (tmp + 1) * 2 ^ bits ≤ 2 ^ count_bits fuel tmp bits
unfolding count_bits
count_bits_lem zero zero bits h = omega arith
count_bits_lem zero (suc tmp) bits h = omega arith
count_bits_lem (suc fuel) zero bits h = omega arith
count_bits_lem (suc fuel) (suc tmp) bits h =
    let next = count_bits_lem fuel (suc tmp / 2) (suc bits) (omega arith) in
    let step =
      halves (suc tmp) (suc tmp / 2) (2 ^ bits) (2 ^ suc bits) (omega arith) (pow-suc 2 bits) in
    let positive : (suc tmp == 0) ≡ false = ground arith in rw positive (le_trans step next)

-- The capacity is above what was asked for and within the platform's limit.
pub next_capacity_bounds :
    (n : ℕ) → n ≤ items_max_size → (n < next_capacity n) × (next_capacity n ≤ items_max_size + 1)
unfolding next_capacity
next_capacity_bounds n h = ground (arith, count_bits_lem 64 n 0 (omega arith))
