-- ===== src/Quotas/Int64.antt =====
-- Go's int64: a number below 2 ^ 64, whose values from 2 ^ 63 on stand for the negative ones. Addition,
-- subtraction and multiplication wrap around.
use harbor_shield.Prelude.{◌≡◌, ◌↔◌, ℕ, ◌+◌, ◌-◌, ◌*◌, ◌%◌, ◌≤◌, ◌<◌, Bool, true, arith, leb}

abbrev pub Int64 : Type 0
Int64 = ℕ

abbrev pub two63 : ℕ
two63 = 9223372036854775808

abbrev pub two64 : ℕ
two64 = 18446744073709551616

unfoldable pub add64 : Int64 → Int64 → Int64
add64 a b = (a + b) % two64

unfoldable pub sub64 : Int64 → Int64 → Int64
sub64 a b = (a + (two64 - b)) % two64

unfoldable pub mul64 : Int64 → Int64 → Int64
mul64 a b = (a * b) % two64

-- `a <= b`, on the signed values.
unfoldable pub le64 : Int64 → Int64 → Bool
le64 a b = leb ((a + two63) % two64) ((b + two63) % two64)

pub le64_iff : (a b : ℕ) → a < two63 → b < two63 → (le64 a b ≡ true) ↔ (a ≤ b)
unfolding le64
le64_iff a b h k = ground arith

-- What a write of `next` bytes over `existing` ones makes of a sum, where nothing overflows.
pub le64-add64-sub64_iff :
    (current next existing limit : ℕ)
    → existing < two63
    → current + next < two63
    → limit < two63
    → (le64 (add64 current (sub64 next existing)) limit ≡ true)
      ↔ (current + next ≤ limit + existing)
unfolding le64 add64 sub64
le64-add64-sub64_iff current next existing limit h k m = ground arith
