-- ===== src/Buffer/Range.antt =====
-- `bound_range`, and the conversions between `int` and `size_t` around it.
use ble_central.Base.{
  ℕ, suc, ◌+◌, ◌-◌, ◌%◌, ◌^◌, ◌≤◌, ◌<◌, ◌≡◌, ap, ◌∙◌, arith, ltb, if◌then◌else◌, min,
}
use ble_central.Base.Int.{ℤ, pos, negsuc, neg_part, ltb_ℤ}

-- `size_t` to `int`: the low 32 bits as a signed number.
abbrev pub to_int : ℕ → ℤ
to_int n = if ltb (n % 2 ^ 32) (2 ^ 31) then pos (n % 2 ^ 32) else negsuc (2 ^ 32 - 1 - n % 2 ^ 32)

pub to_int-pos : (n : ℕ) → n < 2 ^ 31 → to_int n ≡ pos n
to_int-pos n h = ground arith

-- `int` to `size_t`
abbrev pub to_size : ℤ → ℕ
to_size (pos n) = n
to_size (negsuc n) = 2 ^ 64 - suc n

pub bound_range : ℤ → ℕ → ℕ → ℕ
bound_range index low upper =
    if ltb_ℤ index (to_int low)
    then low
    else if ltb_ℤ (to_int upper) index
    then upper
    else to_size index

-- `v = bound_range(v, 0, upper)` on an `int` variable.
unfoldable pub clamp : ℤ → ℕ → ℤ
clamp v upper = to_int (bound_range v 0 upper)

-- A value below 0 counts as 0, one above the upper end as that end, for an end in `int` range.
abbrev pub clamped : ℤ → ℕ → ℕ
clamped (pos n) upper = min n upper
clamped (negsuc n) upper = 0

pub clamp-clamped : (v : ℤ) (upper : ℕ) → upper < 2 ^ 31 → clamp v upper ≡ pos (clamped v upper)
unfolding clamp bound_range
clamp-clamped (pos n) upper h = ground arith
clamp-clamped (negsuc n) upper h = ground arith

-- `if (v < 0) v += length` on an `int`: the sum is a `size_t`.
unfoldable pub from_end : ℤ → ℕ → ℤ
from_end v len = if ltb_ℤ v (pos 0) then to_int ((to_size v + len) % 2 ^ 64) else v

-- An index counted from the end where it is negative, brought into the bounds.
abbrev pub from_end_clamped : ℤ → ℕ → ℕ
from_end_clamped (pos n) len = min n len
from_end_clamped (negsuc k) len = len - suc k

from_end_lem :
    (v : ℤ) (len : ℕ)
    → neg_part v ≤ 2 ^ 31
    → len < 2 ^ 31
    → clamped (from_end v len) len ≡ from_end_clamped v len
unfolding from_end
from_end_lem (pos n) len h small = ground arith
from_end_lem (negsuc k) len h small = ground arith

pub from_end-clamped :
    (v : ℤ) (len : ℕ)
    → neg_part v ≤ 2 ^ 31
    → len < 2 ^ 31
    → clamp (from_end v len) len ≡ pos (from_end_clamped v len)
from_end-clamped v len h small =
    clamp-clamped (from_end v len) len small ∙ ap pos (from_end_lem v len h small)
