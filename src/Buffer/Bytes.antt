-- ===== src/Buffer/Bytes.antt =====
-- The byte loops of the buffer module: `iotjs_bufferwrap_compare` and
-- `iotjs_bufferwrap_copy_internal`, on the lists of the bytes.
pub mod Order
pub mod Copy
use ble_central.Base.{
  ℕ, zero, suc, ◌+◌, ◌-◌, Bool, true, false, ◌&&◌, List, [], ◌∷◌, ltb, leb, if◌then◌else◌, length,
  get_elem?, set, Outcome, ok, fault, Fault, ◌>>=◌, or_fault,
}
use ble_central.Base.Int.{ℤ, pos, negsuc, pos_part, neg_part, ltb_ℤ}

-- The value of a byte as a `char`, which is signed on some targets (x86) and not on others (ARM).
pub char_value : Bool → ℕ → ℤ
char_value signed b = if signed && leb 128 b then negsuc (255 - b) else pos b

-- `iotjs_bufferwrap_compare`; the indices of its loop are always equal.
pub compare_bytes : Bool → List ℕ → List ℕ → ℤ
compare_bytes signed [] [] = pos 0
compare_bytes signed [] (y ∷ ys) = negsuc 0
compare_bytes signed (x ∷ xs) [] = pos 1
compare_bytes signed (x ∷ xs) (y ∷ ys) =
    if ltb_ℤ (char_value signed x) (char_value signed y)
    then negsuc 0
    else if ltb_ℤ (char_value signed y) (char_value signed x)
    then pos 1
    else compare_bytes signed xs ys

-- The loop of `iotjs_bufferwrap_copy_internal` for `k` more source bytes. Source and destination may
-- be one block: `view` gives the source bytes from the destination as it stands.
pub copy_loop : (List ℕ → List ℕ) → ℕ → List ℕ → ℕ → ℕ → ℕ → Outcome (List ℕ × ℕ)
copy_loop view zero dst i j copied = ok (dst, copied)
copy_loop view (suc k) dst i j copied =
    if ltb j (length dst)
    then (do
      b ← or_fault Fault.overrun (get_elem? (view dst) i)
      copy_loop view k (set dst j b) (suc i) (suc j) (suc copied))
    else ok (dst, copied)

unfoldable pub copy_internal : (List ℕ → List ℕ) → List ℕ → ℕ → ℕ → ℕ → Outcome (List ℕ × ℕ)
copy_internal view dst src_from src_to dst_from =
    copy_loop view (src_to - src_from) dst src_from dst_from 0

-- A source of its own, and the destination itself as the source.
abbrev pub apart : List ℕ → List ℕ → List ℕ
apart src dst = src

abbrev pub within : List ℕ → List ℕ
within dst = dst
