-- ===== src/Memory.antt =====
-- src/iotjs_util.c (allocation) and the functions of <string.h> that the C files call. A `char*`
-- is the list of the bytes readable from it on; it is not NULL unless an Option says so.
pub mod Patch
pub mod Laws
use ble_central.Base.{
  ℕ, zero, suc, ◌+◌, ◌-◌, ◌*◌, ◌%◌, ◌^◌, Bool, true, false, List, [], ◌∷◌, ◌++◌, Option, none, some,
  leb, ◌==◌, if◌then◌else◌, length, take, replicate, Outcome, ok, fault, Fault, ◌>>=◌, ◌>>◌, assert,
}
use Patch.{patch}

-- What the C library's allocator answers: whether a request of a size succeeds, and the bytes that
-- `realloc` leaves in the part of a block that is new.
pub record Allocator : Type 0 where
  pub fits : ℕ → Bool
  pub junk : ℕ → ℕ

abbrev pub u32_mod : ℕ
u32_mod = 2 ^ 32

-- `unsigned` addition
abbrev pub add32 : ℕ → ℕ → ℕ
add32 a b = (a + b) % u32_mod

-- `iotjs_buffer_allocate`: `calloc`, and an assertion that it succeeded.
pub buffer_allocate : Allocator → ℕ → Outcome (List ℕ)
buffer_allocate a size = do assert (a.fits size); ok (replicate size 0)

pub junk_bytes : Allocator → ℕ → List ℕ
junk_bytes a zero = []
junk_bytes a (suc n) = a.junk n ∷ junk_bytes a n

-- `iotjs_buffer_reallocate`: `realloc`, whose result is not checked (`none` is NULL).
pub buffer_reallocate : Allocator → List ℕ → ℕ → Option (List ℕ)
buffer_reallocate a buffer size =
    if a.fits size then some (take size buffer ++ junk_bytes a (size - length buffer)) else none

-- `iotjs_buffer_release`
pub buffer_release : Option (List ℕ) → Outcome (Unit {0})
buffer_release none = fault Fault.aborted
buffer_release (some buffer) = ok tt

pub strlen : List ℕ → Outcome ℕ
strlen [] = fault Fault.overrun
strlen (zero ∷ s) = ok 0
strlen (suc c ∷ s) = do n ← strlen s; ok (suc n)

pub strnlen : ℕ → List ℕ → Outcome ℕ
strnlen zero s = ok 0
strnlen (suc n) [] = fault Fault.overrun
strnlen (suc n) (zero ∷ s) = ok 0
strnlen (suc n) (suc c ∷ s) = do k ← strnlen n s; ok (suc k)

-- The `n` bytes that `strncpy` writes: the source up to its NUL, then NULs.
pub strncpy_bytes : ℕ → List ℕ → Outcome (List ℕ)
strncpy_bytes zero s = ok []
strncpy_bytes (suc n) [] = fault Fault.overrun
strncpy_bytes (suc n) (zero ∷ s) = ok (replicate (suc n) 0)
strncpy_bytes (suc n) (suc c ∷ s) = do cs ← strncpy_bytes n s; ok (suc c ∷ cs)

-- The `n` bytes that `memcpy` writes.
pub memcpy_bytes : ℕ → List ℕ → Outcome (List ℕ)
memcpy_bytes n s = if leb n (length s) then ok (take n s) else fault Fault.overrun

-- A write of bytes into a block, from an offset on.
pub write_at : List ℕ → ℕ → List ℕ → Outcome (List ℕ)
write_at blk off bs =
    if leb (off + length bs) (length blk) then ok (patch blk off bs) else fault Fault.overrun
