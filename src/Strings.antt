-- ===== src/Strings.antt =====
-- src/iotjs_string.c, the growing byte string. A function that updates `*str` returns the new one.
pub mod Grow
pub mod Valid
pub mod Closed
pub mod Append
pub mod Build
pub mod Reserve
pub mod Files
pub mod Tests
use ble_central.Base.{
  ℕ, zero, suc, ◌+◌, ◌-◌, ◌*◌, ◌%◌, ◌^◌, Bool, true, false, List, [], ◌∷◌, ◌++◌, Option, none, some,
  ltb, leb, ◌==◌, if◌then◌else◌, take, not, Outcome, ok, fault, Fault, ◌>>=◌, ◌>>◌, assert,
  or_fault,
}
use ble_central.Base.Int.{ℤ, pos, negsuc}
use ble_central.Memory.{
  Allocator, u32_mod, add32, buffer_allocate, buffer_reallocate, buffer_release, strlen, strnlen,
  strncpy_bytes, memcpy_bytes, write_at,
}

-- `char* data`: `iotjs_empty_string`, a block of the allocator, or the NULL of a failed `realloc`.
pub data Chars : Type 0 where
  empty_string : Chars
  block : List ℕ → Chars
  null : Chars

-- `iotjs_string_t`
pub record Str : Type 0 where
  pub size : ℕ
  pub cap : ℕ
  pub chars : Chars

abbrev pub is_static : Chars → Bool
is_static empty_string = true
is_static _ = false

abbrev pub is_null : Chars → Bool
is_null null = true
is_null _ = false

-- The bytes behind a pointer that is written through.
abbrev pub target : Chars → Outcome (List ℕ)
target empty_string = ok (0 ∷ [])
target (block b) = ok b
target null = fault Fault.null_pointer

abbrev pub nothing : Str
nothing = record { size = 0; cap = 0; chars = empty_string }

-- The argument `int size` as the `unsigned` that it is added as.
abbrev pub to_u32 : ℤ → ℕ
to_u32 (pos n) = n % u32_mod
to_u32 (negsuc n) = u32_mod - suc n % u32_mod

-- `int` to `size_t`, from the bits of the `int`.
abbrev pub sign_extend : ℕ → ℕ
sign_extend n = if ltb n (2 ^ 31) then n else n + (2 ^ 64 - 2 ^ 32)

module _ (a : Allocator) where
  pub create_with_size : List ℕ → ℕ → Outcome Str
  create_with_size src size = do
    k ← strnlen size src
    assert (k == size)
    if ltb 0 size
        then (do
          fresh ← buffer_allocate a (add32 size 1)
          copied ← memcpy_bytes size src
          filled ← write_at fresh 0 copied
          closed ← write_at filled size (0 ∷ [])
          ok (record { size = size; cap = size; chars = block closed }))
        else ok nothing

  -- `iotjs_string_create_with_size` of a pointer that may be NULL, with its assertion.
  unfoldable pub create_from_pointer : Option (List ℕ) → ℕ → Outcome Str
  create_from_pointer pointer size = do
    src ← or_fault Fault.aborted pointer
    create_with_size src size

  -- The `size_t` of `strlen` becomes an `unsigned`.
  pub create : List ℕ → Outcome Str
  create src = do n ← strlen src; create_with_size src (n % u32_mod)

  -- `capacity + 1` wraps as an `unsigned`.
  pub reserve : Str → ℕ → Outcome Str
  reserve s capacity =
      if leb capacity s.cap
      then ok s
      else if s.cap == 0
      then (do
        assert (is_static s.chars)
        fresh ← buffer_allocate a (add32 capacity 1)
        ok (record s { cap = capacity; chars = block fresh }))
      else (do
        old ← target s.chars
        ok (record s {
          cap = capacity;
          chars = elim (buffer_reallocate a old (add32 capacity 1)) [
            | none ↦ null
            | some b ↦ block b
          ];
        }))

pub create_with_buffer : List ℕ → ℕ → Str
create_with_buffer buffer size = record { size = size; cap = size; chars = block buffer }

-- `iotjs_buffer_release` of the block that is not `iotjs_empty_string`
release_chars : Chars → Outcome (Unit {0})
release_chars empty_string = ok tt
release_chars (block b) = buffer_release (some b)
release_chars null = buffer_release none

pub destroy : Str → Outcome (Unit {0})
destroy s = release_chars s.chars

pub is_empty : Str → Bool
is_empty s = s.size == 0

pub make_empty : Str → Outcome Str
make_empty s = if is_static s.chars then ok s else (do release_chars s.chars; ok nothing)

-- `while (cap < need) cap *= 2` on `unsigned`; `none` if the fuel runs out.
pub grow : ℕ → ℕ → ℕ → Option ℕ
grow zero cap need = none
grow (suc f) cap need =
    let rest = grow f (cap * 2 % u32_mod) need in if ltb cap need then rest else some cap

-- After 32 rounds the capacity is 0 and stays so: the loop that needs a 34th never ends.
abbrev pub grow_fuel : ℕ
grow_fuel = 33

-- `strncpy(data + size, src, n)`, `size += n` and the terminator, on a block of capacity `cap`.
put_tail : Str → ℕ → Chars → List ℕ → ℕ → Outcome Str
put_tail s cap chars src n = do
  blk ← target chars
  tail ← strncpy_bytes (sign_extend n) src
  filled ← write_at blk s.size tail
  closed ← write_at filled (add32 s.size n) (0 ∷ [])
  ok (record { size = add32 s.size n; cap = cap; chars = block closed })

module _ (a : Allocator) where
  -- The branch with no buffer yet: here `strncpy` takes the `unsigned` size.
  first_append : Str → List ℕ → ℕ → Outcome Str
  first_append s src n = do
    assert (s.size == 0)
    assert (is_static s.chars)
    fresh ← buffer_allocate a (add32 n 1)
    tail ← strncpy_bytes n src
    filled ← write_at fresh 0 tail
    closed ← write_at filled n (0 ∷ [])
    ok (record { size = n; cap = n; chars = block closed })

  -- The branch that doubles the capacity.
  grow_append : Str → List ℕ → ℕ → Outcome Str
  grow_append s src n = do
    cap' ← or_fault Fault.diverged (grow grow_fuel s.cap (add32 s.size n))
    old ← target s.chars
    put_tail s cap'
        (elim (buffer_reallocate a old (add32 cap' 1)) [ none ↦ null | some b ↦ block b ]) src n

  -- `iotjs_string_append` once `size` is known, as an `unsigned`.
  append_bytes : Str → List ℕ → ℕ → Outcome Str
  append_bytes s src n =
      if n == 0
      then ok s
      else if s.cap == 0
      then first_append s src n
      else if leb (add32 s.size n) s.cap
      then put_tail s s.cap s.chars src n
      else grow_append s src n

  pub append : Str → List ℕ → ℤ → Outcome Str
  append s src size = do
    assert (not (is_null s.chars))
    assert (leb s.size s.cap)
    n ← elim size [ pos k ↦ ok (to_u32 (pos k)) | negsuc _ ↦ strlen src ]
    append_bytes s src (n % u32_mod)

-- The string that `iotjs_string_data` and `iotjs_string_size` show.
abbrev pub bytes : Chars → List ℕ
bytes empty_string = 0 ∷ []
bytes (block b) = b
bytes null = []

abbrev pub contents : Str → List ℕ
contents s = take s.size (bytes s.chars)
