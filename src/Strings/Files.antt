-- ===== src/Strings/Files.antt =====
-- Strings made from bytes that come from outside: `iotjs_file_read` of src/iotjs_util.c (as it is
-- compiled for Linux) and `iotjs_jval_as_string` of src/iotjs_binding.c.
use native.Mathlib.Nat.{mod-eq_of_lt}
use ble_central.Base.{
  ℕ, suc, ◌+◌, ◌-◌, ◌%◌, ◌^◌, ◌<◌, ◌≡◌, refl, ◌∙◌, arith, List, [], ◌∷◌, Option, some, ◌==◌, ==_ne,
  if◌then◌else◌, length, take, get_elem?, replicate, length-replicate, Outcome, ok, Fault, ◌>>=◌,
  or_fault,
}
use ble_central.Binding.Value.{Jval, as_string}
use ble_central.Memory.{Allocator, u32_mod, buffer_allocate, write_at}
use ble_central.Memory.Patch.{patch, length-patch}
use ble_central.Memory.Laws.{IsAmple, buffer_allocate_lem, write_at_lem}
use ble_central.Strings.{Str, nothing, contents, create, create_with_buffer}
use ble_central.Strings.Valid.{IsValid}
use ble_central.Strings.Closed.{closed, closed-contents}
use ble_central.Strings.Build.{create-nothing, nothing-IsValid}

module _ (a : Allocator) where
  -- The block of `size` bytes, filled and terminated, as a string.
  pub fill : List ℕ → ℕ → Outcome Str
  fill bs size = do
    fresh ← buffer_allocate a ((size + 1) % u32_mod)
    filled ← write_at fresh 0 bs
    closed ← write_at filled size (0 ∷ [])
    ok (create_with_buffer closed size)

  -- `iotjs_file_read` of the bytes of a file, `none` if it cannot be opened.
  pub file_read : Option (List ℕ) → Outcome Str
  file_read file = do bs ← or_fault Fault.aborted file; fill bs (length bs)

  -- `iotjs_jval_as_string`
  pub jval_as_string : Jval → Outcome Str
  jval_as_string v = do
    bs ← as_string v
    if length bs == 0 then create a (0 ∷ []) else fill bs (length bs)

-- A string that was made of these bytes.
pub record Made (bs : List ℕ) (r : Outcome Str) : Type 0 where
  pub after : Str
  pub returned : r ≡ ok after
  pub valid : IsValid after
  pub same : contents after ≡ bs
  pub size : after.size ≡ length bs

fill-Made :
    (a : Allocator) (bs : List ℕ)
    → IsAmple a
    → length bs < 2 ^ 32 - 1
    → Made bs (fill a bs (length bs))
unfolding fill create_with_buffer
fill-Made a bs ample h =
    let n = length bs in
    let m : (length bs + 1) % u32_mod ≡ length bs + 1 =
      mod-eq_of_lt {n = length bs + 1} {m = u32_mod} (omega (arith, h)) in
    let fresh : List ℕ = replicate (n + 1) 0 in
    let size : length fresh ≡ n + 1 = length-replicate (n + 1) 0 in
    let size' : length (patch fresh 0 bs) ≡ n + 1 = length-patch fresh 0 bs ∙ size in
    let z : 0 + n ≡ n = omega arith in
    let blk = patch (patch fresh 0 bs) n (0 ∷ []) in
    let c : (take n blk ≡ bs) × (get_elem? blk n ≡ some 0) =
      rw z at (closed-contents fresh 0 bs n (omega (arith, size)) refl) in
    let size'' : length blk ≡ n + 1 = length-patch (patch fresh 0 bs) n (0 ∷ []) ∙ size' in
    record {
      after = create_with_buffer blk n;
      returned = rw m (
          rw (buffer_allocate_lem a (n + 1) (ample (n + 1) (omega arith))) (
            rw (write_at_lem fresh 0 bs (omega (arith, size)))
              (rw (write_at_lem (patch fresh 0 bs) n (0 ∷ []) (omega (arith, size'))) refl)));
      valid = record { within = omega arith; small = h; stored = (omega (arith, size''), c.1) };
      same = c.0;
      size = refl;
    }

-- `iotjs_file_read` of a file below 2^32 - 1 bytes and `iotjs_jval_as_string` of such a string,
-- for an allocator with room: both give a valid string of exactly these bytes, NULs included.
pub made_lem :
    (a : Allocator) (bs : List ℕ)
    → IsAmple a
    → length bs < 2 ^ 32 - 1
    → Made bs (file_read a (some bs)) × Made bs (jval_as_string a (Jval.string bs))
unfolding file_read jval_as_string
made_lem a [] ample h = (
  fill-Made a [] ample h,
  record {
    after = nothing;
    returned = create-nothing a;
    valid = nothing-IsValid;
    same = refl;
    size = refl;
  },
)
made_lem a (b ∷ bs) ample h = (
  fill-Made a (b ∷ bs) ample h,
  rw (==_ne (suc (length bs)) 0 (omega arith)) (fill-Made a (b ∷ bs) ample h),
)
