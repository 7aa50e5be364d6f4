-- ===== src/Strings/Build.antt =====
-- Creating, reserving and emptying strings, and the append that measures its argument.
use native.Mathlib.Nat.{mod-eq_of_lt, zero-add}
use ble_central.Base.{
  ℕ, zero, suc, ◌+◌, ◌-◌, ◌^◌, ◌≤◌, ◌<◌, ◌≡◌, refl, List, [], ◌∷◌, ◌++◌, arith, lt→ltb, ==_refl,
  length, take, length-append, length-take, replicate, length-replicate, take-length_append, ok,
  fault, Fault,
}
use ble_central.Base.Int.{pos, negsuc}
use ble_central.Memory.{Allocator, u32_mod}
use ble_central.Memory.Patch.{patch, length-patch}
use ble_central.Memory.Laws.{
  NoNul, IsAmple, write_at_lem, memcpy_bytes_lem, strnlen_lem, strlen_lem, buffer_allocate_lem,
  buffer_release_lem,
}
use ble_central.Strings.{
  Str, Chars, empty_string, block, null, nothing, create_with_size, create, make_empty,
  release_chars, first_append, destroy, append, append_bytes, create_with_buffer,
}
use ble_central.Strings.Valid.{IsValid, IsGrowable, Stores}
use ble_central.Strings.Append.{append-Appended}
use ble_central.Strings.Closed.{Appended, closed-Appended, add32_lem}

pub nothing-IsValid : IsValid nothing
nothing-IsValid = omega arith

-- `iotjs_string_create_with_size` copies the bytes: a string made from nothing by an append.
pub create_with_size-Appended :
    (a : Allocator) (src : List ℕ) (n : ℕ)
    → IsAmple a
    → n ≤ length src
    → NoNul (take n src)
    → n < 2 ^ 32 - 1
    → Appended nothing (take n src) (create_with_size a src n)
unfolding create_with_size
create_with_size-Appended a src zero ample enough clean h = record {
  after = nothing;
  returned = rw (strnlen_lem 0 src enough clean);
  valid = nothing-IsValid;
  growable = λ _. refl;
  extended = refl;
}
create_with_size-Appended a src (suc m) ample enough clean h =
    let n = suc m in
    let ln : n ≡ length (take n src) = omega (arith, length-take n src) in
    closed-Appended nothing n (replicate (n + 1) 0) (take n src) n (create_with_size a src n) ln
      (omega arith) (omega arith) h (omega (arith, length-replicate {A = ℕ} (n + 1) 0)) refl
      (rw
        (
          strnlen_lem n src enough clean,
          ==_refl n,
          lt→ltb 0 n (omega arith),
          zero-add,
          add32_lem n 1 (omega arith),
        )
        (rw (buffer_allocate_lem a (n + 1) (ample (n + 1) (omega arith))) (
          rw (memcpy_bytes_lem n src enough) (
            rw
              (write_at_lem (replicate (n + 1) 0) 0 (take n src)
                (omega (arith, length-replicate {A = ℕ} (n + 1) 0)))
              (rw (
                write_at_lem (patch (replicate (n + 1) 0) 0 (take n src)) n (0 ∷ []) (
                  omega (
                    arith,
                    length-patch (replicate (n + 1) 0) 0 (take n src),
                    length-replicate {A = ℕ} (n + 1) 0,
                  ))))))))

-- `iotjs_string_create` of a C string below 2^32 - 1 bytes, for an allocator with room: a valid
-- string that can grow, of the bytes before the NUL.
pub create-Appended :
    (a : Allocator) (s t : List ℕ)
    → IsAmple a
    → NoNul s
    → length s < 2 ^ 32 - 1
    → Appended nothing s (create a (s ++ (0 ∷ t)))
unfolding create
create-Appended a s t ample clean h =
    rw (strlen_lem s t clean, mod-eq_of_lt {n = length s} {m = u32_mod} (omega arith))
      (rw whole at (
        create_with_size-Appended a (s ++ (0 ∷ t)) (length s) ample
          (omega (arith, length-append s (0 ∷ t))) (rw whole clean) h))
  where
    whole : take (length s) (s ++ (0 ∷ t)) ≡ s
    whole = take-length_append s (0 ∷ t) (length s) refl

-- `iotjs_string_create("")`
pub create-nothing : (a : Allocator) → create a (0 ∷ []) ≡ ok nothing
unfolding create create_with_size
create-nothing a = rw (strlen_lem [] [] tt) (rw (strnlen_lem 0 (0 ∷ []) (omega arith) tt) refl)

append-measured :
    (a : Allocator) (s : Str) (src t : List ℕ) (k : ℕ)
    → NoNul src
    → length src < 2 ^ 31
    → append a s (src ++ (0 ∷ t)) (negsuc k) ≡ append a s (src ++ (0 ∷ t)) (pos (length src))
unfolding append
append-measured a s src t k clean h =
    rw (strlen_lem src t clean, mod-eq_of_lt {n = length src} {m = u32_mod} (omega arith))
      (rw (mod-eq_of_lt {n = length src} {m = u32_mod} (omega arith)))

-- `iotjs_string_append` with a negative size, to a valid string that can grow, for a total below
-- 2^31 and an allocator with room: it appends exactly the bytes before the NUL.
pub append_measured-Appended :
    (a : Allocator) (s : Str) (src t : List ℕ) (k : ℕ)
    → IsAmple a
    → IsValid s
    → IsGrowable s
    → NoNul src
    → s.size + length src < 2 ^ 31
    → Appended s src (append a s (src ++ (0 ∷ t)) (negsuc k))
append_measured-Appended a s src t k ample v g clean h =
    rw (append-measured a s src t k clean (omega arith)) (
      rw whole at (
        append-Appended a s (src ++ (0 ∷ t)) (length src) ample v g
          (omega (arith, length-append src (0 ∷ t))) (rw whole clean) h))
  where
    whole : take (length src) (src ++ (0 ∷ t)) ≡ src
    whole = take-length_append src (0 ∷ t) (length src) refl

empty_by_chars :
    (s : Str) (ch : Chars)
    → s.chars ≡ ch
    → Stores ch s.size s.cap
    → (make_empty s ≡ ok nothing) × (destroy s ≡ ok tt)
unfolding make_empty destroy release_chars
empty_by_chars s empty_string c st = (rw c (ground arith), rw c)
empty_by_chars s (block b) c st = (rw c (rw (buffer_release_lem b)), rw c (buffer_release_lem b))
empty_by_chars s null c st = absurd st

-- `iotjs_string_make_empty` of a valid string leaves the empty string, from which every append
-- starts afresh, and `iotjs_string_destroy` of it succeeds: neither releases the static string.
pub make_empty-nothing : (s : Str) → IsValid s → (make_empty s ≡ ok nothing) × (destroy s ≡ ok tt)
make_empty-nothing s v = empty_by_chars s s.chars refl v.stored

-- An empty string that owns a block (an empty file read by `iotjs_file_read`) aborts at the first
-- append of at least one and fewer than 2^31 bytes: it has capacity 0 and is not the static
-- string.
pub append_empty_file :
    (a : Allocator) (buffer src : List ℕ) (n : ℕ)
    → 0 < n
    → n < 2 ^ 31
    → append a (create_with_buffer buffer 0) src (pos n) ≡ fault Fault.aborted
unfolding append append_bytes first_append create_with_buffer
append_empty_file a buffer src n p h =
    rw (mod-eq_of_lt {n = n} {m = u32_mod} (omega arith))
      (rw (mod-eq_of_lt {n = n} {m = u32_mod} (omega arith)) (ground arith))
