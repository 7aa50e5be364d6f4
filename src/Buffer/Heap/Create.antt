-- ===== src/Buffer/Heap/Create.antt =====
-- `iotjs_bufferwrap_create_buffer`: a new buffer beside the old ones.
use ble_central.Base.{
  ℕ, zero, suc, ◌^◌, ◌<◌, ◌≡◌, refl, ◌∙◌, true, List, Option, some, none, arith, replicate,
  length-replicate, lt→ltb, ==_refl, ok,
}
use native.Mathlib.Nat.{mod-eq_of_lt}
use ble_central.Base.Int.{pos}
use ble_central.Memory.{Allocator, u32_mod}
use ble_central.Memory.Laws.{buffer_allocate_lem}
use ble_central.Buffer.Heap.{Wrap, Heap, update, create, create_buffer}
use ble_central.Buffer.Heap.Moves.{update_ne}
use ble_central.Buffer.Heap.Valid.{IsBuffer, Stored}

-- The block of a new buffer of `n` bytes.
abbrev pub blank : ℕ → Option (List ℕ)
blank zero = none
blank (suc n) = some (replicate (suc n) 0)

abbrev pub new_wrap : Heap → ℕ → Wrap
new_wrap h n = record { jobject = suc h.next; buffer = blank n; length = n }

abbrev pub created : Heap → ℕ → Heap
created h n = record {
  wraps = update h.wraps (suc (suc h.next)) (new_wrap h n);
  native = update h.native (suc h.next) (suc (suc h.next));
  builtin = update h.builtin h.next (suc h.next);
  buffer_of = update h.buffer_of (suc h.next) h.next;
  length_of = update h.length_of h.next (pos n);
  next = suc (suc (suc h.next));
}

pub create_empty_lem : (a : Allocator) (h : Heap) → create_buffer a h 0 ≡ ok (created h 0, h.next)
unfolding create_buffer create
create_empty_lem a h = refl

pub create_buffer_lem :
    (a : Allocator) (h : Heap) (n : ℕ)
    → n < u32_mod
    → a.fits n ≡ true
    → create_buffer a h n ≡ ok (created h n, h.next)
unfolding create_buffer create
create_buffer_lem a h zero small fits = create_empty_lem a h
create_buffer_lem a h (suc n) small fits =
    rw (lt→ltb 0 (suc n) (omega arith), mod-eq_of_lt {n = suc n} {m = u32_mod} small)
      (rw (buffer_allocate_lem a (suc n) fits))

update_self {ℓ} : {A : Type ℓ} (f : ℕ → Option A) (p : ℕ) (v : A) → update f p v p ≡ some v
update_self f p v = rw (==_refl p)

pub created-IsBuffer :
    (h : Heap) (n : ℕ)
    → n < 2 ^ 31
    → IsBuffer (created h n) h.next (suc h.next) (suc (suc h.next)) (new_wrap h n)
created-IsBuffer h n small = record {
  has_builtin = update_self h.builtin h.next (suc h.next);
  has_native = update_self h.native (suc h.next) (suc (suc h.next));
  has_wrap = update_self h.wraps (suc (suc h.next)) (new_wrap h n);
  wrap_object = refl;
  back = update_self h.buffer_of (suc h.next) h.next;
  has_length = update_self h.length_of h.next (pos n);
  stored = stored_lem n;
  small = small;
}
  where
    stored_lem : (n : ℕ) → Stored (blank n) n
    stored_lem zero = refl
    stored_lem (suc n) = length-replicate {A = ℕ} (suc n) 0

-- The old buffers are as they were, if their identities were in use.
pub created-keeps :
    (h : Heap) (n js so sp : ℕ) (sw : Wrap)
    → js < h.next
    → so < h.next
    → sp < h.next
    → IsBuffer h js so sp sw
    → IsBuffer (created h n) js so sp sw
created-keeps h n js so sp sw hj ho hp v = record {
  has_builtin = update_ne h.builtin h.next (suc h.next) js (omega arith) ∙ v.has_builtin;
  has_native = update_ne h.native (suc h.next) (suc (suc h.next)) so (omega arith) ∙ v.has_native;
  has_wrap = update_ne h.wraps (suc (suc h.next)) (new_wrap h n) sp (omega arith) ∙ v.has_wrap;
  wrap_object = v.wrap_object;
  back = update_ne h.buffer_of (suc h.next) h.next so (omega arith) ∙ v.back;
  has_length = update_ne h.length_of h.next (pos n) js (omega arith) ∙ v.has_length;
  stored = v.stored;
  small = v.small;
}
