-- ===== src/Buffer/Heap.antt =====
-- The wrappers of buffers (`iotjs_bufferwrap_t`) and the JavaScript objects around them. A `Buffer`
-- object has the properties `_builtin` and `length`; its builtin object has `_buffer` and, as its
-- native handle, the pointer to the wrapper.
pub mod Valid
pub mod Moves
pub mod Create
use ble_central.Base.{
  ℕ, zero, suc, ◌+◌, ◌%◌, ◌^◌, Bool, true, false, List, [], ◌∷◌, Option, none, some, ltb, ◌==◌,
  if◌then◌else◌, length, Outcome, ok, fault, Fault, ◌>>=◌, ◌>>◌, assert, or_fault,
}
use ble_central.Base.Int.{ℤ, pos, negsuc}
use ble_central.Memory.{Allocator, u32_mod, buffer_allocate}
use ble_central.Buffer.Range.{to_size, to_int}
use ble_central.Buffer.Bytes.{copy_internal, apart, within}

-- `iotjs_bufferwrap_t`; `none` is NULL.
pub record Wrap : Type 0 where
  pub jobject : ℕ
  pub buffer : Option (List ℕ)
  pub length : ℕ

-- Pointers and objects are numbers; `next` is one that nothing uses yet.
pub record Heap : Type 0 where
  pub wraps : ℕ → Option Wrap
  pub native : ℕ → Option ℕ
  pub builtin : ℕ → Option ℕ
  pub buffer_of : ℕ → Option ℕ
  pub length_of : ℕ → Option ℤ
  pub next : ℕ

abbrev pub update {ℓ} : {A : Type ℓ} → (ℕ → Option A) → ℕ → A → ℕ → Option A
update f p v q = if q == p then some v else f q

abbrev pub block_bytes : Option (List ℕ) → List ℕ
block_bytes none = []
block_bytes (some b) = b

abbrev pub refill : Option (List ℕ) → List ℕ → Option (List ℕ)
refill none bs = none
refill (some b) bs = some bs

abbrev pub bytes_of : Wrap → List ℕ
bytes_of w = block_bytes w.buffer

-- The wrapper with other bytes in its block, if it has one.
abbrev pub with_bytes : Wrap → List ℕ → Wrap
with_bytes w bs = record w { buffer = refill w.buffer bs }

unfoldable pub load : Heap → ℕ → Outcome Wrap
load h p = or_fault Fault.dangling (h.wraps p)

-- `iotjs_bufferwrap_from_jbuiltin`
unfoldable pub from_jbuiltin : Heap → ℕ → Outcome ℕ
from_jbuiltin h o = or_fault Fault.uninitialized (h.native o)

-- `iotjs_bufferwrap_from_jbuffer`
unfoldable pub from_jbuffer : Heap → ℕ → Outcome ℕ
from_jbuffer h o = do b ← or_fault Fault.aborted (h.builtin o); from_jbuiltin h b

-- `iotjs_bufferwrap_jbuiltin`, with the assertions of `iotjs_jobjectwrap_jobject`.
unfoldable pub jbuiltin : Heap → ℕ → Outcome ℕ
jbuiltin h p = do
  w ← load h p
  q ← or_fault Fault.uninitialized (h.native w.jobject)
  assert (q == p)
  ok w.jobject

-- `iotjs_bufferwrap_length`, with its check against the property `length`.
unfoldable pub bufferwrap_length : Heap → ℕ → Outcome ℕ
bufferwrap_length h p = do
  o ← jbuiltin h p
  jbuf ← or_fault Fault.aborted (h.buffer_of o)
  n ← or_fault Fault.aborted (h.length_of jbuf)
  w ← load h p
  assert (to_size n == w.length)
  ok w.length

-- `iotjs_bufferwrap_copy_internal` from a wrapper's bytes: the two may be one wrapper.
pub copy_wrap : Heap → ℕ → ℕ → ℕ → ℕ → ℕ → Outcome (Heap × ℕ)
copy_wrap h dst src src_from src_to dst_from = do
  d ← load h dst
  s ← load h src
  r ←
      copy_internal (if dst == src then within else apart (bytes_of s)) (bytes_of d) src_from src_to
        dst_from
  ok (record h { wraps = update h.wraps dst (with_bytes d r.0) }, r.1)

-- The same from bytes outside every wrapper.
pub copy_bytes : Heap → ℕ → List ℕ → ℕ → ℕ → ℕ → Outcome (Heap × ℕ)
copy_bytes h dst src src_from src_to dst_from = do
  d ← load h dst
  r ← copy_internal (apart src) (bytes_of d) src_from src_to dst_from
  ok (record h { wraps = update h.wraps dst (with_bytes d r.0) }, r.1)

module _ (a : Allocator) where
  -- `iotjs_bufferwrap_create`; the allocator takes the length as an `unsigned`.
  pub create : Heap → ℕ → ℕ → Outcome Heap
  create h jobj len =
      if ltb 0 len
      then (do
        block ← buffer_allocate a (len % u32_mod)
        ok (record h {
          wraps =
              update h.wraps h.next (record { jobject = jobj; buffer = some block; length = len });
          native = update h.native jobj h.next;
          next = suc h.next;
        }))
      else ok (record h {
        wraps = update h.wraps h.next (record { jobject = jobj; buffer = none; length = 0 });
        native = update h.native jobj h.next;
        next = suc h.next;
      })

  -- `new Buffer(len)` of src/js/buffer.js, for a number: what `iotjs_bufferwrap_create_buffer`
  -- calls. The new object and its builtin take the next two identities.
  pub create_buffer : Heap → ℕ → Outcome (Heap × ℕ)
  create_buffer h len = do
    let jbuffer = h.next
    let jbuilt = suc h.next
    h' ←
        create
          (record h {
            length_of = update h.length_of jbuffer (pos len);
            buffer_of = update h.buffer_of jbuilt jbuffer;
            builtin = update h.builtin jbuffer jbuilt;
            next = suc (suc h.next);
          })
          jbuilt len
    ok (h', jbuffer)
