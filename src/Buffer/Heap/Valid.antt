-- ===== src/Buffer/Heap/Valid.antt =====
-- What it is for a heap to hold a buffer object.
use ble_central.Base.{ℕ, ◌^◌, ◌<◌, ◌≡◌, sym, List, Option, none, some, length, ==_refl, ok}
use ble_central.Base.Int.{pos}
use ble_central.Buffer.Heap.{
  Wrap, Heap, load, from_jbuiltin, from_jbuffer, jbuiltin, bufferwrap_length, bytes_of, block_bytes,
}

-- The block is as long as the `length` field says; NULL stands for no bytes.
abbrev pub Stored : Option (List ℕ) → ℕ → Type 0
Stored none n = n ≡ 0
Stored (some b) n = length b ≡ n

-- `jbuf` is a `Buffer` object, `o` its builtin, `p` the pointer to its wrapper `w`.
pub record IsBuffer (h : Heap) (jbuf o p : ℕ) (w : Wrap) : Type 0 where
  pub has_builtin : h.builtin jbuf ≡ some o
  pub has_native : h.native o ≡ some p
  pub has_wrap : h.wraps p ≡ some w
  pub wrap_object : w.jobject ≡ o
  pub back : h.buffer_of o ≡ some jbuf
  pub has_length : h.length_of jbuf ≡ some (pos w.length)
  pub stored : Stored w.buffer w.length
  pub small : w.length < 2 ^ 31

module _ (h : Heap) (jbuf o p : ℕ) (w : Wrap) (v : IsBuffer h jbuf o p w) where
  pub load_lem : load h p ≡ ok w
  unfolding load
  load_lem = rw v.has_wrap

  pub from_jbuiltin_lem : from_jbuiltin h o ≡ ok p
  unfolding from_jbuiltin
  from_jbuiltin_lem = rw v.has_native

  pub from_jbuffer_lem : from_jbuffer h jbuf ≡ ok p
  unfolding from_jbuffer
  from_jbuffer_lem = rw v.has_builtin from_jbuiltin_lem

  jbuiltin_lem : jbuiltin h p ≡ ok o
  unfolding jbuiltin
  jbuiltin_lem = rw load_lem (rw (v.wrap_object, v.has_native, ==_refl p))

  -- The assertion on the property `length` holds of a buffer object.
  pub bufferwrap_length_lem : bufferwrap_length h p ≡ ok w.length
  unfolding bufferwrap_length
  bufferwrap_length_lem =
      rw jbuiltin_lem (rw v.back (rw v.has_length (rw load_lem (rw (==_refl w.length)))))

  pub length-bytes_of : length (bytes_of w) ≡ w.length
  length-bytes_of = by_buffer w.buffer v.stored
    where
      by_buffer : (b : Option (List ℕ)) → Stored b w.length → length (block_bytes b) ≡ w.length
      by_buffer none s = sym s
      by_buffer (some c) s = s
