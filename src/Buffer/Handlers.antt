-- ===== src/Buffer/Handlers.antt =====
-- The native functions of `Buffer.prototype` in src/module/iotjs_module_buffer.c.
pub mod Copying
pub mod Slicing
pub mod Text
use ble_central.Base.{
  ℕ, zero, suc, ◌+◌, ◌-◌, ◌%◌, ◌^◌, Bool, true, false, ◌&&◌, List, [], ◌∷◌, ◌++◌, Option, none,
  some, if◌then◌else◌, length, drop, take, Outcome, ok, fault, Fault, ◌>>=◌, ◌>>◌, assert, or_fault,
}
use ble_central.Base.Int.{ℤ, pos, negsuc, ◌-ℤ◌, ltb_ℤ}
use ble_central.Binding.Value.{
  Kind, Jval, is_kind, as_int, as_string, as_object, Reply, returned, check_failed, get_arg,
  check_args,
}
use ble_central.Memory.{Allocator, strnlen}
use ble_central.Strings
use ble_central.Strings.{Str, contents}
use ble_central.Buffer.Range.{to_int, to_size, clamp, from_end}
use ble_central.Buffer.Bytes.{compare_bytes}
use ble_central.Buffer.Heap.{
  Wrap, Heap, update, bytes_of, load, from_jbuiltin, from_jbuffer, bufferwrap_length, copy_wrap,
  copy_bytes, create, create_buffer,
}

-- `if (end < start) end = start`
abbrev pub at_least : ℤ → ℤ → ℤ
at_least lo v = if ltb_ℤ v lo then lo else v

-- The pointer moved on by `n`.
abbrev pub advance : ℕ → Option (List ℕ) → Option (List ℕ)
advance n none = none
advance n (some bs) = some (drop n bs)

-- `strnlen` of a pointer that may be NULL: with a maximum of 0 it reads nothing.
abbrev pub pointer_strnlen : ℕ → Option (List ℕ) → Outcome ℕ
pointer_strnlen n (some bs) = strnlen n bs
pointer_strnlen zero none = ok 0
pointer_strnlen (suc n) none = fault Fault.null_pointer

module _ (a : Allocator) (signed : Bool) where
  -- `Buffer(jbuffer, length)`, the constructor of the builtin object.
  pub constructor : Heap → Jval → List Jval → Outcome (Heap × Reply)
  constructor h this args =
      if is_kind Kind.object this && check_args (Kind.object ∷ Kind.number ∷ []) args
      then (do
        built ← as_object this
        jbuf ← as_object (← get_arg args 0)
        len ← as_int (← get_arg args 1)
        h' ← create a (record h { buffer_of = update h.buffer_of built jbuf }) built (to_size len)
        ok (h', returned Jval.undefined))
      else ok (h, check_failed)

  pub compare : Heap → Jval → List Jval → Outcome (Heap × Reply)
  compare h this args =
      if is_kind Kind.object this && check_args (Kind.object ∷ []) args
      then (do
        src ← from_jbuiltin h (← as_object this)
        dst ← from_jbuffer h (← as_object (← get_arg args 0))
        s ← load h src
        d ← load h dst
        ok (h, returned (Jval.number (compare_bytes signed (bytes_of s) (bytes_of d)))))
      else ok (h, check_failed)

  pub copy : Heap → Jval → List Jval → Outcome (Heap × Reply)
  copy h this args =
      if is_kind Kind.object this
        && check_args (Kind.object ∷ Kind.number ∷ Kind.number ∷ Kind.number ∷ []) args
      then (do
        src ← from_jbuiltin h (← as_object this)
        dst ← from_jbuffer h (← as_object (← get_arg args 0))
        v1 ← as_int (← get_arg args 1)
        v2 ← as_int (← get_arg args 2)
        v3 ← as_int (← get_arg args 3)
        dst_length ← bufferwrap_length h dst
        src_length ← bufferwrap_length h src
        let src_start = clamp v2 src_length
        let src_end = at_least src_start (clamp v3 src_length)
        r ←
            copy_wrap h dst src (to_size src_start) (to_size src_end)
              (to_size (clamp v1 dst_length))
        ok (r.0, returned (Jval.number (pos r.1))))
      else ok (h, check_failed)

  -- The source is the string's bytes, with the terminator of `iotjs_string_t`.
  pub write : Heap → Jval → List Jval → Outcome (Heap × Reply)
  write h this args =
      if check_args (Kind.string ∷ Kind.number ∷ Kind.number ∷ []) args
      then (do
        src ← as_string (← get_arg args 0)
        v1 ← as_int (← get_arg args 1)
        v2 ← as_int (← get_arg args 2)
        p ← from_jbuiltin h (← as_object this)
        buffer_length ← bufferwrap_length h p
        let offset = to_size (clamp v1 buffer_length)
        let room = (buffer_length + 2 ^ 64 - offset) % 2 ^ 64
        let len = clamp (clamp v2 room) (length src)
        r ← copy_bytes h p (src ++ (0 ∷ [])) 0 (to_size len) offset
        ok (r.0, returned (Jval.number (pos r.1))))
      else ok (h, check_failed)

  pub slice : Heap → Jval → List Jval → Outcome (Heap × Reply)
  slice h this args =
      if check_args (Kind.number ∷ Kind.number ∷ []) args
      then (do
        p ← from_jbuiltin h (← as_object this)
        v0 ← as_int (← get_arg args 0)
        v1 ← as_int (← get_arg args 1)
        len ← bufferwrap_length h p
        let start = clamp (from_end v0 len) len
        let end = at_least start (clamp (from_end v1 len) len)
        n ← create_buffer a h (to_size (end -ℤ start))
        q ← from_jbuffer n.0 n.1
        r ← copy_wrap n.0 q p (to_size start) (to_size end) 0
        ok (r.0, returned (Jval.object n.1)))
      else ok (h, check_failed)

  pub to_string : Heap → Jval → List Jval → Outcome (Heap × Reply)
  to_string h this args =
      if is_kind Kind.object this && check_args (Kind.number ∷ Kind.number ∷ []) args
      then (do
        p ← from_jbuiltin h (← as_object this)
        v0 ← as_int (← get_arg args 0)
        v1 ← as_int (← get_arg args 1)
        len ← bufferwrap_length h p
        let start = clamp v0 len
        let end = at_least start (clamp v1 len)
        w ← load h p
        let pointer = advance (to_size start) w.buffer
        n ← pointer_strnlen (to_size (end -ℤ start)) pointer
        str ← Strings.create_from_pointer a pointer n
        Strings.destroy str
        ok (h, returned (Jval.string (contents str))))
      else ok (h, check_failed)
