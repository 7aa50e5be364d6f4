-- ===== src/Buffer/Handlers/Text.antt =====
-- `compare` and `toString` of `Buffer.prototype`.
use ble_central.Base.{
  ℕ, suc, refl, ◌-◌, ◌≤◌, ◌≡◌, ap, ◌∙◌, Bool, List, [], ◌∷◌, none, some, arith, length, drop, take,
  length-drop, Outcome, ok, fault, Fault,
}
use ble_central.Base.Int.{ℤ, IsInt}
use ble_central.Binding.Value.{Jval, Reply, returned, as_int-number}
use ble_central.Memory.{Allocator}
use ble_central.Memory.Laws.{
  IsAmple, until_nul, strnlen_until, take-until_nul, until_nul-NoNul, until_nul-le,
}
use ble_central.Strings.Build.{create_with_size-Appended, make_empty-nothing}
use ble_central.Buffer.Range.{clamped, clamp-clamped}
use ble_central.Buffer.Bytes.{compare_bytes}
use ble_central.Buffer.Bytes.Order.{IsBytes, Compared, compare-Compared}
use ble_central.Buffer.Heap.{Wrap, Heap, bytes_of}
use ble_central.Buffer.Heap.Valid.{
  IsBuffer, load_lem, from_jbuiltin_lem, from_jbuffer_lem, bufferwrap_length_lem,
}
use ble_central.Buffer.Heap.{create_buffer}
use ble_central.Buffer.Heap.Create.{new_wrap, created, create_empty_lem, created-IsBuffer}
use ble_central.Strings.{create_from_pointer}
use ble_central.Buffer.Handlers.{compare, to_string}
use ble_central.Buffer.Handlers.Copying.{
  end_from, at_least_lem, end_from-ge, end_from-le, clamped-le,
}
use ble_central.Buffer.Handlers.Slicing.{to_size-sub}

-- `a.compare(b)` of two valid buffers changes nothing and answers -1, 0 or 1 exactly as the bytes
-- of `a` come before, are equal to or come after those of `b` in the lexicographic order of
-- `char`s.
pub compare_lem :
    (a : Allocator) (signed : Bool) (h : Heap) (js so sp : ℕ) (sw : Wrap) (jd od dp : ℕ) (dw : Wrap)
    → IsBuffer h js so sp sw
    → IsBuffer h jd od dp dw
    → IsBytes (bytes_of sw)
    → IsBytes (bytes_of dw)
    → (r : ℤ) × (compare a signed h (Jval.object so) (Jval.object jd ∷ [])
        ≡ ok (h, returned (Jval.number r)))
      × Compared signed (bytes_of sw) (bytes_of dw) r
unfolding compare
compare_lem a signed h js so sp sw jd od dp dw vs vd bs bd = (
  compare_bytes signed (bytes_of sw) (bytes_of dw),
  rw (from_jbuiltin_lem h js so sp sw vs) (
      rw (from_jbuffer_lem h jd od dp dw vd)
        (rw (load_lem h js so sp sw vs) (rw (load_lem h jd od dp dw vd)))),
  (compare-Compared signed (bytes_of sw) (bytes_of dw) bs bd).0,
)

-- Without a block every range is empty, and the string is made from a NULL pointer.
to_string_null :
    (a : Allocator) (signed : Bool) (h : Heap) (js so sp : ℕ) (sw : Wrap)
    → IsBuffer h js so sp sw
    → sw.buffer ≡ none
    → sw.length ≡ 0
    → (v0 v1 : ℤ) → IsInt v0
    → IsInt v1
    → to_string a signed h (Jval.object so) (Jval.number v0 ∷ Jval.number v1 ∷ [])
      ≡ fault Fault.aborted
unfolding to_string create_from_pointer
to_string_null a signed h js so sp sw vs e l v0 v1 i0 i1 =
    rw (from_jbuiltin_lem h js so sp sw vs, as_int-number v0 i0, as_int-number v1 i1)
      (rw (bufferwrap_length_lem h js so sp sw vs) (
        rw (load_lem h js so sp sw vs) (
          rw (clamp-clamped v0 sw.length vs.small, clamp-clamped v1 sw.length vs.small)
            (rw (at_least_lem (clamped v0 sw.length) (clamped v1 sw.length)) (
              rw
                (to_size-sub (clamped v0 sw.length)
                  (end_from (clamped v0 sw.length) (clamped v1 sw.length))
                  (end_from-ge (clamped v0 sw.length) (clamped v1 sw.length)))
                (rw e (rw empty)))))))
  where
    empty : end_from (clamped v0 sw.length) (clamped v1 sw.length) - clamped v0 sw.length ≡ 0
    empty = omega (
      arith,
      end_from-le (clamped v0 sw.length) (clamped v1 sw.length) sw.length (clamped-le v0 sw.length)
          (clamped-le v1 sw.length),
    )

-- A buffer that `iotjs_bufferwrap_create_buffer` makes with no bytes is a valid buffer of length
-- 0, and `toString` of it aborts for every two `int`s: its block is NULL, `strnlen` reads nothing
-- of it, and the string is made from it under an assertion that it is not NULL.
pub to_string_empty :
    (a : Allocator) (signed : Bool) (h : Heap) (v0 v1 : ℤ)
    → IsInt v0
    → IsInt v1
    → (h' : Heap) × (w : Wrap) × (create_buffer a h 0 ≡ ok (h', h.next))
      × IsBuffer h' h.next (suc h.next) (suc (suc h.next)) w
      × (w.length ≡ 0)
      × (to_string a signed h' (Jval.object (suc h.next)) (Jval.number v0 ∷ Jval.number v1 ∷ [])
          ≡ fault Fault.aborted)
to_string_empty a signed h v0 v1 i0 i1 =
    let v = created-IsBuffer h 0 (omega arith) in
    (
      created h 0,
      new_wrap h 0,
      create_empty_lem a h,
      v,
      refl,
      to_string_null a signed (created h 0) h.next (suc h.next) (suc (suc h.next)) (new_wrap h 0) v
          refl refl v0 v1 i0 i1,
    )

module _ (a : Allocator) (signed : Bool) (h : Heap) (js so sp : ℕ) (sw : Wrap)
    (vs : IsBuffer h js so sp sw) (ample : IsAmple a) (block : List ℕ)
    (hb : sw.buffer ≡ some block) where
  -- `toString(v0, v1)` of a valid buffer with bytes, for an allocator with room: it changes
  -- nothing and, for two `int`s, returns the bytes from `v0` to `v1`, both brought into the bounds, up to the
  -- first NUL among them.
  pub to_string_lem :
      (v0 v1 : ℤ)
      → IsInt v0
      → IsInt v1
      → let s = clamped v0 sw.length in
        let n = end_from s (clamped v1 sw.length) - s in
        to_string a signed h (Jval.object so) (Jval.number v0 ∷ Jval.number v1 ∷ [])
        ≡ ok (h, returned (Jval.string (until_nul (take n (drop s block)))))
  unfolding to_string create_from_pointer
  to_string_lem v0 v1 i0 i1 =
      let s = clamped v0 sw.length in
      let e = end_from s (clamped v1 sw.length) in
      let n = e - s in
      let text = until_nul (take n (drop s block)) in
      let size : length block ≡ sw.length = rw hb at vs.stored in
      let le : e ≤ sw.length =
        end_from-le s (clamped v1 sw.length) sw.length (clamped-le v0 sw.length)
          (clamped-le v1 sw.length) in
      let there : n ≤ length (drop s block) = omega (arith, length-drop s block) in
      let made =
        create_with_size-Appended a (drop s block) (length text) ample
          (omega (arith, until_nul-le n (drop s block)))
          (rw (take-until_nul n (drop s block)) (until_nul-NoNul (take n (drop s block))))
          (omega (arith, until_nul-le n (drop s block), vs.small)) in
      rw (from_jbuiltin_lem h js so sp sw vs, as_int-number v0 i0, as_int-number v1 i1)
        (rw (bufferwrap_length_lem h js so sp sw vs) (
          rw (load_lem h js so sp sw vs) (
            rw (clamp-clamped v0 sw.length vs.small, clamp-clamped v1 sw.length vs.small)
              (rw (at_least_lem s (clamped v1 sw.length)) (
                rw (to_size-sub s e (end_from-ge s (clamped v1 sw.length))) (
                  rw hb (
                    rw (strnlen_until n (drop s block) there) (
                      rw made.returned (
                        rw ((make_empty-nothing made.after made.valid).1)
                          (ap answer (made.extended ∙ take-until_nul n (drop s block))))))))))))
    where
      answer : List ℕ → Outcome (Heap × Reply)
      answer l = ok (h, returned (Jval.string l))
