-- ===== src/Buffer/Handlers/Slicing.antt =====
-- `slice` of `Buffer.prototype`: a new buffer with a range of the bytes.
use ble_central.Base.{
  ℕ, zero, suc, ◌-◌, ◌≤◌, ◌<◌, ◌≡◌, inl, refl, ◌∙◌, Bool, true, List, [], ◌∷◌, arith, length, drop,
  take, length-take, length-drop, length-replicate, ok,
}
use ble_central.Base.Int.{ℤ, pos, negsuc, IsInt, ◌-ℤ◌}
use ble_central.Binding.Value.{Jval, returned, as_int-number}
use ble_central.Memory.{Allocator}
use ble_central.Memory.Patch.{patch-whole}
use ble_central.Buffer.Range.{to_size, from_end_clamped, from_end-clamped}
use ble_central.Buffer.Heap.{Wrap, Heap, bytes_of, block_bytes}
use ble_central.Buffer.Heap.Valid.{
  IsBuffer, from_jbuiltin_lem, from_jbuffer_lem, bufferwrap_length_lem, length-bytes_of,
}
use ble_central.Buffer.Heap.Moves.{
  splice, copy_wrap_lem, splice-IsBuffer, bytes_of-spliced, splice-keeps, spliced_wrap,
}
use ble_central.Buffer.Heap.Create.{
  created, new_wrap, blank, create_buffer_lem, created-IsBuffer, created-keeps,
}
use ble_central.Buffer.Handlers.{slice}
use ble_central.Buffer.Handlers.Copying.{end_from, at_least_lem, end_from-ge, end_from-le}

from_end_clamped-le : (v : ℤ) (n : ℕ) → from_end_clamped v n ≤ n
from_end_clamped-le (pos k) n = omega arith
from_end_clamped-le (negsuc k) n = omega arith

pub to_size-sub : (s e : ℕ) → s ≤ e → to_size (pos e -ℤ pos s) ≡ e - s
to_size-sub s e h = ground arith

length-blank : (n : ℕ) → length (block_bytes (blank n)) ≡ n
length-blank zero = refl
length-blank (suc n) = length-replicate {A = ℕ} (suc n) 0

module _ (a : Allocator) (signed : Bool) (h : Heap) (js so sp : ℕ) (sw : Wrap)
    (vs : IsBuffer h js so sp sw) (hj : js < h.next) (ho : so < h.next) (hp : sp < h.next)
    (v0 v1 : ℤ) (i0 : IsInt v0) (i1 : IsInt v1) where
  -- The range that the arguments stand for.
  abbrev first : ℕ
  first = from_end_clamped v0 sw.length

  abbrev last : ℕ
  last = end_from first (from_end_clamped v1 sw.length)

  abbrev piece : List ℕ
  piece = take (last - first) (drop first (bytes_of sw))

  first-le-last : first ≤ last
  first-le-last = end_from-ge first (from_end_clamped v1 sw.length)

  last-le : last ≤ sw.length
  last-le =
      end_from-le first (from_end_clamped v1 sw.length) sw.length (from_end_clamped-le v0 sw.length)
        (from_end_clamped-le v1 sw.length)

  abbrev fresh : Heap
  fresh = created h (last - first)

  abbrev after : Heap
  after = splice fresh (suc (suc h.next)) (new_wrap h (last - first)) 0 piece

  fresh-IsBuffer : IsBuffer fresh h.next (suc h.next) (suc (suc h.next)) (new_wrap h (last - first))
  fresh-IsBuffer = created-IsBuffer h (last - first) (omega (arith, last-le, vs.small))

  slice_run :
      a.fits (last - first) ≡ true
      → slice a signed h (Jval.object so) (Jval.number v0 ∷ Jval.number v1 ∷ [])
        ≡ ok (after, returned (Jval.object h.next))
  unfolding slice
  slice_run fits =
      rw (from_jbuiltin_lem h js so sp sw vs, as_int-number v0 i0, as_int-number v1 i1)
        (rw (bufferwrap_length_lem h js so sp sw vs) (
          rw
            (
              from_end-clamped v0 sw.length i0.0 vs.small,
              from_end-clamped v1 sw.length i1.0 vs.small,
            )
            (rw (at_least_lem first (from_end_clamped v1 sw.length)) (
              rw (to_size-sub first last first-le-last) (
                rw (create_buffer_lem a h (last - first) (omega (arith, last-le, vs.small)) fits) (
                  rw
                    (from_jbuffer_lem fresh h.next (suc h.next) (suc (suc h.next))
                      (new_wrap h (last - first)) fresh-IsBuffer)
                    (rw (
                      copy_wrap_lem fresh h.next (suc h.next) (suc (suc h.next))
                        (new_wrap h (last - first)) fresh-IsBuffer js so sp sw
                        (created-keeps h (last - first) js so sp sw hj ho hp vs) first last 0
                        first-le-last last-le (inl (omega arith))))))))))

  -- `slice(v0, v1)` of a valid buffer, with two `int`s as arguments, if the allocation succeeds:
  -- it returns a new valid buffer object of as many bytes as the range has, which holds exactly
  -- the bytes of the range, where an index below 0 counts from the end, both are brought into the
  -- bounds, and the end is not before the start; the sliced buffer is unchanged.
  pub slice_lem :
      a.fits (last - first) ≡ true
      → (h' : Heap) × (w : Wrap) × (slice a signed h
            (Jval.object so)
            (Jval.number v0 ∷ Jval.number v1 ∷ [])
          ≡ ok (h', returned (Jval.object h.next)))
        × IsBuffer h' h.next (suc h.next) (suc (suc h.next)) w
        × (bytes_of w ≡ piece)
        × (w.length ≡ last - first)
        × IsBuffer h' js so sp sw
  slice_lem fits = (
    after,
    spliced_wrap fresh h.next (suc h.next) (suc (suc h.next)) (new_wrap h (last - first))
        fresh-IsBuffer 0 piece,
    slice_run fits,
    splice-IsBuffer fresh h.next (suc h.next) (suc (suc h.next)) (new_wrap h (last - first))
        fresh-IsBuffer 0 piece,
    bytes_of-spliced fresh h.next (suc h.next) (suc (suc h.next)) (new_wrap h (last - first))
          fresh-IsBuffer 0 piece
        ∙ patch-whole (block_bytes (blank (last - first))) piece (
            omega (
              arith,
              length-blank (last - first),
              length-take (last - first) (drop first (bytes_of sw)),
              length-drop first (bytes_of sw),
              length-bytes_of h js so sp sw vs,
              last-le,
            )),
    refl,
    splice-keeps fresh h.next (suc h.next) (suc (suc h.next)) (new_wrap h (last - first))
        fresh-IsBuffer 0 piece js so sp sw (omega arith)
        (created-keeps h (last - first) js so sp sw hj ho hp vs),
  )
