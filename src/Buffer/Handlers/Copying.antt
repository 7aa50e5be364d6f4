-- ===== src/Buffer/Handlers/Copying.antt =====
-- What `copy`, `write` and `slice` of `Buffer.prototype` move.
use ble_central.Base.{
  ℕ, ◌+◌, ◌-◌, ◌%◌, ◌^◌, ◌≤◌, ◌<◌, ◌≡◌, ◌≢◌, ◌⊎◌, ap, ap₂, ◌∙◌, Bool, List, [], ◌∷◌, ◌++◌, arith,
  if◌then◌else◌, length, drop, take, ltb, length-append, take-append_left, Outcome, ok, min,
}
use ble_central.Base.Int.{ℤ, pos, negsuc, IsInt}
use ble_central.Binding.Value.{Jval, Reply, returned, as_int-number}
use ble_central.Memory.{Allocator}
use ble_central.Buffer.Range.{clamped, clamp-clamped}
use ble_central.Buffer.Heap.{Wrap, Heap, bytes_of}
use ble_central.Buffer.Heap.Moves.{splice, copy_wrap_lem, copy_bytes_lem}
use ble_central.Buffer.Heap.Valid.{
  IsBuffer, from_jbuiltin_lem, from_jbuffer_lem, bufferwrap_length_lem,
}
use ble_central.Buffer.Handlers.{copy, write, at_least}

-- The end of a range that starts at `s`.
abbrev pub end_from : ℕ → ℕ → ℕ
end_from s e = if ltb e s then s else e

pub clamped-le : (v : ℤ) (n : ℕ) → clamped v n ≤ n
clamped-le (pos k) n = omega arith
clamped-le (negsuc k) n = omega arith

pub at_least_lem : (s e : ℕ) → at_least (pos s) (pos e) ≡ pos (end_from s e)
at_least_lem s e = ground arith

pub end_from-ge : (s e : ℕ) → s ≤ end_from s e
end_from-ge s e = ground arith

pub end_from-le : (s e n : ℕ) → s ≤ n → e ≤ n → end_from s e ≤ n
end_from-le s e n h k = ground arith

module _ (h : Heap) (js so sp : ℕ) (sw : Wrap) (vs : IsBuffer h js so sp sw) (jd od dp : ℕ)
    (dw : Wrap) (vd : IsBuffer h jd od dp dw) where
  -- `source.copy(target, v1, v2, v3)` of two valid buffers: with the three arguments `int`s and
  -- brought into the bounds of the buffers (and the end not before the start), it writes the source bytes of
  -- that range over the target from `v1` on, as far as the target reaches, leaves all else of the
  -- heap as it was, and returns the number of bytes written; the source may be the target if the
  -- copy is not towards its end.
  pub copy_lem :
      (a : Allocator) (signed : Bool) (v1 v2 v3 : ℤ)
      → IsInt v1
      → IsInt v2
      → IsInt v3
      → (dp ≢ sp) ⊎ (clamped v1 dw.length ≤ clamped v2 sw.length)
      → let t = clamped v1 dw.length in
        let s = clamped v2 sw.length in
        let n = end_from s (clamped v3 sw.length) - s in
        copy a signed h
          (Jval.object so)
          (Jval.object jd ∷ Jval.number v1 ∷ Jval.number v2 ∷ Jval.number v3 ∷ [])
        ≡ ok (
          splice h dp dw t (take n (drop s (bytes_of sw))),
          returned (Jval.number (pos (min n (dw.length - t)))),
        )
  unfolding copy
  copy_lem a signed v1 v2 v3 i1 i2 i3 c =
      let s = clamped v2 sw.length in
      let e = end_from s (clamped v3 sw.length) in
      rw (from_jbuiltin_lem h js so sp sw vs) (
        rw
          (
            from_jbuffer_lem h jd od dp dw vd,
            as_int-number v1 i1,
            as_int-number v2 i2,
            as_int-number v3 i3,
          )
          (rw (bufferwrap_length_lem h jd od dp dw vd) (
            rw (bufferwrap_length_lem h js so sp sw vs) (
              rw
                (
                  clamp-clamped v1 dw.length vd.small,
                  clamp-clamped v2 sw.length vs.small,
                  clamp-clamped v3 sw.length vs.small,
                )
                (rw (at_least_lem s (clamped v3 sw.length)) (
                  rw (
                    copy_wrap_lem h jd od dp dw vd js so sp sw vs s e (clamped v1 dw.length)
                      (end_from-ge s (clamped v3 sw.length))
                      (end_from-le s (clamped v3 sw.length) sw.length (clamped-le v2 sw.length)
                        (clamped-le v3 sw.length))
                      c)))))))

room_lem : (len t : ℕ) → t ≤ len → len < 2 ^ 64 → (len + 2 ^ 64 - t) % 2 ^ 64 ≡ len - t
room_lem len t h k = omega arith

-- `write(src, v1, v2)` of a valid buffer and a string below 2^31 bytes, for two `int`s `v1` and `v2`: it writes the string's
-- first bytes at the offset `v1` brought into the bounds of the buffer, as many as `v2`, the room
-- behind the offset and the string allow, leaves all else as it was, and returns their number.
pub write_lem :
    (a : Allocator) (signed : Bool) (h : Heap) (jd od dp : ℕ) (dw : Wrap)
    → IsBuffer h jd od dp dw
    → (src : List ℕ) (v1 v2 : ℤ) → IsInt v1
    → IsInt v2
    → length src < 2 ^ 31
    → let t = clamped v1 dw.length in
      let n = min (clamped v2 (dw.length - t)) (length src) in
      write a signed h (Jval.object od) (Jval.string src ∷ Jval.number v1 ∷ Jval.number v2 ∷ [])
      ≡ ok (splice h dp dw t (take n src), returned (Jval.number (pos n)))
unfolding write
write_lem a signed h jd od dp dw vd src v1 v2 i1 i2 small =
    let t = clamped v1 dw.length in
    let le = clamped-le v1 dw.length in
    let n = min (clamped v2 (dw.length - t)) (length src) in
    rw (from_jbuiltin_lem h jd od dp dw vd, as_int-number v1 i1, as_int-number v2 i2)
      (rw (bufferwrap_length_lem h jd od dp dw vd) (
        rw (clamp-clamped v1 dw.length vd.small) (
          rw (room_lem dw.length t le (omega (arith, vd.small))) (
            rw (clamp-clamped v2 (dw.length - t) (omega (arith, vd.small))) (
              rw (clamp-clamped (pos (clamped v2 (dw.length - t))) (length src) small) (
                rw
                  (copy_bytes_lem h jd od dp dw vd (src ++ (0 ∷ [])) 0 n t (omega arith)
                    (omega (arith, length-append src (0 ∷ []))))
                  (ap₂
                    (λ (l : List ℕ) (k : ℕ).
                      let r : Outcome (Heap × Reply) =
                        ok (splice h dp dw t l, returned (Jval.number (pos k))) in
                      r)
                    (ap (λ (k : ℕ). take k (src ++ (0 ∷ []))) (omega arith)
                      ∙ take-append_left n src (0 ∷ []) (omega arith))
                    (omega (arith, clamped-le v2 (dw.length - t))))))))))
