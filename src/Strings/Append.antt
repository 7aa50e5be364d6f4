-- ===== src/Strings/Append.antt =====
-- `iotjs_string_append` puts bytes at the end, in each of its branches.
use native.Mathlib.Nat.{zero-add, mod-eq_of_lt}
use ble_central.Base.{
  ℕ, zero, suc, ◌+◌, ◌-◌, ◌^◌, ◌≤◌, ◌<◌, ◌≡◌, refl, ap, sym, ◌∙◌, false, some, List, [], ◌∷◌, arith,
  leb, leb→le, le→leb, ◌==◌, ==_iff, Bool-cases, inl, inr, length, take, append-nil, length-take,
  replicate, length-replicate, ok,
}
use ble_central.Base.Int.{pos}
use ble_central.Memory.{Allocator, u32_mod, add32, buffer_reallocate}
use ble_central.Memory.Patch.{patch, length-patch}
use ble_central.Memory.Laws.{
  NoNul, IsAmple, write_at_lem, strncpy_bytes_lem, buffer_allocate_lem, buffer_reallocate_lem,
}
use ble_central.Strings.{
  Str, Chars, empty_string, block, null, bytes, contents, put_tail, first_append, grow_append,
  append_bytes, append, grow, grow_fuel, is_null,
}
use ble_central.Strings.Grow.{grow_total}
use ble_central.Strings.Valid.{IsValid, IsGrowable, Stores}
use ble_central.Strings.Closed.{Appended, closed, sign_extend_lem, add32_lem, closed-Appended}

module _ (src : List ℕ) (n : ℕ) (enough : n ≤ length src) (clean : NoNul (take n src)) where
  length-tail : length (take n src) ≡ n
  length-tail = omega (arith, length-take n src)

  -- The last two branches, once the block is large enough.
  put_tail_lem :
      (s : Str) (cap : ℕ) (blk : List ℕ)
      → s.size + n ≤ cap
      → cap < 2 ^ 32 - 1
      → cap < length blk
      → n < 2 ^ 31
      → put_tail s cap (block blk) src n
        ≡ ok (record {
          size = s.size + n;
          cap = cap;
          chars = block (closed blk s.size (take n src) n);
        })
  unfolding put_tail
  put_tail_lem s cap blk hs hc hb hn =
      rw
        (
          sign_extend_lem n hn,
          strncpy_bytes_lem n src enough clean,
          write_at_lem blk s.size (take n src) (omega (arith, length-tail)),
        )
        (rw (
          add32_lem s.size n (omega arith),
          write_at_lem (patch blk s.size (take n src)) (s.size + n) (0 ∷ [])
              (omega (arith, length-patch blk s.size (take n src))),
        ))

  put_tail-Appended :
      (s : Str) (cap : ℕ) (blk : List ℕ)
      → 0 < n
      → s.size + n ≤ cap
      → cap < 2 ^ 32 - 1
      → cap < length blk
      → n < 2 ^ 31
      → take s.size blk ≡ contents s
      → Appended s (take n src) (put_tail s cap (block blk) src n)
  put_tail-Appended s cap blk p hs hc hb hn keeps =
      closed-Appended s cap blk (take n src) n (put_tail s cap (block blk) src n) (sym length-tail)
        p hs hc hb keeps (put_tail_lem s cap blk hs hc hb hn)

  module _ (a : Allocator) (ample : IsAmple a) (p : 0 < n) (hn : n < 2 ^ 31) where
    first_append_lem :
        (s : Str)
        → s.size ≡ 0
        → s.chars ≡ empty_string
        → first_append a s src n
          ≡ ok (record {
            size = s.size + n;
            cap = n;
            chars = block (closed (replicate (n + 1) 0) s.size (take n src) n);
          })
    unfolding first_append
    first_append_lem s e c =
        rw (e, c, zero-add, add32_lem n 1 (omega arith))
          (rw (buffer_allocate_lem a (n + 1) (ample (n + 1) (omega arith))) (
            rw (strncpy_bytes_lem n src enough clean) (
              rw
                (write_at_lem (replicate (n + 1) 0) 0 (take n src)
                  (omega (arith, length-tail, length-replicate {A = ℕ} (n + 1) 0)))
                (rw (
                  write_at_lem (patch (replicate (n + 1) 0) 0 (take n src)) n (0 ∷ []) (
                    omega (
                      arith,
                      length-patch (replicate (n + 1) 0) 0 (take n src),
                      length-replicate {A = ℕ} (n + 1) 0,
                    )))))))

    first_append-Appended :
        (s : Str)
        → s.size ≡ 0
        → s.chars ≡ empty_string
        → Appended s (take n src) (first_append a s src n)
    first_append-Appended s e c =
        closed-Appended s n (replicate (n + 1) 0) (take n src) n (first_append a s src n)
          (sym length-tail) p (omega arith) (omega arith)
          (omega (arith, length-replicate {A = ℕ} (n + 1) 0)) (rw e) (first_append_lem s e c)

    grow_append_lem :
        (s : Str) (b b' : List ℕ) (cap' : ℕ)
        → s.chars ≡ block b
        → s.size + n < 2 ^ 31
        → grow grow_fuel s.cap (s.size + n) ≡ some cap'
        → cap' < 2 ^ 32 - 1
        → buffer_reallocate a b (cap' + 1) ≡ some b'
        → grow_append a s src n ≡ put_tail s cap' (block b') src n
    unfolding grow_append
    grow_append_lem s b b' cap' c hm g h3 r =
        rw (add32_lem s.size n (omega arith), g, c) (rw (add32_lem cap' 1 (omega arith), r))

    grow_append-Appended :
        (s : Str) (b : List ℕ)
        → s.chars ≡ block b
        → IsValid s
        → 0 < s.cap
        → s.cap < s.size + n
        → s.size + n < 2 ^ 31
        → Appended s (take n src) (grow_append a s src n)
    grow_append-Appended s b c v hc lt hm =
        let (cap', g, h1, h2, h3) = grow_total 32 s.cap (s.size + n) hc v.small hm (omega arith) in
        let room : Stores (block b) s.size s.cap = rw c at v.stored in
        let (b', r, hl, hk) =
          buffer_reallocate_lem a b (cap' + 1) (ample (cap' + 1) (omega arith)) in
        rw (grow_append_lem s b b' cap' c hm g h3 r) (
          put_tail-Appended s cap' b' p h1 h3 (omega arith) hn (
            hk s.size (omega arith) (omega arith)
            ∙ ap (λ (t : Chars). take s.size (bytes t)) (sym c)))

    -- A string of positive capacity has a block, or is not valid.
    fit_append-Appended :
        (s : Str) (ch : Chars)
        → s.chars ≡ ch
        → Stores ch s.size s.cap
        → 0 < s.cap
        → s.size + n ≤ s.cap
        → s.cap < 2 ^ 32 - 1
        → Appended s (take n src) (put_tail s s.cap ch src n)
    fit_append-Appended s empty_string c st hc h small = absurd (omega arith)
    fit_append-Appended s (block b) c st hc h small =
        put_tail-Appended s s.cap b p h small st.0 hn
          (ap (λ (t : Chars). take s.size (bytes t)) (sym c))
    fit_append-Appended s null c st hc h small = absurd st

    large_append-Appended :
        (s : Str) (ch : Chars)
        → s.chars ≡ ch
        → IsValid s
        → 0 < s.cap
        → s.cap < s.size + n
        → s.size + n < 2 ^ 31
        → Appended s (take n src) (grow_append a s src n)
    large_append-Appended s (block b) c v hc lt hm = grow_append-Appended s b c v hc lt hm
    large_append-Appended s empty_string c v hc lt hm =
        let st : Stores empty_string s.size s.cap = rw c at v.stored in absurd (omega arith)
    large_append-Appended s null c v hc lt hm =
        let st : Stores null s.size s.cap = rw c at v.stored in absurd st

    append_bytes-Appended :
        (s : Str)
        → IsValid s
        → IsGrowable s
        → s.size + n < 2 ^ 31
        → Appended s (take n src) (append_bytes a s src n)
    unfolding append_bytes
    append_bytes-Appended s v g hm = elim (Bool-cases (n == 0)) [
      | inl z ↦ absurd (omega (arith, (==_iff n 0).0 z))
      | inr nz ↦ elim (Bool-cases (s.cap == 0)) [
        | inl z ↦
            let e : s.cap ≡ 0 = (==_iff s.cap 0).0 z in
            rw (nz, z) (first_append-Appended s (omega arith) (g e))
        | inr ne ↦
            let hc : 0 < s.cap = ground arith in
            elim (Bool-cases (leb (add32 s.size n) s.cap)) [
              | inl fit ↦
                  rw (nz, ne, fit)
                    (fit_append-Appended s s.chars refl v.stored hc
                      (omega (arith, add32_lem s.size n (omega arith), leb→le _ _ fit)) v.small)
              | inr large ↦
                  rw (nz, ne, large)
                    (large_append-Appended s s.chars refl v hc (ground (arith, add32_lem s.size n))
                      hm)
            ]
      ]
    ]

append_nothing :
    (a : Allocator) (s : Str) (src : List ℕ)
    → IsValid s
    → IsGrowable s
    → Appended s [] (append_bytes a s src 0)
unfolding append_bytes
append_nothing a s src v g = record {
  after = s;
  returned = refl;
  valid = v;
  growable = g;
  extended = sym (append-nil (contents s));
}

-- `iotjs_string_append` of `n` bytes that hold no NUL, to a valid string that can grow, for a
-- total below 2^31 and an allocator with room: on every branch (nothing to append, first buffer,
-- enough room, doubled capacity) it returns a valid string of the old contents followed by
-- exactly those bytes, which can be appended to again.
pub append-Appended :
    (a : Allocator) (s : Str) (src : List ℕ) (n : ℕ)
    → IsAmple a
    → IsValid s
    → IsGrowable s
    → n ≤ length src
    → NoNul (take n src)
    → s.size + n < 2 ^ 31
    → Appended s (take n src) (append a s src (pos n))
unfolding append
append-Appended a s src n ample v g enough clean hm =
    rw (not-null s.chars v.stored, le→leb _ _ v.within)
      (rw (mod-eq_of_lt {n = n} {m = u32_mod} (omega arith))
        (rw (mod-eq_of_lt {n = n} {m = u32_mod} (omega arith)) (by_size n enough clean hm)))
  where
    not-null : (ch : Chars) → Stores ch s.size s.cap → is_null ch ≡ false
    not-null empty_string st = refl
    not-null (block b) st = refl
    not-null null st = absurd st

    by_size :
        (n : ℕ)
        → n ≤ length src
        → NoNul (take n src)
        → s.size + n < 2 ^ 31
        → Appended s (take n src) (append_bytes a s src n)
    by_size zero enough clean hm = append_nothing a s src v g
    by_size (suc n) enough clean hm =
        append_bytes-Appended src (suc n) enough clean a ample (omega arith) (omega arith) s v g hm
