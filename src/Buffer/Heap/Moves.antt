-- ===== src/Buffer/Heap/Moves.antt =====
-- What a copy between two wrappers, or into one from outside, does to the heap.
use mathlib.Core.Path.{subst}
use ble_central.Base.{
  ℕ, ◌-◌, ◌≤◌, ◌≡◌, ◌≢◌, ◌⊎◌, inl, inr, refl, ap, sym, ◌∙◌, List, Option, some, none, arith,
  if◌then◌else◌, length, drop, take, ◌==◌, ==_iff, ==_refl, Bool-cases, Outcome, ok, min,
}
use ble_central.Memory.Patch.{patch, length-patch}
use ble_central.Buffer.Bytes.{copy_internal, apart, within}
use ble_central.Buffer.Bytes.Copy.{copy_apart, copy_within_down}
use ble_central.Buffer.Heap.{
  Wrap, Heap, update, bytes_of, with_bytes, copy_wrap, copy_bytes, block_bytes, refill,
}
use ble_central.Buffer.Heap.Valid.{IsBuffer, Stored, load_lem, length-bytes_of}

-- The heap with other bytes in one wrapper's block.
abbrev pub splice : Heap → ℕ → Wrap → ℕ → List ℕ → Heap
splice h p w at bs = record h { wraps = update h.wraps p (with_bytes w (patch (bytes_of w) at bs)) }

some_inj : {A : Type 0} (x y : A) → some x ≡ some y → x ≡ y
some_inj x y e = cc

module _ (h : Heap) (jd od dp : ℕ) (dw : Wrap) (vd : IsBuffer h jd od dp dw) where
  pub copy_bytes_lem :
      (src : List ℕ) (s e t : ℕ)
      → s ≤ e
      → e ≤ length src
      → copy_bytes h dp src s e t
        ≡ ok (splice h dp dw t (take (e - s) (drop s src)), min (e - s) (dw.length - t))
  unfolding copy_bytes
  copy_bytes_lem src s e t hs he =
      rw (load_lem h jd od dp dw vd)
        (rw (copy_apart src (bytes_of dw) s e t hs he) (rw (length-bytes_of h jd od dp dw vd)))

  copy_down :
      (s e t : ℕ)
      → s ≤ e
      → e ≤ dw.length
      → t ≤ s
      → copy_internal within (bytes_of dw) s e t
        ≡ ok (
          patch (bytes_of dw) t (take (e - s) (drop s (bytes_of dw))),
          min (e - s) (dw.length - t),
        )
  copy_down s e t hs he le =
      let count : e - s ≡ min (e - s) (dw.length - t) = omega arith in
      copy_within_down (bytes_of dw) s e t hs (omega (arith, length-bytes_of h jd od dp dw vd)) le
      ∙ ap
          (λ (k : ℕ).
            let r : Outcome (List ℕ × ℕ) =
              ok (patch (bytes_of dw) t (take (e - s) (drop s (bytes_of dw))), k) in
            r)
          count

  module _ (js so sp : ℕ) (sw : Wrap) (vs : IsBuffer h js so sp sw) where
    copy_by_view :
        (view : List ℕ → List ℕ) (s e t : ℕ)
        → (if dp == sp then within else apart (bytes_of sw)) ≡ view
        → copy_internal view (bytes_of dw) s e t
          ≡ ok (
            patch (bytes_of dw) t (take (e - s) (drop s (bytes_of sw))),
            min (e - s) (dw.length - t),
          )
        → copy_wrap h dp sp s e t
          ≡ ok (splice h dp dw t (take (e - s) (drop s (bytes_of sw))), min (e - s) (dw.length - t))
    unfolding copy_wrap
    copy_by_view view s e t ev run =
        rw (load_lem h jd od dp dw vd) (rw (load_lem h js so sp sw vs) (rw ev (rw run)))

    pub copy_wrap_lem :
        (s e t : ℕ)
        → s ≤ e
        → e ≤ sw.length
        → (dp ≢ sp) ⊎ (t ≤ s)
        → copy_wrap h dp sp s e t
          ≡ ok (splice h dp dw t (take (e - s) (drop s (bytes_of sw))), min (e - s) (dw.length - t))
    copy_wrap_lem s e t hs he c = elim (Bool-cases (dp == sp)) [
      | inr other ↦ copy_by_view (apart (bytes_of sw)) s e t (rw other) (
          copy_apart (bytes_of sw) (bytes_of dw) s e t hs
            (omega (arith, length-bytes_of h js so sp sw vs))
          ∙ rw (length-bytes_of h jd od dp dw vd))
      | inl same ↦
          let eq : dp ≡ sp = (==_iff dp sp).0 same in
          let ew : dw ≡ sw = some_inj dw sw (sym vd.has_wrap ∙ ap h.wraps eq ∙ vs.has_wrap) in
          let le : t ≤ s = elim c [ inl ne ↦ absurd (ne eq) | inr le ↦ le ] in
          copy_by_view within s e t (rw same) (
            subst
              (λ (x : Wrap).
                copy_internal within (bytes_of dw) s e t
                ≡ ok (
                  patch (bytes_of dw) t (take (e - s) (drop s (bytes_of x))),
                  min (e - s) (dw.length - t),
                ))
              ew (copy_down s e t hs (omega (arith, ap (λ (x : Wrap). x.length) ew)) le))
    ]

refill-Stored :
    (b : Option (List ℕ)) (n at : ℕ) (bs : List ℕ)
    → Stored b n
    → Stored (refill b (patch (block_bytes b) at bs)) n
refill-Stored none n at bs s = s
refill-Stored (some b) n at bs s = length-patch b at bs ∙ s

bytes-refill :
    (b : Option (List ℕ)) (at : ℕ) (bs : List ℕ)
    → block_bytes (refill b (patch (block_bytes b) at bs)) ≡ patch (block_bytes b) at bs
bytes-refill none at bs = refl
bytes-refill (some b) at bs = refl

pub update_ne {ℓ} :
    {A : Type ℓ} (f : ℕ → Option A) (p : ℕ) (v : A) (q : ℕ) → q ≢ p → update f p v q ≡ f q
update_ne f p v q ne = elim (Bool-cases (q == p)) [
  | inl e ↦ absurd (ne ((==_iff q p).0 e))
  | inr e ↦ rw e
]

-- A spliced buffer is a buffer, with the spliced bytes; the others are as they were.
module _ (h : Heap) (jd od dp : ℕ) (dw : Wrap) (vd : IsBuffer h jd od dp dw) (at : ℕ)
    (bs : List ℕ) where
  abbrev pub spliced_wrap : Wrap
  spliced_wrap = with_bytes dw (patch (bytes_of dw) at bs)

  pub splice-IsBuffer : IsBuffer (splice h dp dw at bs) jd od dp spliced_wrap
  splice-IsBuffer = record {
    has_builtin = vd.has_builtin;
    has_native = vd.has_native;
    has_wrap = rw (==_refl dp);
    wrap_object = vd.wrap_object;
    back = vd.back;
    has_length = vd.has_length;
    stored = refill-Stored dw.buffer dw.length at bs vd.stored;
    small = vd.small;
  }

  pub bytes_of-spliced : bytes_of spliced_wrap ≡ patch (bytes_of dw) at bs
  bytes_of-spliced = bytes-refill dw.buffer at bs

  pub splice-keeps :
      (js so sp : ℕ) (sw : Wrap)
      → sp ≢ dp
      → IsBuffer h js so sp sw
      → IsBuffer (splice h dp dw at bs) js so sp sw
  splice-keeps js so sp sw ne v = record {
    has_builtin = v.has_builtin;
    has_native = v.has_native;
    has_wrap = update_ne h.wraps dp spliced_wrap sp ne ∙ v.has_wrap;
    wrap_object = v.wrap_object;
    back = v.back;
    has_length = v.has_length;
    stored = v.stored;
    small = v.small;
  }
