-- ===== src/Buffer/Bytes/Copy.antt =====
-- `iotjs_bufferwrap_copy_internal` against a splice of the destination.
use ble_central.Base.{
  ℕ, zero, suc, ◌+◌, ◌-◌, ◌≤◌, ◌<◌, ◌≡◌, refl, ap, ap₂, sym, ◌∙◌, some, List, [], ◌∷◌, arith,
  length, get_elem?, set, take, drop, length-set, get_elem?-set_self, get_elem?-set_ne, lt→ltb,
  le→ltb-false, Outcome, ok, min,
}
use native.Mathlib.Decide.{dec_lt}
use ble_central.Memory.Patch.{patch}
use ble_central.Buffer.Bytes.{copy_loop, copy_internal, apart, within}

module _ {ℓ} {A : Type ℓ} where
  patch-end : (xs : List A) (j : ℕ) (bs : List A) → length xs ≤ j → patch xs j bs ≡ xs
  patch-end [] j bs h = refl
  patch-end (x ∷ xs) zero bs h = absurd (omega arith)
  patch-end (x ∷ xs) (suc j) bs h = ap (λ l. x ∷ l) (patch-end xs j bs (omega arith))

  patch-nil : (xs : List A) (j : ℕ) → patch xs j [] ≡ xs
  patch-nil [] j = refl
  patch-nil (x ∷ xs) zero = refl
  patch-nil (x ∷ xs) (suc j) = ap (λ l. x ∷ l) (patch-nil xs j)

  patch-cons :
      (xs : List A) (j : ℕ) (b : A) (bs : List A)
      → patch (set xs j b) (suc j) bs ≡ patch xs j (b ∷ bs)
  patch-cons [] j b bs = refl
  patch-cons (x ∷ xs) zero b bs = refl
  patch-cons (x ∷ xs) (suc j) b bs = ap (λ l. x ∷ l) (patch-cons xs j b bs)

  take-drop-cons :
      (k i : ℕ) (xs : List A) (b : A)
      → get_elem? xs i ≡ some b
      → take (suc k) (drop i xs) ≡ b ∷ take k (drop (suc i) xs)
  take-drop-cons k i [] b e = cc
  take-drop-cons k zero (x ∷ xs) b e = cc
  take-drop-cons k (suc i) (x ∷ xs) b e = take-drop-cons k i xs b e

  get_elem?-exists : (xs : List A) (i : ℕ) → i < length xs → (b : A) × (get_elem? xs i ≡ some b)
  get_elem?-exists [] i h = elim h [ ]
  get_elem?-exists (x ∷ xs) zero h = (x, refl)
  get_elem?-exists (x ∷ xs) (suc i) h = get_elem?-exists xs i (omega arith)

  drop-set_below : (n i : ℕ) (v : A) (xs : List A) → i < n → drop n (set xs i v) ≡ drop n xs
  drop-set_below zero i v xs h = elim h [ ]
  drop-set_below (suc n) zero v [] h = refl
  drop-set_below (suc n) (suc i) v [] h = refl
  drop-set_below (suc n) zero v (x ∷ xs) h = refl
  drop-set_below (suc n) (suc i) v (x ∷ xs) h = drop-set_below n i v xs (omega arith)

copy_loop-step :
    (view : List ℕ → List ℕ) (k : ℕ) (dst : List ℕ) (i j c b : ℕ)
    → j < length dst
    → get_elem? (view dst) i ≡ some b
    → copy_loop view (suc k) dst i j c ≡ copy_loop view k (set dst j b) (suc i) (suc j) (suc c)
unfolding copy_loop
copy_loop-step view k dst i j c b h e = rw (lt→ltb _ _ h, e)

copy_loop-stop :
    (view : List ℕ → List ℕ) (k : ℕ) (dst : List ℕ) (i j c : ℕ)
    → length dst ≤ j
    → copy_loop view k dst i j c ≡ ok (dst, c)
unfolding copy_loop
copy_loop-stop view zero dst i j c h = refl
copy_loop-stop view (suc k) dst i j c h = rw (le→ltb-false _ _ h)

copy_loop-done :
    (view : List ℕ → List ℕ) (dst : List ℕ) (i j c : ℕ) → copy_loop view 0 dst i j c ≡ ok (dst, c)
unfolding copy_loop
copy_loop-done view dst i j c = refl

ok-pair :
    {xs ys : List ℕ} {m n : ℕ}
    → xs ≡ ys
    → m ≡ n
    → ◌≡◌ {A = Outcome (List ℕ × ℕ)} (ok (xs, m)) (ok (ys, n))
ok-pair e f = ap₂ (λ (l : List ℕ) (k : ℕ). let p : Outcome (List ℕ × ℕ) = ok (l, k) in p) e f

-- The loop on a source that its own writes do not change further on.
module _ (view : List ℕ → List ℕ) (R : ℕ → ℕ → Type 0)
    (next : (i j : ℕ) → R i j → R (suc i) (suc j))
    (kept : (dst : List ℕ) (i j b : ℕ)
      → R i j
      → drop (suc i) (view (set dst j b)) ≡ drop (suc i) (view dst))
    (size : (dst : List ℕ) (j b : ℕ) → length (view (set dst j b)) ≡ length (view dst)) where
  copy_loop-patch :
      (k : ℕ) (dst : List ℕ) (i j c : ℕ)
      → R i j
      → i + k ≤ length (view dst)
      → copy_loop view k dst i j c
        ≡ ok (patch dst j (take k (drop i (view dst))), c + min k (length dst - j))
  copy_loop-patch zero dst i j c r h =
      copy_loop-done view dst i j c ∙ ok-pair (sym (patch-nil dst j)) (omega arith)
  copy_loop-patch (suc k) dst i j c r h = elim (dec_lt j (length dst)) [
    | no out ↦
        copy_loop-stop view (suc k) dst i j c (omega arith)
        ∙ ok-pair (sym (patch-end dst j (take (suc k) (drop i (view dst))) (omega arith)))
            (omega arith)
    | yes in_range ↦
        let (b, e) = get_elem?-exists (view dst) i (omega arith) in
        copy_loop-step view k dst i j c b in_range e
        ∙ copy_loop-patch k (set dst j b) (suc i) (suc j) (suc c) (next i j r)
            (omega (arith, size dst j b))
        ∙ ok-pair
            (ap (λ (l : List ℕ). patch (set dst j b) (suc j) (take k l)) (kept dst i j b r)
              ∙ patch-cons dst j b (take k (drop (suc i) (view dst)))
              ∙ ap (patch dst j) (sym (take-drop-cons k i (view dst) b e)))
            (omega (arith, length-set dst j b))
  ]

-- `iotjs_bufferwrap_copy_internal` from a block of its own into a destination, for source indices in
-- bounds: it writes the source bytes from `src_from` up to `src_to`, as far as the destination
-- reaches, from `dst_from` on, changes no other byte, and returns how many it wrote.
pub copy_apart :
    (src dst : List ℕ) (src_from src_to dst_from : ℕ)
    → src_from ≤ src_to
    → src_to ≤ length src
    → copy_internal (apart src) dst src_from src_to dst_from
      ≡ ok (
        patch dst dst_from (take (src_to - src_from) (drop src_from src)),
        min (src_to - src_from) (length dst - dst_from),
      )
unfolding copy_internal
copy_apart src dst src_from src_to dst_from hf ht =
    copy_loop-patch (apart src) (λ i j. Unit {0}) (λ i j r. tt) (λ d i j b r. refl) (λ d j b. refl)
      (src_to - src_from) dst src_from dst_from 0 tt (omega arith)
    ∙ ok-pair refl (omega arith)

-- The same copy inside one block, towards its start or in place: each byte is read before it is
-- overwritten, so the result is the splice of the old bytes.
pub copy_within_down :
    (buf : List ℕ) (src_from src_to dst_from : ℕ)
    → src_from ≤ src_to
    → src_to ≤ length buf
    → dst_from ≤ src_from
    → copy_internal within buf src_from src_to dst_from
      ≡ ok (patch buf dst_from (take (src_to - src_from) (drop src_from buf)), src_to - src_from)
unfolding copy_internal
copy_within_down buf src_from src_to dst_from hf ht hd =
    copy_loop-patch within (λ i j. j ≤ i) (λ i j r. omega arith)
      (λ d i j b r. drop-set_below (suc i) j b d (omega arith)) (λ d j b. length-set d j b)
      (src_to - src_from) buf src_from dst_from 0 hd (omega arith)
    ∙ ok-pair refl (omega arith)

-- What a copy inside one block towards its end leaves.
pub record Repeats (buf : List ℕ) (i j k : ℕ) (r : List ℕ) : Type 0 where
  pub same_length : length r ≡ length buf
  pub kept_below : (p : ℕ) → p < j → get_elem? r p ≡ get_elem? buf p
  pub repeated : (t : ℕ) → t < k → get_elem? r (j + t) ≡ get_elem? r (i + t)

module _ (buf : List ℕ) (i j k b : ℕ) (r : List ℕ) where
  Repeats-next :
      i < j
      → j < length buf
      → get_elem? buf i ≡ some b
      → Repeats (set buf j b) (suc i) (suc j) k r
      → (t : ℕ) → t < suc k
      → get_elem? r (j + t) ≡ get_elem? r (i + t)
  Repeats-next lt h e R zero ht =
      ap (get_elem? r) (omega arith)
      ∙ R.kept_below j (omega arith)
      ∙ get_elem?-set_self buf j b h
      ∙ sym e
      ∙ sym (get_elem?-set_ne buf j i b (omega arith))
      ∙ sym (R.kept_below i (omega arith))
      ∙ ap (get_elem? r) (omega arith)
  Repeats-next lt h e R (suc t) ht =
      ap (get_elem? r) (omega arith) ∙ R.repeated t (omega arith) ∙ ap (get_elem? r) (omega arith)

  Repeats-cons :
      i < j
      → j < length buf
      → get_elem? buf i ≡ some b
      → Repeats (set buf j b) (suc i) (suc j) k r
      → Repeats buf i j (suc k) r
  Repeats-cons lt h e R = record {
    same_length = R.same_length ∙ length-set buf j b;
    kept_below = λ p hp. R.kept_below p (omega arith) ∙ get_elem?-set_ne buf j p b (omega arith);
    repeated = Repeats-next lt h e R;
  }

copy_loop-Repeats :
    (k : ℕ) (buf : List ℕ) (i j c : ℕ)
    → i < j
    → j + k ≤ length buf
    → (r : List ℕ) × (copy_loop within k buf i j c ≡ ok (r, c + k)) × Repeats buf i j k r
copy_loop-Repeats zero buf i j c lt h = (
  buf,
  copy_loop-done within buf i j c ∙ ok-pair refl (omega arith),
  record { same_length = refl; kept_below = λ p hp. refl; repeated = λ t ht. elim ht [ ] },
)
copy_loop-Repeats (suc k) buf i j c lt h =
    let (b, e) = get_elem?-exists buf i (omega arith) in
    let (r, run, R) =
      copy_loop-Repeats k (set buf j b) (suc i) (suc j) (suc c) (omega arith)
        (omega (arith, length-set buf j b)) in
    (
      r,
      copy_loop-step within k buf i j c b (omega arith) e ∙ run ∙ ok-pair refl (omega arith),
      Repeats-cons buf i j k b r lt (omega arith) e R,
    )

-- A copy inside one block towards its end, for a range and a destination within the block: the
-- bytes already written are read again, so behind `dst_from` the block repeats with the period
-- `dst_from - src_from`, whatever it held there; the number of bytes is as asked, and the bytes
-- below `dst_from` and the length are kept.
pub copy_within_up :
    (buf : List ℕ) (src_from src_to dst_from : ℕ)
    → src_from ≤ src_to
    → src_from < dst_from
    → dst_from + (src_to - src_from) ≤ length buf
    → (r : List ℕ) × (copy_internal within buf src_from src_to dst_from ≡ ok (r, src_to - src_from))
      × Repeats buf src_from dst_from (src_to - src_from) r
unfolding copy_internal
copy_within_up buf src_from src_to dst_from hf lt h =
    let (r, run, R) = copy_loop-Repeats (src_to - src_from) buf src_from dst_from 0 lt h in
    (r, run ∙ ok-pair refl (omega arith), R)
