-- ===== src/Strings/Reserve.antt =====
-- `iotjs_string_reserve` of src/iotjs_string.c.
use native.Mathlib.Decide.{dec_lt}
use ble_central.Base.{
  ℕ, ◌+◌, ◌-◌, ◌^◌, ◌≤◌, ◌<◌, ◌≡◌, ◌≢◌, refl, ap, sym, ◌∙◌, inl, inr, some, List, arith, le→leb,
  lt→leb-false, ◌==◌, ==_iff, Bool-cases, take, get_elem?-replicate, get_elem?-eq_of_take,
  replicate, length-replicate, Outcome, ok,
}
use ble_central.Memory.{Allocator, buffer_reallocate}
use ble_central.Memory.Laws.{IsAmple, buffer_allocate_lem, buffer_reallocate_lem}
use ble_central.Strings.{Str, Chars, empty_string, block, null, bytes, contents, reserve}
use ble_central.Strings.Valid.{IsValid, IsGrowable, Stores}
use ble_central.Strings.Closed.{add32_lem}

-- What `iotjs_string_reserve` gives: the same contents, and room for the capacity.
pub record Reserved (s : Str) (capacity : ℕ) (r : Outcome Str) : Type 0 where
  pub after : Str
  pub returned : r ≡ ok after
  pub valid : IsValid after
  pub growable : IsGrowable after
  pub same : contents after ≡ contents s
  pub room : capacity ≤ after.cap

module _ (a : Allocator) (s : Str) (capacity : ℕ) (ample : IsAmple a)
    (h : capacity < 2 ^ 32 - 1) where
  reserve_first :
      s.cap < capacity
      → s.cap ≡ 0
      → s.chars ≡ empty_string
      → reserve a s capacity
        ≡ ok (record { size = s.size; cap = capacity; chars = block (replicate (capacity + 1) 0) })
  unfolding reserve
  reserve_first lt e c =
      rw (lt→leb-false _ _ lt, (==_iff s.cap 0).1 e, c, add32_lem capacity 1 (omega arith))
        (rw (buffer_allocate_lem a (capacity + 1) (ample (capacity + 1) (omega arith))))

  reserve_again :
      (b b' : List ℕ)
      → s.cap < capacity
      → s.cap ≢ 0
      → s.chars ≡ block b
      → buffer_reallocate a b (capacity + 1) ≡ some b'
      → reserve a s capacity ≡ ok (record { size = s.size; cap = capacity; chars = block b' })
  unfolding reserve
  reserve_again b b' lt ne c r = elim (Bool-cases (s.cap == 0)) [
    | inl z ↦ absurd (ne ((==_iff s.cap 0).0 z))
    | inr nz ↦ rw (lt→leb-false _ _ lt, nz, c, add32_lem capacity 1 (omega arith)) (rw r)
  ]

  reserve-enough : capacity ≤ s.cap → reserve a s capacity ≡ ok s
  unfolding reserve
  reserve-enough le = rw (le→leb _ _ le)

  reserve_by_chars :
      (ch : Chars)
      → s.chars ≡ ch
      → IsValid s
      → IsGrowable s
      → Stores ch s.size s.cap
      → s.cap < capacity
      → Reserved s capacity (reserve a s capacity)
  reserve_by_chars empty_string c v g st lt = record {
    after = record { size = s.size; cap = capacity; chars = block (replicate (capacity + 1) 0) };
    returned = reserve_first lt st.1 c;
    valid = record {
      within = omega arith;
      small = h;
      stored = (
        omega (arith, length-replicate {A = ℕ} (capacity + 1) 0),
        get_elem?-replicate (capacity + 1) 0 s.size (omega arith),
      );
    };
    growable = λ z. absurd (omega arith);
    same = rw st.0;
    room = omega arith;
  }
  reserve_by_chars (block b) c v g st lt =
      let ne : s.cap ≢ 0 = λ e. cc (sym c ∙ g e) in
      let (b', r, hl, hk) =
        buffer_reallocate_lem a b (capacity + 1) (ample (capacity + 1) (omega arith)) in
      record {
        after = record { size = s.size; cap = capacity; chars = block b' };
        returned = reserve_again b b' lt ne c r;
        valid = record {
          within = omega arith;
          small = h;
          stored = (
            omega arith,
            get_elem?-eq_of_take b' b (s.size + 1) s.size
                  (hk (s.size + 1) (omega arith) (omega arith)) (omega arith)
                ∙ st.1,
          );
        };
        growable = λ z. absurd (omega arith);
        same =
            hk s.size (omega arith) (omega arith)
            ∙ ap (λ (t : Chars). take s.size (bytes t)) (sym c);
        room = omega arith;
      }
  reserve_by_chars null c v g st lt = absurd st

-- `iotjs_string_reserve` of a valid string that can grow, for a capacity below 2^32 - 1 and an
-- allocator with room: it keeps the contents, and leaves a valid string that can grow and has at
-- least the capacity asked for.
pub reserve-Reserved :
    (a : Allocator) (s : Str) (capacity : ℕ)
    → IsAmple a
    → IsValid s
    → IsGrowable s
    → capacity < 2 ^ 32 - 1
    → Reserved s capacity (reserve a s capacity)
reserve-Reserved a s capacity ample v g h = elim (dec_lt s.cap capacity) [
  | no enough ↦ record {
    after = s;
    returned = reserve-enough a s capacity ample h (omega arith);
    valid = v;
    growable = g;
    same = refl;
    room = omega arith;
  }
  | yes more ↦ reserve_by_chars a s capacity ample h s.chars refl v g v.stored more
]
