-- ===== src/Binding/Balance.antt =====
-- `iotjs_jargs_t` of src/iotjs_binding.c gives back every reference that it takes.
use ble_central.Base.{
  ℕ, zero, suc, ◌+◌, ◌-◌, ◌*◌, ◌^◌, ◌<◌, ◌≤◌, ◌≡◌, refl, ap, ap₂, append-nil, set-append, sym, ◌∙◌,
  arith, List, [], ◌∷◌, ◌++◌, map, append_assoc, Option, none, some, lt→ltb, le→leb, ◌==◌, ==_refl,
  if◌then◌else◌, length, length-append, get_elem?, set, replicate, Outcome, ok, ◌>>=◌, Bool-cases,
  ==_iff, inl, inr,
}
use ble_central.Binding.Value.{Jval}
use ble_central.Binding.Args.{
  Counts, identity, change, acquire, release, acquire_object, release_object, count_down, Args,
  create, append_jval, slot, release_slots, destroy, jval_size,
}
use ble_central.Memory.{Allocator}
use ble_central.Memory.Laws.{IsAmple, buffer_allocate_lem, buffer_release_lem}

-- The arguments of a call, appended one after another.
pub append_all : Counts → Args → List Jval → Outcome (Counts × Args)
append_all c args [] = ok (c, args)
append_all c args (v ∷ vs) = do r ← append_jval c args v; append_all r.0 r.1 vs

abbrev pub acquire_all : Counts → List Jval → Counts
acquire_all c [] = c
acquire_all c (v ∷ vs) = acquire_all (acquire c v) vs

-- The arguments once `vs` are in them.
abbrev pub filled : ℕ → List Jval → Args
filled capacity vs = record {
  capacity = capacity;
  argc = length vs;
  argv = some (map some vs ++ replicate (capacity - length vs) none);
}

-- How often an object is among some values.
abbrev pub counts_as : Option ℕ → ℕ → ℕ
counts_as none o = 0
counts_as (some q) o = if o == q then 1 else 0

abbrev pub occurrences : List Jval → ℕ → ℕ
occurrences [] o = 0
occurrences (v ∷ vs) o = counts_as (identity v) o + occurrences vs o

pub acquire_at : (c : Counts) (i : Option ℕ) (o : ℕ) → acquire_object c i o ≡ c o + counts_as i o
acquire_at c none o = omega arith
acquire_at c (some q) o = elim (Bool-cases (o == q)) [
  | inl t ↦ rw t (let same : o ≡ q = (==_iff o q).0 t in rw same (omega arith))
  | inr f ↦ rw f (omega arith)
]

pub acquire_all_at :
    (c : Counts) (vs : List Jval) (o : ℕ) → acquire_all c vs o ≡ c o + occurrences vs o
acquire_all_at c [] o = omega arith
acquire_all_at c (v ∷ vs) o =
    omega (arith, acquire_all_at (acquire c v) vs o, acquire_at c (identity v) o)

-- An object that is counted can be released.
pub release_at :
    (c : Counts) (i : Option ℕ)
    → ((o : ℕ) → counts_as i o ≤ c o)
    → (c' : Counts) × (release_object c i ≡ ok c') × ((o : ℕ) → c' o + counts_as i o ≡ c o)
release_at c none h = (c, refl, λ o. omega arith)
release_at c (some q) h = by_count (c q - 1) (omega (arith, counted))
  where
    counted : 0 < c q
    counted = let l : 1 ≤ c q = rw (==_refl q) at (h q) in omega arith

    by_count :
        (k : ℕ)
        → c q ≡ suc k
        → (c' : Counts) × (release_object c (some q) ≡ ok c')
          × ((o : ℕ) → c' o + counts_as (some q) o ≡ c o)
    by_count k e = (
      change c q k,
      ap (count_down c q) e,
      λ o. elim (Bool-cases (o == q)) [
        | inl t ↦ rw t (let same : o ≡ q = (==_iff o q).0 t in rw same (omega arith))
        | inr f ↦ rw f (omega arith)
      ],
    )

release_slots_step :
    (c d : Counts) (args : Args) (l : List (Option Jval)) (i n : ℕ) (v : Jval)
    → args.argv ≡ some l
    → get_elem? l i ≡ some (some v)
    → release c v ≡ ok d
    → release_slots c args i (suc n) ≡ release_slots d args (suc i) n
unfolding release_slots slot
release_slots_step c d args l i n v e g r = rw e (rw g (rw r refl))

-- The slots that were set, from `i` on, each hold one reference.
release_slots_at :
    (c : Counts) (args : Args) (l : List (Option Jval)) (i : ℕ) (vs : List Jval)
    → args.argv ≡ some l
    → ((k : ℕ) (v : Jval) → get_elem? vs k ≡ some v → get_elem? l (i + k) ≡ some (some v))
    → ((o : ℕ) → occurrences vs o ≤ c o)
    → (c' : Counts) × (release_slots c args i (length vs) ≡ ok c')
      × ((o : ℕ) → c' o + occurrences vs o ≡ c o)
unfolding release_slots slot
release_slots_at c args l i [] e s h = (c, refl, λ o. omega arith)
release_slots_at c args l i (v ∷ vs) e s h =
    let one = release_at c (identity v) (λ o. omega (arith, h o)) in
    let rest =
      release_slots_at one.0 args l (suc i) vs e
        (λ k w g. ap (get_elem? l) (omega arith) ∙ s (suc k) w g)
        (λ o. omega (arith, h o, one.2 o)) in
    let here : get_elem? l i ≡ some (some v) = ap (get_elem? l) (omega arith) ∙ s 0 v refl in
    (
      rest.0,
      release_slots_step c one.0 args l i (length vs) v e here one.1 ∙ rest.1,
      λ o. omega (arith, rest.2 o, one.2 o),
    )

map-some : (ws : List Jval) (v : Jval) → map some (ws ++ (v ∷ [])) ≡ map some ws ++ (some v ∷ [])
map-some [] v = refl
map-some (w ∷ ws) v = ap (λ l. some w ∷ l) (map-some ws v)

length-some : (ws : List Jval) → length (map some ws) ≡ length ws
length-some [] = refl
length-some (w ∷ ws) = ap suc (length-some ws)

pub append_jval_lem :
    (c : Counts) (capacity : ℕ) (ws : List Jval) (v : Jval)
    → length ws < capacity
    → append_jval c (filled capacity ws) v ≡ ok (acquire c v, filled capacity (ws ++ (v ∷ [])))
unfolding append_jval
append_jval_lem c capacity ws v h =
    let size = length-append ws (v ∷ []) in
    let n = capacity - length (ws ++ (v ∷ [])) in
    let more : capacity - length ws ≡ suc n = omega (arith, size) in
    rw (lt→ltb (length ws) capacity h) (
      ap₂ (λ k l. ok (acquire c v, record { capacity = capacity; argc = k; argv = some l }))
        (omega (arith, size))
        (ap (λ k. set (map some ws ++ replicate k none) (length ws) (some v)) more
          ∙ set-append (map some ws) (length ws) n none (some v) (sym (length-some ws))
          ∙ ap (λ l. l ++ replicate n none) (sym (map-some ws v))))

-- The arguments that are appended fill the slots in order.
append_all_lem :
    (c : Counts) (capacity : ℕ) (ws vs : List Jval)
    → length ws + length vs ≤ capacity
    → append_all c (filled capacity ws) vs ≡ ok (acquire_all c vs, filled capacity (ws ++ vs))
unfolding append_all
append_all_lem c capacity ws [] h = ap (λ l. ok (c, filled capacity l)) (sym (append-nil ws))
append_all_lem c capacity ws (v ∷ vs) h = rw (append_jval_lem c capacity ws v (omega arith)) (
    append_all_lem (acquire c v) capacity (ws ++ (v ∷ [])) vs
      (omega (arith, length-append ws (v ∷ [])))
    ∙ ap (λ l. ok (acquire_all (acquire c v) vs, filled capacity l)) (append_assoc ws (v ∷ []) vs))

pub slots_of :
    (vs : List Jval) (t : List (Option Jval)) (k : ℕ) (v : Jval)
    → get_elem? vs k ≡ some v
    → get_elem? (map some vs ++ t) (0 + k) ≡ some (some v)
slots_of [] t k v e = cc
slots_of (w ∷ vs) t zero v e = ap some e
slots_of (w ∷ vs) t (suc k) v e =
    let next : 0 + suc k ≡ suc (0 + k) = omega arith in
    ap (get_elem? (map some (w ∷ vs) ++ t)) next ∙ slots_of vs t k v e

pub create-filled :
    (a : Allocator) (capacity : ℕ)
    → IsAmple a
    → 0 < capacity
    → capacity < 2 ^ 16
    → create a capacity ≡ ok (filled capacity [])
unfolding create
create-filled a capacity ample h small = rw (lt→ltb 0 capacity h) (
    rw (buffer_allocate_lem a (jval_size * capacity) (ample (jval_size * capacity) (omega arith))) (
      ap (λ k. ok (record { capacity = capacity; argc = 0; argv = some (replicate k none) }))
        all_free))
  where
    all_free : capacity ≡ capacity - 0
    all_free = omega arith

-- Destroying a list gives up one reference for each value in it.
pub destroy-filled :
    (c : Counts) (capacity : ℕ) (v : Jval) (vs : List Jval)
    → suc (length vs) ≤ capacity
    → ((o : ℕ) → occurrences (v ∷ vs) o ≤ c o)
    → (c' : Counts) × (destroy c (filled capacity (v ∷ vs)) ≡ ok c')
      × ((o : ℕ) → c' o + occurrences (v ∷ vs) o ≡ c o)
unfolding destroy
destroy-filled c capacity v vs h counted =
    let l = map some (v ∷ vs) ++ replicate (capacity - length (v ∷ vs)) none in
    let d =
      release_slots_at c (filled capacity (v ∷ vs)) l 0 (v ∷ vs) refl
        (slots_of (v ∷ vs) (replicate (capacity - length (v ∷ vs)) none)) counted in
    (
      d.0,
      rw
          (
            le→leb (suc (length vs)) capacity h,
            lt→ltb 0 (suc (length vs)) (omega arith),
            lt→ltb 0 capacity (omega arith),
          )
          (rw d.1 (rw (buffer_release_lem []) refl)),
      d.2,
    )

-- An argument list made for at least as many values as are appended to it (below 2^16), and for
-- one at least, by an allocator with room: every append succeeds, the list holds the values in
-- order, and destroying it gives back exactly the references that were taken.
pub args_balance :
    (a : Allocator) (c : Counts) (capacity : ℕ) (v : Jval) (vs : List Jval)
    → IsAmple a
    → suc (length vs) ≤ capacity
    → capacity < 2 ^ 16
    → (c' : Counts) × ((do args ← create a capacity; append_all c args (v ∷ vs))
        ≡ ok (acquire_all c (v ∷ vs), filled capacity (v ∷ vs)))
      × (destroy (acquire_all c (v ∷ vs)) (filled capacity (v ∷ vs)) ≡ ok c')
      × ((o : ℕ) → c' o ≡ c o)
args_balance a c capacity v vs ample h small =
    let d =
      destroy-filled (acquire_all c (v ∷ vs)) capacity v vs h
        (λ o. omega (arith, acquire_all_at c (v ∷ vs) o)) in
    (
      d.0,
      rw (create-filled a capacity ample (omega arith) small)
          (append_all_lem c capacity [] (v ∷ vs) (omega arith)),
      d.1,
      λ o. omega (arith, d.2 o, acquire_all_at c (v ∷ vs) o),
    )
