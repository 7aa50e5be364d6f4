-- ===== src/Binding/World/Calls.antt =====
-- A whole call of a JavaScript function from C: arguments are made, filled, used and destroyed
-- (`iotjs_jargs_*` of src/iotjs_binding.c).
use ble_central.Base.{
  ℕ, suc, ◌+◌, ◌-◌, ◌<◌, ◌≤◌, ◌≡◌, refl, ap, ◌∙◌, arith, List, [], ◌∷◌, ◌++◌, map, Option, none,
  some, length, get_elem?, replicate, ok,
}
use ble_central.Binding.Value.{Jval}
use ble_central.Binding.Args.{Counts, Args, slot, acquire}
use ble_central.Binding.Balance.{filled, occurrences, slots_of, append_jval_lem, destroy-filled}
use ble_central.Binding.World.{World, append, destroy_args, read_slots, make_callback}

read_slots_step :
    (args : Args) (l : List (Option Jval)) (i n : ℕ) (v : Jval) (vs : List Jval)
    → args.argv ≡ some l
    → get_elem? l i ≡ some (some v)
    → read_slots args (suc i) n ≡ ok vs
    → read_slots args i (suc n) ≡ ok (v ∷ vs)
unfolding read_slots slot
read_slots_step args l i n v vs e g r = rw e (rw g (rw r refl))

read_slots_at :
    (args : Args) (l : List (Option Jval)) (i : ℕ) (vs : List Jval)
    → args.argv ≡ some l
    → ((k : ℕ) (v : Jval) → get_elem? vs k ≡ some v → get_elem? l (i + k) ≡ some (some v))
    → read_slots args i (length vs) ≡ ok vs
unfolding read_slots
read_slots_at args l i [] e s = refl
read_slots_at args l i (v ∷ vs) e s =
    read_slots_step args l i (length vs) v vs e (ap (get_elem? l) (omega arith) ∙ s 0 v refl)
      (read_slots_at args l (suc i) vs e (λ k w g. ap (get_elem? l) (omega arith) ∙ s (suc k) w g))

abbrev pub with_call : World → Jval → Jval → List Jval → World
with_call w f this vs = record w {
  invoked = w.invoked ++ (record { callee = f; this = this; arguments = vs } ∷ []);
}

-- The function is given the values that were appended.
pub make_callback-filled :
    (w : World) (f this : Jval) (capacity : ℕ) (vs : List Jval)
    → make_callback w f this (filled capacity vs) ≡ ok (with_call w f this vs)
unfolding make_callback
make_callback-filled w f this capacity vs =
    rw
      (read_slots_at (filled capacity vs) (map some vs ++ replicate (capacity - length vs) none) 0
        vs refl (slots_of vs (replicate (capacity - length vs) none)))
      refl

pub append-filled :
    (w : World) (capacity : ℕ) (ws : List Jval) (v : Jval)
    → length ws < capacity
    → append w (filled capacity ws) v
      ≡ ok (record w { counts = acquire w.counts v }, filled capacity (ws ++ (v ∷ [])))
unfolding append
append-filled w capacity ws v h = rw (append_jval_lem w.counts capacity ws v h) refl

pub destroy_args-filled :
    (w : World) (capacity : ℕ) (v : Jval) (vs : List Jval)
    → suc (length vs) ≤ capacity
    → ((o : ℕ) → occurrences (v ∷ vs) o ≤ w.counts o)
    → (c : Counts) × (destroy_args w (filled capacity (v ∷ vs)) ≡ ok (record w { counts = c }))
      × ((o : ℕ) → c o + occurrences (v ∷ vs) o ≡ w.counts o)
unfolding destroy_args
destroy_args-filled w capacity v vs h counted =
    let d = destroy-filled w.counts capacity v vs h counted in (d.0, rw d.1 refl, d.2)
