-- ===== src/Handle/Notify.antt =====
-- The end of a request: the function that libuv calls back calls the callback and gives the request up.
use ble_central.Base.{
  suc, length, ◌≤◌, ◌>>=◌, ℕ, ◌+◌, ◌<◌, ◌≡◌, refl, arith, List, [], ◌∷◌, ◌++◌, some, Outcome, ok,
}
use ble_central.Binding.Value.{Jval}
use ble_central.Binding.Balance.{counts_as, occurrences, filled}
use ble_central.Binding.World.{World, make_callback, destroy_args}
use ble_central.Binding.World.Calls.{make_callback-filled, destroy_args-filled, with_call}
use ble_central.Handle.Pending.{request_of, dispatched, dispatched_at, held_one}

-- The callback `o` is called once, with the arguments `vs`, and the request's reference to it is given up.
abbrev pub Notified : World → ℕ → Jval → List Jval → Outcome World → Type 0
Notified w o this vs r =
    (w' : World) × (r ≡ ok w')
    × (w'.invoked
        ≡ w.invoked ++ (record { callee = Jval.function o; this = this; arguments = vs } ∷ []))
    × ((q : ℕ) → w'.counts q + counts_as (some o) q ≡ w.counts q)

-- The end of every callback of a request: its callback is given the arguments, and it is done.
pub finish-Notified :
    (w : World) (self request o capacity : ℕ) (this x : Jval) (xs : List Jval)
    → suc (length xs) ≤ capacity
    → ((q : ℕ) → occurrences (x ∷ xs) q ≡ 0)
    → 0 < w.counts o
    → Notified w o this (x ∷ xs) (do
      w₁ ← make_callback w (Jval.function o) this (filled capacity (x ∷ xs))
      w₂ ← destroy_args w₁ (filled capacity (x ∷ xs))
      dispatched w₂ (request_of self request o))
finish-Notified w self request o capacity this x xs fits uncounted held =
    let w₁ = with_call w (Jval.function o) this (x ∷ xs) in
    let d = destroy_args-filled w₁ capacity x xs fits (λ q. omega (arith, uncounted q)) in
    let e =
      dispatched_at (record w₁ { counts = d.0 }) self request o
        (λ q. omega (arith, d.2 q, uncounted q, held_one w o held q)) in
    (
      record w₁ { counts = e.0 },
      rw (make_callback-filled w (Jval.function o) this capacity (x ∷ xs)) (rw d.1 e.1),
      refl,
      λ q. omega (arith, e.2 q, d.2 q, uncounted q),
    )
