-- ===== src/Net/Life.antt =====
-- The life of a request of src/module/iotjs_module_tcp.c, iotjs_module_udp.c or iotjs_module_dns.c: from
-- the native that starts it to the callback of libuv that ends it.
use ble_central.Base.{
  ℕ, ◌+◌, ◌≡◌, ◌⊎◌, inl, inr, refl, arith, List, some, none, true, false, Bool-cases, Outcome, ok,
}
use ble_central.Base.Int.{ℤ, pos, ◌==ℤ◌}
use ble_central.Binding.Value.{Jval}
use ble_central.Binding.Args.{Handler, handler, acquire}
use ble_central.Binding.Balance.{counts_as, acquire_at}
use ble_central.Binding.World.{World}
use ble_central.Binding.World.Fresh.{IsOpen, give_back_lem}
use ble_central.Handle.{Wrap, validate, get_uv_handle}
use ble_central.Handle.Request.{Request}
use ble_central.Handle.Pending.{request_of, dispatched_at}
use ble_central.Handle.Notify.{Notified}
use ble_central.Net.{Done, settle, return_err}

-- A wrapper with an open handle, which passes its own checks.
abbrev pub IsSocket : {H : Type 0} → Wrap H → Type 0
IsSocket t = (validate t ≡ ok tt) × (p : ℕ) × (get_uv_handle t ≡ ok p)

-- What a native that starts a request of the callback `o` leaves: it returns a code, calls nothing,
-- and either the code is not 0, no request waits and no reference is kept, or it is 0, and a request
-- waits that holds one reference to the callback and notifies it in the world `v`, with `vs`.
pub record Life {T Q : Type 0} (w : World) (o : ℕ) (start : Outcome (Done T Q))
    (after : Q → World → Outcome World) (v : World) (vs : List Jval) : Type 0 where
  pub left : Done T Q
  pub err : ℤ
  pub returned : start ≡ ok left
  pub code : left.frame.jret ≡ Jval.number err
  pub quiet : left.world.invoked ≡ w.invoked
  pub settled :
      (((err ==ℤ pos 0) ≡ false)
        × (left.waiting ≡ none)
        × ((q : ℕ) → left.world.counts q ≡ w.counts q))
      ⊎ (((err ==ℤ pos 0) ≡ true)
          × ((q : ℕ) → left.world.counts q ≡ w.counts q + counts_as (some o) q)
          × (r : Q) × (left.waiting ≡ some r)
          × Notified v o Jval.undefined vs (after r v))

module _ {T Q : Type 0} where
  pub settle-Life :
      (base : Q → Request) (w : World) (t : T) (h : Handler) (self request o : ℕ) (r : Q) (err : ℤ)
      (after : Q → World → Outcome World) (v : World) (vs : List Jval)
      → base r ≡ request_of self request o
      → IsOpen h
      → Notified v o Jval.undefined vs (after r v)
      → Life w o
          (settle base (record w { counts = acquire w.counts (Jval.function o) }) t h r err)
          after
          v
          vs
  unfolding settle return_err
  settle-Life base w t h self request o r err after v vs same free notified =
      elim (Bool-cases (err ==ℤ pos 0)) [
        | inl started ↦
            let w₁ = record w { counts = acquire w.counts (Jval.function o) } in
            record {
              left = record {
                world = w₁;
                wrap = t;
                frame = record h { jret = Jval.number err; finished = true };
                waiting = some r;
              };
              err = err;
              returned = rw started (rw (give_back_lem w₁ h (Jval.number err) free) refl);
              code = refl;
              quiet = refl;
              settled = inr (started, acquire_at w.counts (some o), r, refl, notified);
            }
        | inr refused ↦
            let w₁ = record w { counts = acquire w.counts (Jval.function o) } in
            let d =
              dispatched_at w₁ self request o
                (λ q. omega (arith, acquire_at w.counts (some o) q)) in
            let w₂ = record w₁ { counts = d.0 } in
            record {
              left = record {
                world = w₂;
                wrap = t;
                frame = record h { jret = Jval.number err; finished = true };
                waiting = none;
              };
              err = err;
              returned =
                  rw refused
                    (rw same (rw d.1 (rw (give_back_lem w₂ h (Jval.number err) free) refl)));
              code = refl;
              quiet = refl;
              settled =
                  inl (refused, refl, λ q. omega (arith, d.2 q, acquire_at w.counts (some o) q));
            }
      ]

  -- A bad address is refused before anything is made.
  pub refused-Life :
      (w : World) (t : T) (h : Handler) (o : ℕ) (err : ℤ) (after : Q → World → Outcome World)
      (v : World) (vs : List Jval)
      → IsOpen h
      → (err ==ℤ pos 0) ≡ false
      → Life w o (return_err w t h none err) after v vs
  unfolding return_err
  refused-Life w t h o err after v vs free bad = record {
    left = record {
      world = w;
      wrap = t;
      frame = record h { jret = Jval.number err; finished = true };
      waiting = none;
    };
    err = err;
    returned = rw (give_back_lem w h (Jval.number err) free) refl;
    code = refl;
    quiet = refl;
    settled = inl (bad, refl, λ q. refl);
  }

pub fresh_frame : (args : List Jval) → IsOpen (handler args)
unfolding handler
fresh_frame args = (refl, refl, refl)
