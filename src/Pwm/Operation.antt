-- ===== src/Pwm/Operation.antt =====
-- Whole operations of src/module/iotjs_module_pwm.c on Linux: the native, the worker that libuv runs and
-- the call back.
use ble_central.Base.{
  ℕ, ◌<◌, ◌≡◌, refl, arith, [], ◌∷◌, ◌++◌, some, ==_refl, Outcome, ok, Fault, ◌>>=◌, or_fault,
}
use ble_central.Base.Int.{ℤ}
use ble_central.Binding.Value.{Jval}
use ble_central.Binding.Args.{acquire}
use ble_central.Binding.Balance.{counts_as, create-filled, acquire_at}
use ble_central.Binding.World.{World}
use ble_central.Binding.World.Calls.{append-filled}
use ble_central.Memory.{Allocator}
use ble_central.Memory.Laws.{IsAmple}
use ble_central.Handle.Request as Requests
use ble_central.Handle.Request.{jcallback_of}
use ble_central.Handle.Pending.{request_of}
use ble_central.Handle.Notify.{Notified, finish-Notified}
use ble_central.Pwm.{ReqData, PwmRequest, Done, result_of, after_pwm_work}

-- A native, its worker on the state `S` of the system, and `AfterPwmWork` with the status that libuv
-- gives, when nothing else happens in between.
unfoldable pub operate :
    {S : Type 0}
    → Allocator
    → ℕ
    → Outcome Done
    → (ReqData → Outcome (S × ReqData))
    → ℤ
    → Outcome (S × World)
operate a jpwm native worker status = do
  d ← native
  g ← or_fault Fault.uninitialized d.queued
  r ← worker g.req_data
  w ← after_pwm_work a jpwm d.world (record { request = g.request; req_data = r.1 }) status
  ok (r.0, w)

-- What an operation of the callback `o` leaves: its native has queued the request `queued`, the worker
-- leaves the system and the request that are given as `expected`, and the callback is told the result in
-- that request, unless libuv reports a failure.
pub record Operated {S : Type 0} (a : Allocator) (jpwm : ℕ) (w : World) (o : ℕ)
    (native : Outcome Done) (worker : ReqData → Outcome (S × ReqData)) (status : ℤ)
    (expected : S × ReqData) : Type 0 where
  pub done : Done
  pub queued : PwmRequest
  pub world : World
  pub started : native ≡ ok done
  pub waits : done.queued ≡ some queued
  pub worked : worker queued.req_data ≡ ok expected
  pub returned : operate a jpwm native worker status ≡ ok (expected.0, world)
  pub invoked :
      world.invoked
      ≡ w.invoked
        ++ (record {
          callee = Jval.function o;
          this = Jval.object jpwm;
          arguments = Jval.number (result_of expected.1 status) ∷ [];
        }
            ∷ [])
  pub counts : (q : ℕ) → world.counts q ≡ w.counts q

abbrev pub held_by : World → ℕ → World
held_by w o = record w { counts = acquire w.counts (Jval.function o) }

after_pwm_work-Notified :
    (a : Allocator) (jpwm : ℕ) (w : World) (self request o : ℕ) (d : ReqData) (status : ℤ)
    → IsAmple a
    → 0 < w.counts o
    → Notified w o (Jval.object jpwm) (Jval.number (result_of d status) ∷ []) (
        after_pwm_work a jpwm w
          (record { request = request_of self request o; req_data = d })
          status)
unfolding after_pwm_work jcallback_of Requests.validate
after_pwm_work-Notified a jpwm w self request o d status ample held =
    let result = Jval.number (result_of d status) in
    rw (create-filled a 1 ample (omega arith) (omega arith)) (
      rw (append-filled w 1 [] result (omega arith)) (
        rw (==_refl self) (
          finish-Notified w self request o 1 (Jval.object jpwm) result [] (omega arith) (λ q. refl)
            held)))

-- A native that queues its request and a worker that ends make a whole operation.
pub operate-Operated :
    {S : Type 0} (a : Allocator) (jpwm : ℕ) (w : World) (self request o : ℕ) (d d' : ReqData)
    (done : Done) (native : Outcome Done) (worker : ReqData → Outcome (S × ReqData)) (s' : S)
    (status : ℤ)
    → IsAmple a
    → native ≡ ok done
    → done.world ≡ held_by w o
    → done.queued ≡ some (record { request = request_of self request o; req_data = d })
    → worker d ≡ ok (s', d')
    → Operated a jpwm w o native worker status (s', d')
unfolding operate
operate-Operated a jpwm w self request o d d' done native worker s' status ample e same q work =
    let f =
      after_pwm_work-Notified a jpwm (held_by w o) self request o d' status ample
        (omega (arith, acquire_at w.counts (some o) o, one o)) in
    record {
      done = done;
      queued = record { request = request_of self request o; req_data = d };
      world = f.0;
      started = e;
      waits = q;
      worked = work;
      returned = rw e (rw q (rw work (rw same (rw f.1 refl))));
      invoked = f.2;
      counts = λ q. omega (arith, f.3 q, acquire_at w.counts (some o) q);
    }
  where
    one : (o : ℕ) → counts_as (some o) o ≡ 1
    one o = rw (==_refl o) refl
