-- ===== src/Gpio/Operation.antt =====
-- Whole operations of src/module/iotjs_module_gpio.c on Linux: the native, the worker that libuv runs
-- and the call back.
use ble_central.Base.{
  ℕ, ◌+◌, ◌≤◌, ◌≡◌, refl, ap, ◌∙◌, arith, Bool, true, false, Bool-cases, inl, inr, List, [], ◌∷◌,
  ◌++◌, length, some, ==_refl, if◌then◌else◌, Outcome, ok, Fault, ◌>>=◌, or_fault,
}
use ble_central.Base.Int.{ℤ, ◌==ℤ◌}
use ble_central.Binding.Value.{Jval}
use ble_central.Binding.Args.{acquire}
use ble_central.Binding.Balance.{filled, counts_as, occurrences, create-filled, acquire_at}
use ble_central.Binding.World.{World}
use ble_central.Binding.World.Calls.{
  append-filled, make_callback-filled, destroy_args-filled, with_call,
}
use ble_central.Memory.{Allocator}
use ble_central.Memory.Laws.{IsAmple}
use ble_central.Handle.Request as Requests
use ble_central.Handle.Request.{jcallback_of}
use ble_central.Handle.Pending.{request_of, dispatched_at}
use ble_central.Gpio.{Op, ReqData, GpioRequest, Done, err_ok, result_of, after_op, after_gpio_work}

-- A native, its worker on the state `S` of the system, and `AfterGPIOWork` with the status that libuv
-- gives, when nothing else happens in between.
unfoldable pub operate :
    {S : Type 0}
    → Allocator
    → ℕ
    → Bool
    → Outcome Done
    → (ReqData → Outcome (S × ReqData))
    → ℤ
    → Outcome (S × Bool × World)
operate a jgpio initialized native worker status = do
  d ← native
  g ← or_fault Fault.uninitialized d.queued
  r ← worker g.req_data
  f ←
      after_gpio_work a jgpio initialized d.world (record { request = g.request; req_data = r.1 })
        status
  ok (r.0, f.0, f.1)

-- What an operation that reports `result` does to the flag, and what it reports behind the result.
abbrev pub flag_after : Op → Bool → ℤ → Bool
flag_after Op.initialize initialized result = if result ==ℤ err_ok then true else initialized
flag_after Op.release initialized result = if result ==ℤ err_ok then false else initialized
flag_after Op.open_pin initialized result = initialized
flag_after Op.write initialized result = initialized
flag_after Op.read initialized result = initialized

abbrev pub values_after : Op → ℤ → Bool → List Jval
values_after Op.read result value = if result ==ℤ err_ok then Jval.boolean value ∷ [] else []
values_after _ result value = []

-- What an operation of the callback `o` leaves: its native has queued the request `queued`, the worker
-- leaves the system and the request that are given as `expected`, and what is reported is the result in
-- that request, unless libuv reports a failure.
pub record Operated {S : Type 0} (a : Allocator) (jgpio : ℕ) (w : World) (o : ℕ) (op : Op)
    (initialized : Bool) (native : Outcome Done) (worker : ReqData → Outcome (S × ReqData))
    (status : ℤ) (expected : S × ReqData) : Type 0 where
  pub done : Done
  pub queued : GpioRequest
  pub world : World
  pub started : native ≡ ok done
  pub waits : done.queued ≡ some queued
  pub worked : worker queued.req_data ≡ ok expected
  pub returned :
      operate a jgpio initialized native worker status
      ≡ ok (expected.0, flag_after op initialized (result_of expected.1 status), world)
  pub invoked :
      world.invoked
      ≡ w.invoked
        ++ (record {
          callee = Jval.function o;
          this = Jval.object jgpio;
          arguments =
              Jval.number (result_of expected.1 status)
              ∷ values_after op (result_of expected.1 status) expected.1.value;
        }
            ∷ [])
  pub counts : (q : ℕ) → world.counts q ≡ w.counts q

abbrev pub QueuedWith : World → ℕ → ℕ → ℕ → ReqData → Done → Type 0
QueuedWith w self request o d done =
    (done.world ≡ record w { counts = acquire w.counts (Jval.function o) })
    × (done.queued ≡ some (record { request = request_of self request o; req_data = d }))

free_values :
    (op : Op) (result : ℤ) (value : Bool) (q : ℕ) → occurrences (values_after op result value) q ≡ 0
free_values Op.initialize result value q = refl
free_values Op.release result value q = refl
free_values Op.open_pin result value q = refl
free_values Op.write result value q = refl
free_values Op.read result value q = elim (Bool-cases (result ==ℤ err_ok)) [
  | inl good ↦ rw good refl
  | inr bad ↦ rw bad refl
]

few_values : (op : Op) (result : ℤ) (value : Bool) → length (values_after op result value) ≤ 1
few_values Op.initialize result value = omega arith
few_values Op.release result value = omega arith
few_values Op.open_pin result value = omega arith
few_values Op.write result value = omega arith
few_values Op.read result value = elim (Bool-cases (result ==ℤ err_ok)) [
  | inl good ↦ rw good (omega arith)
  | inr bad ↦ rw bad (omega arith)
]

after_op_lem :
    (initialized : Bool) (w : World) (d : ReqData) (result : ℤ) (op : Op)
    → after_op initialized w (filled 2 (Jval.number result ∷ [])) d result op
      ≡ ok (
        flag_after op initialized result,
        w,
        filled 2 (Jval.number result ∷ values_after op result d.value),
      )
unfolding after_op
after_op_lem initialized w d result Op.initialize = refl
after_op_lem initialized w d result Op.release = refl
after_op_lem initialized w d result Op.open_pin = refl
after_op_lem initialized w d result Op.write = refl
after_op_lem initialized w d result Op.read = elim (Bool-cases (result ==ℤ err_ok)) [
  | inl good ↦
      rw good
        (rw (append-filled w 2 (Jval.number result ∷ []) (Jval.boolean d.value) (omega arith)) refl)
  | inr bad ↦ rw bad refl
]

module _ (a : Allocator) (ample : IsAmple a) (jgpio : ℕ) where
  after-Operated :
      (initialized : Bool) (w v : World) (self request o : ℕ) (d : ReqData) (status : ℤ)
      → v ≡ record w { counts = acquire w.counts (Jval.function o) }
      → let result = result_of d status in
        (v' : World) × (after_gpio_work a jgpio initialized v
            (record { request = request_of self request o; req_data = d })
            status
          ≡ ok (flag_after d.op initialized result, v'))
        × (v'.invoked
            ≡ w.invoked
              ++ (record {
                callee = Jval.function o;
                this = Jval.object jgpio;
                arguments = Jval.number result ∷ values_after d.op result d.value;
              }
                  ∷ []))
        × ((q : ℕ) → v'.counts q ≡ w.counts q)
  unfolding after_gpio_work jcallback_of Requests.validate
  after-Operated initialized w v self request o d status same =
      let result = result_of d status in
      let u = record w { counts = acquire w.counts (Jval.function o) } in
      let vs = values_after d.op result d.value in
      let u₁ = with_call u (Jval.function o) (Jval.object jgpio) (Jval.number result ∷ vs) in
      let x =
        destroy_args-filled u₁ 2 (Jval.number result) vs
          (omega (arith, few_values d.op result d.value))
          (λ q. omega (arith, free_values d.op result d.value q)) in
      let at : (q : ℕ) → x.0 q ≡ w.counts q + counts_as (some o) q = λ q.
        omega (arith, x.2 q, free_values d.op result d.value q, acquire_at w.counts (some o) q) in
      let y =
        dispatched_at (record u₁ { counts = x.0 }) self request o (λ q. omega (arith, at q)) in
      rw same (
        record u₁ { counts = y.0 },
        (rw (create-filled a 2 ample (omega arith) (omega arith)) (
            rw (append-filled u 2 [] (Jval.number result) (omega arith)) (
              rw (after_op_lem initialized u d result d.op) (
                rw (==_refl self) (
                  rw
                    (make_callback-filled u (Jval.function o) (Jval.object jgpio) 2
                      (Jval.number result ∷ vs))
                    (rw x.1 (rw y.1 refl))))))),
        refl,
        λ q. omega (arith, y.2 q, at q),
      )

  -- A native that queues its request and a worker that ends make a whole operation.
  pub operate-Operated :
      {S : Type 0} (initialized : Bool) (w : World) (self request o : ℕ) (d d' : ReqData)
      (done : Done) (native : Outcome Done) (worker : ReqData → Outcome (S × ReqData)) (s' : S)
      (status : ℤ)
      → native ≡ ok done
      → QueuedWith w self request o d done
      → worker d ≡ ok (s', d')
      → d'.op ≡ d.op
      → Operated a jgpio w o d.op initialized native worker status (s', d')
  unfolding operate
  operate-Operated initialized w self request o d d' done native worker s' status e q work op =
      let result = result_of d' status in
      let f = after-Operated initialized w done.world self request o d' status (q.0) in
      record {
        done = done;
        queued = record { request = request_of self request o; req_data = d };
        world = f.0;
        started = e;
        waits = q.1;
        worked = work;
        returned = rw e (
            rw (q.1) (
              rw work
                (rw f.1 (ap (λ (p : Op). ok (s', flag_after p initialized result, f.0)) op))));
        invoked =
            f.2
            ∙ ap
                (λ (p : Op).
                  w.invoked
                  ++ (record {
                    callee = Jval.function o;
                    this = Jval.object jgpio;
                    arguments = Jval.number result ∷ values_after p result d'.value;
                  }
                      ∷ []))
                op;
        counts = f.3;
      }
