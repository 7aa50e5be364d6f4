-- ===== src/Pwm.antt =====
-- src/module/iotjs_module_pwm.c: pulse width modulation. A native queues a worker of the platform
-- (Pwm/Linux) with its request; when the worker is done libuv calls back.
pub mod Linux
pub mod Operation
pub mod Works
pub mod Starts
pub mod Enable
pub mod Operations
pub mod Tests
use ble_central.Base.{
  ℕ, Bool, true, false, List, [], ◌∷◌, Option, none, some, if◌then◌else◌, Outcome, ok, ◌>>=◌,
}
use ble_central.Base.Int.{ℤ, pos, negsuc, ◌==ℤ◌}
use ble_central.Binding.Value.{Kind, Jval, as_int, as_boolean, as_object, check_args}
use ble_central.Binding.Args.{Handler, create, get_arg_of}
use ble_central.Binding.World.{
  Content, World, append, destroy_args, make_callback, give_back, throw_new,
}
use ble_central.Memory.{Allocator}
use ble_central.Handle.Request.{Request, jcallback_of}
use ble_central.Handle.Pending.{create_request, dispatched}

-- `PwmOp`
pub data Op : Type 0 where
  export set_duty_cycle set_period set_frequency set_enable unexport : Op

-- `PwmError`
abbrev pub err_ok : ℤ
err_ok = pos 0

abbrev pub err_export : ℤ
err_export = negsuc 0

abbrev pub err_write : ℤ
err_write = negsuc 3

abbrev pub err_sys : ℤ
err_sys = negsuc 4

-- `iotjs_pwm_reqdata_t`
pub record ReqData : Type 0 where
  pub pin : ℤ
  pub duty_cycle : ℤ
  pub period : ℤ
  pub enable : Bool
  pub result : ℤ
  pub op : Op

-- `iotjs_pwm_reqwrap_t`
pub record PwmRequest : Type 0 where
  pub request : Request
  pub req_data : ReqData

-- The properties `period` and `dutyCycle` of an options object, if they are numbers, as the `int`s that
-- `iotjs_pwm_set_pwmdata` stores.
pub record Options : Type 0 where
  pub period : Option ℤ
  pub duty_cycle : Option ℤ

-- The fields of a request in the memory of a new wrapper, which is 0.
abbrev pub blank : Op → ReqData
blank op = record {
  pin = pos 0;
  duty_cycle = pos 0;
  period = pos 0;
  enable = false;
  result = err_ok;
  op = op;
}

-- `iotjs_pwm_reqwrap_create`
unfoldable pub pwm_reqwrap_create : World → ℕ → ℕ → Jval → Op → Outcome (World × PwmRequest)
pwm_reqwrap_create w self request jcallback op = do
  r ← create_request w self request jcallback
  ok (r.0, record { request = r.1; req_data = blank op })

abbrev pub or_else : Option ℤ → ℤ → ℤ
or_else none old = old
or_else (some n) old = n

-- `iotjs_pwm_set_pwmdata`; an option that is not a number is left as it was.
unfoldable pub set_pwmdata : Handler → Options → PwmRequest → Outcome PwmRequest
set_pwmdata h options g = do
  pin ← as_int (← get_arg_of h 0)
  joptions ← as_object (← get_arg_of h 1)
  ok (record {
    request = g.request;
    req_data = record g.req_data {
      pin = pin;
      period = or_else options.period g.req_data.period;
      duty_cycle = or_else options.duty_cycle g.req_data.duty_cycle;
    };
  })

-- The result of a request once libuv's work has ended with a status.
abbrev pub result_of : ReqData → ℤ → ℤ
result_of d status = if status ==ℤ pos 0 then d.result else err_sys

-- `AfterPwmWork`; its `switch` does nothing for any operation.
unfoldable pub after_pwm_work : Allocator → ℕ → World → PwmRequest → ℤ → Outcome World
after_pwm_work a jpwm w g status = do
  args ← create a 1
  r ← append w args (Jval.number (result_of g.req_data status))
  jcallback ← jcallback_of g.request
  w₁ ← make_callback r.0 jcallback (Jval.object jpwm) r.1
  w₂ ← destroy_args w₁ r.1
  dispatched w₂ g.request

-- What a native leaves: the request that was queued.
pub record Done : Type 0 where
  pub world : World
  pub frame : Handler
  pub queued : Option PwmRequest

module _ (w : World) (h : Handler) (self request : ℕ) where
  unfoldable pub refuse : Outcome Done
  refuse = do
    g ← throw_new w h Content.internal_error
    ok (record { world = g.0; frame = g.1; queued = none })

  -- `PWM_ASYNC`, and `null` as the return value.
  unfoldable pub pwm_async : World → PwmRequest → Outcome Done
  pwm_async w' g = do
    r ← give_back w' h Jval.null
    ok (record { world = r.0; frame = r.1; queued = some g })

  -- The natives that take a pin, options and a callback.
  unfoldable pub with_options : Options → Op → Outcome Done
  with_options options op =
      if check_args (Kind.number ∷ Kind.object ∷ Kind.function ∷ []) h.jargv
      then (do
        jcallback ← get_arg_of h 2
        g ← pwm_reqwrap_create w self request jcallback op
        d ← set_pwmdata h options g.1
        pwm_async g.0 d)
      else refuse

  unfoldable pub js_export : Options → Outcome Done
  js_export options = with_options options Op.export

  unfoldable pub js_set_period : Options → Outcome Done
  js_set_period options = with_options options Op.set_period

  unfoldable pub js_set_frequency : Options → Outcome Done
  js_set_frequency options = with_options options Op.set_frequency

  unfoldable pub js_set_duty_cycle : Options → Outcome Done
  js_set_duty_cycle options = with_options options Op.set_duty_cycle

  unfoldable pub js_set_enable : Outcome Done
  js_set_enable =
      if check_args (Kind.number ∷ Kind.boolean ∷ Kind.function ∷ []) h.jargv
      then (do
        jcallback ← get_arg_of h 2
        g ← pwm_reqwrap_create w self request jcallback Op.set_enable
        pin ← as_int (← get_arg_of h 0)
        enable ← as_boolean (← get_arg_of h 1)
        pwm_async g.0 (record {
          request = g.1.request;
          req_data = record g.1.req_data { pin = pin; enable = enable };
        }))
      else refuse

  unfoldable pub js_unexport : Outcome Done
  js_unexport =
      if check_args (Kind.number ∷ Kind.function ∷ []) h.jargv
      then (do
        jcallback ← get_arg_of h 1
        g ← pwm_reqwrap_create w self request jcallback Op.unexport
        pin ← as_int (← get_arg_of h 0)
        pwm_async g.0
            (record { request = g.1.request; req_data = record g.1.req_data { pin = pin } }))
      else refuse
