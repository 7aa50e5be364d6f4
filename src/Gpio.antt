-- ===== src/Gpio.antt =====
-- src/module/iotjs_module_gpio.c: general purpose pins. A native queues a worker of the platform
-- (Gpio/Linux) with its request; when the worker is done libuv calls back.
pub mod Linux
pub mod Operation
pub mod Works
pub mod Starts
pub mod Opening
pub mod Operations
pub mod Tests
use ble_central.Base.{
  ℕ, zero, suc, Bool, true, false, ◌&&◌, ◌||◌, List, [], ◌∷◌, Option, none, some, ltb, ◌==◌,
  if◌then◌else◌, not, Outcome, ok, fault, Fault, ◌>>=◌, ◌>>◌, assert, or_fault,
}
use ble_central.Base.Int.{ℤ, pos, negsuc, ltb_ℤ, ◌==ℤ◌}
use ble_central.Binding.Value.{Kind, Jval, is_kind, as_int, as_boolean, check_args}
use ble_central.Binding.Args.{Args, Handler, create, get_arg_of}
use ble_central.Binding.World.{
  Content, World, append, destroy_args, make_callback, give_back, throw_new,
}
use ble_central.Memory.{Allocator}
use ble_central.Handle.Request.{Request, jcallback_of}
use ble_central.Handle.Pending.{create_request, dispatched}

-- `GpioOp`
pub data Op : Type 0 where
  initialize release open_pin write read : Op

-- `GpioDirection`, `GpioMode` and `GpioError` are `int`s, as JavaScript passes and gets them.
abbrev pub direction_none : ℤ
direction_none = pos 0

abbrev pub direction_in : ℤ
direction_in = pos 1

abbrev pub direction_out : ℤ
direction_out = pos 2

abbrev pub mode_none : ℤ
mode_none = pos 0

abbrev pub mode_opendrain : ℤ
mode_opendrain = pos 5

abbrev pub err_ok : ℤ
err_ok = pos 0

abbrev pub err_initialize : ℤ
err_initialize = negsuc 0

abbrev pub err_sys : ℤ
err_sys = negsuc 98

-- `iotjs_gpio_reqdata_t`
pub record ReqData : Type 0 where
  pub pin : ℤ
  pub value : Bool
  pub dir : ℤ
  pub mode : ℤ
  pub result : ℤ
  pub op : Op

-- `iotjs_gpio_reqwrap_t`
pub record GpioRequest : Type 0 where
  pub request : Request
  pub req_data : ReqData

-- `iotjs_gpio_reqwrap_create`; the memory of a new wrapper is 0.
unfoldable pub gpio_reqwrap_create : World → ℕ → ℕ → Jval → Op → Outcome (World × GpioRequest)
gpio_reqwrap_create w self request jcallback op = do
  r ← create_request w self request jcallback
  ok (
    r.0,
    record {
      request = r.1;
      req_data = record {
        pin = pos 0;
        value = false;
        dir = direction_none;
        mode = mode_none;
        result = err_ok;
        op = op;
      };
    },
  )

-- The result of a request once libuv's work has ended with a status.
abbrev pub result_of : ReqData → ℤ → ℤ
result_of d status = if status ==ℤ pos 0 then d.result else err_sys

-- The `switch` of `AfterGPIOWork`: the flag `initialized`, and the argument behind the result.
unfoldable pub after_op : Bool → World → Args → ReqData → ℤ → Op → Outcome (Bool × World × Args)
after_op initialized w args d result Op.initialize =
    ok (if result ==ℤ err_ok then true else initialized, w, args)
after_op initialized w args d result Op.release =
    ok (if result ==ℤ err_ok then false else initialized, w, args)
after_op initialized w args d result Op.open_pin = ok (initialized, w, args)
after_op initialized w args d result Op.write = ok (initialized, w, args)
after_op initialized w args d result Op.read =
    if result ==ℤ err_ok
    then (do r ← append w args (Jval.boolean d.value); ok (initialized, r.0, r.1))
    else ok (initialized, w, args)

module _ (a : Allocator) (jgpio : ℕ) where
  -- `AfterGPIOWork`
  unfoldable pub after_gpio_work : Bool → World → GpioRequest → ℤ → Outcome (Bool × World)
  after_gpio_work initialized w g status = do
    let result = result_of g.req_data status
    args ← create a 2
    r ← append w args (Jval.number result)
    s ← after_op initialized r.0 r.1 g.req_data result g.req_data.op
    jcallback ← jcallback_of g.request
    w₁ ← make_callback s.1 jcallback (Jval.object jgpio) s.2
    w₂ ← destroy_args w₁ s.2
    w₃ ← dispatched w₂ g.request
    ok (s.0, w₃)

-- What a native leaves: the request that was queued.
pub record Done : Type 0 where
  pub world : World
  pub frame : Handler
  pub queued : Option GpioRequest

module _ (initialized : Bool) (w : World) (h : Handler) (self request : ℕ) where
  unfoldable pub refuse : Content → Outcome Done
  refuse c = do g ← throw_new w h c; ok (record { world = g.0; frame = g.1; queued = none })

  -- `GPIO_ASYNC`, and `null` as the return value.
  unfoldable pub gpio_async : World → GpioRequest → Bool → Outcome Done
  gpio_async w' g expected = do
    assert (if expected then initialized else not initialized)
    r ← give_back w' h Jval.null
    ok (record { world = r.0; frame = r.1; queued = some g })

  unfoldable pub js_initialize : Outcome Done
  js_initialize =
      if check_args (Kind.function ∷ []) h.jargv
      then (do
        jcallback ← get_arg_of h 0
        g ← gpio_reqwrap_create w self request jcallback Op.initialize
        gpio_async g.0 g.1 false)
      else refuse Content.internal_error

  unfoldable pub js_release : Outcome Done
  js_release =
      if check_args (Kind.function ∷ []) h.jargv
      then (do
        jcallback ← get_arg_of h 0
        g ← gpio_reqwrap_create w self request jcallback Op.release
        gpio_async g.0 g.1 true)
      else refuse Content.internal_error

  unfoldable pub js_open : Outcome Done
  js_open =
      if check_args (Kind.number ∷ Kind.number ∷ Kind.number ∷ Kind.function ∷ []) h.jargv
      then (do
        pin ← as_int (← get_arg_of h 0)
        dir ← as_int (← get_arg_of h 1)
        mode ← as_int (← get_arg_of h 2)
        jcallback ← get_arg_of h 3
        if ltb_ℤ dir direction_none || ltb_ℤ direction_out dir
            then refuse Content.bad_direction
            else if ltb_ℤ mode mode_none || ltb_ℤ mode_opendrain mode
            then refuse Content.bad_mode
            else (do
              g ← gpio_reqwrap_create w self request jcallback Op.open_pin
              gpio_async g.0
                  (record {
                    request = g.1.request;
                    req_data = record g.1.req_data { pin = pin; dir = dir; mode = mode };
                  })
                  true))
      else refuse Content.internal_error

  unfoldable pub js_write : Outcome Done
  js_write =
      if check_args (Kind.number ∷ Kind.boolean ∷ Kind.function ∷ []) h.jargv
      then (do
        pin ← as_int (← get_arg_of h 0)
        value ← as_boolean (← get_arg_of h 1)
        jcallback ← get_arg_of h 2
        g ← gpio_reqwrap_create w self request jcallback Op.write
        gpio_async g.0
            (record {
              request = g.1.request;
              req_data = record g.1.req_data { pin = pin; value = value };
            })
            true)
      else refuse Content.internal_error

  unfoldable pub js_read : Outcome Done
  js_read =
      if check_args (Kind.number ∷ Kind.function ∷ []) h.jargv
      then (do
        pin ← as_int (← get_arg_of h 0)
        jcallback ← get_arg_of h 1
        g ← gpio_reqwrap_create w self request jcallback Op.read
        gpio_async g.0
            (record { request = g.1.request; req_data = record g.1.req_data { pin = pin } }) true)
      else refuse Content.internal_error
