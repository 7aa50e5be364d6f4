-- ===== src/Pwm/Starts.antt =====
-- What the natives of src/module/iotjs_module_pwm.c queue.
use ble_central.Base.{ℕ, ◌≡◌, refl, Bool, true, [], ◌∷◌, List, some, ok}
use ble_central.Base.Int.{ℤ, IsInt, pos}
use ble_central.Binding.Value.{Jval, as_int-number}
use ble_central.Binding.Args.{Handler, handler, get_arg_of, return_jval}
use ble_central.Binding.World.{World, give_back}
use ble_central.Handle.Pending.{request_of, create_request}
use ble_central.Handle.Request as Requests
use ble_central.Pwm.{
  Op, ReqData, Options, Done, blank, or_else, pwm_reqwrap_create, set_pwmdata, pwm_async,
  with_options, js_set_enable, js_unexport,
}
use ble_central.Pwm.Operation.{held_by}

abbrev pub queued_done : World → Handler → ℕ → ℕ → ℕ → ReqData → Done
queued_done w h self request o d = record {
  world = held_by w o;
  frame = record h { jret = Jval.null; finished = true };
  queued = some (record { request = request_of self request o; req_data = d });
}

-- The request that the options of an operation make.
abbrev pub data_of : Options → Op → ℤ → ReqData
data_of options op pin = record (blank op) {
  pin = pin;
  period = or_else options.period (pos 0);
  duty_cycle = or_else options.duty_cycle (pos 0);
}

-- The frame of a native that takes options.
abbrev pub option_arguments : ℤ → ℕ → ℕ → List Jval
option_arguments pin joptions o = Jval.number pin ∷ Jval.object joptions ∷ Jval.function o ∷ []

module _ (w : World) (self request o : ℕ) where
  pub with_options_starts :
      (options : Options) (op : Op) (pin : ℤ) (joptions : ℕ)
      → IsInt pin
      → let h = handler (option_arguments pin joptions o) in
        with_options w h self request options op
        ≡ ok (queued_done w h self request o (data_of options op pin))
  unfolding with_options set_pwmdata pwm_async pwm_reqwrap_create create_request Requests.initialize
      get_arg_of handler give_back return_jval
  with_options_starts options op pin joptions i = rw (as_int-number pin i) refl

  pub set_enable_starts :
      (pin : ℤ) (enable : Bool)
      → IsInt pin
      → let h = handler (Jval.number pin ∷ Jval.boolean enable ∷ Jval.function o ∷ []) in
        js_set_enable w h self request
        ≡ ok (
            queued_done w h self request o
              (record (blank Op.set_enable) { pin = pin; enable = enable }))
  unfolding js_set_enable pwm_async pwm_reqwrap_create create_request Requests.initialize get_arg_of
      handler give_back return_jval
  set_enable_starts pin enable i = rw (as_int-number pin i) refl

  pub unexport_starts :
      (pin : ℤ)
      → IsInt pin
      → let h = handler (Jval.number pin ∷ Jval.function o ∷ []) in
        js_unexport w h self request
        ≡ ok (queued_done w h self request o (record (blank Op.unexport) { pin = pin }))
  unfolding js_unexport pwm_async pwm_reqwrap_create create_request Requests.initialize get_arg_of
      handler give_back return_jval
  unexport_starts pin i = rw (as_int-number pin i) refl
