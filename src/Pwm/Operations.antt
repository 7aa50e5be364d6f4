-- ===== src/Pwm/Operations.antt =====
-- The operations of src/module/iotjs_module_pwm.c on Linux.
use ble_central.Base.{ℕ, ◌≡◌, refl, Bool, [], ◌∷◌, Outcome, ok}
use ble_central.Base.Int.{ℤ, IsInt}
use ble_central.Binding.Value.{Jval}
use ble_central.Binding.Args.{handler}
use ble_central.Binding.World.{World}
use ble_central.Memory.{Allocator}
use ble_central.Memory.Laws.{IsAmple}
use ble_central.Device.{Os, decimal, device_unexport}
use ble_central.Pwm.{
  Op, ReqData, Options, blank, with_options, js_export, js_set_period, js_set_duty_cycle,
  js_set_enable, js_unexport,
}
use ble_central.Pwm.Linux.{
  scaled, duty_cycle_name, period_name, enable_name, set_pwm_period, set_pwm_duty_cycle,
  export_worker, set_period_worker, set_duty_cycle_worker, set_enable_worker, unexport_worker,
}
use ble_central.Pwm.Works.{
  wrote, given_up, exported, export_worker_lem, IsHundredth, scaled-IsHundredth,
}
use ble_central.Pwm.Operation.{Operated, operate-Operated}
use ble_central.Pwm.Starts.{
  data_of, option_arguments, queued_done, with_options_starts, set_enable_starts, unexport_starts,
}

module _ (a : Allocator) (ample : IsAmple a) (jpwm : ℕ) {S : Type 0} (os : Os S) (s : S) (w : World)
    (self request o : ℕ) (status : ℤ) where
  -- A native with options, whose worker ends.
  options-Operated :
      (options : Options) (op : Op) (pin : ℤ) (joptions : ℕ)
      (worker : ReqData → Outcome (S × ReqData)) (expected : S × ReqData)
      → IsInt pin
      → worker (data_of options op pin) ≡ ok expected
      → Operated a jpwm w o
          (with_options w (handler (option_arguments pin joptions o)) self request options op)
          worker
          status
          expected
  options-Operated options op pin joptions worker expected i ends =
      let d = data_of options op pin in
      let h = handler (option_arguments pin joptions o) in
      operate-Operated a jpwm w self request o d expected.1 (queued_done w h self request o d)
        (with_options w h self request options op) worker expected.0 status ample
        (with_options_starts w self request o options op pin joptions i) refl refl ends

  set_enable-Operated :
      (pin : ℤ) (enable : Bool)
      → IsInt pin
      → Operated a jpwm w o
          (js_set_enable w
            (handler (Jval.number pin ∷ Jval.boolean enable ∷ Jval.function o ∷ []))
            self
            request)
          (set_enable_worker os s)
          status
          (wrote os s enable_name [] (record (blank Op.set_enable) { pin = pin; enable = enable }))
  unfolding set_enable_worker
  set_enable-Operated pin enable i =
      let d = record (blank Op.set_enable) { pin = pin; enable = enable } in
      let h = handler (Jval.number pin ∷ Jval.boolean enable ∷ Jval.function o ∷ []) in
      let r = wrote os s enable_name [] d in
      operate-Operated a jpwm w self request o d r.1 (queued_done w h self request o d)
        (js_set_enable w h self request) (set_enable_worker os s) r.0 status ample
        (set_enable_starts w self request o pin enable i) refl refl refl

  unexport-Operated :
      (pin : ℤ)
      → IsInt pin
      → Operated a jpwm w o
          (js_unexport w (handler (Jval.number pin ∷ Jval.function o ∷ [])) self request)
          (unexport_worker os s)
          status
          (given_up os s (record (blank Op.unexport) { pin = pin }))
  unfolding unexport_worker device_unexport
  unexport-Operated pin i =
      let d = record (blank Op.unexport) { pin = pin } in
      let h = handler (Jval.number pin ∷ Jval.function o ∷ []) in
      let r = given_up os s d in
      operate-Operated a jpwm w self request o d r.1 (queued_done w h self request o d)
        (js_unexport w h self request) (unexport_worker os s) r.0 status ample
        (unexport_starts w self request o pin i) refl refl refl

  -- The operations of `pwm` on Linux but `setFrequency` (which aborts), with any answers of the
  -- operating system and libuv, for an allocator with room, a pin that is an `int`, and options whose
  -- duty cycle times the period fits an `int` and is not below -99 (either is 0 where the options have
  -- none). Each ends, and the worker does just this: `export` exports the pin where its directory is
  -- not there, then writes the period and then the duty cycle, each unless it is below 0 and as long as
  -- all went well, and reports a failed export or a failed write; `setPeriod` writes the decimal period
  -- to the period file of the pin; `setDutyCycle` writes the hundredth of the product, rounded down and 0
  -- for a product below 0, to the duty cycle file; `setEnable` writes no byte at all to the enable file; these three report whether the write
  -- succeeded; `unexport` writes the pin to `unexport` where its directory is there, and reports
  -- success in any case. The callback has been called exactly once, with that result or, when libuv
  -- reports a failure, with the system error; and every count is as before.
  pub pwm_operations :
      (options : Options) (joptions : ℕ) (pin v : ℤ) (enable : Bool)
      → IsInt pin
      → scaled (data_of options Op.export pin).duty_cycle (data_of options Op.export pin).period
        ≡ ok v
      → let h = handler (option_arguments pin joptions o) in
        let period = (data_of options Op.export pin).period in
        IsHundredth (data_of options Op.export pin).duty_cycle period v
        × Operated a jpwm w o
            (js_export w h self request options)
            (export_worker os s)
            status
            (exported os s (data_of options Op.export pin) v)
        × Operated a jpwm w o
            (js_set_period w h self request options)
            (set_period_worker os s)
            status
            (wrote os s period_name (decimal period) (data_of options Op.set_period pin))
        × Operated a jpwm w o
            (js_set_duty_cycle w h self request options)
            (set_duty_cycle_worker os s)
            status
            (wrote os s duty_cycle_name (decimal v) (data_of options Op.set_duty_cycle pin))
        × Operated a jpwm w o
            (js_set_enable w
              (handler (Jval.number pin ∷ Jval.boolean enable ∷ Jval.function o ∷ []))
              self
              request)
            (set_enable_worker os s)
            status
            (wrote os s enable_name []
              (record (blank Op.set_enable) { pin = pin; enable = enable }))
        × Operated a jpwm w o
            (js_unexport w (handler (Jval.number pin ∷ Jval.function o ∷ [])) self request)
            (unexport_worker os s)
            status
            (given_up os s (record (blank Op.unexport) { pin = pin }))
  unfolding js_export js_set_period js_set_duty_cycle set_period_worker set_pwm_period
      set_duty_cycle_worker set_pwm_duty_cycle
  pwm_operations options joptions pin v enable i fits =
      let p = data_of options Op.set_period pin in
      let c = data_of options Op.set_duty_cycle pin in
      (
        scaled-IsHundredth (data_of options Op.export pin).duty_cycle
            (data_of options Op.export pin).period v fits,
        options-Operated options Op.export pin joptions (export_worker os s) _ i
            (export_worker_lem os (data_of options Op.export pin) v fits s),
        options-Operated options Op.set_period pin joptions (set_period_worker os s)
            (wrote os s period_name (decimal p.period) p) i refl,
        options-Operated options Op.set_duty_cycle pin joptions (set_duty_cycle_worker os s)
            (wrote os s duty_cycle_name (decimal v) c) i (rw fits refl),
        set_enable-Operated pin enable i,
        unexport-Operated pin i,
      )
