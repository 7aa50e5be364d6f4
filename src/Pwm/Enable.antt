-- ===== src/Pwm/Enable.antt =====
-- `setEnable` and `setFrequency` of src/module/iotjs_module_pwm.c on Linux.
use ble_central.Base.{ℕ, ◌≡◌, refl, [], ◌∷◌, true, false, fault, Fault}
use ble_central.Base.Int.{ℤ, IsInt}
use ble_central.Binding.Value.{Jval}
use ble_central.Binding.Args.{handler}
use ble_central.Binding.World.{World}
use ble_central.Memory.{Allocator}
use ble_central.Device.{Os}
use ble_central.Pwm.{Op, Options, after_pwm_work, js_set_enable, js_set_frequency}
use ble_central.Pwm.Linux.{set_enable_worker, set_frequency_worker}
use ble_central.Pwm.Operation.{operate}
use ble_central.Pwm.Starts.{option_arguments, set_enable_starts, with_options_starts}

module _ (a : Allocator) (jpwm : ℕ) {S : Type 0} (os : Os S) (s : S) (w : World)
    (self request o : ℕ) (pin status : ℤ) (i : IsInt pin) where
  -- Whatever the system and libuv answer, for a pin that is an `int`: `setEnable` with true and with false do the same to the
  -- system, the world and the callback; and `setFrequency` aborts the program.
  pub enable_lem :
      (options : Options) (joptions : ℕ)
      → (operate a jpwm
            (js_set_enable w
              (handler (Jval.number pin ∷ Jval.boolean true ∷ Jval.function o ∷ []))
              self
              request)
            (set_enable_worker os s)
            status
          ≡ operate a jpwm
              (js_set_enable w
                (handler (Jval.number pin ∷ Jval.boolean false ∷ Jval.function o ∷ []))
                self
                request)
              (set_enable_worker os s)
              status)
        × (operate a jpwm
              (js_set_frequency w (handler (option_arguments pin joptions o)) self request options)
              (set_frequency_worker os s)
              status
            ≡ fault Fault.aborted)
  unfolding operate set_enable_worker after_pwm_work set_frequency_worker js_set_frequency
  enable_lem options joptions = (
    rw (set_enable_starts w self request o pin true i)
        (rw (set_enable_starts w self request o pin false i) refl),
    rw (with_options_starts w self request o options Op.set_frequency pin joptions i) refl,
  )
