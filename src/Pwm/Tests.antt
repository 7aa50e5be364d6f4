-- ===== src/Pwm/Tests.antt =====
-- The concrete operating system of Gpio/Tests for src/module/iotjs_module_pwm.c.
use ble_central.Base.{arith, ◌≡◌, refl, some, true, false, [], ◌∷◌, ok, fault, Fault}
use ble_central.Base.Int.{pos}
use ble_central.Binding.Value.{Jval}
use ble_central.Binding.Args.{handler}
use ble_central.Strings.Tests.{heap, heap-IsAmple}
use ble_central.Fs.Tests.{world}
use ble_central.Gpio.Tests.{os, system}
use ble_central.Device.{decimal}
use ble_central.Pwm.Works.{wrote, given_up, exported, IsHundredth}
use ble_central.Pwm.{
  Op, blank, Options, js_export, js_set_period, js_set_frequency, js_set_duty_cycle, js_set_enable,
  js_unexport,
}
use ble_central.Pwm.Linux.{
  scaled, period_name, duty_cycle_name, enable_name, export_worker, set_period_worker,
  set_frequency_worker, set_duty_cycle_worker, set_enable_worker, unexport_worker,
}
use ble_central.Pwm.Operation.{operate, Operated}
use ble_central.Pwm.Starts.{data_of, option_arguments}
use ble_central.Pwm.Enable.{enable_lem}
use ble_central.Pwm.Operations.{pwm_operations}

abbrev options : Options
options = record { period = some (pos 2000); duty_cycle = some (pos 50) }

half : scaled (pos 50) (pos 2000) ≡ ok (pos 1000)
unfolding scaled
half = refl

pwm_operations_example :
    let h = handler (option_arguments (pos 1) 4 3) in
    IsHundredth (pos 50) (pos 2000) (pos 1000)
    × Operated heap 2 world 3
        (js_export world h 20 21 options)
        (export_worker os system)
        (pos 0)
        (exported os system (data_of options Op.export (pos 1)) (pos 1000))
    × Operated heap 2 world 3
        (js_set_period world h 20 21 options)
        (set_period_worker os system)
        (pos 0)
        (wrote os system period_name (decimal (pos 2000)) (data_of options Op.set_period (pos 1)))
    × Operated heap 2 world 3
        (js_set_duty_cycle world h 20 21 options)
        (set_duty_cycle_worker os system)
        (pos 0)
        (wrote os system duty_cycle_name
          (decimal (pos 1000))
          (data_of options Op.set_duty_cycle (pos 1)))
    × Operated heap 2 world 3
        (js_set_enable world
          (handler (Jval.number (pos 1) ∷ Jval.boolean true ∷ Jval.function 3 ∷ []))
          20
          21)
        (set_enable_worker os system)
        (pos 0)
        (wrote os system enable_name []
          (record (blank Op.set_enable) { pin = pos 1; enable = true }))
    × Operated heap 2 world 3
        (js_unexport world (handler (Jval.number (pos 1) ∷ Jval.function 3 ∷ [])) 20 21)
        (unexport_worker os system)
        (pos 0)
        (given_up os system (record (blank Op.unexport) { pin = pos 1 }))
pwm_operations_example =
    pwm_operations heap heap-IsAmple 2 os system world 20 21 3 (pos 0) options 4 (pos 1) (pos 1000)
      true (omega arith, omega arith) half

enable_lem_example :
    (operate heap 2
        (js_set_enable world
          (handler (Jval.number (pos 1) ∷ Jval.boolean true ∷ Jval.function 3 ∷ []))
          20
          21)
        (set_enable_worker os system)
        (pos 0)
      ≡ operate heap 2
          (js_set_enable world
            (handler (Jval.number (pos 1) ∷ Jval.boolean false ∷ Jval.function 3 ∷ []))
            20
            21)
          (set_enable_worker os system)
          (pos 0))
    × (operate heap 2
          (js_set_frequency world (handler (option_arguments (pos 1) 4 3)) 20 21 options)
          (set_frequency_worker os system)
          (pos 0)
        ≡ fault Fault.aborted)
enable_lem_example =
    enable_lem heap 2 os system world 20 21 3 (pos 1) (pos 0) (omega arith, omega arith) options 4
