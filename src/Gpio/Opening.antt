-- ===== src/Gpio/Opening.antt =====
-- `open` of src/module/iotjs_module_gpio.c on Linux.
use ble_central.Base.{
  ℕ, zero, suc, ◌≤◌, ◌≡◌, refl, arith, Bool, true, false, Bool-cases, inl, inr, [], ◌∷◌,
  if◌then◌else◌, not, ◌||◌, ◌&&◌, ok, fault, Fault,
}
use ble_central.Base.Int.{ℤ, IsInt, pos, ◌==ℤ◌}
use ble_central.Binding.Value.{Jval}
use ble_central.Binding.Args.{handler}
use ble_central.Binding.World.{World}
use ble_central.Memory.{Allocator}
use ble_central.Memory.Laws.{IsAmple}
use ble_central.Device.{Os, device_export, device_open_write_close}
use ble_central.Gpio.{
  Op, ReqData, direction_none, direction_out, direction_in, mode_none, mode_opendrain, js_open,
}
use ble_central.Gpio.Linux.{
  pin_path, value_name, direction_name, edge_name, export_path, unexport_pin, set_pin_direction,
  set_pin_mode, open_exported, open_gpio_worker,
}
use ble_central.Gpio.Works.{opened}
use ble_central.Gpio.Operation.{operate, Operated, operate-Operated}
use ble_central.Gpio.Starts.{blank, queued_done, is_openable, modes, open_starts}

module _ (a : Allocator) (ample : IsAmple a) (jgpio : ℕ) {S : Type 0} (os : Os S) (s : S)
    (w : World) (self request o : ℕ) (status : ℤ) where
  -- What `OpenGpioWorker` makes of an export.
  abbrev pub exported : ℤ → S × Bool
  exported pin =
      device_export os s export_path pin (pin_path pin [])
        (direction_name ∷ edge_name ∷ value_name ∷ [])

  abbrev pub directed : ℤ → ℤ → S × Bool
  directed pin dir =
      device_open_write_close os (exported pin).0 (pin_path pin direction_name)
        (if dir ==ℤ direction_in then b'i' ∷ b'n' ∷ [] else b'o' ∷ b'u' ∷ b't' ∷ [])

  open_in_lem :
      (pin mode : ℤ)
      → (not (mode ==ℤ mode_none) && not (mode ==ℤ mode_opendrain)) ≡ true
      → let d = record (blank Op.open_pin) { pin = pin; dir = pos 1; mode = mode } in
        open_exported os s d ≡ ok (opened os s pin 1 d)
  unfolding open_exported set_pin_direction set_pin_mode
  open_in_lem pin mode hm = elim (Bool-cases (exported pin).1) [
    | inr bad ↦ rw bad refl
    | inl good ↦ rw good (elim (Bool-cases (directed pin (pos 1)).1) [
      | inr bad ↦ rw bad refl
      | inl set_dir ↦ rw set_dir (rw hm refl)
    ])
  ]

  open_out_lem :
      (pin mode : ℤ)
      → (not (mode ==ℤ mode_none) && not (mode ==ℤ mode_opendrain)) ≡ true
      → let d = record (blank Op.open_pin) { pin = pin; dir = pos 2; mode = mode } in
        open_exported os s d ≡ ok (opened os s pin 2 d)
  unfolding open_exported set_pin_direction set_pin_mode
  open_out_lem pin mode hm = elim (Bool-cases (exported pin).1) [
    | inr bad ↦ rw bad refl
    | inl good ↦ rw good (elim (Bool-cases (directed pin (pos 2)).1) [
      | inr bad ↦ rw bad refl
      | inl set_dir ↦ rw set_dir (rw hm refl)
    ])
  ]

  open_worker_lem :
      (pin : ℤ) (dir mode : ℕ)
      → dir ≤ 2
      → is_openable dir mode ≡ true
      → let d = record (blank Op.open_pin) { pin = pin; dir = pos dir; mode = pos mode } in
        open_gpio_worker os true s d ≡ ok (opened os s pin dir d)
  unfolding open_gpio_worker unexport_pin
  open_worker_lem pin zero mode h open_ok = refl
  open_worker_lem pin (suc zero) mode h open_ok =
      open_in_lem pin (pos mode) (modes 1 mode refl open_ok)
  open_worker_lem pin (suc (suc zero)) mode h open_ok =
      open_out_lem pin (pos mode) (modes 2 mode refl open_ok)
  open_worker_lem pin (suc (suc (suc k))) mode h open_ok = absurd (omega arith)

  pub open-Operated :
      (pin : ℤ) (dir mode : ℕ)
      → IsInt pin
      → dir ≤ 2
      → mode ≤ 5
      → is_openable dir mode ≡ true
      → let h = handler (
          Jval.number pin
          ∷ Jval.number (pos dir)
          ∷ Jval.number (pos mode)
          ∷ Jval.function o
          ∷ []) in
        Operated a jgpio w o Op.open_pin true
          (js_open true w h self request)
          (open_gpio_worker os true s)
          status
          (opened os s pin dir
            (record (blank Op.open_pin) { pin = pin; dir = pos dir; mode = pos mode }))
  open-Operated pin dir mode i hd hm open_ok =
      let h =
        handler (
          Jval.number pin
          ∷ Jval.number (pos dir)
          ∷ Jval.number (pos mode)
          ∷ Jval.function o
          ∷ []) in
      let d = record (blank Op.open_pin) { pin = pin; dir = pos dir; mode = pos mode } in
      let r = opened os s pin dir d in
      operate-Operated a ample jgpio true w self request o d r.1 (queued_done w h self request o d)
        (js_open true w h self request) (open_gpio_worker os true s) r.0 status
        (open_starts w self request o pin dir mode i hd hm) (refl, refl)
        (open_worker_lem pin dir mode hd open_ok) (same_op pin dir d)
    where
      same_op : (pin : ℤ) (dir : ℕ) (d : ReqData) → (opened os s pin dir d).1.op ≡ d.op
      same_op pin zero d = refl
      same_op pin (suc k) d = elim (Bool-cases (exported pin).1) [
        | inl good ↦ rw good refl
        | inr bad ↦ rw bad refl
      ]

  -- `open` for input or output with the mode `none` (what `gpio.open` of src/js/gpio.js passes when it
  -- is given none) or `opendrain`, which the native accepts, of a pin that is an `int`: once the pin is exported and its direction
  -- is set, the worker aborts.
  pub open_aborts :
      (pin : ℤ) (dir mode : ℕ)
      → IsInt pin
      → 1 ≤ dir
      → dir ≤ 2
      → mode ≤ 5
      → is_openable dir mode ≡ false
      → (exported pin).1 ≡ true
      → (directed pin (pos dir)).1 ≡ true
      → let h = handler (
          Jval.number pin
          ∷ Jval.number (pos dir)
          ∷ Jval.number (pos mode)
          ∷ Jval.function o
          ∷ []) in
        operate a jgpio true (js_open true w h self request) (open_gpio_worker os true s) status
        ≡ fault Fault.aborted
  unfolding operate open_gpio_worker open_exported set_pin_direction set_pin_mode
  open_aborts pin dir mode i lo hi hm closed good set_dir =
      rw (open_starts w self request o pin dir mode i hi hm) (
        rw (not_none dir lo)
          (rw good (rw (is_way dir lo hi) (rw set_dir (rw (bad_mode dir mode closed) refl)))))
    where
      not_none : (dir : ℕ) → 1 ≤ dir → (pos dir ==ℤ direction_none) ≡ false
      not_none dir lo = ground arith

      is_way :
          (dir : ℕ)
          → 1 ≤ dir
          → dir ≤ 2
          → (pos dir ==ℤ direction_in || pos dir ==ℤ direction_out) ≡ true
      is_way dir lo hi = ground arith

      bad_mode :
          (dir mode : ℕ)
          → is_openable dir mode ≡ false
          → (not (pos mode ==ℤ mode_none) && not (pos mode ==ℤ mode_opendrain)) ≡ false
      bad_mode dir mode closed = ground arith
