-- ===== src/Gpio/Works.antt =====
-- What the workers of src/platform/iotjs_module_gpio-linux-general.inl.h are to do, told by the files
-- of sysfs that are written.
use ble_central.Base.{
  ℕ, zero, suc, ◌≡◌, refl, Bool, true, false, List, [], ◌∷◌, Option, none, some, ◌==◌,
  if◌then◌else◌, not,
}
use ble_central.Base.Int.{ℤ}
use ble_central.Device.{
  Os, device_check_path, device_open_write_close, device_open_read_close, device_export, print_pin,
}
use ble_central.Gpio.{ReqData, err_ok, err_sys, err_initialize}
use ble_central.Gpio.Linux.{
  gpio_interface, gpio_prefix, export_path, unexport_path, direction_name, edge_name, value_name,
  pin_path, scan_pin, unexport_pin, unexport_all, with_result,
}

module _ {S : Type 0} (os : Os S) where
  -- A file is written, and the result says whether that succeeded.
  abbrev pub wrote : S → List ℕ → List ℕ → ReqData → S × ReqData
  wrote s path bytes d =
      let r = device_open_write_close os s path bytes in
      (r.0, with_result os d (if r.1 then err_ok else err_sys))

  abbrev pub looked : S → ReqData → S × ReqData
  looked s d =
      let r = device_check_path os s gpio_interface in
      (r.0, with_result os d (if r.1 then err_ok else err_initialize))

  -- The direction none gives the pin up; in and out export it and write the direction.
  abbrev pub opened : S → ℤ → ℕ → ReqData → S × ReqData
  opened s pin zero d = wrote s unexport_path (print_pin pin) d
  opened s pin (suc k) d =
      let e =
        device_export os s export_path pin (pin_path pin [])
          (direction_name ∷ edge_name ∷ value_name ∷ []) in
      if e.1
      then wrote e.0 (pin_path pin direction_name)
          (if k == 0 then b'i' ∷ b'n' ∷ [] else b'o' ∷ b'u' ∷ b't' ∷ []) d
      else (e.0, with_result os d err_sys)

  -- The value of a pin is whether the number in its file is not 0.
  abbrev pub value_read : S → ℤ → ℕ → ReqData → S × ReqData
  value_read s pin n d =
      let r = device_open_read_close os s (pin_path pin value_name) 9 in
      if r.1
      then (r.0, record d { result = err_ok; value = not (n == 0) })
      else (r.0, with_result os d err_sys)

  -- The pins of a directory, each given up, and whether all could be.
  abbrev pub pins : List (List ℕ) → List ℤ
  pins [] = []
  pins (name ∷ names) = elim (scan_pin gpio_prefix name) [
    | none ↦ pins names
    | some pin ↦ pin ∷ pins names
  ]

  abbrev pub all_given_up : S → List ℤ → Bool → S × Bool
  all_given_up s [] good = (s, good)
  all_given_up s (pin ∷ rest) good =
      let r = device_open_write_close os s unexport_path (print_pin pin) in
      all_given_up r.0 rest (if r.1 then good else false)

  abbrev pub released : S → ReqData → S × ReqData
  released s d =
      let names = os.scandir s gpio_interface in
      let r = all_given_up names.0 (pins names.1) true in
      (r.0, with_result os d (if r.1 then err_ok else err_sys))

  -- The loop keeps the result `err_ok` as long as all goes well.
  pub unexport_all_lem :
      (s : S) (names : List (List ℕ)) (good : Bool)
      → unexport_all os s names (if good then err_ok else err_sys) ≡ (
        (all_given_up s (pins names) good).0,
        if (all_given_up s (pins names) good).1 then err_ok else err_sys,
      )
  unfolding unexport_all unexport_pin scan_pin
  unexport_all_lem s [] good = refl
  unexport_all_lem s (name ∷ names) good =
      by_scan (λ s' g. unexport_all_lem s' names g) (scan_pin gpio_prefix name) refl
    where
      kept :
          (b g : Bool)
          → (if b then (if g then err_ok else err_sys) else err_sys)
            ≡ (if (if b then g else false) then err_ok else err_sys)
      kept true g = refl
      kept false g = refl

      Kept : S → List (List ℕ) → Bool → Type 0
      Kept s names good = unexport_all os s names (if good then err_ok else err_sys) ≡ (
        (all_given_up s (pins names) good).0,
        if (all_given_up s (pins names) good).1 then err_ok else err_sys,
      )

      by_scan :
          ((s' : S) (g : Bool) → Kept s' names g)
          → (found : Option ℤ) → scan_pin gpio_prefix name ≡ found
          → Kept s (name ∷ names) good
      by_scan rest none e = rw e (rest s good)
      by_scan rest (some pin) e =
          let r = device_open_write_close os s unexport_path (print_pin pin) in
          rw e (rw (kept r.1 good) (rest r.0 (if r.1 then good else false)))
