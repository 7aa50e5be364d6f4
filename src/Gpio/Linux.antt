-- ===== src/Gpio/Linux.antt =====
-- src/platform/iotjs_module_gpio-linux-general.inl.h: the workers over the files of sysfs.
use ble_central.Base.{
  ℕ, ◌+◌, ◌-◌, ◌*◌, Bool, true, ◌&&◌, ◌||◌, List, [], ◌∷◌, ◌++◌, Option, none, some, leb, ◌==◌,
  if◌then◌else◌, not, Outcome, ok, fault, Fault, ◌>>=◌, ◌>>◌, assert,
}
use ble_central.Base.Int.{ℤ, pos, ◌==ℤ◌}
use ble_central.Device.{
  Os, decimal, device_check_path, device_open_write_close, device_open_read_close, device_export,
  print_pin,
}
use ble_central.Gpio.{
  ReqData, direction_none, direction_in, direction_out, mode_none, mode_opendrain, err_ok,
  err_initialize, err_sys,
}

-- `GPIO_INTERFACE` and the file names behind it.
abbrev pub gpio_interface : List ℕ
gpio_interface =
    b'/' ∷ b's' ∷ b'y' ∷ b's' ∷ b'/' ∷ b'c' ∷ b'l' ∷ b'a' ∷ b's' ∷ b's' ∷ b'/' ∷ b'g' ∷ b'p' ∷ b'i'
    ∷ b'o' ∷ b'/' ∷ []

abbrev pub gpio_prefix : List ℕ
gpio_prefix = b'g' ∷ b'p' ∷ b'i' ∷ b'o' ∷ []

abbrev pub export_path : List ℕ
export_path = gpio_interface ++ (b'e' ∷ b'x' ∷ b'p' ∷ b'o' ∷ b'r' ∷ b't' ∷ [])

abbrev pub unexport_path : List ℕ
unexport_path = gpio_interface ++ (b'u' ∷ b'n' ∷ b'e' ∷ b'x' ∷ b'p' ∷ b'o' ∷ b'r' ∷ b't' ∷ [])

abbrev pub direction_name : List ℕ
direction_name = b'd' ∷ b'i' ∷ b'r' ∷ b'e' ∷ b'c' ∷ b't' ∷ b'i' ∷ b'o' ∷ b'n' ∷ []

abbrev pub edge_name : List ℕ
edge_name = b'e' ∷ b'd' ∷ b'g' ∷ b'e' ∷ []

abbrev pub value_name : List ℕ
value_name = b'v' ∷ b'a' ∷ b'l' ∷ b'u' ∷ b'e' ∷ []

-- `GPIO_PIN_FORMAT`, and the one with a file name; a path is shorter than the buffers it is printed to.
unfoldable pub pin_path : ℤ → List ℕ → List ℕ
pin_path pin name = gpio_interface ++ (gpio_prefix ++ (decimal pin ++ (b'/' ∷ name)))

-- The number that `sscanf` and `atoi` read: digits, for bytes that begin without white space or a sign.
abbrev pub is_digit : ℕ → Bool
is_digit c = leb b'0' c && leb c b'9'

unfoldable pub read_digits : ℕ → List ℕ → ℕ × List ℕ
read_digits acc [] = (acc, [])
read_digits acc (c ∷ cs) =
    let rest = read_digits (acc * 10 + (c - b'0')) cs in if is_digit c then rest else (acc, c ∷ cs)

-- `sscanf(name, "gpio%d/", &pin_number) == 1`, for names without white space or a sign.
unfoldable pub scan_number : List ℕ → Option ℤ
scan_number [] = none
scan_number (c ∷ cs) = if is_digit c then some (pos (read_digits 0 (c ∷ cs)).0) else none

unfoldable pub scan_pin : List ℕ → List ℕ → Option ℤ
scan_pin [] cs = scan_number cs
scan_pin (p ∷ ps) [] = none
scan_pin (p ∷ ps) (c ∷ cs) = if p == c then scan_pin ps cs else none

-- `atoi` of bytes that were read, in a buffer that is not set behind them.
abbrev pub terminated : ℕ × List ℕ → Outcome ℕ
terminated (n, []) = fault Fault.uninitialized
terminated (n, c ∷ cs) = ok n

unfoldable pub atoi : List ℕ → Outcome ℕ
atoi bs = terminated (read_digits 0 bs)

module _ {S : Type 0} (os : Os S) where
  unfoldable pub unexport_pin : S → ℤ → S × Bool
  unexport_pin s pin = device_open_write_close os s unexport_path (print_pin pin)

  unfoldable pub set_pin_direction : S → ℤ → ℤ → Outcome (S × Bool)
  set_pin_direction s pin direction = do
    assert (direction ==ℤ direction_in || direction ==ℤ direction_out)
    ok (
        device_open_write_close os s (pin_path pin direction_name)
          (if direction ==ℤ direction_in then b'i' ∷ b'n' ∷ [] else b'o' ∷ b'u' ∷ b't' ∷ []))

  unfoldable pub set_pin_mode : S → ℤ → ℤ → Outcome (S × Bool)
  set_pin_mode s pin mode = do
    assert (not (mode ==ℤ mode_none) && not (mode ==ℤ mode_opendrain))
    ok (s, true)

  abbrev pub with_result : ReqData → ℤ → ReqData
  with_result d r = record d { result = r }

  -- `GPIO_WORKER_INIT_TEMPLATE` asserts that the flag is as it was when the worker was queued.
  unfoldable pub initialize_gpio_worker : Bool → S → ReqData → Outcome (S × ReqData)
  initialize_gpio_worker initialized s d = do
    assert (not initialized)
    let c = device_check_path os s gpio_interface
    ok (c.0, with_result d (if c.1 then err_ok else err_initialize))

  -- The loop of `ReleaseGpioWorker`, over the names of a directory.
  unfoldable pub unexport_all : S → List (List ℕ) → ℤ → S × ℤ
  unexport_all s [] result = (s, result)
  unexport_all s (name ∷ names) result = elim (scan_pin gpio_prefix name) [
    | none ↦ unexport_all s names result
    | some pin ↦
        unexport_all (unexport_pin s pin).0 names
          (if (unexport_pin s pin).1 then result else err_sys)
  ]

  unfoldable pub release_gpio_worker : Bool → S → ReqData → Outcome (S × ReqData)
  release_gpio_worker initialized s d = do
    assert initialized
    let names = os.scandir s gpio_interface
    let r = unexport_all names.0 names.1 err_ok
    ok (r.0, with_result d r.1)

  unfoldable pub open_exported : S → ReqData → Outcome (S × ReqData)
  open_exported s d = do
    let e =
        device_export os s export_path d.pin (pin_path d.pin [])
          (direction_name ∷ edge_name ∷ value_name ∷ [])
    if not e.1 then ok (e.0, with_result d err_sys) else (do
      f ← set_pin_direction e.0 d.pin d.dir
      if not f.1 then ok (f.0, with_result d err_sys) else (do
        m ← set_pin_mode f.0 d.pin d.mode
        ok (m.0, with_result d (if m.1 then err_ok else err_sys))))

  unfoldable pub open_gpio_worker : Bool → S → ReqData → Outcome (S × ReqData)
  open_gpio_worker initialized s d = do
    assert initialized
    if d.dir ==ℤ direction_none
        then (let u = unexport_pin s d.pin in
            ok (u.0, with_result d (if u.1 then err_ok else err_sys)))
        else open_exported s d

  unfoldable pub write_gpio_worker : Bool → S → ReqData → Outcome (S × ReqData)
  write_gpio_worker initialized s d = do
    assert initialized
    let r =
        device_open_write_close os s (pin_path d.pin value_name)
          ((if d.value then b'1' else b'0') ∷ [])
    ok (r.0, with_result d (if r.1 then err_ok else err_sys))

  -- `GPIO_VALUE_BUFFER_SIZE - 1` bytes at most.
  unfoldable pub read_gpio_worker : Bool → S → ReqData → Outcome (S × ReqData)
  read_gpio_worker initialized s d = do
    assert initialized
    let r = device_open_read_close os s (pin_path d.pin value_name) 9
    if r.1
        then (do n ← atoi r.2; ok (r.0, record d { result = err_ok; value = not (n == 0) }))
        else ok (r.0, with_result d err_sys)
