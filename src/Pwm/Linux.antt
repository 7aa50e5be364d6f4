-- ===== src/Pwm/Linux.antt =====
-- src/platform/iotjs_module_pwm-linux-general.inl.h: the workers over the files of sysfs.
use ble_central.Base.{
  ℕ, suc, ◌-◌, ◌*◌, ◌/◌, ◌^◌, Bool, List, [], ◌∷◌, ◌++◌, ltb, if◌then◌else◌, take, Outcome, ok,
  fault, Fault, ◌>>=◌,
}
use ble_central.Base.Int.{ℤ, pos, negsuc, ltb_ℤ}
use ble_central.Device.{
  Os, decimal, device_check_path, device_open_write_close, device_export, device_unexport,
}
use ble_central.Pwm.{ReqData, err_ok, err_export, err_write}

-- `PWM_INTERFACE` of the chip `PWM_DEFAULT_CHIP_NUMBER`, and the file names behind it.
abbrev pub pwm_interface : List ℕ
pwm_interface =
    b'/' ∷ b's' ∷ b'y' ∷ b's' ∷ b'/' ∷ b'c' ∷ b'l' ∷ b'a' ∷ b's' ∷ b's' ∷ b'/' ∷ b'p' ∷ b'w' ∷ b'm'
    ∷ b'/' ∷ b'p' ∷ b'w' ∷ b'm' ∷ b'c' ∷ b'h' ∷ b'i' ∷ b'p' ∷ b'0' ∷ b'/' ∷ []

abbrev pub export_path : List ℕ
export_path = pwm_interface ++ (b'e' ∷ b'x' ∷ b'p' ∷ b'o' ∷ b'r' ∷ b't' ∷ [])

abbrev pub unexport_path : List ℕ
unexport_path = pwm_interface ++ (b'u' ∷ b'n' ∷ b'e' ∷ b'x' ∷ b'p' ∷ b'o' ∷ b'r' ∷ b't' ∷ [])

abbrev pub duty_cycle_name : List ℕ
duty_cycle_name = b'd' ∷ b'u' ∷ b't' ∷ b'y' ∷ b'_' ∷ b'c' ∷ b'y' ∷ b'c' ∷ b'l' ∷ b'e' ∷ []

abbrev pub period_name : List ℕ
period_name = b'p' ∷ b'e' ∷ b'r' ∷ b'i' ∷ b'o' ∷ b'd' ∷ []

abbrev pub enable_name : List ℕ
enable_name = b'e' ∷ b'n' ∷ b'a' ∷ b'b' ∷ b'l' ∷ b'e' ∷ []

-- `PWM_PIN_FORMAT`, and what `strcat` puts behind it; a path is shorter than the buffers it is printed
-- to.
unfoldable pub pin_path : ℤ → List ℕ → List ℕ
pin_path pin name = pwm_interface ++ (b'p' ∷ b'w' ∷ b'm' ∷ (decimal pin ++ (b'/' ∷ name)))

-- `duty_cycle * period * 0.01` as a `uint32_t`: the product of two `int`s must be one, and what is
-- left of it must not be below 0.
abbrev pub positive_part : ℕ → Outcome ℤ
positive_part n = if ltb n (2 ^ 31) then ok (pos (n / 100)) else fault Fault.overflow

abbrev pub negative_part : ℕ → Outcome ℤ
negative_part n = if ltb n 100 then ok (pos 0) else fault Fault.overflow

unfoldable pub scaled : ℤ → ℤ → Outcome ℤ
scaled (pos m) (pos n) = positive_part (m * n)
scaled (pos m) (negsuc n) = negative_part (m * suc n)
scaled (negsuc m) (pos n) = negative_part (suc m * n)
scaled (negsuc m) (negsuc n) = positive_part (suc m * suc n)

abbrev pub with_result : ReqData → ℤ → ReqData
with_result d r = record d { result = r }

module _ {S : Type 0} (os : Os S) where
  -- `PWM_VALUE_BUFFER_SIZE - 2` characters are more than an `int` has.
  unfoldable pub set_pwm_period : S → ReqData → S × Bool
  set_pwm_period s d = device_open_write_close os s (pin_path d.pin period_name) (decimal d.period)

  unfoldable pub set_pwm_duty_cycle : S → ReqData → Outcome (S × Bool)
  set_pwm_duty_cycle s d = do
    duty_cycle ← scaled d.duty_cycle d.period
    ok (device_open_write_close os s (pin_path d.pin duty_cycle_name) (decimal duty_cycle))

  -- The options of `ExportWorker`.
  unfoldable pub export_duty_cycle : S → ReqData → Outcome (S × ReqData)
  export_duty_cycle s d = if ltb_ℤ d.duty_cycle (pos 0) then ok (s, with_result d err_ok) else (do
    r ← set_pwm_duty_cycle s d
    ok (r.0, with_result d (if r.1 then err_ok else err_write)))

  unfoldable pub export_options : S → ReqData → Outcome (S × ReqData)
  export_options s d =
      if ltb_ℤ d.period (pos 0)
      then export_duty_cycle s d
      else (let r = set_pwm_period s d in
          if r.1 then export_duty_cycle r.0 d else ok (r.0, with_result d err_write))

  unfoldable pub export_worker : S → ReqData → Outcome (S × ReqData)
  export_worker s d =
      let path = pin_path d.pin [] in
      let c = device_check_path os s path in
      if c.1
      then export_options c.0 d
      else (let e =
            device_export os c.0 export_path d.pin path
              (duty_cycle_name ∷ period_name ∷ enable_name ∷ []) in
          if e.1 then export_options e.0 d else ok (e.0, with_result d err_export))

  unfoldable pub set_period_worker : S → ReqData → Outcome (S × ReqData)
  set_period_worker s d =
      let r = set_pwm_period s d in ok (r.0, with_result d (if r.1 then err_ok else err_write))

  -- `SetFrequencyWorker` is not implemented.
  unfoldable pub set_frequency_worker : S → ReqData → Outcome (S × ReqData)
  set_frequency_worker s d = fault Fault.aborted

  unfoldable pub set_duty_cycle_worker : S → ReqData → Outcome (S × ReqData)
  set_duty_cycle_worker s d = do
    r ← set_pwm_duty_cycle s d
    ok (r.0, with_result d (if r.1 then err_ok else err_write))

  -- `snprintf(value, 1, ...)` prints no character in front of the terminator.
  unfoldable pub set_enable_worker : S → ReqData → Outcome (S × ReqData)
  set_enable_worker s d =
      let value = take (1 - 1) (decimal (if d.enable then pos 1 else pos 0)) in
      let r = device_open_write_close os s (pin_path d.pin enable_name) value in
      ok (r.0, with_result d (if r.1 then err_ok else err_write))

  unfoldable pub unexport_worker : S → ReqData → Outcome (S × ReqData)
  unexport_worker s d =
      let c = device_check_path os s (pin_path d.pin []) in
      let u = device_unexport os c.0 unexport_path d.pin in
      ok (if c.1 then u.0 else c.0, with_result d err_ok)
