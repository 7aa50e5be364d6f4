-- ===== src/Pwm/Works.antt =====
-- What the workers of src/platform/iotjs_module_pwm-linux-general.inl.h are to do, told by the files of
-- sysfs that are written.
use ble_central.Base.{
  ℕ, suc, ◌+◌, ◌*◌, ◌/◌, ◌^◌, ◌≤◌, ◌<◌, ◌≡◌, refl, arith, ltb, Bool, true, Bool-cases, inl, inr,
  List, [], ◌∷◌, if◌then◌else◌, ok,
}
use ble_central.Base.Int.{ℤ, pos, negsuc, pos_part, neg_part, ltb_ℤ}
use ble_central.Device.{
  Os, decimal, print_pin, device_check_path, device_open_write_close, device_export,
}
use ble_central.Pwm.{ReqData, err_ok, err_export, err_write}
use ble_central.Pwm.Linux.{
  positive_part, negative_part, scaled, pin_path, export_path, unexport_path, duty_cycle_name,
  period_name, enable_name, set_pwm_period, set_pwm_duty_cycle, export_duty_cycle, export_options,
  export_worker, with_result,
}

module _ {S : Type 0} (os : Os S) where
  -- A file of a pin is written, and the result says whether that succeeded.
  abbrev pub wrote : S → List ℕ → List ℕ → ReqData → S × ReqData
  wrote s name bytes d =
      let r = device_open_write_close os s (pin_path d.pin name) bytes in
      (r.0, with_result d (if r.1 then err_ok else err_write))

  -- A pin that is there is given up; it is not an error if that fails.
  abbrev pub given_up : S → ReqData → S × ReqData
  given_up s d =
      let c = device_check_path os s (pin_path d.pin []) in
      (
        if c.1 then (device_open_write_close os c.0 unexport_path (print_pin d.pin)).0 else c.0,
        with_result d err_ok,
      )

  -- One write behind others, if these went well; a setting below 0 is not written.
  abbrev pub then_write : S × Bool → ℤ → List ℕ → List ℕ → S × Bool
  then_write r setting path bytes =
      if r.1
      then (if ltb_ℤ setting (pos 0) then r else device_open_write_close os r.0 path bytes)
      else r

  -- The pin is there, or it is exported.
  abbrev pub made : S → ℤ → S × Bool
  made s pin =
      let c = device_check_path os s (pin_path pin []) in
      if c.1
      then c
      else device_export os c.0 export_path pin (pin_path pin [])
          (duty_cycle_name ∷ period_name ∷ enable_name ∷ [])

  -- The period and the duty cycle of a pin, the latter as `v` in the unit of the former.
  abbrev pub configured : S × Bool → ReqData → ℤ → S × Bool
  configured m d v =
      then_write (then_write m d.period (pin_path d.pin period_name) (decimal d.period))
        d.duty_cycle (pin_path d.pin duty_cycle_name) (decimal v)

  abbrev pub exported : S → ReqData → ℤ → S × ReqData
  exported s d v =
      let m = made s d.pin in
      let c = configured m d v in
      (c.0, with_result d (if m.1 then (if c.1 then err_ok else err_write) else err_export))

  module _ (d : ReqData) (v : ℤ) (fits : scaled d.duty_cycle d.period ≡ ok v) where
    -- Once the pin is there, its options are set.
    options_lem :
        (s : S)
        → export_options os s d ≡ (
            let c = configured (s, true) d v in
            ok (c.0, with_result d (if c.1 then err_ok else err_write)))
    unfolding export_options export_duty_cycle set_pwm_duty_cycle set_pwm_period
    options_lem s = elim (Bool-cases (ltb_ℤ d.period (pos 0))) [
      | inl no_period ↦ rw no_period (elim (Bool-cases (ltb_ℤ d.duty_cycle (pos 0))) [
        | inl none_given ↦ rw none_given refl
        | inr given ↦ rw given (rw fits refl)
      ])
      | inr period ↦
          rw period
            (elim (Bool-cases
              (device_open_write_close os s (pin_path d.pin period_name) (decimal d.period)).1) [
                | inr bad ↦ rw bad refl
                | inl good ↦ rw good (elim (Bool-cases (ltb_ℤ d.duty_cycle (pos 0))) [
                  | inl none_given ↦ rw none_given refl
                  | inr given ↦ rw given (rw fits refl)
                ])
              ])
    ]

    pub export_worker_lem : (s : S) → export_worker os s d ≡ ok (exported s d v)
    unfolding export_worker
    export_worker_lem s =
        let c = device_check_path os s (pin_path d.pin []) in
        let e =
          device_export os c.0 export_path d.pin (pin_path d.pin [])
            (duty_cycle_name ∷ period_name ∷ enable_name ∷ []) in
        elim (Bool-cases c.1) [
          | inl there ↦ rw there (options_lem c.0)
          | inr absent ↦ rw absent (elim (Bool-cases e.1) [
            | inl good ↦ rw good (options_lem e.0)
            | inr bad ↦ rw bad refl
          ])
        ]

-- The hundredth part of a product as a number from 0 on, rounded down; 0 for a product below 0.
abbrev pub IsHundredth : ℤ → ℤ → ℤ → Type 0
IsHundredth m n v =
    let product = pos_part m * pos_part n + neg_part m * neg_part n in
    (k : ℕ) × (v ≡ pos k) × (k * 100 ≤ product) × (product < k * 100 + 100)

positive-quotient :
    (n : ℕ) (v : ℤ)
    → positive_part n ≡ ok v
    → (k : ℕ) × (v ≡ pos k) × (k * 100 ≤ n) × (n < k * 100 + 100)
positive-quotient n v h = elim (Bool-cases (ltb n (2 ^ 31))) [
  | inl fits ↦ (n / 100, (let e = rw fits at h in cc), omega arith, omega arith)
  | inr large ↦ (let e = rw large at h in absurd (cc))
]

negative-quotient : (n : ℕ) (v : ℤ) → negative_part n ≡ ok v → v ≡ pos 0
negative-quotient n v h = elim (Bool-cases (ltb n 100)) [
  | inl fits ↦ (let e = rw fits at h in cc)
  | inr large ↦ (let e = rw large at h in absurd (cc))
]

pub scaled-IsHundredth : (m n v : ℤ) → scaled m n ≡ ok v → IsHundredth m n v
unfolding scaled
scaled-IsHundredth (pos m) (pos n) v h =
    let (k, e, lo, hi) = positive-quotient (m * n) v h in (k, e, omega arith, omega arith)
scaled-IsHundredth (pos m) (negsuc n) v h =
    (0, negative-quotient (m * suc n) v h, omega arith, omega arith)
scaled-IsHundredth (negsuc m) (pos n) v h =
    (0, negative-quotient (suc m * n) v h, omega arith, omega arith)
scaled-IsHundredth (negsuc m) (negsuc n) v h =
    let (k, e, lo, hi) = positive-quotient (suc m * suc n) v h in (k, e, omega arith, omega arith)
