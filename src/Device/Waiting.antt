-- ===== src/Device/Waiting.antt =====
-- How long `DeviceExport` of src/platform/iotjs_systemio-linux.c waits, and when it gives up.
use ble_central.Base.{
  ℕ, zero, suc, ◌+◌, ◌*◌, ◌≡◌, ◌⊎◌, inl, inr, refl, ◌∙◌, arith, Bool, true, false, Bool-cases, List,
  [], ◌∷◌, ◌++◌, ltb, length,
}
use ble_central.Base.Int.{ℤ, pos, ltb_ℤ}
use ble_central.Device.{
  Os, pin_buffer_size, print_pin, device_check_path, device_open_write_close,
  device_open_read_close, wait_path, wait_file, wait_files, device_export,
}
use ble_central.Device.Counting.{IsCounted}

-- What an export that has written the pin leaves: of the waits that it may make and the last one
-- some are left or none, and it has succeeded if and only if some are.
abbrev pub Waited : {S : Type 0} → (S → ℕ) → S → ℕ → S × Bool → Type 0
Waited sleeps s limit r =
    (left : ℕ) × (sleeps r.0 + left ≡ sleeps s + limit + 1) × (r.1 ≡ ltb 0 left)

module _ {S : Type 0} (os : Os S) (files sleeps : S → ℕ) (laws : IsCounted os files sleeps) where
  check-sleeps : (s : S) (path : List ℕ) → sleeps (device_check_path os s path).0 ≡ sleeps s
  unfolding device_check_path
  check-sleeps s path = laws.stat_sleeps s path

  write-sleeps :
      (s : S) (path value : List ℕ) → sleeps (device_open_write_close os s path value).0 ≡ sleeps s
  unfolding device_open_write_close
  write-sleeps s path value =
      let o = os.open_write s path in
      let w = os.write o.0 o.1 value in
      let all : sleeps (os.close w.0 o.1).0 ≡ sleeps s = omega (
        arith,
        laws.close_sleeps w.0 o.1,
        laws.write_sleeps o.0 o.1 value,
        laws.open_write_sleeps s path,
      ) in
      elim (Bool-cases (ltb_ℤ o.1 (pos 0))) [
        | inl bad ↦ rw bad (laws.open_write_sleeps s path)
        | inr good ↦ rw good (elim (Bool-cases (ltb_ℤ w.1 (pos 0))) [
          | inl failed ↦ rw failed all
          | inr written ↦ rw written (elim (Bool-cases (ltb_ℤ (os.close w.0 o.1).1 (pos 0))) [
            | inl failed ↦ rw failed all
            | inr closed ↦ rw closed all
          ])
        ])
      ]

  read-sleeps :
      (s : S) (path : List ℕ) (n : ℕ) → sleeps (device_open_read_close os s path n).0 ≡ sleeps s
  unfolding device_open_read_close
  read-sleeps s path n =
      let o = os.open_read s path in
      let r = os.read o.0 o.1 n in
      let all : sleeps (os.close r.0 o.1).0 ≡ sleeps s = omega (
        arith,
        laws.close_sleeps r.0 o.1,
        laws.read_sleeps o.0 o.1 n,
        laws.open_read_sleeps s path,
      ) in
      elim (Bool-cases (ltb_ℤ o.1 (pos 0))) [
        | inl bad ↦ rw bad (laws.open_read_sleeps s path)
        | inr good ↦ rw good (elim (Bool-cases (ltb_ℤ r.1 (pos 0))) [
          | inl failed ↦ rw failed (laws.read_sleeps o.0 o.1 n ∙ laws.open_read_sleeps s path)
          | inr done ↦ rw done (elim (Bool-cases (ltb_ℤ (os.close r.0 o.1).1 (pos 0))) [
            | inl failed ↦ rw failed all
            | inr closed ↦ rw closed all
          ])
        ])
      ]

  -- A wait takes one sleep from what is left each time.
  path-sleeps :
      (path : List ℕ) (left : ℕ) (s : S)
      → let r = wait_path os path left s in sleeps r.0 + r.1 ≡ sleeps s + left
  unfolding wait_path
  path-sleeps path zero s = omega (arith, check-sleeps s path)
  path-sleeps path (suc left) s =
      let c = device_check_path os s path in
      elim (Bool-cases c.1) [
        | inl there ↦ rw there (omega (arith, check-sleeps s path))
        | inr absent ↦ rw absent (
            omega (
              arith,
              path-sleeps path left (os.sleep c.0),
              laws.sleep_sleeps c.0,
              check-sleeps s path,
            ))
      ]

  file-sleeps :
      (path : List ℕ) (left : ℕ) (s : S)
      → let r = wait_file os path left s in sleeps r.0 + r.1 ≡ sleeps s + left
  unfolding wait_file
  file-sleeps path zero s = omega (arith, read-sleeps s path pin_buffer_size)
  file-sleeps path (suc left) s =
      let c = device_open_read_close os s path pin_buffer_size in
      elim (Bool-cases c.1) [
        | inl there ↦ rw there (omega (arith, read-sleeps s path pin_buffer_size))
        | inr absent ↦ rw absent (
            omega (
              arith,
              file-sleeps path left (os.sleep c.0),
              laws.sleep_sleeps c.0,
              read-sleeps s path pin_buffer_size,
            ))
      ]

  files-sleeps :
      (path : List ℕ) (fs : List (List ℕ)) (left : ℕ) (s : S)
      → let r = wait_files os path fs left s in sleeps r.0 + r.1 ≡ sleeps s + left
  unfolding wait_files
  files-sleeps path [] left s = refl
  files-sleeps path (f ∷ fs) left s =
      let r = wait_file os (path ++ f) left s in
      omega (arith, file-sleeps (path ++ f) left s, files-sleeps path fs r.1 r.0)

  -- On an operating system that counts sleeps: `DeviceExport` of a path with `n` files ends without
  -- having slept, as a success because the path is there or as a failure because the pin cannot be
  -- written; or it sleeps at most `10 n + 1` times, and fails exactly when it has slept as often as
  -- that.
  pub export_sleeps :
      (s : S) (export_path : List ℕ) (value : ℤ) (path : List ℕ) (fs : List (List ℕ))
      → let r = device_export os s export_path value path fs in
        (((device_check_path os s path).1 ≡ true) × (r.1 ≡ true) × (sleeps r.0 ≡ sleeps s))
        ⊎ (((device_check_path os s path).1 ≡ false)
            × (((r.1 ≡ false) × (sleeps r.0 ≡ sleeps s)) ⊎ Waited sleeps s (length fs * 10) r))
  unfolding device_export
  export_sleeps s export_path value path fs =
      let c = device_check_path os s path in
      let w = device_open_write_close os c.0 export_path (print_pin value) in
      let p = wait_path os path (length fs * 10) w.0 in
      let f = wait_files os path fs p.1 p.0 in
      elim (Bool-cases c.1) [
        | inl there ↦ rw there (inl (refl, refl, check-sleeps s path))
        | inr absent ↦ rw absent (
            inr (
              refl,
              elim (Bool-cases w.1) [
                | inr refused ↦ rw refused (
                    inl
                      (refl, write-sleeps c.0 export_path (print_pin value) ∙ check-sleeps s path))
                | inl written ↦ rw written (
                    inr (
                      f.1,
                      omega (
                        arith,
                        laws.sleep_sleeps f.0,
                        files-sleeps path fs p.1 p.0,
                        path-sleeps path (length fs * 10) w.0,
                        write-sleeps c.0 export_path (print_pin value),
                        check-sleeps s path,
                      ),
                      refl,
                    ))
              ],
            ))
      ]
