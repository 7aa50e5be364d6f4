-- ===== src/Device/Counting.antt =====
-- What src/platform/iotjs_systemio-linux.c leaves open and how long it waits.
use ble_central.Base.{
  ℕ, suc, ◌-◌, ◌≡◌, inl, inr, refl, ◌∙◌, arith, Bool, true, false, Bool-cases, List, if◌then◌else◌,
}
use ble_central.Base.Int.{ℤ, pos, ltb_ℤ}
use ble_central.Device.{Os, device_open_write_close, device_open_read_close}

-- How many files are open in a state, which descriptors are, and how often it has been slept: what
-- the code relies on the operating system for.
pub record IsCounted {S : Type 0} (os : Os S) (files sleeps : S → ℕ) : Type 0 where
  pub is_held : S → ℤ → Bool
  pub open_write_held :
      (s : S) (p : List ℕ)
      → ltb_ℤ (os.open_write s p).1 (pos 0) ≡ false
      → is_held (os.open_write s p).0 (os.open_write s p).1 ≡ true
  pub open_read_held :
      (s : S) (p : List ℕ)
      → ltb_ℤ (os.open_read s p).1 (pos 0) ≡ false
      → is_held (os.open_read s p).0 (os.open_read s p).1 ≡ true
  pub write_held : (s : S) (d : ℤ) (v : List ℕ) → is_held (os.write s d v).0 d ≡ is_held s d
  pub read_held : (s : S) (d : ℤ) (n : ℕ) → is_held (os.read s d n).0 d ≡ is_held s d
  pub stat_files : (s : S) (p : List ℕ) → files (os.stat s p).0 ≡ files s
  pub stat_sleeps : (s : S) (p : List ℕ) → sleeps (os.stat s p).0 ≡ sleeps s
  pub open_write_files :
      (s : S) (p : List ℕ)
      → files (os.open_write s p).0
        ≡ (if ltb_ℤ (os.open_write s p).1 (pos 0) then files s else suc (files s))
  pub open_write_sleeps : (s : S) (p : List ℕ) → sleeps (os.open_write s p).0 ≡ sleeps s
  pub open_read_files :
      (s : S) (p : List ℕ)
      → files (os.open_read s p).0
        ≡ (if ltb_ℤ (os.open_read s p).1 (pos 0) then files s else suc (files s))
  pub open_read_sleeps : (s : S) (p : List ℕ) → sleeps (os.open_read s p).0 ≡ sleeps s
  pub write_files : (s : S) (d : ℤ) (v : List ℕ) → files (os.write s d v).0 ≡ files s
  pub write_sleeps : (s : S) (d : ℤ) (v : List ℕ) → sleeps (os.write s d v).0 ≡ sleeps s
  pub read_files : (s : S) (d : ℤ) (n : ℕ) → files (os.read s d n).0 ≡ files s
  pub read_sleeps : (s : S) (d : ℤ) (n : ℕ) → sleeps (os.read s d n).0 ≡ sleeps s
  pub close_files : (s : S) (d : ℤ) → is_held s d ≡ true → files (os.close s d).0 ≡ files s - 1
  pub close_sleeps : (s : S) (d : ℤ) → sleeps (os.close s d).0 ≡ sleeps s
  pub sleep_sleeps : (s : S) → sleeps (os.sleep s) ≡ suc (sleeps s)

-- Whether a file is opened for reading and the read fails.
abbrev pub read_fails : {S : Type 0} → Os S → S → List ℕ → ℕ → Bool
read_fails os s path n =
    let o = os.open_read s path in
    if ltb_ℤ o.1 (pos 0) then false else ltb_ℤ (os.read o.0 o.1 n).1 (pos 0)

module _ {S : Type 0} (os : Os S) (files sleeps : S → ℕ) (laws : IsCounted os files sleeps) where
  write-files :
      (s : S) (path value : List ℕ) → files (device_open_write_close os s path value).0 ≡ files s
  unfolding device_open_write_close
  write-files s path value =
      let o = os.open_write s path in
      let w = os.write o.0 o.1 value in
      let c = os.close w.0 o.1 in
      elim (Bool-cases (ltb_ℤ o.1 (pos 0))) [
        | inl bad ↦ rw bad (laws.open_write_files s path ∙ rw bad refl)
        | inr good ↦
            let opened : files o.0 ≡ suc (files s) = laws.open_write_files s path ∙ rw good refl in
            let all : files c.0 ≡ files s = omega (
              arith,
              laws.close_files w.0 o.1
                  (laws.write_held o.0 o.1 value ∙ laws.open_write_held s path good),
              laws.write_files o.0 o.1 value,
            ) in
            rw good (elim (Bool-cases (ltb_ℤ w.1 (pos 0))) [
              | inl failed ↦ rw failed all
              | inr written ↦ rw written (elim (Bool-cases (ltb_ℤ c.1 (pos 0))) [
                | inl failed ↦ rw failed all
                | inr closed ↦ rw closed all
              ])
            ])
      ]

  read-files :
      (s : S) (path : List ℕ) (n : ℕ)
      → files (device_open_read_close os s path n).0
        ≡ (if read_fails os s path n then suc (files s) else files s)
  unfolding device_open_read_close
  read-files s path n =
      let o = os.open_read s path in
      let r = os.read o.0 o.1 n in
      let c = os.close r.0 o.1 in
      elim (Bool-cases (ltb_ℤ o.1 (pos 0))) [
        | inl bad ↦ rw bad (laws.open_read_files s path ∙ rw bad refl)
        | inr good ↦
            let opened : files o.0 ≡ suc (files s) = laws.open_read_files s path ∙ rw good refl in
            rw good (elim (Bool-cases (ltb_ℤ r.1 (pos 0))) [
              | inl failed ↦ rw failed (laws.read_files o.0 o.1 n ∙ opened)
              | inr done ↦
                  let all : files c.0 ≡ files s = omega (
                    arith,
                    laws.close_files r.0 o.1
                        (laws.read_held o.0 o.1 n ∙ laws.open_read_held s path good),
                    laws.read_files o.0 o.1 n,
                  ) in
                  rw done (elim (Bool-cases (ltb_ℤ c.1 (pos 0))) [
                    | inl failed ↦ rw failed all
                    | inr closed ↦ rw closed all
                  ])
            ])
      ]

  -- On an operating system that counts open files as documented: `DeviceOpenWriteClose` leaves as many
  -- files open as before, whatever fails; so does `DeviceOpenReadClose`, unless the read of an opened
  -- file fails, when one more stays open.
  pub open_files :
      (s : S) (path value : List ℕ) (n : ℕ)
      → (files (device_open_write_close os s path value).0 ≡ files s)
        × (files (device_open_read_close os s path n).0
            ≡ (if read_fails os s path n then suc (files s) else files s))
  open_files s path value n = (write-files s path value, read-files s path n)
