-- ===== src/Device.antt =====
-- src/platform/iotjs_systemio-linux.c: device files that are written, read and waited for. The
-- operating system behind libuv's synchronous file calls is a parameter.
pub mod Counting
pub mod Waiting
use ble_central.Base.{
  ℕ, zero, suc, ◌+◌, ◌-◌, ◌*◌, ◌/◌, ◌%◌, Bool, true, false, List, [], ◌∷◌, ◌++◌, ltb, ◌==◌,
  if◌then◌else◌, not, length, take,
}
use ble_central.Base.Int.{ℤ, pos, negsuc, ltb_ℤ, ◌==ℤ◌}

-- The calls on the state `S` of the operating system: `uv_fs_stat`, `uv_fs_open` for writing or for
-- reading, `uv_fs_write` and `uv_fs_read` at position 0, `uv_fs_close`, `usleep` of 100 milliseconds,
-- and the names that `uv_fs_scandir` gives.
pub record Os (S : Type 0) : Type 0 where
  pub stat : S → List ℕ → S × ℤ
  pub open_write : S → List ℕ → S × ℤ
  pub open_read : S → List ℕ → S × ℤ
  pub write : S → ℤ → List ℕ → S × ℤ
  pub read : S → ℤ → ℕ → S × ℤ × List ℕ
  pub close : S → ℤ → S × ℤ
  pub sleep : S → S
  pub scandir : S → List ℕ → S × List (List ℕ)

-- The decimal digits that `%d` prints, for fuel above their number.
unfoldable pub digits : ℕ → ℕ → List ℕ → List ℕ
digits zero n rest = rest
digits (suc fuel) n rest =
    let more = digits fuel (n / 10) ((b'0' + n % 10) ∷ rest) in
    if n / 10 == 0 then (b'0' + n % 10) ∷ rest else more

unfoldable pub decimal : ℤ → List ℕ
decimal (pos n) = digits 11 n []
decimal (negsuc n) = b'-' ∷ digits 11 (suc n) []

-- `snprintf(buff, DEVICE_IO_PIN_BUFFER_SIZE - 1, "%d", value)`: at most eight characters.
abbrev pub pin_buffer_size : ℕ
pin_buffer_size = 10

unfoldable pub print_pin : ℤ → List ℕ
print_pin value = take (pin_buffer_size - 2) (decimal value)

module _ {S : Type 0} (os : Os S) where
  -- `DeviceCheckPath`
  unfoldable pub device_check_path : S → List ℕ → S × Bool
  device_check_path s path = let r = os.stat s path in (r.0, r.1 ==ℤ pos 0)

  -- `DeviceOpenWriteClose`
  unfoldable pub device_open_write_close : S → List ℕ → List ℕ → S × Bool
  device_open_write_close s path value =
      let o = os.open_write s path in
      if ltb_ℤ o.1 (pos 0)
      then (o.0, false)
      else (let w = os.write o.0 o.1 value in
          let c = os.close w.0 o.1 in
          if ltb_ℤ w.1 (pos 0)
          then (c.0, false)
          else if ltb_ℤ c.1 (pos 0)
          then (c.0, false)
          else (c.0, true))

  -- `DeviceOpenReadClose`, with the bytes that were read; when the read fails the file stays open.
  unfoldable pub device_open_read_close : S → List ℕ → ℕ → S × Bool × List ℕ
  device_open_read_close s path buffer_len =
      let o = os.open_read s path in
      if ltb_ℤ o.1 (pos 0)
      then (o.0, false, [])
      else (let r = os.read o.0 o.1 buffer_len in
          if ltb_ℤ r.1 (pos 0)
          then (r.0, false, r.2)
          else (let c = os.close r.0 o.1 in
              if ltb_ℤ c.1 (pos 0) then (c.0, false, r.2) else (c.0, true, r.2)))

  -- The waiting loops of `DeviceExport`, on the state and how far `count` is below its limit.
  unfoldable pub wait_path : List ℕ → ℕ → S → S × ℕ
  wait_path path zero s = ((device_check_path s path).0, 0)
  wait_path path (suc left) s =
      let r = device_check_path s path in
      let rest = wait_path path left (os.sleep r.0) in if r.1 then (r.0, suc left) else rest

  unfoldable pub wait_file : List ℕ → ℕ → S → S × ℕ
  wait_file path zero s = ((device_open_read_close s path pin_buffer_size).0, 0)
  wait_file path (suc left) s =
      let r = device_open_read_close s path pin_buffer_size in
      let rest = wait_file path left (os.sleep r.0) in if r.1 then (r.0, suc left) else rest

  unfoldable pub wait_files : List ℕ → List (List ℕ) → ℕ → S → S × ℕ
  wait_files exported_path [] left s = (s, left)
  wait_files exported_path (f ∷ fs) left s =
      let r = wait_file (exported_path ++ f) left s in wait_files exported_path fs r.1 r.0

  -- `DeviceExport`
  unfoldable pub device_export : S → List ℕ → ℤ → List ℕ → List (List ℕ) → S × Bool
  device_export s export_path value exported_path created_files =
      let c = device_check_path s exported_path in
      if c.1
      then (c.0, true)
      else (let w = device_open_write_close c.0 export_path (print_pin value) in
          if not w.1
          then (w.0, false)
          else (let p = wait_path exported_path (length created_files * 10) w.0 in
              let f = wait_files exported_path created_files p.1 p.0 in (os.sleep f.0, ltb 0 f.1)))

  -- `DeviceUnexport`
  unfoldable pub device_unexport : S → List ℕ → ℤ → S × Bool
  device_unexport s export_path value = device_open_write_close s export_path (print_pin value)
