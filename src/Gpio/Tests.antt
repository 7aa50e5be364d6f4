-- ===== src/Gpio/Tests.antt =====
-- A concrete operating system for src/module/iotjs_module_gpio.c and
-- src/platform/iotjs_systemio-linux.c.
use ble_central.Base.{
  ℕ, suc, ◌-◌, ◌≡◌, ◌⊎◌, refl, true, false, [], ◌∷◌, if◌then◌else◌, fault, Fault, arith,
}
use ble_central.Base.Int.{pos}
use ble_central.Binding.Value.{Jval}
use ble_central.Binding.Args.{handler}
use ble_central.Strings.Tests.{heap, heap-IsAmple}
use ble_central.Fs.Tests.{world}
use ble_central.Device.{
  Os, device_check_path, device_open_write_close, device_open_read_close, device_export,
}
use ble_central.Device.Counting.{IsCounted, read_fails, open_files}
use ble_central.Device.Waiting.{Waited, export_sleeps}
use ble_central.Gpio.{js_open}
use ble_central.Gpio.Linux.{open_gpio_worker}
use ble_central.Gpio.Operation.{operate}
use ble_central.Gpio.Opening.{exported, directed, open_aborts}

-- How many files are open, and how often it was slept.
pub record System : Type 0 where
  pub files : ℕ
  pub slept : ℕ

-- All paths are there, all files can be opened and written, and hold "1" and a line feed.
abbrev pub os : Os System
os = record {
  stat = λ s p. (s, pos 0);
  open_write = λ s p. (record s { files = suc s.files }, pos 3);
  open_read = λ s p. (record s { files = suc s.files }, pos 3);
  write = λ s d v. (s, pos 1);
  read = λ s d n. (s, pos 2, 49 ∷ 10 ∷ []);
  close = λ s d. (record s { files = s.files - 1 }, pos 0);
  sleep = λ s. record s { slept = suc s.slept };
  scandir = λ s p. (s, (103 ∷ 112 ∷ 105 ∷ 111 ∷ 55 ∷ []) ∷ []);
}

abbrev pub system : System
system = record { files = 0; slept = 0 }

os-IsCounted : IsCounted os (λ s. s.files) (λ s. s.slept)
os-IsCounted = record {
  is_held = λ s d. true;
  open_write_held = λ s p h. refl;
  open_read_held = λ s p h. refl;
  write_held = λ s d v. refl;
  read_held = λ s d n. refl;
  stat_files = λ s p. refl;
  stat_sleeps = λ s p. refl;
  open_write_files = λ s p. refl;
  open_write_sleeps = λ s p. refl;
  open_read_files = λ s p. refl;
  open_read_sleeps = λ s p. refl;
  write_files = λ s d v. refl;
  write_sleeps = λ s d v. refl;
  read_files = λ s d n. refl;
  read_sleeps = λ s d n. refl;
  close_files = λ s d h. refl;
  close_sleeps = λ s d. refl;
  sleep_sleeps = λ s. refl;
}

open_files_example :
    ((device_open_write_close os system (47 ∷ []) (49 ∷ [])).0.files ≡ 0)
    × ((device_open_read_close os system (47 ∷ []) 9).0.files
        ≡ (if read_fails os system (47 ∷ []) 9 then 1 else 0))
open_files_example =
    open_files os (λ s. s.files) (λ s. s.slept) os-IsCounted system (47 ∷ []) (49 ∷ []) 9

export_sleeps_example :
    let r = device_export os system (47 ∷ []) (pos 7) (48 ∷ []) ((49 ∷ []) ∷ []) in
    (((device_check_path os system (48 ∷ [])).1 ≡ true) × (r.1 ≡ true) × (r.0.slept ≡ 0))
    ⊎ (((device_check_path os system (48 ∷ [])).1 ≡ false)
        × (((r.1 ≡ false) × (r.0.slept ≡ 0)) ⊎ Waited (λ s. s.slept) system 10 r))
export_sleeps_example =
    export_sleeps os (λ s. s.files) (λ s. s.slept) os-IsCounted system (47 ∷ []) (pos 7) (48 ∷ [])
      ((49 ∷ []) ∷ [])

is_exported : (exported heap heap-IsAmple 2 os system world 20 21 3 (pos 0) (pos 7)).1 ≡ true
unfolding device_export device_check_path
is_exported = refl

is_directed :
    (directed heap heap-IsAmple 2 os system world 20 21 3 (pos 0) (pos 7) (pos 2)).1 ≡ true
unfolding device_export device_check_path device_open_write_close
is_directed = refl

open_aborts_example :
    operate heap 2 true
      (js_open true world
        (handler
          (Jval.number (pos 7) ∷ Jval.number (pos 2) ∷ Jval.number (pos 0) ∷ Jval.function 3 ∷ []))
        20
        21)
      (open_gpio_worker os true system)
      (pos 0)
    ≡ fault Fault.aborted
open_aborts_example =
    open_aborts heap heap-IsAmple 2 os system world 20 21 3 (pos 0) (pos 7) 2 0
      (omega arith, omega arith) (omega arith) (omega arith) (omega arith) refl is_exported
      is_directed
