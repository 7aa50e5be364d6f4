-- ===== src/Gpio/Starts.antt =====
-- What the natives of src/module/iotjs_module_gpio.c queue.
use ble_central.Base.{
  ℕ, ◌≤◌, ◌≡◌, refl, arith, Bool, true, false, [], ◌∷◌, some, not, ◌||◌, ◌&&◌, ◌==◌, ok,
}
use ble_central.Base.Int.{ℤ, IsInt, pos, ltb_ℤ, ◌==ℤ◌}
use ble_central.Binding.Value.{Jval, as_int-number}
use ble_central.Binding.Args.{Handler, handler, acquire, get_arg_of, return_jval}
use ble_central.Binding.World.{World, give_back}
use ble_central.Handle.Pending.{request_of, create_request}
use ble_central.Handle.Request as Requests
use ble_central.Gpio.{
  Op, ReqData, Done, direction_none, mode_none, err_ok, mode_opendrain, gpio_reqwrap_create,
  gpio_async, js_initialize, js_release, js_open, js_write, js_read,
}

-- The fields of a request that nothing has set yet.
abbrev pub blank : Op → ReqData
blank op = record {
  pin = pos 0;
  value = false;
  dir = direction_none;
  mode = mode_none;
  result = err_ok;
  op = op;
}

abbrev pub queued_done : World → Handler → ℕ → ℕ → ℕ → ReqData → Done
queued_done w h self request o d = record {
  world = record w { counts = acquire w.counts (Jval.function o) };
  frame = record h { jret = Jval.null; finished = true };
  queued = some (record { request = request_of self request o; req_data = d });
}

not_below : (n : ℕ) → ltb_ℤ (pos n) (pos 0) ≡ false
not_below n = ground arith

not_above : (n m : ℕ) → n ≤ m → ltb_ℤ (pos m) (pos n) ≡ false
not_above n m h = ground arith

-- The direction `none` takes a pin back; for another one the mode must not be `none` or `opendrain`.
abbrev pub is_openable : ℕ → ℕ → Bool
is_openable dir mode = dir == 0 || (not (mode == 0) && not (mode == 5))

pub modes :
    (dir mode : ℕ)
    → (dir == 0) ≡ false
    → is_openable dir mode ≡ true
    → (not (pos mode ==ℤ mode_none) && not (pos mode ==ℤ mode_opendrain)) ≡ true
modes dir mode other h = ground arith

module _ (w : World) (self request o : ℕ) where
  pub initialize_starts :
      let h = handler (Jval.function o ∷ []) in
      js_initialize false w h self request
      ≡ ok (queued_done w h self request o (blank Op.initialize))
  unfolding js_initialize gpio_async gpio_reqwrap_create create_request Requests.initialize
      get_arg_of handler give_back return_jval
  initialize_starts = refl

  pub release_starts :
      let h = handler (Jval.function o ∷ []) in
      js_release true w h self request ≡ ok (queued_done w h self request o (blank Op.release))
  unfolding js_release gpio_async gpio_reqwrap_create create_request Requests.initialize get_arg_of
      handler give_back return_jval
  release_starts = refl

  pub write_starts :
      (pin : ℤ) (value : Bool)
      → IsInt pin
      → let h = handler (Jval.number pin ∷ Jval.boolean value ∷ Jval.function o ∷ []) in
        js_write true w h self request
        ≡ ok (queued_done w h self request o (record (blank Op.write) { pin = pin; value = value }))
  unfolding js_write gpio_async gpio_reqwrap_create create_request Requests.initialize get_arg_of
      handler give_back return_jval
  write_starts pin value i = rw (as_int-number pin i) refl

  pub read_starts :
      (pin : ℤ)
      → IsInt pin
      → let h = handler (Jval.number pin ∷ Jval.function o ∷ []) in
        js_read true w h self request
        ≡ ok (queued_done w h self request o (record (blank Op.read) { pin = pin }))
  unfolding js_read gpio_async gpio_reqwrap_create create_request Requests.initialize get_arg_of
      handler give_back return_jval
  read_starts pin i = rw (as_int-number pin i) refl

  pub open_starts :
      (pin : ℤ) (dir mode : ℕ)
      → IsInt pin
      → dir ≤ 2
      → mode ≤ 5
      → let h = handler (
          Jval.number pin
          ∷ Jval.number (pos dir)
          ∷ Jval.number (pos mode)
          ∷ Jval.function o
          ∷ []) in
        js_open true w h self request
        ≡ ok (
            queued_done w h self request o
              (record (blank Op.open_pin) { pin = pin; dir = pos dir; mode = pos mode }))
  unfolding js_open gpio_async gpio_reqwrap_create create_request Requests.initialize get_arg_of
      handler give_back return_jval
  open_starts pin dir mode i hd hm =
      rw
        (
          as_int-number pin i,
          as_int-number (pos dir) (omega arith, omega arith),
          as_int-number (pos mode) (omega arith, omega arith),
        )
        (rw (not_below dir)
          (rw (not_above dir 2 hd) (rw (not_below mode) (rw (not_above mode 5 hm) refl))))
