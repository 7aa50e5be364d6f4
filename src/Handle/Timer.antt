-- ===== src/Handle/Timer.antt =====
-- src/module/iotjs_module_timer.c: timers, on top of the handle wrapper.
use ble_central.Base.{
  ℕ, ◌&&◌, List, [], ◌∷◌, ◌++◌, none, not, if◌then◌else◌, Outcome, ok, Fault, ◌>>=◌, ◌>>◌, or_fault,
}
use ble_central.Base.Int.{ℤ, pos}
use ble_central.Binding.Value.{
  Kind, Jval, is_kind, as_number, check_args, get_arg, Reply, returned, check_failed,
}
use ble_central.Handle.{
  Uv, Wrap, handle_timeout, initialize, validate, jobject, get_uv_handle, close,
}

module _ {H : Type 0} (u : Uv H) where
  -- `iotjs_timerwrap_create`
  unfoldable pub create : ℕ → ℕ → ℕ → ℕ → Outcome (Wrap H)
  create self jtimer refs handle = initialize u self jtimer refs handle

  -- The function `Timer`, with its assertions on the wrapper that it made.
  unfoldable pub construct : ℕ → ℕ → ℕ → ℕ → Outcome (Wrap H)
  construct self jtimer refs handle = do
    w ← create self jtimer refs handle
    o ← jobject w
    n ← or_fault Fault.aborted w.native
    ok w

  unfoldable pub start : Wrap H → ℤ → ℤ → Wrap H × ℤ
  start w timeout repeat = let r = u.start w.uv timeout repeat in (record w { uv = r.0 }, r.1)

  unfoldable pub stop : Wrap H → Outcome (Wrap H × ℤ)
  stop w = do h ← get_uv_handle w; ok (if not (u.is_closing w.uv) then close u w none else w, pos 0)

  -- `TimeoutHandler` and `iotjs_timerwrap_on_timeout`
  unfoldable pub on_timeout : Wrap H → Outcome (Wrap H)
  on_timeout w = do
    validate w
    o ← jobject w
    ok (record w { calls = w.calls ++ (handle_timeout ∷ []) })

  -- The functions `start` and `stop` of the prototype, for an object whose native handle is `w`.
  unfoldable pub js_start : Wrap H → Jval → List Jval → Outcome (Wrap H × Reply)
  js_start w this args =
      if is_kind Kind.object this && check_args (Kind.number ∷ Kind.number ∷ []) args
      then (do
        validate w
        timeout ← as_number (← get_arg args 0)
        repeat ← as_number (← get_arg args 1)
        let r = start w timeout repeat
        ok (r.0, returned (Jval.number r.1)))
      else ok (w, check_failed)

  unfoldable pub js_stop : Wrap H → Jval → Outcome (Wrap H × Reply)
  js_stop w this =
      if is_kind Kind.object this
      then (do validate w; r ← stop w; ok (r.0, returned (Jval.number r.1)))
      else ok (w, check_failed)
