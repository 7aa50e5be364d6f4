-- ===== src/Binding/Frame.antt =====
-- `iotjs_jhandler_t` of src/iotjs_binding.c: the one result of a native function.
use ble_central.Base.{◌≡◌, refl, true, List, ok, fault, Fault, ◌>>=◌}
use ble_central.Base.Int.{ℤ}
use ble_central.Binding.Value.{Jval}
use ble_central.Binding.Args.{Counts, acquire, handler, return_jval, return_number, throw}

-- A native function gives at most one result. The first `return` or `throw` keeps the value with one
-- reference of its own, marked as an error or not; any further `return` or `throw` aborts.
pub one_result :
    (c : Counts) (args : List Jval) (v w : Jval) (n : ℤ)
    → (return_jval c (handler args) v
        ≡ ok (acquire c v, record (handler args) { jret = v; finished = true }))
      × (throw c (handler args) v
          ≡ ok (acquire c v, record (handler args) { jret = v; is_error = true; finished = true }))
      × ((do r ← return_jval c (handler args) v; return_jval r.0 r.1 w) ≡ fault Fault.aborted)
      × ((do r ← return_jval c (handler args) v; throw r.0 r.1 w) ≡ fault Fault.aborted)
      × ((do r ← throw c (handler args) v; return_number r.0 r.1 n) ≡ fault Fault.aborted)
unfolding return_jval throw handler return_number
one_result c args v w n = (refl, refl, refl, refl, refl)
