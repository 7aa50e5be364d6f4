-- ===== src/Binding/Tests.antt =====
-- A concrete argument list of src/iotjs_binding.c.
use ble_central.Base.{true, false, refl, ◌++◌, ℕ, ◌≡◌, [], ◌∷◌, ok, ◌>>=◌, arith}
use ble_central.Binding.Value.{Jval}
use ble_central.Binding.Args.{Counts, create, destroy}
use ble_central.Binding.Callback.{Process, called, uncaught, tick, run_callbacks, callbacks_lem}
use ble_central.Binding.Balance.{append_all, acquire_all, filled, args_balance}
use ble_central.Strings.Tests.{heap, heap-IsAmple}

args_balance_example :
    (c' : Counts) × ((do
      args ← create heap 3
      append_all (λ o. 1) args (Jval.object 5 ∷ Jval.null ∷ []))
      ≡ ok (
        acquire_all (λ o. 1) (Jval.object 5 ∷ Jval.null ∷ []),
        filled 3 (Jval.object 5 ∷ Jval.null ∷ []),
      ))
    × (destroy
          (acquire_all (λ o. 1) (Jval.object 5 ∷ Jval.null ∷ []))
          (filled 3 (Jval.object 5 ∷ Jval.null ∷ []))
        ≡ ok c')
    × ((o : ℕ) → c' o ≡ 1)
args_balance_example =
    args_balance heap (λ o. 1) 3 (Jval.object 5) (Jval.null ∷ []) heap-IsAmple (omega arith)
      (omega arith)

abbrev process : Process
process = record {
  has_uncaught = true;
  has_tick = true;
  has_exit = true;
  uncaught_throws = false;
  tick_throws = false;
  exit_throws = false;
  tick_answer = Jval.boolean false;
}

-- Function 4 throws, function 5 does not.
callbacks_lem_example :
    run_callbacks process ((4, true) ∷ (5, false) ∷ []) []
    ≡ ok ([] ++ (called 4 ∷ uncaught ∷ tick ∷ called 5 ∷ tick ∷ []))
callbacks_lem_example =
    callbacks_lem process refl refl refl refl false refl ((4, true) ∷ (5, false) ∷ []) []
