-- ===== src/Start.antt =====
-- src/iotjs.c: the start of the program, its event loop and its end. The JavaScript engine and libuv
-- are parameters.
pub mod Loop
pub mod Entry
pub mod Tests
use ble_central.Base.{
  ℕ, zero, suc, ◌+◌, Bool, true, false, ◌||◌, List, [], ◌∷◌, ◌++◌, Option, none, some,
  if◌then◌else◌, not, Outcome, ok, fault, Fault, ◌>>=◌, ◌>>◌, assert, or_fault,
}
use ble_central.Memory.{Allocator}
use ble_central.Env.{
  Config, Environment, parse_command_line_arguments, set_loop, go_state_running_main,
  go_state_running_loop, go_state_exiting, release,
}
use ble_central.Env

-- How a call into JavaScript ends: it returns, it throws, or `process.exit` ends the program.
pub data Called : Type 0 where
  returned threw : Called
  exited : ℕ → Called

-- One turn of the event loop: what `uv_run`, `iotjs_process_next_tick` and `uv_loop_alive` answer, or
-- the code with which a callback of the turn ends the program.
pub record Turn : Type 0 where
  pub ran : Bool
  pub ticked : Bool
  pub alive : Bool
  pub exits : Option ℕ

-- What the engine and libuv answer: whether the engine parses and runs the empty program, whether
-- evaluating iotjs.js throws, how its entry function, the function for uncaught exceptions and the
-- exit event end, the turns in order, and whether the loop closes.
pub record Host : Type 0 where
  pub default_loop : ℕ
  pub engine_starts : Bool
  pub eval_throws : Bool
  pub main : Called
  pub uncaught : Called
  pub turn : ℕ → Turn
  pub exit_event : Called
  pub loop_closes : Bool

-- What the program has done, in order.
pub data Phase : Type 0 where
  engine_initialized : Bool → Bool → Phase
  turned : ℕ → Phase
  binding_initialized modules_listed process_registered main_ran uncaught_exception : Phase
  exit_emitted modules_released binding_finalized handles_closed engine_released : Phase

-- Whether the loop goes on after a turn.
abbrev pub more : Turn → Bool
more t = (t.ran || t.ticked) || t.alive

-- The number of turns once the loop has ended, and the exit code if it was ended by a turn; `none` if
-- the fuel runs out.
pub run_loop : (ℕ → Turn) → ℕ → ℕ → Option (ℕ × Option ℕ)
run_loop turn zero n = none
run_loop turn (suc f) n =
    let rest = run_loop turn f (suc n) in
    elim (turn n).exits [
      | some c ↦ some (suc n, some c)
      | none ↦ if more (turn n) then rest else some (suc n, none)
    ]

-- The result of the process: an exit code, the phases and the environment that is left.
pub record Ended : Type 0 where
  pub code : ℕ
  pub phases : List Phase
  pub environment : Option Environment

-- `iotjs_jerry_initialize`, with the flags of the configuration, and its result.
unfoldable pub jerry_initialize : Host → Config → List Phase × Bool
jerry_initialize host c = (engine_initialized c.memstat c.show_opcode ∷ [], host.engine_starts)

-- `iotjs_uncaught_exception`: an assertion fails if the function for it throws. The code is there if
-- the program has ended.
unfoldable pub uncaught : Called → List Phase → Outcome (List Phase × Option ℕ)
uncaught returned log = ok (log ++ (uncaught_exception ∷ []), none)
uncaught threw log = fault Fault.aborted
uncaught (exited c) log = ok (log ++ (uncaught_exception ∷ []), some c)

-- What follows the call of the entry function.
unfoldable pub after_main : Called → Called → List Phase → Outcome (List Phase × Option ℕ)
after_main returned hook log = ok (log, none)
after_main threw hook log = uncaught hook log
after_main (exited c) hook log = ok (log, some c)

-- `iotjs_run`: evaluating iotjs.js must not throw. Its result is not used.
unfoldable pub run : Host → List Phase → Outcome (List Phase × Option ℕ)
run host log = do
  assert (not host.eval_throws)
  after_main host.main host.uncaught (log ++ (main_ran ∷ []))

-- `iotjs_process_emit_exit`, which ends the program if the event throws, and the rest of
-- `iotjs_start`, with whether it returns.
unfoldable pub emit_exit : Called → Environment → List Phase → Ended × Bool
emit_exit returned e log = (
  record {
    code = 0;
    phases = log ++ (exit_emitted ∷ modules_released ∷ binding_finalized ∷ []);
    environment = some e;
  },
  true,
)
emit_exit threw e log =
    (record { code = 2; phases = log ++ (exit_emitted ∷ []); environment = some e }, false)
emit_exit (exited c) e log =
    (record { code = c; phases = log ++ (exit_emitted ∷ []); environment = some e }, false)

-- The event loop of `iotjs_start` and what follows it.
unfoldable pub start_loop : Host → ℕ → Environment → List Phase → Outcome (Ended × Bool)
start_loop host fuel main log = do
  loop ← go_state_running_loop main
  turns ← or_fault Fault.diverged (run_loop host.turn fuel 0)
  let log' = log ++ (turned turns.0 ∷ [])
  elim turns.1 [
    | some c ↦ ok (record { code = c; phases = log'; environment = some loop }, false)
    | none ↦ (do exiting ← go_state_exiting loop; ok (emit_exit host.exit_event exiting log'))
  ]

-- `iotjs_start`; the result says whether it returns or the program has ended in the middle.
unfoldable pub start : Host → ℕ → Environment → List Phase → Outcome (Ended × Bool)
start host fuel e log = do
  main ← go_state_running_main e
  ran ← run host (log ++ (binding_initialized ∷ modules_listed ∷ process_registered ∷ []))
  elim ran.1 [
    | some c ↦ ok (record { code = c; phases = ran.0; environment = some main }, false)
    | none ↦ start_loop host fuel main ran.0
  ]

-- `iotjs_entry`, with the environment as it is before.
unfoldable pub entry : Allocator → Host → ℕ → Option Environment → List (List ℕ) → Outcome Ended
entry a host fuel env argv = do
  r ← parse_command_line_arguments a (Env.get env) argv
  if not r.1 then ok (record { code = 1; phases = []; environment = some r.0 }) else (do
    let e = set_loop r.0 host.default_loop
    let j = jerry_initialize host e.config
    if not j.1 then ok (record { code = 1; phases = j.0; environment = some e }) else (do
      s ← start host fuel e j.0
      if not s.1 then ok s.0 else (do
        assert host.loop_closes
        released ← release s.0.environment
        ok (record {
          code = 0;
          phases = s.0.phases ++ (handles_closed ∷ engine_released ∷ []);
          environment = released;
        }))))
