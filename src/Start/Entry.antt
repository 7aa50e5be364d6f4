-- ===== src/Start/Entry.antt =====
-- `iotjs_entry` of src/iotjs.c, from the command line to the exit code.
use ble_central.Base.{
  ℕ, suc, ◌+◌, ◌^◌, ◌<◌, ◌≡◌, refl, true, false, List, [], ◌∷◌, ◌++◌, map, none, some, length, ok,
  Outcome, Option, ap, append_assoc,
}
use ble_central.Memory.{Allocator}
use ble_central.Memory.Laws.{IsAmple}
use ble_central.Env
use ble_central.Env.{
  Environment, State, running_main, running_loop, initial, dashes, exiting, set_loop,
  go_state_running_main, go_state_running_loop, go_state_exiting, parse_command_line_arguments,
  release,
}
use ble_central.Env.CommandLine.{
  AllCString, Flag, flag_text, with_flags, parsed, parse_lem, release_lem,
}
use ble_central.Start.{
  Called, returned, threw, exited, Host, Phase, engine_initialized, main_ran, uncaught_exception,
  turned, exit_emitted, modules_released, binding_initialized, modules_listed, process_registered,
  binding_finalized, uncaught, after_main, run, jerry_initialize, handles_closed, engine_released,
  emit_exit, start_loop, start, entry,
}
use ble_central.Start.Loop.{GoesOn, Last, run_loop_lem}

-- The phases from the call of the entry function on, and the exit code if that ends the program: an
-- exception that is not handled goes to the function for uncaught exceptions, which may end it.
pub data MainEnds : Called → Called → List Phase → Option ℕ → Type 0 where
  plain : (hook : Called) → MainEnds returned hook (main_ran ∷ []) none
  left : (hook : Called) (c : ℕ) → MainEnds (exited c) hook (main_ran ∷ []) (some c)
  handled : MainEnds threw returned (main_ran ∷ uncaught_exception ∷ []) none
  unhandled : (c : ℕ) → MainEnds threw (exited c) (main_ran ∷ uncaught_exception ∷ []) (some c)

after_main-MainEnds :
    (main hook : Called) (ps : List Phase) (code : Option ℕ) (log : List Phase)
    → MainEnds main hook ps code
    → after_main main hook (log ++ (main_ran ∷ [])) ≡ ok (log ++ ps, code)
unfolding after_main uncaught
after_main-MainEnds _ _ _ _ log (plain hook) = refl
after_main-MainEnds _ _ _ _ log (left hook c) = refl
after_main-MainEnds _ _ _ _ log handled =
    ap (λ (l : List Phase). let r : Outcome (List Phase × Option ℕ) = ok (l, none) in r)
      (append_assoc log (main_ran ∷ []) (uncaught_exception ∷ []))
after_main-MainEnds _ _ _ _ log (unhandled c) =
    ap (λ (l : List Phase). let r : Outcome (List Phase × Option ℕ) = ok (l, some c) in r)
      (append_assoc log (main_ran ∷ []) (uncaught_exception ∷ []))

module _ (a : Allocator) (host : Host) (fuel : ℕ) (arg0 arg1 : List ℕ) (fs : List Flag)
    (rest : List (List ℕ)) (ps : List Phase) (ample : IsAmple a) (strings : AllCString rest)
    (few : 2 + length rest < 2 ^ 29) (engine : host.engine_starts ≡ true)
    (evals : host.eval_throws ≡ false) where
  -- The phases before the entry function is called.
  abbrev pub opening : List Phase
  opening =
      engine_initialized (with_flags initial.config fs).memstat
        (with_flags initial.config fs).show_opcode
      ∷ binding_initialized
      ∷ modules_listed
      ∷ process_registered
      ∷ []

  -- The environment of the command line, in a state.
  abbrev pub running : State → Environment
  running state = record (parsed initial fs arg0 arg1 rest) {
    loop = some (host.default_loop);
    state = state;
  }

  abbrev command_line : List (List ℕ)
  command_line = arg0 ∷ arg1 ∷ (map flag_text fs ++ ((dashes ++ (0 ∷ [])) ∷ rest))

  -- `iotjs file options -- arguments` with known options, C strings as arguments, fewer than 2^29
  -- of them and an allocator with room, on an engine that starts and evaluates iotjs.js: when the
  -- entry function ends the program by `process.exit`, or throws and the function for uncaught
  -- exceptions ends it, the program ends with that exit code, for any fuel; the function for uncaught
  -- exceptions has been called just in the second case, and the loop has not turned, `exit` is not
  -- emitted by `iotjs_start`, and nothing is released.
  pub entry_exits :
      (c : ℕ)
      → MainEnds host.main host.uncaught ps (some c)
      → entry a host fuel none command_line
        ≡ ok
            (record { code = c; phases = opening ++ ps; environment = some (running running_main) })
  unfolding entry start run jerry_initialize Env.get set_loop go_state_running_main
  entry_exits c ends =
      let p = parse_lem a initial arg0 arg1 fs rest ample strings few in
      rw p.0 (
        rw engine (
          rw (evals, run)
            (rw (after_main-MainEnds host.main host.uncaught ps (some c) opening ends) refl)))

  module _ (k : ℕ) (enough : k < fuel) (busy : (i : ℕ) → i < k → GoesOn (host.turn i))
      (survives : MainEnds host.main host.uncaught ps none) where
    -- `iotjs file options -- arguments` with known options, C strings as arguments, fewer than 2^29 of
    -- them and an allocator with room, on an engine that starts and evaluates iotjs.js, when the entry
    -- function returns or throws what the function for uncaught exceptions handles, when turn `k` is the
    -- first after which the loop does not go on, it leaves nothing to do, the exit event returns and
    -- the loop closes, with fuel above `k`: the program sets the engine's flags from the options, runs
    -- the entry function (and the function for uncaught exceptions just if it threw), then the loop for
    -- `k + 1` turns, emits `exit`, releases the modules, closes the handles and the engine in this
    -- order, passes every state assertion, leaves no environment behind and exits with 0.
    pub entry_lem :
        Last (host.turn k) none
        → host.exit_event ≡ returned
        → host.loop_closes ≡ true
        → entry a host fuel none command_line
          ≡ ok (record {
            code = 0;
            phases =
                opening
                ++ (ps
                    ++ (turned (suc k)
                        ∷ exit_emitted
                        ∷ modules_released
                        ∷ binding_finalized
                        ∷ handles_closed
                        ∷ engine_released
                        ∷ []));
            environment = none;
          })
    unfolding entry start start_loop run emit_exit jerry_initialize Env.get set_loop
        go_state_running_main go_state_running_loop go_state_exiting
    entry_lem done event closes =
        let p = parse_lem a initial arg0 arg1 fs rest ample strings few in
        rw p.0 (
          rw engine (
            rw (evals, run)
              (rw (after_main-MainEnds host.main host.uncaught ps none opening survives) (
                rw (run_loop_lem host.turn fuel k none enough busy done) (
                  rw event (
                    rw closes (
                      rw (release_lem (running exiting) arg0 arg1 rest refl refl) (
                        rw
                          (
                            append_assoc (ps ++ (turned (suc k) ∷ []))
                                (exit_emitted ∷ modules_released ∷ binding_finalized ∷ [])
                                (handles_closed ∷ engine_released ∷ []),
                            append_assoc ps (turned (suc k) ∷ []) (
                                exit_emitted ∷ modules_released ∷ binding_finalized ∷ handles_closed
                                ∷ engine_released ∷ []),
                          )
                          refl))))))))

    -- `iotjs file options -- arguments` with known options, C strings as arguments, fewer than 2^29 of
    -- them and an allocator with room, on an engine that starts and evaluates iotjs.js, when the entry
    -- function returns or throws what the function for uncaught exceptions handles, and turn `k` is the
    -- first after which the loop does not go on, since a callback in it ends the program by
    -- `process.exit`, with fuel above `k`: the program ends in that turn with that code; `iotjs_start`
    -- has not emitted `exit`, and nothing is released.
    pub entry_turn_exits :
        (c : ℕ)
        → Last (host.turn k) (some c)
        → entry a host fuel none command_line
          ≡ ok (record {
            code = c;
            phases = opening ++ (ps ++ (turned (suc k) ∷ []));
            environment = some (running running_loop);
          })
    unfolding entry start start_loop run jerry_initialize Env.get set_loop go_state_running_main
        go_state_running_loop
    entry_turn_exits c last =
        let p = parse_lem a initial arg0 arg1 fs rest ample strings few in
        rw p.0 (
          rw engine (
            rw (evals, run)
              (rw (after_main-MainEnds host.main host.uncaught ps none opening survives)
                (rw (run_loop_lem host.turn fuel k (some c) enough busy last) refl))))
