-- ===== src/Start/Tests.antt =====
-- A concrete run of src/iotjs.c, and its parts in src/iotjs_env.c and src/iotjs_module.c.
use ble_central.Base.{
  ℕ, ◌<◌, ◌≡◌, ◌≢◌, refl, none, some, true, false, List, [], ◌∷◌, ◌++◌, map, ltb, lt→ltb, ok, arith,
  get_elem?,
}
use ble_central.Binding.Value.{Jval}
use ble_central.Strings.Tests.{heap, heap-IsAmple}
use ble_central.Env.{
  State, Environment, running_main, running_loop, initial, dashes, parse_command_line_arguments,
  release,
}
use ble_central.Env.CommandLine.{AllCString, memstat, flag_text, parsed, parse_lem}
use ble_central.Modules.{Modules, initialize_if_necessary}
use ble_central.Modules.Once.{initialize_once}
use ble_central.Start.{
  Host, Turn, Phase, returned, threw, exited, engine_initialized, main_ran, uncaught_exception,
  turned, exit_emitted, modules_released, binding_initialized, modules_listed, process_registered,
  binding_finalized, handles_closed, engine_released, entry,
}
use ble_central.Start.Loop.{GoesOn, Last}
use ble_central.Start.Entry.{MainEnds, entry_lem, entry_exits, entry_turn_exits}

-- One busy turn, then none.
abbrev turns : ℕ → Turn
turns n = record { ran = ltb n 1; ticked = false; alive = false; exits = none }

abbrev host : Host
host = record {
  default_loop = 5;
  engine_starts = true;
  eval_throws = false;
  main = threw;
  uncaught = returned;
  turn = turns;
  exit_event = returned;
  loop_closes = true;
}

-- The function for uncaught exceptions calls `process.exit(1)`.
abbrev failing : Host
failing = record host { uncaught = exited 1 }

-- The first callback calls `process.exit(7)`.
abbrev leaving : Host
leaving = record host {
  turn = λ n. record { ran = true; ticked = false; alive = true; exits = some 7 };
}

-- The argument "x".
abbrev words : List (List ℕ)
words = (120 ∷ 0 ∷ []) ∷ []

words-AllCString : AllCString words
words-AllCString = ((120 ∷ [], omega arith, refl, omega arith), tt)

busy : (i : ℕ) → i < 1 → GoesOn (turns i)
busy i h = (refl, rw (lt→ltb i 1 h) refl)

-- iotjs x -- x, with the option for memory statistics.
abbrev command : List (List ℕ)
command =
    (105 ∷ 0 ∷ [])
    ∷ (97 ∷ 0 ∷ [])
    ∷ (map flag_text (memstat ∷ []) ++ ((dashes ++ (0 ∷ [])) ∷ words))

parse_lem_example :
    (parse_command_line_arguments heap initial (
        (105 ∷ 0 ∷ [])
        ∷ (97 ∷ 0 ∷ [])
        ∷ (map flag_text (memstat ∷ []) ++ ((dashes ++ (0 ∷ [])) ∷ words)))
      ≡ ok (parsed initial (memstat ∷ []) (105 ∷ 0 ∷ []) (97 ∷ 0 ∷ []) words, true))
    × (release (some (parsed initial (memstat ∷ []) (105 ∷ 0 ∷ []) (97 ∷ 0 ∷ []) words)) ≡ ok none)
parse_lem_example =
    parse_lem heap initial (105 ∷ 0 ∷ []) (97 ∷ 0 ∷ []) (memstat ∷ []) words heap-IsAmple
      words-AllCString (omega arith)

abbrev started : List Phase
started =
    engine_initialized true false
    ∷ binding_initialized
    ∷ modules_listed
    ∷ process_registered
    ∷ main_ran
    ∷ uncaught_exception
    ∷ []

abbrev left_in : State → Environment
left_in state = record (parsed initial (memstat ∷ []) (105 ∷ 0 ∷ []) (97 ∷ 0 ∷ []) words) {
  loop = some 5;
  state = state;
}

entry_exits_example :
    entry heap failing 2 none command
    ≡ ok (record { code = 1; phases = started; environment = some (left_in running_main) })
entry_exits_example =
    entry_exits heap failing 2 (105 ∷ 0 ∷ []) (97 ∷ 0 ∷ []) (memstat ∷ []) words
      (main_ran ∷ uncaught_exception ∷ []) heap-IsAmple words-AllCString (omega arith) refl refl 1
      (MainEnds.unhandled 1)

entry_lem_example :
    entry heap host 2 none command
    ≡ ok (record {
      code = 0;
      phases =
          started
          ++ (turned 2
              ∷ exit_emitted
              ∷ modules_released
              ∷ binding_finalized
              ∷ handles_closed
              ∷ engine_released
              ∷ []);
      environment = none;
    })
entry_lem_example =
    entry_lem heap host 2 (105 ∷ 0 ∷ []) (97 ∷ 0 ∷ []) (memstat ∷ []) words
      (main_ran ∷ uncaught_exception ∷ []) heap-IsAmple words-AllCString (omega arith) refl refl 1
      (omega arith) busy MainEnds.handled (Last.quiet refl refl) refl refl

entry_turn_exits_example :
    entry heap leaving 1 none command
    ≡ ok (record {
      code = 7;
      phases = started ++ (turned 1 ∷ []);
      environment = some (left_in running_loop);
    })
entry_turn_exits_example =
    entry_turn_exits heap leaving 1 (105 ∷ 0 ∷ []) (97 ∷ 0 ∷ []) (memstat ∷ []) words
      (main_ran ∷ uncaught_exception ∷ []) heap-IsAmple words-AllCString (omega arith) refl refl 0
      (omega arith) (λ i h. absurd (omega arith)) MainEnds.handled 7 (Last.exits 7 refl)

-- What two modules' functions return, and the table before either is used.
abbrev functions : List Jval
functions = Jval.object 1 ∷ Jval.object 2 ∷ []

abbrev table : Modules
table = record { jmodules = Jval.undefined ∷ Jval.undefined ∷ []; registered = [] }

initialize_once_example :
    (m' : Modules) × (initialize_if_necessary functions table 1 ≡ ok (m', Jval.object 2))
    × (m'.registered ≡ table.registered ++ (1 ∷ []))
    × ((j : ℕ) → 1 ≢ j → get_elem? m'.jmodules j ≡ get_elem? table.jmodules j)
    × (initialize_if_necessary functions m' 1 ≡ ok (m', Jval.object 2))
initialize_once_example =
    initialize_once functions table 1 (Jval.object 2) (omega arith) refl refl refl
