-- ===== src/Env.antt =====
-- src/iotjs_env.c and .h: the environment, its command line and its running state. A C string is
-- the list of its bytes with the NUL at the end.
pub mod CommandLine
use ble_central.Base.{
  ℕ, zero, suc, ◌+◌, ◌-◌, ◌*◌, ◌/◌, ◌%◌, take, Bool, true, false, List, [], ◌∷◌, ◌++◌, Option, none,
  some, ltb, ◌==◌, if◌then◌else◌, not, ◌&&◌, length, get_elem?, set, replicate, Outcome, ok, fault,
  Fault, ◌>>=◌, ◌>>◌, assert, or_fault,
}
use ble_central.Memory.{Allocator, u32_mod, buffer_allocate, buffer_release, strlen, write_at}

-- `State`, in the order in which it is compared.
pub data State : Type 0 where
  initializing running_main running_loop exiting : State

abbrev pub rank : State → ℕ
rank initializing = 0
rank running_main = 1
rank running_loop = 2
rank exiting = 3

pub record Config : Type 0 where
  pub memstat : Bool
  pub show_opcode : Bool

-- `iotjs_environment_t`; a slot of `argv` is a pointer, and `none` one that is not written yet.
pub record Environment : Type 0 where
  pub argc : ℕ
  pub argv : Option (List (Option (List ℕ)))
  pub loop : Option ℕ
  pub state : State
  pub config : Config

abbrev pub initial : Environment
initial = record {
  argc = 0;
  argv = none;
  loop = none;
  state = initializing;
  config = record { memstat = false; show_opcode = false };
}

-- The singleton: `none` while `initialized` is false.
unfoldable pub get : Option Environment → Environment
get none = initial
get (some e) = e

-- `"--"`, `"--memstat"`, `"--show-opcodes"`
abbrev pub dashes : List ℕ
dashes = 45 ∷ 45 ∷ []

abbrev pub memstat_flag : List ℕ
memstat_flag = 45 ∷ 45 ∷ 109 ∷ 101 ∷ 109 ∷ 115 ∷ 116 ∷ 97 ∷ 116 ∷ []

abbrev pub show_opcodes_flag : List ℕ
show_opcodes_flag =
    45 ∷ 45 ∷ 115 ∷ 104 ∷ 111 ∷ 119 ∷ 45 ∷ 111 ∷ 112 ∷ 99 ∷ 111 ∷ 100 ∷ 101 ∷ 115 ∷ []

-- `!strcmp(arg, word)`, for a word without NUL: the bytes before the NUL of `arg` are the word's.
abbrev pub is_word : List ℕ → List ℕ → Outcome Bool
is_word [] w = fault Fault.overrun
is_word (c ∷ s) [] = ok (c == 0)
is_word (c ∷ s) (x ∷ w) = elim (c == x) [ true ↦ is_word s w | false ↦ ok false ]

-- The loop over the options: the flags seen, and what is left for the application, or `none` after
-- an option that is not known.
pub options : Config → List (List ℕ) → Outcome (Config × Option (List (List ℕ)))
options c [] = ok (c, some [])
options c (arg ∷ args) = do
  let with_memstat = options (record c { memstat = true }) args
  let with_opcodes = options (record c { show_opcode = true }) args
  end ← is_word arg dashes
  mem ← is_word arg memstat_flag
  show ← is_word arg show_opcodes_flag
  if end
      then ok (c, some args)
      else if mem
      then with_memstat
      else if show
      then with_opcodes
      else ok (c, none)

-- A store through `argv[i]`.
pub put : List (Option (List ℕ)) → ℕ → List ℕ → Outcome (List (Option (List ℕ)))
put argv i s = if ltb i (length argv) then ok (set argv i (some s)) else fault Fault.overrun

-- The release of `argv[i]` for `n` indices from `i` on.
pub release_args : List (Option (List ℕ)) → ℕ → ℕ → Outcome (Unit {0})
release_args argv i zero = ok tt
release_args argv i (suc n) = do
  let rest = release_args argv (suc i) n
  slot ← or_fault Fault.overrun (get_elem? argv i)
  s ← or_fault Fault.uninitialized slot
  buffer_release (some s)
  rest

-- `iotjs_environment_destroy`
pub destroy : Environment → Outcome (Unit {0})
destroy e = elim e.argv [ none ↦ ok tt | some argv ↦ release_args argv 2 (e.argc - 2) ]

pub release : Option Environment → Outcome (Option Environment)
release none = ok none
release (some e) = do destroy e; ok none

module _ (a : Allocator) where
  -- The copy of one argument.
  pub copy_arg : List ℕ → Outcome (List ℕ)
  copy_arg arg = do
    n ← strlen arg
    fresh ← buffer_allocate a ((n + 1) % u32_mod)
    write_at fresh 0 (take (suc n) arg)

  -- The copies of the application's arguments, from `argv[argc]` on.
  pub copy_args : List (Option (List ℕ)) → ℕ → List (List ℕ) → Outcome (ℕ × List (Option (List ℕ)))
  copy_args argv argc [] = ok (argc, argv)
  copy_args argv argc (arg ∷ args) = do
    copy ← copy_arg arg
    argv' ← put argv argc copy
    copy_args argv' (suc argc) args

  -- The array of the application's arguments, behind the first two; a pointer has 8 bytes, and the
  -- allocator takes their number as an `unsigned`.
  pub take_args :
      Environment → Config → List ℕ → List ℕ → List (List ℕ) → Outcome (Environment × Bool)
  take_args e c arg0 arg1 rest = do
    block ← buffer_allocate a ((2 + length rest) * 8 % u32_mod)
    argv0 ← put (replicate (length block / 8) none) 0 arg0
    argv1 ← put argv0 1 arg1
    r ← copy_args argv1 2 rest
    ok (record e { config = c; argc = r.0; argv = some r.1 }, true)

  -- `iotjs_environment_parse_command_line_arguments`
  pub parse_command_line_arguments : Environment → List (List ℕ) → Outcome (Environment × Bool)
  parse_command_line_arguments e (arg0 ∷ arg1 ∷ args) = do
    r ← options e.config args
    elim r.1 [
      | none ↦ ok (record e { config = r.0 }, false)
      | some rest ↦ take_args e r.0 arg0 arg1 rest
    ]
  parse_command_line_arguments e args = ok (e, false)

-- `iotjs_environment_argv`
pub argv_at : Environment → ℕ → Outcome (List ℕ)
argv_at e idx = do
  argv ← or_fault Fault.null_pointer e.argv
  slot ← or_fault Fault.overrun (get_elem? argv idx)
  or_fault Fault.uninitialized slot

unfoldable pub set_loop : Environment → ℕ → Environment
set_loop e l = record e { loop = some l }

unfoldable pub go_state_running_main : Environment → Outcome Environment
go_state_running_main e = do assert (rank e.state == 0); ok (record e { state = running_main })

unfoldable pub go_state_running_loop : Environment → Outcome Environment
go_state_running_loop e = do assert (rank e.state == 1); ok (record e { state = running_loop })

unfoldable pub go_state_exiting : Environment → Outcome Environment
go_state_exiting e = do assert (ltb (rank e.state) 3); ok (record e { state = exiting })
