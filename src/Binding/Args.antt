-- ===== src/Binding/Args.antt =====
-- `iotjs_jargs_t` and `iotjs_jhandler_t` of src/iotjs_binding.c, in a build with assertions, with the
-- engine's reference counts.
use ble_central.Base.{
  ℕ, zero, suc, ◌*◌, Bool, true, false, ◌||◌, List, [], Option, none, some, ltb, leb, ◌==◌,
  if◌then◌else◌, not, length, get_elem?, set, take, replicate, Outcome, ok, fault, Fault, ◌>>=◌,
  ◌>>◌, assert, or_fault,
}
use ble_central.Base.Int.{ℤ}
use ble_central.Binding.Value.{Jval}
use ble_central.Memory.{Allocator, buffer_allocate, buffer_release, strlen}
use ble_central.Strings.{Str, contents}

-- The reference counts of the objects, arrays and functions; the other values are not counted: what
-- is made of one of them is given up by the function that made it.
abbrev pub Counts : Type 0
Counts = ℕ → ℕ

abbrev pub identity : Jval → Option ℕ
identity (Jval.object o) = some o
identity (Jval.array o) = some o
identity (Jval.function o) = some o
identity _ = none

abbrev pub change : Counts → ℕ → ℕ → Counts
change c o n q = if q == o then n else c q

abbrev pub acquire_object : Counts → Option ℕ → Counts
acquire_object c none = c
acquire_object c (some o) = change c o (suc (c o))

-- The object must not be freed already.
abbrev pub count_down : Counts → ℕ → ℕ → Outcome Counts
count_down c o zero = fault Fault.dangling
count_down c o (suc n) = ok (change c o n)

abbrev pub release_object : Counts → Option ℕ → Outcome Counts
release_object c none = ok c
release_object c (some o) = count_down c o (c o)

-- `iotjs_jval_create_copied`
abbrev pub acquire : Counts → Jval → Counts
acquire c v = acquire_object c (identity v)

-- `iotjs_jval_destroy`
abbrev pub release : Counts → Jval → Outcome Counts
release c v = release_object c (identity v)

-- `iotjs_jargs_t`; a slot of `argv` that is not set yet is `none`.
pub record Args : Type 0 where
  pub capacity : ℕ
  pub argc : ℕ
  pub argv : Option (List (Option Jval))

-- `jargs_empty`
abbrev pub empty_args : Args
empty_args = record { capacity = 0; argc = 0; argv = none }

-- `sizeof(iotjs_jval_t)` with its validation fields.
abbrev pub jval_size : ℕ
jval_size = 16

unfoldable pub create : Allocator → ℕ → Outcome Args
create a capacity =
    if ltb 0 capacity
    then (do
      block ← buffer_allocate a (jval_size * capacity)
      ok (record { capacity = capacity; argc = 0; argv = some (replicate capacity none) }))
    else ok empty_args

unfoldable pub append_jval : Counts → Args → Jval → Outcome (Counts × Args)
append_jval c args x = do
  assert (ltb args.argc args.capacity)
  argv ← or_fault Fault.null_pointer args.argv
  ok (acquire c x, record args { argc = suc args.argc; argv = some (set argv args.argc (some x)) })

-- `iotjs_jargs_append_number`, `_bool`, `_null`, `_undefined` and `_string`: the values they make are
-- not counted.
pub append_number : Counts → Args → ℤ → Outcome (Counts × Args)
append_number c args x = do
  r ← append_jval c args (Jval.number x)
  c' ← release r.0 (Jval.number x)
  ok (c', r.1)

pub append_bool : Counts → Args → Bool → Outcome (Counts × Args)
append_bool c args x = append_jval c args (Jval.boolean x)

pub append_null : Counts → Args → Outcome (Counts × Args)
append_null c args = append_jval c args Jval.null

pub append_undefined : Counts → Args → Outcome (Counts × Args)
append_undefined c args = append_jval c args Jval.undefined

pub append_string : Counts → Args → Str → Outcome (Counts × Args)
append_string c args s = do
  r ← append_jval c args (Jval.string (contents s))
  c' ← release r.0 (Jval.string (contents s))
  ok (c', r.1)

pub append_string_raw : Counts → Args → List ℕ → Outcome (Counts × Args)
append_string_raw c args s = do
  n ← strlen s
  r ← append_jval c args (Jval.string (take n s))
  c' ← release r.0 (Jval.string (take n s))
  ok (c', r.1)

-- The value in a slot that was set.
unfoldable pub slot : Args → ℕ → Outcome Jval
slot args i = do
  argv ← or_fault Fault.null_pointer args.argv
  s ← or_fault Fault.overrun (get_elem? argv i)
  or_fault Fault.uninitialized s

unfoldable pub replace : Counts → Args → ℕ → Jval → Outcome (Counts × Args)
replace c args index x = do
  assert (ltb index args.argc)
  old ← slot args index
  c' ← release c old
  argv ← or_fault Fault.null_pointer args.argv
  ok (acquire c' x, record args { argv = some (set argv index (some x)) })

unfoldable pub get : Args → ℕ → Outcome Jval
get args index = do assert (ltb index args.argc); slot args index

-- The loop of `iotjs_jargs_destroy`, over `n` slots from `i` on.
unfoldable pub release_slots : Counts → Args → ℕ → ℕ → Outcome Counts
release_slots c args i zero = ok c
release_slots c args i (suc n) = do
  v ← slot args i
  c' ← release c v
  release_slots c' args (suc i) n

abbrev pub is_null : Option (List (Option Jval)) → Bool
is_null none = true
is_null (some l) = false

unfoldable pub destroy : Counts → Args → Outcome Counts
destroy c args = do
  assert (is_null args.argv || ltb 0 args.argc)
  assert (leb args.argc args.capacity)
  if ltb 0 args.capacity
      then (do
        c' ← release_slots c args 0 args.argc
        buffer_release (elim args.argv [ none ↦ none | some l ↦ some [] ])
        ok c')
      else (do assert (is_null args.argv); ok c)

-- `iotjs_jhandler_t`: the value that a native function returns, and whether it was set.
pub record Handler : Type 0 where
  pub jargv : List Jval
  pub jret : Jval
  pub is_error : Bool
  pub finished : Bool

-- `iotjs_jhandler_initialize`
unfoldable pub handler : List Jval → Handler
handler args = record { jargv = args; jret = Jval.undefined; is_error = false; finished = false }

unfoldable pub get_arg_of : Handler → ℕ → Outcome Jval
get_arg_of h index = do
  assert (ltb index (length h.jargv))
  or_fault Fault.overrun (get_elem? h.jargv index)

-- `iotjs_jhandler_return_jval`; in a build with assertions a second value aborts.
unfoldable pub return_jval : Counts → Handler → Jval → Outcome (Counts × Handler)
return_jval c h ret = do
  assert (not h.finished)
  c' ← release c h.jret
  ok (acquire c' ret, record h { jret = ret; finished = true })

unfoldable pub return_number : Counts → Handler → ℤ → Outcome (Counts × Handler)
return_number c h n = do
  r ← return_jval c h (Jval.number n)
  c' ← release r.0 (Jval.number n)
  ok (c', r.1)

pub return_undefined : Counts → Handler → Outcome (Counts × Handler)
return_undefined c h = return_jval c h Jval.undefined

pub return_null : Counts → Handler → Outcome (Counts × Handler)
return_null c h = return_jval c h Jval.null

pub return_boolean : Counts → Handler → Bool → Outcome (Counts × Handler)
return_boolean c h b = return_jval c h (Jval.boolean b)

pub return_string : Counts → Handler → Str → Outcome (Counts × Handler)
return_string c h s = do
  r ← return_jval c h (Jval.string (contents s))
  c' ← release r.0 (Jval.string (contents s))
  ok (c', r.1)

-- `iotjs_jhandler_throw`
unfoldable pub throw : Counts → Handler → Jval → Outcome (Counts × Handler)
throw c h err = do
  assert (not h.finished)
  c' ← release c h.jret
  ok (acquire c' err, record h { jret = err; is_error = true; finished = true })
