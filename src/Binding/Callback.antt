-- ===== src/Binding/Callback.antt =====
-- src/iotjs_binding_helper.c: the callbacks into JavaScript and the hooks of its `process` object.
use ble_central.Base.{
  ℕ, ◌≡◌, Bool, true, false, List, [], ◌∷◌, ◌++◌, append_assoc, append-nil, sym, ◌∙◌, if◌then◌else◌,
  not, Outcome, ok, ◌>>=◌, ◌>>◌, assert, ap,
}
use ble_central.Binding.Value.{Jval, as_boolean}

-- A call into JavaScript: of a function, of one of the hooks of `process`, or the end by `exit(2)`.
pub data Call : Type 0 where
  called : ℕ → Call
  uncaught tick emit_exit exited : Call

-- The `process` object: whether its hooks are functions, what they do, and what the tick hook returns.
pub record Process : Type 0 where
  pub has_uncaught : Bool
  pub has_tick : Bool
  pub has_exit : Bool
  pub uncaught_throws : Bool
  pub tick_throws : Bool
  pub exit_throws : Bool
  pub tick_answer : Jval

module _ (p : Process) where
  -- `iotjs_uncaught_exception`; `iotjs_jhelper_call_ok` asserts that the hook does not throw.
  pub uncaught_exception : List Call → Outcome (List Call)
  uncaught_exception log = do
    assert p.has_uncaught
    assert (not p.uncaught_throws)
    ok (log ++ (uncaught ∷ []))

  -- `iotjs_process_emit_exit`
  pub process_emit_exit : List Call → Outcome (List Call)
  process_emit_exit log = do
    assert p.has_exit
    ok (if p.exit_throws then log ++ (emit_exit ∷ exited ∷ []) else log ++ (emit_exit ∷ []))

  -- `iotjs_process_next_tick`
  pub process_next_tick : List Call → Outcome (List Call × Bool)
  process_next_tick log = do
    assert p.has_tick
    assert (not p.tick_throws)
    b ← as_boolean p.tick_answer
    ok (log ++ (tick ∷ []), b)

  -- `iotjs_make_callback_with_result` of a function that throws or not, and its result.
  pub make_callback_with_result : ℕ → Bool → Jval → List Call → Outcome (List Call × Jval)
  make_callback_with_result f throws res log = do
    log' ←
        if throws then uncaught_exception (log ++ (called f ∷ [])) else ok (log ++ (called f ∷ []))
    r ← process_next_tick log'
    ok (r.0, res)

  -- `iotjs_make_callback`
  pub make_callback : ℕ → Bool → Jval → List Call → Outcome (List Call)
  make_callback f throws res log = do r ← make_callback_with_result f throws res log; ok r.0

-- The calls of one callback.
abbrev pub calls_of : ℕ → Bool → List Call
calls_of f true = called f ∷ uncaught ∷ tick ∷ []
calls_of f false = called f ∷ tick ∷ []

pub run_callbacks : Process → List (ℕ × Bool) → List Call → Outcome (List Call)
run_callbacks p [] log = ok log
run_callbacks p (f ∷ fs) log = do
  log' ← make_callback p f.0 f.1 Jval.undefined log
  run_callbacks p fs log'

abbrev pub calls_of_all : List (ℕ × Bool) → List Call
calls_of_all [] = []
calls_of_all (f ∷ fs) = calls_of f.0 f.1 ++ calls_of_all fs

module _ (p : Process) (u : p.has_uncaught ≡ true) (ut : p.uncaught_throws ≡ false)
    (t : p.has_tick ≡ true) (tt' : p.tick_throws ≡ false) (b : Bool)
    (ta : p.tick_answer ≡ Jval.boolean b) where
  make_callback_lem :
      (f : ℕ) (throws : Bool) (res : Jval) (log : List Call)
      → make_callback p f throws res log ≡ ok (log ++ calls_of f throws)
  unfolding make_callback make_callback_with_result uncaught_exception process_next_tick
  make_callback_lem f true res log =
      rw (u, ut, t, tt', ta)
        (ap ok (
          append_assoc (log ++ (called f ∷ [])) (uncaught ∷ []) (tick ∷ [])
          ∙ append_assoc log (called f ∷ []) (uncaught ∷ tick ∷ [])))
  make_callback_lem f false res log =
      rw (t, tt', ta) (ap ok (append_assoc log (called f ∷ []) (tick ∷ [])))

  -- Any sequence of callbacks, with hooks that do not throw and a tick hook that returns a Boolean:
  -- each function is called once, in order, a function that throws is followed by the hook for
  -- uncaught exceptions, and every callback ends with the tick hook before the next one begins.
  pub callbacks_lem :
      (fs : List (ℕ × Bool)) (log : List Call)
      → run_callbacks p fs log ≡ ok (log ++ calls_of_all fs)
  unfolding run_callbacks
  callbacks_lem [] log = ap ok (sym (append-nil log))
  callbacks_lem (f ∷ fs) log = rw (make_callback_lem f.0 f.1 Jval.undefined log) (
      callbacks_lem fs (log ++ calls_of f.0 f.1)
      ∙ ap ok (append_assoc log (calls_of f.0 f.1) (calls_of_all fs)))
