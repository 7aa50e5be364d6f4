-- ===== src/Process.antt =====
-- src/module/iotjs_module_process.c: compiling sources and the process's surroundings. The engine and
-- libuv are parameters; a build without snapshots is modelled.
pub mod Compile
pub mod Tests
use ble_central.Base.{
  ℕ, zero, suc, ◌+◌, ◌%◌, Bool, true, false, List, [], ◌∷◌, ◌++◌, Option, none, some, ◌==◌, ◌⊎◌,
  inl, inr, if◌then◌else◌, not, length, Outcome, ok, Fault, ◌>>=◌, ◌>>◌, assert, or_fault,
}
use ble_central.Base.Int.{ℤ, pos, negsuc, ◌==ℤ◌}
use ble_central.Binding.Value.{Kind, Jval, is_kind, as_number, as_string, check_args}
use ble_central.Binding.Args.{Handler, get_arg_of}
use ble_central.Binding.World.{Content, World, give_back, throw_value, throw_new, drop_value}
use ble_central.Memory.{Allocator, u32_mod}
use ble_central.Memory.Laws.{until_nul}
use ble_central.Buffer.Range.{to_int}
use ble_central.Strings.{Str, create, reserve, append, destroy, bytes, contents, is_null}
use ble_central.Strings.Files.{file_read, jval_as_string}
use ble_central.Modules.{Modules, initialize_if_necessary}
use ble_central.Env.{Environment, argv_at}

-- `wrapper` of `WrapEval`, without the terminators.
abbrev pub wrapper_head : List ℕ
wrapper_head =
    b'(' ∷ b'f' ∷ b'u' ∷ b'n' ∷ b'c' ∷ b't' ∷ b'i' ∷ b'o' ∷ b'n' ∷ b'(' ∷ b'e' ∷ b'x' ∷ b'p' ∷ b'o'
    ∷ b'r' ∷ b't' ∷ b's' ∷ b',' ∷ b' ' ∷ b'r' ∷ b'e' ∷ b'q' ∷ b'u' ∷ b'i' ∷ b'r' ∷ b'e' ∷ b','
    ∷ b' ' ∷ b'm' ∷ b'o' ∷ b'd' ∷ b'u' ∷ b'l' ∷ b'e' ∷ b')' ∷ b' ' ∷ b'{' ∷ 10 ∷ []

abbrev pub wrapper_tail : List ℕ
wrapper_tail = 10 ∷ b'}' ∷ b')' ∷ b';' ∷ 10 ∷ []

-- `iotjs_jhelper_eval`: what the engine makes of a source, with one reference to what it gives, and
-- whether that was thrown.
abbrev pub Engine : Type 0
Engine = World → List ℕ → World × Jval × Bool

module _ (a : Allocator) where
  -- The string that `WrapEval` makes of the first `length` bytes of a source.
  unfoldable pub wrap_code : List ℕ → ℕ → Outcome Str
  wrap_code source size = do
    code ← create a (0 ∷ [])
    c₁ ← reserve a code ((length wrapper_head + size + length wrapper_tail) % u32_mod)
    c₂ ← append a c₁ (wrapper_head ++ (0 ∷ [])) (pos (length wrapper_head))
    c₃ ← append a c₂ source (to_int size)
    append a c₃ (wrapper_tail ++ (0 ∷ [])) (pos (length wrapper_tail))

  module _ (engine : Engine) where
    unfoldable pub wrap_eval : World → List ℕ → ℕ → Outcome (World × Jval × Bool)
    wrap_eval w source size = do
      code ← wrap_code source size
      assert (not (is_null code.chars))
      let r = engine w (contents code)
      destroy code
      ok r

    -- What `Compile` and `CompileNativePtr` do with what the engine gave.
    unfoldable pub pass_on : World × Jval × Bool → Handler → Outcome (World × Handler)
    pass_on r h = do
      g ← if not r.2 then give_back r.0 h r.1 else throw_value r.0 h r.1
      w ← drop_value g.0 r.1
      ok (w, g.1)

    unfoldable pub js_compile : World → Handler → Outcome (World × Handler)
    js_compile w h =
        if check_args (Kind.string ∷ []) h.jargv
        then (do
          source ← jval_as_string a (← get_arg_of h 0)
          assert (not (is_null source.chars))
          r ← wrap_eval w (bytes source.chars) source.size
          g ← pass_on r h
          destroy source
          ok g)
        else throw_new w h Content.internal_error

    -- The loop of `CompileNativePtr`, over the names and the sources in `natives`.
    unfoldable pub find_native : List (List ℕ × List ℕ) → List ℕ → Option (List ℕ)
    find_native [] id = none
    find_native (n ∷ natives) id =
        let rest = find_native natives id in if same_bytes n.0 id then some n.1 else rest
      where
        same_bytes : List ℕ → List ℕ → Bool
        same_bytes [] [] = true
        same_bytes [] (d ∷ ds) = false
        same_bytes (c ∷ cs) [] = false
        same_bytes (c ∷ cs) (d ∷ ds) = let rest = same_bytes cs ds in if c == d then rest else false

    -- `CompileNativePtr`; `unknown` is the error that it throws for a module that there is not.
    unfoldable pub js_compile_native_ptr :
        List (List ℕ × List ℕ) → World → Handler → Outcome (World × Handler)
    js_compile_native_ptr natives w h =
        if check_args (Kind.string ∷ []) h.jargv
        then (do
          id ← as_string (← get_arg_of h 0)
          elim (find_native natives (until_nul id)) [
            | some code ↦ (do r ← wrap_eval w code (length code); pass_on r h)
            | none ↦ throw_new w h Content.plain
          ])
        else throw_new w h Content.internal_error

  -- `ReadSource`, with the file of a path, `none` if it cannot be opened.
  unfoldable pub js_read_source :
      (List ℕ → Option (List ℕ)) → World → Handler → Outcome (World × Handler)
  js_read_source file w h =
      if check_args (Kind.string ∷ []) h.jargv
      then (do
        path ← as_string (← get_arg_of h 0)
        code ← file_read a (file (until_nul path))
        g ← give_back w h (Jval.string (contents code))
        destroy code
        ok g)
      else throw_new w h Content.internal_error

-- `Binding`, on the table of the modules.
unfoldable pub js_binding :
    List Jval → Modules → World → Handler → Outcome (Modules × World × Handler)
js_binding fn_register m w h =
    if check_args (Kind.number ∷ []) h.jargv
    then (do
      kind ← as_number (← get_arg_of h 0)
      r ← initialize_if_necessary fn_register m (elim kind [ pos n ↦ n | negsuc n ↦ u32_mod ])
      g ← give_back w h r.1
      ok (r.0, g.0, g.1))
    else (do g ← throw_new w h Content.internal_error; ok (m, g.0, g.1))

-- `Cwd`, of what `uv_cwd` gives.
unfoldable pub js_cwd : ℤ × List ℕ → World → Handler → Outcome (World × Handler)
js_cwd cwd w h =
    if not (cwd.0 ==ℤ pos 0)
    then throw_new w h Content.plain
    else give_back w h (Jval.string (until_nul cwd.1))

-- `Chdir`, of what `uv_cd` answers for a path.
unfoldable pub js_chdir : (List ℕ → ℤ) → World → Handler → Outcome (World × Handler)
js_chdir cd w h =
    if check_args (Kind.string ∷ []) h.jargv
    then (do
      path ← as_string (← get_arg_of h 0)
      if cd (until_nul path) ==ℤ pos 0 then ok (w, h) else throw_new w h Content.plain)
    else throw_new w h Content.internal_error

-- `DoExit`: the code that the program ends with, unless the argument is refused.
unfoldable pub js_do_exit : World → Handler → Outcome (ℤ ⊎ (World × Handler))
js_do_exit w h =
    if check_args (Kind.number ∷ []) h.jargv
    then (do code ← as_number (← get_arg_of h 0); ok (inl code))
    else (do g ← throw_new w h Content.internal_error; ok (inr g))

-- The loop of `InitArgv`: what the indices of `process.argv` are set to, from `i` on.
unfoldable pub init_argv : Environment → ℕ → ℕ → Outcome (List (List ℕ))
init_argv e i zero = ok []
init_argv e i (suc n) = do
  arg ← argv_at e i
  rest ← init_argv e (suc i) n
  ok (until_nul arg ∷ rest)

-- `InitArgv`, with the entries that `process.argv` is given.
unfoldable pub js_init_argv :
    Environment → Jval → World → Handler → Outcome (List (List ℕ) × World × Handler)
js_init_argv e this w h =
    if is_kind Kind.object this
    then (do args ← init_argv e 0 e.argc; ok (args, w, h))
    else (do g ← throw_new w h Content.internal_error; ok ([], g.0, g.1))
