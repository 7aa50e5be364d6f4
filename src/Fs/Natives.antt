-- ===== src/Fs/Natives.antt =====
-- The native functions of src/module/iotjs_module_fs.c. A path is what `iotjs_string_data` points to,
-- up to its NUL; making and destroying that string is in `Strings`.
use ble_central.Base.{
  ℕ, ◌-◌, ◌^◌, Bool, true, ◌&&◌, List, [], ◌∷◌, Option, none, some, if◌then◌else◌, not, get_elem?,
  Outcome, ok, fault, Fault, ◌>>=◌,
}
use ble_central.Base.Int.{ℤ, pos, negsuc, ltb_ℤ, ◌+ℤ◌}
use ble_central.Binding.Value.{Kind, Jval, is_kind, as_number, as_string, as_object, check_args}
use ble_central.Binding.Args.{Handler, get_arg_of}
use ble_central.Binding.World.{Content, World, give_back, throw_new}
use ble_central.Memory.{Allocator}
use ble_central.Memory.Laws.{until_nul}
use ble_central.Buffer.Range.{to_int}
use ble_central.Buffer.Heap.{Heap, from_jbuffer, bufferwrap_length, load}
use ble_central.Handle.Request.{Request, req}
use ble_central.Handle.Pending.{create_request}
use ble_central.Fs.{FsType, Finished, Script, after_async, after_sync}

-- A call of libuv. `read` and `write` take a file, the wrapper of a buffer, the offset and the length
-- of the part of its block that is read into or written, and a position.
pub data Syscall : Type 0 where
  close : ℤ → Syscall
  open_file : List ℕ → ℤ → ℤ → Syscall
  read write : ℤ → ℕ → ℤ → ℤ → ℤ → Syscall
  stat rmdir unlink scandir : List ℕ → Syscall
  mkdir : List ℕ → ℤ → Syscall
  rename : List ℕ → List ℕ → Syscall

abbrev pub type_of : Syscall → FsType
type_of (close fd) = FsType.close
type_of (open_file path flags mode) = FsType.open_file
type_of (read fd b offset len position) = FsType.read
type_of (write fd b offset len position) = FsType.write
type_of (stat path) = FsType.stat
type_of (rmdir path) = FsType.rmdir
type_of (unlink path) = FsType.unlink
type_of (scandir path) = FsType.scandir
type_of (mkdir path mode) = FsType.mkdir
type_of (rename old new) = FsType.rename

-- What libuv answers to a call without a callback and to one with, and the request's fields then.
pub record Uv : Type 0 where
  pub perform : Syscall → ℤ × Finished
  pub queue : Syscall → ℤ × Finished

-- What a native leaves: the call that it made of libuv, and the request that waits for its end.
pub record Done : Type 0 where
  pub world : World
  pub frame : Handler
  pub issued : Option Syscall
  pub waiting : Option Request

-- `JHANDLER_CHECK_ARG_IF_EXIST` and `JHANDLER_GET_ARG_IF_EXIST` of a function.
abbrev pub check_if_exist : List Jval → ℕ → Bool
check_if_exist args i = elim (get_elem? args i) [ none ↦ true | some v ↦ is_kind Kind.function v ]

abbrev pub get_if_exist : List Jval → ℕ → Option Jval
get_if_exist args i = elim (get_elem? args i) [
  | none ↦ none
  | some v ↦ if is_kind Kind.function v then some v else none
]

-- An `int` sum.
abbrev pub int_max : ℕ
int_max = 2 ^ 31 - 1

unfoldable pub add_int : ℤ → ℤ → Outcome ℤ
add_int a b =
    let s = a +ℤ b in
    if ltb_ℤ (pos int_max) s
    then fault Fault.overflow
    else if ltb_ℤ s (negsuc int_max)
    then fault Fault.overflow
    else ok s

module _ (a : Allocator) (js : Script) (uv : Uv) where
  -- `FS_ASYNC` with a new request wrapper at `self`.
  unfoldable pub fs_async : World → Handler → ℕ → ℕ → Jval → Syscall → Outcome Done
  fs_async w h self request jcallback s = do
    r ← create_request w self request jcallback
    p ← req r.1
    let u = uv.queue s
    if ltb_ℤ u.0 (pos 0)
        then (do
          w' ← after_async a js r.0 r.1 p (type_of s) (record u.1 { result = u.0 })
          g ← give_back w' h Jval.null
          ok (record { world = g.0; frame = g.1; issued = some s; waiting = none }))
        else (do
          g ← give_back r.0 h Jval.null
          ok (record { world = g.0; frame = g.1; issued = some s; waiting = some r.1 }))

  -- `FS_SYNC`
  unfoldable pub fs_sync : World → Handler → Syscall → Outcome Done
  fs_sync w h s = do
    let u = uv.perform s
    g ← after_sync a js w h (type_of s) u.0 u.1
    ok (record { world = g.0; frame = g.1; issued = some s; waiting = none })

  unfoldable pub refuse : World → Handler → Content → Outcome Done
  refuse w h c = do
    g ← throw_new w h c
    ok (record { world = g.0; frame = g.1; issued = none; waiting = none })

  module _ (w : World) (this : Jval) (h : Handler) (self request : ℕ) where
    -- With the callback, if there is one, or without.
    unfoldable pub fs_call : Option Jval → Syscall → Outcome Done
    fs_call none s = fs_sync w h s
    fs_call (some cb) s = fs_async w h self request cb s

    -- The checks that each native begins with: `this`, the kinds of its arguments, and a callback at
    -- an index, if it is there.
    unfoldable pub checked : List Kind → ℕ → Outcome Done → Outcome Done
    checked kinds i body =
        if is_kind Kind.object this && check_args kinds h.jargv && check_if_exist h.jargv i
        then body
        else refuse w h Content.internal_error

    unfoldable pub number_at : ℕ → Outcome ℤ
    number_at i = do v ← get_arg_of h i; as_number v

    unfoldable pub path_at : ℕ → Outcome (List ℕ)
    path_at i = do v ← get_arg_of h i; s ← as_string v; ok (until_nul s)

    unfoldable pub js_close : Outcome Done
    js_close =
        checked (Kind.number ∷ []) 1
          (do fd ← number_at 0; fs_call (get_if_exist h.jargv 1) (close fd))

    unfoldable pub js_open : Outcome Done
    js_open = checked (Kind.string ∷ Kind.number ∷ Kind.number ∷ []) 3 (do
      path ← path_at 0
      flags ← number_at 1
      mode ← number_at 2
      fs_call (get_if_exist h.jargv 3) (open_file path flags mode))

    -- The range checks of `Read` and `Write`, for `int`s, and the call behind them.
    unfoldable pub transfer : (Syscall) → Option (List ℕ) → ℤ → ℤ → ℤ → Outcome Done
    transfer s none data_length offset len = refuse w h Content.internal_error
    transfer s (some block) data_length offset len =
        if not (ltb_ℤ (pos 0) data_length)
        then refuse w h Content.internal_error
        else if not (ltb_ℤ offset data_length)
        then refuse w h Content.offset_out_of_bound
        else (do
          end ← add_int offset len
          if ltb_ℤ data_length end
              then refuse w h Content.length_out_of_bound
              else fs_call (get_if_exist h.jargv 5) s)

    unfoldable pub js_read : Heap → Outcome Done
    js_read heap =
        checked (Kind.number ∷ Kind.object ∷ Kind.number ∷ Kind.number ∷ Kind.number ∷ []) 5 (do
          fd ← number_at 0
          jbuffer ← as_object (← get_arg_of h 1)
          offset ← number_at 2
          len ← number_at 3
          position ← number_at 4
          b ← from_jbuffer heap jbuffer
          wrap ← load heap b
          n ← bufferwrap_length heap b
          transfer (read fd b offset len position) wrap.buffer (to_int n) offset len)

    unfoldable pub js_write : Heap → Outcome Done
    js_write heap =
        checked (Kind.number ∷ Kind.object ∷ Kind.number ∷ Kind.number ∷ Kind.number ∷ []) 5 (do
          fd ← number_at 0
          jbuffer ← as_object (← get_arg_of h 1)
          offset ← number_at 2
          len ← number_at 3
          position ← number_at 4
          b ← from_jbuffer heap jbuffer
          wrap ← load heap b
          n ← bufferwrap_length heap b
          transfer (write fd b offset len position) wrap.buffer (to_int n) offset len)

    unfoldable pub js_stat : Outcome Done
    js_stat =
        checked (Kind.string ∷ []) 1
          (do path ← path_at 0; fs_call (get_if_exist h.jargv 1) (stat path))

    unfoldable pub js_mkdir : Outcome Done
    js_mkdir = checked (Kind.string ∷ Kind.number ∷ []) 2 (do
      path ← path_at 0
      mode ← number_at 1
      fs_call (get_if_exist h.jargv 2) (mkdir path mode))

    unfoldable pub js_rmdir : Outcome Done
    js_rmdir =
        checked (Kind.string ∷ []) 1
          (do path ← path_at 0; fs_call (get_if_exist h.jargv 1) (rmdir path))

    unfoldable pub js_unlink : Outcome Done
    js_unlink =
        checked (Kind.string ∷ []) 1
          (do path ← path_at 0; fs_call (get_if_exist h.jargv 1) (unlink path))

    unfoldable pub js_rename : Outcome Done
    js_rename =
        checked (Kind.string ∷ Kind.string ∷ []) 2
          (do old ← path_at 0; new ← path_at 1; fs_call (get_if_exist h.jargv 2) (rename old new))

    unfoldable pub js_readdir : Outcome Done
    js_readdir =
        checked (Kind.string ∷ []) 2
          (do path ← path_at 0; fs_call (get_if_exist h.jargv 2) (scandir path))
