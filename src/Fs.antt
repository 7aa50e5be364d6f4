-- ===== src/Fs.antt =====
-- src/module/iotjs_module_fs.c: the file system calls, with a callback or without. libuv is a
-- parameter.
pub mod Natives
pub mod Report
pub mod Objects
pub mod Told
pub mod After
pub mod Range
pub mod Tests
use ble_central.Base.{
  ℕ, List, [], ◌∷◌, Option, none, some, ◌==◌, if◌then◌else◌, Outcome, ok, fault, Fault, ◌>>=◌, ◌>>◌,
  assert, or_fault,
}
use ble_central.Base.Int.{ℤ, pos, ltb_ℤ}
use ble_central.Binding.Value.{Kind, Jval, is_kind}
use ble_central.Binding.Args.{Args, create, Handler}
use ble_central.Binding.World.{
  Content, World, create_object, append, drop_value, copy_value, destroy_args, make_callback,
  call_ok, give_back, throw_new,
}
use ble_central.Memory.{Allocator}
use ble_central.Handle.Request.{Request, req, jcallback_of}
use ble_central.Handle.Pending.{create_request, dispatched}

-- `uv_fs_type`, for the calls that are made.
pub data FsType : Type 0 where
  close open_file read write stat mkdir rmdir unlink rename scandir : FsType

-- The names that `#syscall` gives.
abbrev pub name_of : FsType → List ℕ
name_of FsType.close = b'c' ∷ b'l' ∷ b'o' ∷ b's' ∷ b'e' ∷ []
name_of FsType.open_file = b'o' ∷ b'p' ∷ b'e' ∷ b'n' ∷ []
name_of FsType.read = b'r' ∷ b'e' ∷ b'a' ∷ b'd' ∷ []
name_of FsType.write = b'w' ∷ b'r' ∷ b'i' ∷ b't' ∷ b'e' ∷ []
name_of FsType.stat = b's' ∷ b't' ∷ b'a' ∷ b't' ∷ []
name_of FsType.mkdir = b'm' ∷ b'k' ∷ b'd' ∷ b'i' ∷ b'r' ∷ []
name_of FsType.rmdir = b'r' ∷ b'm' ∷ b'd' ∷ b'i' ∷ b'r' ∷ []
name_of FsType.unlink = b'u' ∷ b'n' ∷ b'l' ∷ b'i' ∷ b'n' ∷ b'k' ∷ []
name_of FsType.rename = b'r' ∷ b'e' ∷ b'n' ∷ b'a' ∷ b'm' ∷ b'e' ∷ []
name_of FsType.scandir = b's' ∷ b'c' ∷ b'a' ∷ b'n' ∷ b'd' ∷ b'i' ∷ b'r' ∷ []

-- What a finished `uv_fs_t` holds: its result, the ten numbers of `statbuf` and the names that
-- `uv_fs_scandir_next` gives up to `UV_EOF`.
pub record Finished : Type 0 where
  pub result : ℤ
  pub statbuf : List ℤ
  pub entries : List (List ℕ)

-- The property `_createStat` of the module, if it is a function, and what it makes of its argument.
pub record Script : Type 0 where
  pub create_stat : Option ℕ
  pub stat_of : List ℤ → Content

-- A new object is appended and given up.
unfoldable pub append_new : World × ℕ → Args → Outcome (World × Args)
append_new o args = do
  r ← append o.0 args (Jval.object o.1)
  w ← drop_value r.0 (Jval.object o.1)
  ok (w, r.1)

-- `MakeStatObject`
unfoldable pub make_stat_object : Allocator → Script → World → List ℤ → Outcome (World × ℕ)
make_stat_object a js w statbuf = do
  f ← or_fault Fault.aborted js.create_stat
  let w₁ = copy_value w (Jval.function f)
  let jstat = create_object w₁ (Content.numbers statbuf)
  args ← create a 1
  r ← append_new jstat args
  res ← call_ok r.0 (Jval.function f) Jval.undefined r.1 (js.stat_of statbuf)
  w₂ ← destroy_args res.0 r.1
  w₃ ← drop_value w₂ (Jval.function f)
  ok (w₃, res.1)

-- The array of the names of a directory.
unfoldable pub make_entries : World → List (List ℕ) → World × ℕ
make_entries w entries = create_object w (Content.strings entries)

-- The `switch` of `AfterAsync`, behind the `null` that says that there is no error.
unfoldable pub append_result :
    Allocator → Script → World → Args → FsType → Finished → Outcome (World × Args)
append_result a js w args FsType.close f = ok (w, args)
append_result a js w args FsType.open_file f = append w args (Jval.number f.result)
append_result a js w args FsType.read f = append w args (Jval.number f.result)
append_result a js w args FsType.write f = append w args (Jval.number f.result)
append_result a js w args FsType.scandir f = append_new (make_entries w f.entries) args
append_result a js w args FsType.stat f = do
  s ← make_stat_object a js w f.statbuf
  append_new s args
append_result a js w args FsType.mkdir f = append w args Jval.null
append_result a js w args FsType.rmdir f = append w args Jval.null
append_result a js w args FsType.unlink f = append w args Jval.null
append_result a js w args FsType.rename f = append w args Jval.null

unfoldable pub append_outcome :
    Allocator → Script → World → Args → FsType → Finished → Outcome (World × Args)
append_outcome a js w args t f =
    if ltb_ℤ f.result (pos 0)
    then append_new (create_object w (Content.uv_error f.result (name_of FsType.open_file))) args
    else (do r ← append w args Jval.null; append_result a js r.0 r.1 t f)

-- `AfterAsync` of the request at `request`, whose `data` is the wrapper `r`.
unfoldable pub after_async :
    Allocator → Script → World → Request → ℕ → FsType → Finished → Outcome World
after_async a js w r request t f = do
  p ← req r
  assert (p == request)
  cb ← jcallback_of r
  assert (is_kind Kind.function cb)
  args ← create a 2
  o ← append_outcome a js w args t f
  w₁ ← make_callback o.0 cb Jval.undefined o.1
  w₂ ← destroy_args w₁ o.1
  dispatched w₂ r

-- A new object is returned and given up.
unfoldable pub return_new : World × ℕ → Handler → Outcome (World × Handler)
return_new o h = do
  r ← give_back o.0 h (Jval.object o.1)
  w ← drop_value r.0 (Jval.object o.1)
  ok (w, r.1)

-- The `switch` of `AfterSync`.
unfoldable pub return_result :
    Allocator → Script → World → Handler → FsType → ℤ → Finished → Outcome (World × Handler)
return_result a js w h FsType.close err f = ok (w, h)
return_result a js w h FsType.open_file err f = give_back w h (Jval.number err)
return_result a js w h FsType.read err f = give_back w h (Jval.number err)
return_result a js w h FsType.write err f = give_back w h (Jval.number err)
return_result a js w h FsType.stat err f = do s ← make_stat_object a js w f.statbuf; return_new s h
return_result a js w h FsType.mkdir err f = give_back w h Jval.undefined
return_result a js w h FsType.rmdir err f = give_back w h Jval.undefined
return_result a js w h FsType.unlink err f = give_back w h Jval.undefined
return_result a js w h FsType.rename err f = give_back w h Jval.undefined
return_result a js w h FsType.scandir err f = return_new (make_entries w f.entries) h

-- `AfterSync`
unfoldable pub after_sync :
    Allocator → Script → World → Handler → FsType → ℤ → Finished → Outcome (World × Handler)
after_sync a js w h t err f =
    if ltb_ℤ err (pos 0)
    then throw_new w h (Content.uv_error err (name_of t))
    else return_result a js w h t err f
