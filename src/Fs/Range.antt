-- ===== src/Fs/Range.antt =====
-- The range checks of `Read` and `Write` in src/module/iotjs_module_fs.c.
use ble_central.Base.{
  ℕ, ◌+◌, ◌≤◌, ◌<◌, ◌≡◌, ◌⊎◌, List, [], Option, ◌∷◌, some, none, length, Outcome,
}
use ble_central.Base.Int.{ℤ}
use ble_central.Binding.Value.{Jval}
use ble_central.Binding.Args.{Handler}
use ble_central.Binding.World.{Content, World}
use ble_central.Memory.{Allocator}
use ble_central.Buffer.Heap.{Heap}
use ble_central.Fs.{Script}
use ble_central.Fs.Natives.{Syscall, Uv, Done, get_if_exist, refuse, fs_call}

module _ (a : Allocator) (js : Script) (uv : Uv) (w : World) (this : ℕ) (h : Handler)
    (self request : ℕ) where
  abbrev pub Refused : Outcome Done → Type 0
  Refused r = (c : Content) × (r ≡ refuse a js uv w h c)

  -- The call goes to libuv, with the callback if there is one.
  abbrev pub Calls : Syscall → Outcome Done → Type 0
  Calls s r = r ≡ fs_call a js uv w (Jval.object this) h self request (get_if_exist h.jargv 5) s

  -- The range lies in the block and the call is made, or it does not and an error is thrown.
  abbrev pub InRange : Syscall → List ℕ → ℕ → ℕ → Outcome Done → Type 0
  InRange s block i n r =
      ((i < length block) × (i + n ≤ length block) × Calls s r)
      ⊎ (((length block ≤ i) ⊎ (length block < i + n)) × Refused r)

-- The arguments of `read` and `write`, with a callback or without.
abbrev pub with_callback : Option ℕ → List Jval
with_callback none = []
with_callback (some o) = Jval.function o ∷ []

abbrev pub arguments : ℤ → ℕ → ℤ → ℤ → ℤ → Option ℕ → List Jval
arguments fd jb offset len position cb =
    Jval.number fd
    ∷ Jval.object jb
    ∷ Jval.number offset
    ∷ Jval.number len
    ∷ Jval.number position
    ∷ with_callback cb
