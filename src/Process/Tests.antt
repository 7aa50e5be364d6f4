-- ===== src/Process/Tests.antt =====
-- A concrete engine for src/module/iotjs_module_process.c.
use ble_central.Base.{ℕ, ◌≡◌, false, [], ◌∷◌, ok, arith}
use ble_central.Binding.Value.{Jval}
use ble_central.Binding.Args.{handler}
use ble_central.Binding.World.{World, Content, create_object}
use ble_central.Strings.Tests.{heap, heap-IsAmple}
use ble_central.Fs.Tests.{world}
use ble_central.Process.{Engine, js_compile}
use ble_central.Process.Compile.{wrapped, given, compile_lem}

-- Each source makes a new object.
abbrev engine : Engine
engine w code = let o = create_object w (Content.bytes code) in (o.0, Jval.object o.1, false)

compile_lem_example :
    let r = engine world (wrapped (97 ∷ 98 ∷ [])) in
    let h = handler (Jval.string (97 ∷ 98 ∷ []) ∷ []) in
    (w' : World) × (js_compile heap engine world h ≡ ok (w', given r h))
    × ((q : ℕ) → w'.counts q ≡ r.0.counts q)
compile_lem_example =
    compile_lem heap heap-IsAmple engine world (97 ∷ 98 ∷ []) (omega arith) (omega arith)
