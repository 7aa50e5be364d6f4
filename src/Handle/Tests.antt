-- ===== src/Handle/Tests.antt =====
-- A concrete timer of src/module/iotjs_module_timer.c.
use ble_central.Base.{
  ℕ, suc, ◌≡◌, refl, none, some, true, false, Bool, if◌then◌else◌, [], ok, arith,
}
use ble_central.Base.Int.{pos, negsuc}
use ble_central.Handle.{Uv, Wrap}
use ble_central.Handle.Life.{IsUv, World, stops, act, Allowed, Reachable, made}
use ble_central.Handle.Safe.{Reachable-safe, Reachable-kept, create_lem}

-- A libuv whose handles are no more than whether they are closing.
abbrev uv : Uv Bool
uv = record {
  init = false;
  is_closing = λ b. b;
  close = λ b. true;
  start = λ b t r. (b, if b then negsuc 21 else pos 0);
}

uv-IsUv : IsUv uv
uv-IsUv = record { closes = λ h. refl }

abbrev timer : Wrap Bool
timer = record {
  self = 8;
  jobject = 2;
  native = some 8;
  refs = 2;
  handle = some 9;
  on_close_cb = none;
  handle_data = 8;
  uv = false;
  freed = false;
  calls = [];
}

abbrev world : World Bool
world = record { wrap = timer; held = 1 }

world-Reachable : Reachable uv world
world-Reachable = made 8 2 1 9 timer (create_lem uv uv-IsUv 8 2 1 9)

stop-Allowed : Allowed uv stops world
unfolding Allowed
stop-Allowed = (omega arith, λ e. cc)

Reachable-safe_example : (y : World Bool) × (act uv stops world ≡ ok y) × Reachable uv y
Reachable-safe_example = Reachable-safe uv uv-IsUv world stops world-Reachable stop-Allowed

Reachable-kept_example :
    (world.wrap.refs ≡ 0 → world.wrap.handle ≡ none)
    × ((h : ℕ) → world.wrap.handle ≡ some h → world.wrap.refs ≡ suc world.held)
    × (world.wrap.handle ≡ none
        → (world.wrap.refs ≡ world.held) × (uv.is_closing world.wrap.uv ≡ true))
Reachable-kept_example = Reachable-kept uv uv-IsUv world world-Reachable
