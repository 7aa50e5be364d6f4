-- ===== src/Handle/Life.antt =====
-- The life of a timer of src/module/iotjs_module_timer.c and its object: every order in which
-- JavaScript, the event loop and the garbage collector can act on it.
use ble_central.Base.{
  ℕ, suc, ◌-◌, ◌<◌, ◌≡◌, ◌≢◌, true, false, [], ◌∷◌, none, some, Outcome, ok, ◌>>=◌,
}
use ble_central.Base.Int.{ℤ}
use ble_central.Binding.Value.{Jval}
use ble_central.Handle.{Uv, Wrap, destroy, release_ref, on_handle_closed}
use ble_central.Handle.Timer.{construct, on_timeout, js_start, js_stop}

-- What the wrappers rely on libuv for: a handle that `uv_close` was called for is closing.
pub record IsUv {H : Type 0} (u : Uv H) : Type 0 where
  pub closes : (h : H) → u.is_closing (u.close h) ≡ true

-- A wrapper and the number of references that JavaScript holds to its object.
pub record World (H : Type 0) : Type 0 where
  pub wrap : Wrap H
  pub held : ℕ

-- Who acts next: JavaScript copies or drops a reference, or calls `start` or `stop`; the loop runs
-- the timer or its close callback; the collector frees the object.
pub data Action : Type 0 where
  hold drop_ref stops fires closed collected : Action
  starts : ℤ → ℤ → Action

-- `iotjs_jval_create_copied` of the object.
abbrev pub acquire_ref : {H : Type 0} → Wrap H → Wrap H
acquire_ref w = record w { refs = suc w.refs }

module _ {H : Type 0} (u : Uv H) where
  -- When it can: JavaScript needs a reference of its own, and calls `start` and `stop` only before
  -- the handle is closed, as src/js/timers.js does; a timer runs unless it is closing, and is closed
  -- once; what is collected has no reference.
  unfoldable pub Allowed : Action → World H → Type 0
  Allowed hold x = 0 < x.held
  Allowed drop_ref x = 0 < x.held
  Allowed (starts t r) x = (0 < x.held) × (x.wrap.handle ≢ none)
  Allowed stops x = (0 < x.held) × (x.wrap.handle ≢ none)
  Allowed fires x = u.is_closing x.wrap.uv ≡ false
  Allowed closed x = (x.wrap.handle ≢ none) × (u.is_closing x.wrap.uv ≡ true)
  Allowed collected x = (x.wrap.refs ≡ 0) × (x.wrap.freed ≡ false)

  unfoldable pub act : Action → World H → Outcome (World H)
  act hold x = ok (record { wrap = acquire_ref x.wrap; held = suc x.held })
  act drop_ref x = do w ← release_ref x.wrap; ok (record { wrap = w; held = x.held - 1 })
  act (starts t r) x = do
    w ← js_start u x.wrap (Jval.object x.wrap.jobject) (Jval.number t ∷ Jval.number r ∷ [])
    ok (record { wrap = w.0; held = x.held })
  act stops x = do
    w ← js_stop u x.wrap (Jval.object x.wrap.jobject)
    ok (record { wrap = w.0; held = x.held })
  act fires x = do w ← on_timeout u x.wrap; ok (record { wrap = w; held = x.held })
  act closed x = do w ← on_handle_closed x.wrap; ok (record { wrap = w; held = x.held })
  act collected x = do w ← destroy x.wrap; ok (record { wrap = w; held = x.held })

  -- A timer that JavaScript has just made, holding `n` references, and what can come of it.
  pub data Reachable : World H → Type 0 where
    made :
        (self jtimer n handle : ℕ) (w : Wrap H)
        → construct u self jtimer n handle ≡ ok w
        → Reachable (record { wrap = w; held = n })
    acted : (x y : World H) (c : Action) → Reachable x → Allowed c x → act c x ≡ ok y → Reachable y

  -- The object, the wrapper and the handle point at each other; an open handle holds a reference, and
  -- a closed one is closing for good.
  pub record IsWorld (x : World H) : Type 0 where
    pub native : x.wrap.native ≡ some x.wrap.self
    pub linked : x.wrap.handle_data ≡ x.wrap.self
    pub opened : (h : ℕ) → x.wrap.handle ≡ some h → x.wrap.refs ≡ suc x.held
    pub shut : x.wrap.handle ≡ none → (x.wrap.refs ≡ x.held) × (u.is_closing x.wrap.uv ≡ true)
