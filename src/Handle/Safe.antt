-- ===== src/Handle/Safe.antt =====
-- src/module/iotjs_module_timer.c on src/iotjs_handlewrap.c: no order of actions breaks a timer.
use ble_central.Base.{
  ℕ, suc, ◌≡◌, inl, inr, refl, arith, true, false, [], none, some, Option-cases, ok,
}
use ble_central.Handle.{Uv, Wrap, initialize}
use ble_central.Handle.Timer.{create, construct}
use ble_central.Handle.Life.{
  IsUv, World, Action, hold, drop_ref, stops, fires, closed, collected, starts, Allowed, act,
  Reachable, made, acted, IsWorld,
}
use ble_central.Handle.Actions.{
  validate_lem, jobject_lem, not-none, Acted, hold-Acted, drop_ref-Acted, starts-Acted, stops-Acted,
  fires-Acted, closed-Acted, collected-Acted,
}

module _ {H : Type 0} (u : Uv H) (laws : IsUv u) where
  -- Whatever JavaScript, the event loop and the collector are allowed to do to a valid timer succeeds
  -- and leaves it valid.
  act-Acted : (c : Action) (x : World H) → IsWorld u x → Allowed u c x → Acted u (act u c x)
  unfolding Allowed
  act-Acted hold x v a = hold-Acted u laws x v
  act-Acted drop_ref x v a = drop_ref-Acted u laws x v a
  act-Acted (starts t r) x v a =
      let h = not-none x.wrap.handle a.1 in starts-Acted u laws x v t r h.0 h.1
  act-Acted stops x v a = let h = not-none x.wrap.handle a.1 in stops-Acted u laws x v h.0 h.1
  act-Acted fires x v a = fires-Acted u laws x v a
  act-Acted closed x v a = let h = not-none x.wrap.handle a.0 in closed-Acted u laws x v h.0 h.1 a.1
  act-Acted collected x v a = collected-Acted u laws x v a.0

  abbrev pub fresh : ℕ → ℕ → ℕ → ℕ → Wrap H
  fresh self jtimer n handle = record {
    self = self;
    jobject = jtimer;
    native = some self;
    refs = suc n;
    handle = some handle;
    on_close_cb = none;
    handle_data = self;
    uv = u.init;
    freed = false;
    calls = [];
  }

  -- `new Timer()` succeeds.
  pub create_lem :
      (self jtimer n handle : ℕ)
      → construct u self jtimer n handle ≡ ok (fresh self jtimer n handle)
  unfolding construct create initialize
  create_lem self jtimer n handle =
      rw (validate_lem (fresh self jtimer n handle) refl refl handle refl)
        (rw (jobject_lem (fresh self jtimer n handle) refl refl handle refl) refl)

  create_World :
      (self jtimer n handle : ℕ) (w : Wrap H)
      → construct u self jtimer n handle ≡ ok w
      → IsWorld u (record { wrap = w; held = n })
  create_World self jtimer n handle w e =
      let f = fresh self jtimer n handle in
      let q : f ≡ w = cc (create_lem self jtimer n handle, e) in
      rw⁻¹ q (record {
        native = refl;
        linked = refl;
        opened = λ h e. refl;
        shut = λ m. absurd (some_none m);
      })
    where
      some_none : some handle ≡ none → ⊥
      some_none p = cc

  pub Reachable-IsWorld : (x : World H) → Reachable u x → IsWorld u x
  Reachable-IsWorld _ (made self jtimer n handle w e) = create_World self jtimer n handle w e
  Reachable-IsWorld _ (acted x y c r a e) =
      let d = act-Acted c x (Reachable-IsWorld x r) a in
      let q : d.after ≡ y = cc (d.returned, e) in rw q at d.valid

  -- In every state that a new timer can come to, each action that is allowed succeeds, if
  -- `uv_close` makes a handle closing: no assertion of the wrapper fails, among them the one of
  -- its finaliser, and no freed or NULL pointer is used; the state after it is one of these
  -- again.
  pub Reachable-safe :
      (x : World H) (c : Action)
      → Reachable u x
      → Allowed u c x
      → (y : World H) × (act u c x ≡ ok y) × Reachable u y
  Reachable-safe x c r a =
      let d = act-Acted c x (Reachable-IsWorld x r) a in
      (d.after, d.returned, acted x d.after c r a d.returned)

  -- In every state that a new timer can come to, if `uv_close` makes a handle closing: an object
  -- without references has a closed handle, an open handle holds one reference more than
  -- JavaScript, and a closed one holds none and is closing for good.
  pub Reachable-kept :
      (x : World H)
      → Reachable u x
      → (x.wrap.refs ≡ 0 → x.wrap.handle ≡ none)
        × ((h : ℕ) → x.wrap.handle ≡ some h → x.wrap.refs ≡ suc x.held)
        × (x.wrap.handle ≡ none → (x.wrap.refs ≡ x.held) × (u.is_closing x.wrap.uv ≡ true))
  Reachable-kept x r =
      let v = Reachable-IsWorld x r in
      (
        (λ e. elim (Option-cases x.wrap.handle) [
          | inl n ↦ n
          | inr h ↦ absurd (omega (arith, v.opened h.0 h.1))
        ]),
        v.opened,
        v.shut,
      )
