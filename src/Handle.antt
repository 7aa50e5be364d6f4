-- ===== src/Handle.antt =====
-- src/iotjs_objectwrap.c and src/iotjs_handlewrap.c: a wrapper that ties a libuv handle to a
-- JavaScript object, with the two of them. libuv is a parameter.
pub mod Timer
pub mod Life
pub mod Actions
pub mod Safe
pub mod Request
pub mod Pending
pub mod Notify
pub mod Tests
use ble_central.Base.{
  ℕ, zero, suc, Bool, true, false, List, [], ◌∷◌, ◌++◌, Option, none, some, ◌==◌, if◌then◌else◌,
  not, Outcome, ok, fault, Fault, ◌>>=◌, ◌>>◌, assert, or_fault,
}
use ble_central.Base.Int.{ℤ}

-- What the wrappers call of libuv, on the state `H` of a handle: a new timer, `uv_is_closing`,
-- `uv_close` and `uv_timer_start` with its result.
pub record Uv (H : Type 0) : Type 0 where
  pub init : H
  pub is_closing : H → Bool
  pub close : H → H
  pub start : H → ℤ → ℤ → H × ℤ

-- The calls made back: a close handler, or `handleTimeout` of the object.
pub data Call : Type 0 where
  on_close : ℕ → Call
  handle_timeout : Call

-- `iotjs_handlewrap_t` at the address `self`; `native` and `refs` are the native handle and the
-- reference count of its object, `handle_data` and `uv` are `data` and the rest of the libuv handle.
pub record Wrap (H : Type 0) : Type 0 where
  pub self : ℕ
  pub jobject : ℕ
  pub native : Option ℕ
  pub refs : ℕ
  pub handle : Option ℕ
  pub on_close_cb : Option ℕ
  pub handle_data : ℕ
  pub uv : H
  pub freed : Bool
  pub calls : List Call

abbrev pub with_close_call : List Call → Option ℕ → List Call
with_close_call calls none = calls
with_close_call calls (some cb) = calls ++ (on_close cb ∷ [])

module _ {H : Type 0} where
  -- `iotjs_jobjectwrap_jobject`
  unfoldable pub jobject_of : Wrap H → Outcome ℕ
  jobject_of w = do p ← or_fault Fault.aborted w.native; assert (p == w.self); ok w.jobject

  -- `iotjs_handlewrap_validate`: it reads through the handle.
  unfoldable pub validate : Wrap H → Outcome (Unit {0})
  validate w = do
    h ← or_fault Fault.null_pointer w.handle
    assert (w.handle_data == w.self)
    o ← jobject_of w
    p ← or_fault Fault.aborted w.native
    assert (p == w.self)

  -- `iotjs_handlewrap_initialize` for an object with `refs` references, which takes one more.
  unfoldable pub initialize : Uv H → ℕ → ℕ → ℕ → ℕ → Outcome (Wrap H)
  initialize u self jobject refs handle = do
    let w : Wrap H = record {
      self = self;
      jobject = jobject;
      native = some self;
      refs = suc refs;
      handle = some handle;
      on_close_cb = none;
      handle_data = self;
      uv = u.init;
      freed = false;
      calls = [];
    }
    validate w
    ok w

  -- `iotjs_handlewrap_destroy`
  pub destroy : Wrap H → Outcome (Wrap H)
  destroy w = do
    assert (elim w.handle [ none ↦ true | some h ↦ false ])
    ok (record w { freed = true })

  -- `iotjs_handlewrap_get_uv_handle`
  unfoldable pub get_uv_handle : Wrap H → Outcome ℕ
  get_uv_handle w = do validate w; or_fault Fault.null_pointer w.handle

  -- `iotjs_handlewrap_jobject`
  unfoldable pub jobject : Wrap H → Outcome ℕ
  jobject w = do validate w; jobject_of w

  -- `iotjs_jval_destroy` of the object.
  unfoldable pub release_ref : Wrap H → Outcome (Wrap H)
  release_ref w = elim w.refs [ zero ↦ fault Fault.dangling | suc n ↦ ok (record w { refs = n }) ]

  -- `iotjs_handlewrap_on_close`: the call of `on_close_cb`, if there is one, comes first.
  unfoldable pub handle_on_close : Wrap H → Outcome (Wrap H)
  handle_on_close w = do
    let w' = record w { calls = with_close_call w.calls w.on_close_cb; handle = none }
    o ← jobject_of w'
    release_ref w'

  -- `iotjs_on_handle_closed`, which libuv calls for a handle that was closed.
  unfoldable pub on_handle_closed : Wrap H → Outcome (Wrap H)
  on_handle_closed w = do validate w; handle_on_close w

  -- `iotjs_handlewrap_close`; a handle that is NULL or closing is left alone.
  unfoldable pub close : Uv H → Wrap H → Option ℕ → Wrap H
  close u w cb = elim w.handle [
    | none ↦ w
    | some h ↦
        if not (u.is_closing w.uv) then record w { on_close_cb = cb; uv = u.close w.uv } else w
  ]
