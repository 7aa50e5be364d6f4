-- ===== src/Handle/Request.antt =====
-- src/iotjs_reqwrap.c: a libuv request and the JavaScript callback that waits for it.
use ble_central.Base.{ℕ, ◌≡◌, refl, arith, ==_refl, ◌==◌, Outcome, ok, ◌>>◌, assert}
use ble_central.Binding.Value.{Kind, Jval, is_kind}
use ble_central.Binding.Args.{Counts, acquire, release, identity}
use ble_central.Binding.Balance.{acquire_at, release_at}

-- `iotjs_reqwrap_t` at the address `self`; `request_data` is the field `data` of its request.
pub record Request : Type 0 where
  pub self : ℕ
  pub jcallback : Jval
  pub request : ℕ
  pub request_data : ℕ

unfoldable pub initialize : Counts → ℕ → Jval → ℕ → Outcome (Counts × Request)
initialize c self jcallback request = do
  assert (is_kind Kind.function jcallback)
  ok (
    acquire c jcallback,
    record { self = self; jcallback = jcallback; request = request; request_data = self },
  )

unfoldable pub destroy : Counts → Request → Outcome Counts
destroy c r = release c r.jcallback

unfoldable pub validate : Request → Outcome (Unit {0})
validate r = assert (r.request_data == r.self)

-- `iotjs_reqwrap_jcallback`, `iotjs_reqwrap_req` and `iotjs_reqwrap_from_request`
unfoldable pub jcallback_of : Request → Outcome Jval
jcallback_of r = do validate r; ok r.jcallback

unfoldable pub req : Request → Outcome ℕ
req r = do validate r; ok r.request

pub from_request : Request → Outcome ℕ
from_request r = do validate r; ok r.request_data

-- A request that is made for a function keeps it alive: its callback, its request and the way back
-- from the request are there when libuv is done, and destroying it gives back exactly the reference
-- that it took.
pub request_lem :
    (c : Counts) (self request o : ℕ)
    → (c' : Counts) × (c'' : Counts) × (r : Request) × (initialize c self (Jval.function o) request
        ≡ ok (c', r))
      × (jcallback_of r ≡ ok (Jval.function o))
      × (req r ≡ ok request)
      × (from_request r ≡ ok self)
      × (destroy c' r ≡ ok c'')
      × ((q : ℕ) → c'' q ≡ c q)
unfolding initialize destroy validate jcallback_of req from_request
request_lem c self request o =
    let v = Jval.function o in
    let r : Request = record {
      self = self;
      jcallback = v;
      request = request;
      request_data = self;
    } in
    let d =
      release_at (acquire c v) (identity v) (λ q. omega (arith, acquire_at c (identity v) q)) in
    (
      acquire c v,
      d.0,
      r,
      refl,
      rw (==_refl self) refl,
      rw (==_refl self) refl,
      rw (==_refl self) refl,
      d.1,
      λ q. omega (arith, d.2 q, acquire_at c (identity v) q),
    )
