-- ===== src/Handle/Pending.antt =====
-- The request wrappers of the modules on src/iotjs_reqwrap.c, on the objects of `Binding.World`.
use ble_central.Base.{
  ℕ, ◌+◌, ◌≤◌, ◌<◌, ◌≡◌, refl, ap, arith, ◌==◌, ==_iff, Bool-cases, inl, inr, some, Outcome, ok,
  ◌>>=◌,
}
use ble_central.Binding.Args.{Counts, acquire}
use ble_central.Binding.Balance.{counts_as, release_at}
use ble_central.Binding.Value.{Jval}
use ble_central.Binding.World.{World}
use ble_central.Handle.Request.{Request, initialize, destroy}

-- `iotjs_*_reqwrap_create`: the wrapper is at `self`, with its libuv request at `request`.
unfoldable pub create_request : World → ℕ → ℕ → Jval → Outcome (World × Request)
create_request w self request jcallback = do
  r ← initialize w.counts self jcallback request
  ok (record w { counts = r.0 }, r.1)

-- `iotjs_*_reqwrap_dispatched`
unfoldable pub dispatched : World → Request → Outcome World
dispatched w r = do c ← destroy w.counts r; ok (record w { counts = c })

-- A request of a callback `o`, as its wrapper was made.
abbrev pub request_of : ℕ → ℕ → ℕ → Request
request_of self request o = record {
  self = self;
  jcallback = Jval.function o;
  request = request;
  request_data = self;
}

pub dispatched_at :
    (w : World) (self request o : ℕ)
    → ((q : ℕ) → counts_as (some o) q ≤ w.counts q)
    → (c : Counts) × (dispatched w (request_of self request o) ≡ ok (record w { counts = c }))
      × ((q : ℕ) → c q + counts_as (some o) q ≡ w.counts q)
unfolding dispatched destroy
dispatched_at w self request o h = let r = release_at w.counts (some o) h in (r.0, rw r.1 refl, r.2)

pub held_one : (w : World) (o : ℕ) → 0 < w.counts o → (q : ℕ) → counts_as (some o) q ≤ w.counts q
held_one w o h q = elim (Bool-cases (q == o)) [
  | inl t ↦ rw t (let same : q ≡ o = (==_iff q o).0 t in omega (arith, ap w.counts same))
  | inr e ↦ rw e (omega arith)
]

pub create_request-request_of :
    (w : World) (self request o : ℕ)
    → create_request w self request (Jval.function o)
      ≡ ok (record w { counts = acquire w.counts (Jval.function o) }, request_of self request o)
unfolding create_request initialize
create_request-request_of w self request o = refl
