-- ===== src/Fs/After.antt =====
-- `AfterAsync` and `AfterSync` of src/module/iotjs_module_fs.c.
use ble_central.Base.{
  ℕ, ◌+◌, ◌<◌, ◌≡◌, refl, ap, sym, arith, List, [], ◌∷◌, ◌++◌, some, none, true, Bool-cases, inl,
  inr, append-nil, ==_refl, Outcome, ok,
}
use ble_central.Base.Int.{ℤ, pos, ltb_ℤ}
use ble_central.Binding.Value.{Jval}
use ble_central.Binding.Args.{acquire, identity, Handler}
use ble_central.Binding.Balance.{counts_as, acquire_at, create-filled}
use ble_central.Binding.World.{Content, World, Invocation, create_object, give_back, throw_new}
use ble_central.Binding.World.Calls.{make_callback-filled, destroy_args-filled, with_call}
use ble_central.Binding.World.Fresh.{
  IsFresh, Made, create_object-Made, drop_value_at, IsOpen, give_back_lem, throw_value_lem,
}
use ble_central.Memory.{Allocator}
use ble_central.Memory.Laws.{IsAmple}
use ble_central.Handle.Request.{validate, req, jcallback_of}
use ble_central.Handle.Pending.{request_of, dispatched_at, held_one}
use ble_central.Fs.{
  FsType, Finished, Script, name_of, make_entries, after_async, return_new, return_result,
  after_sync,
}
use ble_central.Fs.Report.{
  Report, success, report, read_arguments, read_frame, read_return, error_of,
}
use ble_central.Fs.Objects.{return_new_lem, stat_call, make_stat_object-Made}
use ble_central.Fs.Told.{calls_before, calls_of_type, outcome_Told}

-- The call of the callback behind the others.
abbrev pub called_back : List Invocation → ℕ → List Jval → List Invocation
called_back calls o vs =
    calls ++ (record { callee = Jval.function o; this = Jval.undefined; arguments = vs } ∷ [])

-- What `AfterAsync` leaves: the callback has been called with arguments that read as the report, and
-- the reference to it is the only one that has been given up.
pub record Async (w : World) (o : ℕ) (r : Outcome World) (calls : List Invocation) (rep : Report)
    : Type 0 where
  pub world : World
  pub arguments : List Jval
  pub returned : r ≡ ok world
  pub invoked : world.invoked ≡ called_back (w.invoked ++ calls) o arguments
  pub reads : read_arguments world.content arguments ≡ rep
  pub counts : (q : ℕ) → world.counts q + counts_as (some o) q ≡ w.counts q

-- What `AfterSync` leaves: the frame reads as the report, and holds what it returns or throws.
pub record Sync (w : World) (r : Outcome (World × Handler)) (calls : List Invocation) (rep : Report)
    : Type 0 where
  pub world : World
  pub frame : Handler
  pub returned : r ≡ ok (world, frame)
  pub invoked : world.invoked ≡ w.invoked ++ calls
  pub reads : read_frame world.content frame ≡ rep
  pub counts : (q : ℕ) → world.counts q ≡ w.counts q + counts_as (identity frame.jret) q

module _ (a : Allocator) (ample : IsAmple a) (js : Script) (f : ℕ)
    (has : js.create_stat ≡ some f) where
  after_async-Async :
      (w : World) (self request o : ℕ) (t : FsType) (fin : Finished)
      → IsFresh w
      → 0 < w.counts f
      → 0 < w.counts o
      → Async w o
          (after_async a js w (request_of self request o) request t fin)
          (calls_before t fin f w.next)
          (report js (name_of FsType.open_file) t fin)
  unfolding after_async req jcallback_of validate
  after_async-Async w self request o t fin fresh held cb =
      let told = outcome_Told a ample js f has w t fin fresh held in
      let vs = told.first ∷ told.rest in
      let w₁ = with_call told.world (Jval.function o) Jval.undefined vs in
      let d =
        destroy_args-filled w₁ 2 told.first told.rest (omega (arith, told.short))
          (λ q. omega (arith, told.held q)) in
      let e =
        dispatched_at (record w₁ { counts = d.0 }) self request o
          (λ q. omega (arith, d.2 q, told.held q, held_one w o cb q)) in
      record {
        world = record w₁ { counts = e.0 };
        arguments = vs;
        returned = rw (==_refl self) (
            rw (==_refl request) (
              rw (create-filled a 2 ample (omega arith) (omega arith)) (
                rw told.returned (
                  rw (make_callback-filled told.world (Jval.function o) Jval.undefined 2 vs)
                    (rw d.1 e.1)))));
        invoked = ap (λ l. called_back l o vs) told.invoked;
        reads = told.reads;
        counts = λ q. omega (arith, e.2 q, d.2 q, told.held q);
      }

  plain_Sync :
      (w : World) (h : Handler) (v : Jval) (rep : Report)
      → IsOpen h
      → identity v ≡ none
      → ((content : ℕ → Content) → read_return content v ≡ rep)
      → Sync w (give_back w h v) [] rep
  plain_Sync w h v rep free none_held reads = record {
    world = record w { counts = acquire w.counts v };
    frame = record h { jret = v; finished = true };
    returned = give_back_lem w h v free;
    invoked = sym (append-nil w.invoked);
    reads = rw (free.2) (reads w.content);
    counts = λ q. acquire_at w.counts (identity v) q;
  }

  object_Sync :
      (w : World) (h : Handler) (o : World × ℕ) (c : Content) (calls : List Invocation)
      → IsOpen h
      → Made w o c calls
      → Sync w (return_new o h) calls (Report.holding c)
  object_Sync w h o c calls free m =
      let r = return_new_lem w o c calls h m free in
      record {
        world = record o.0 { counts = r.0 };
        frame = record h { jret = Jval.object o.1; finished = true };
        returned = r.1;
        invoked = m.invoked;
        reads = rw (free.2) (ap Report.holding m.holds);
        counts = r.2;
      }

  result_Sync :
      (w : World) (h : Handler) (t : FsType) (fin : Finished)
      → IsFresh w
      → 0 < w.counts f
      → IsOpen h
      → Sync w
          (return_result a js w h t fin.result fin)
          (calls_of_type t f w.next)
          (success js t fin)
  unfolding return_result make_entries
  result_Sync w h FsType.close fin fresh held free = record {
    world = w;
    frame = h;
    returned = refl;
    invoked = sym (append-nil w.invoked);
    reads = rw (free.2) (rw (free.0) refl);
    counts = λ q. rw (free.0) (omega arith);
  }
  result_Sync w h FsType.open_file fin fresh held free =
      plain_Sync w h (Jval.number fin.result) _ free refl (λ c. refl)
  result_Sync w h FsType.read fin fresh held free =
      plain_Sync w h (Jval.number fin.result) _ free refl (λ c. refl)
  result_Sync w h FsType.write fin fresh held free =
      plain_Sync w h (Jval.number fin.result) _ free refl (λ c. refl)
  result_Sync w h FsType.mkdir fin fresh held free =
      plain_Sync w h Jval.undefined _ free refl (λ c. refl)
  result_Sync w h FsType.rmdir fin fresh held free =
      plain_Sync w h Jval.undefined _ free refl (λ c. refl)
  result_Sync w h FsType.unlink fin fresh held free =
      plain_Sync w h Jval.undefined _ free refl (λ c. refl)
  result_Sync w h FsType.rename fin fresh held free =
      plain_Sync w h Jval.undefined _ free refl (λ c. refl)
  result_Sync w h FsType.scandir fin fresh held free =
      object_Sync w h (create_object w (Content.strings fin.entries)) (Content.strings fin.entries)
        [] free (create_object-Made w (Content.strings fin.entries) fresh)
  result_Sync w h FsType.stat fin fresh held free =
      let s = make_stat_object-Made a ample js f has w fin.statbuf fresh held in
      let o = object_Sync w h s.0 (js.stat_of fin.statbuf) (stat_call f w.next ∷ []) free s.2 in
      record {
        world = o.world;
        frame = o.frame;
        returned = rw s.1 o.returned;
        invoked = o.invoked;
        reads = o.reads;
        counts = o.counts;
      }

  error_Sync :
      (w : World) (h : Handler) (t : FsType) (e : ℤ)
      → IsFresh w
      → IsOpen h
      → Sync w (throw_new w h (Content.uv_error e (name_of t))) [] (Report.failed e (name_of t))
  unfolding throw_new
  error_Sync w h t e fresh free =
      let c = Content.uv_error e (name_of t) in
      let o = create_object w c in
      let m = create_object-Made w c fresh in
      let v = Jval.object o.1 in
      let d =
        drop_value_at (record o.0 { counts = acquire o.0.counts v }) v
          (λ q. omega (arith, acquire_at o.0.counts (some o.1) q)) in
      record {
        world = record o.0 { counts = d.0 };
        frame = record h { jret = v; is_error = true; finished = true };
        returned = rw (throw_value_lem o.0 h v free) (rw d.1 refl);
        invoked = m.invoked;
        reads = ap error_of m.holds;
        counts = λ q. omega (arith, d.2 q, acquire_at o.0.counts (some o.1) q, m.adds.at q);
      }

  after_sync-Sync :
      (w : World) (h : Handler) (t : FsType) (fin : Finished)
      → IsFresh w
      → 0 < w.counts f
      → IsOpen h
      → Sync w
          (after_sync a js w h t fin.result fin)
          (calls_before t fin f w.next)
          (report js (name_of t) t fin)
  unfolding after_sync
  after_sync-Sync w h t fin fresh held free = elim (Bool-cases (ltb_ℤ fin.result (pos 0))) [
    | inl bad ↦ rw bad (error_Sync w h t fin.result fresh free)
    | inr good ↦ rw good (result_Sync w h t fin fresh held free)
  ]

  -- A finished call, for an allocator with room, a module whose `_createStat` is a function that is
  -- held, and a world in which objects to come have no references: for each of the ten calls, with
  -- any result, `AfterAsync` of a request whose callback is held, and `AfterSync` in a frame that has
  -- returned nothing yet, both succeed. They tell the same success, and a failure with the same error
  -- number, which `AfterSync` gives the name of the call and `AfterAsync` the name `open` whatever the
  -- call: the one by a last call of the callback, the other by what it returns or throws. The one
  -- gives up the reference to the callback, the other takes one to what the frame holds, and no other
  -- count changes.
  pub after_lem :
      (w : World) (self request o : ℕ) (h : Handler) (t : FsType) (fin : Finished)
      → IsFresh w
      → 0 < w.counts f
      → 0 < w.counts o
      → IsOpen h
      → Async w o
          (after_async a js w (request_of self request o) request t fin)
          (calls_before t fin f w.next)
          (report js (name_of FsType.open_file) t fin)
        × Sync w
            (after_sync a js w h t fin.result fin)
            (calls_before t fin f w.next)
            (report js (name_of t) t fin)
  after_lem w self request o h t fin fresh held cb free = (
    after_async-Async w self request o t fin fresh held cb,
    after_sync-Sync w h t fin fresh held free,
  )
