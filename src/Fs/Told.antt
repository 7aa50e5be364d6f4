-- ===== src/Fs/Told.antt =====
-- The arguments that `AfterAsync` of src/module/iotjs_module_fs.c makes for a callback.
use ble_central.Base.{
  ℕ, ◌+◌, ◌≤◌, ◌<◌, ◌≡◌, refl, ap, sym, arith, List, [], ◌∷◌, ◌++◌, length, some, none, Bool-cases,
  inl, inr, if◌then◌else◌, append-nil, Outcome, ok,
}
use ble_central.Base.Int.{ℤ, pos, ltb_ℤ}
use ble_central.Binding.Value.{Jval}
use ble_central.Binding.Args.{Args, acquire, identity}
use ble_central.Binding.Balance.{filled, occurrences, acquire_at}
use ble_central.Binding.World.{Content, World, Invocation, append, create_object}
use ble_central.Binding.World.Calls.{append-filled}
use ble_central.Binding.World.Fresh.{IsFresh, Made, create_object-Made}
use ble_central.Memory.{Allocator}
use ble_central.Memory.Laws.{IsAmple}
use ble_central.Fs.{
  FsType, Finished, Script, name_of, make_entries, append_new, append_result, append_outcome,
}
use ble_central.Fs.Report.{Report, success, report, read_arguments, error_of}
use ble_central.Fs.Objects.{append_new_lem, stat_call, make_stat_object-Made}

-- The calls that are made before the callback.
abbrev pub calls_of_type : FsType → ℕ → ℕ → List Invocation
calls_of_type FsType.stat f o = stat_call f o ∷ []
calls_of_type _ f o = []

abbrev pub calls_before : FsType → Finished → ℕ → ℕ → List Invocation
calls_before t fin f o = if ltb_ℤ fin.result (pos 0) then [] else calls_of_type t f o

-- The arguments that are made: references to all of them are held, and they read as the report.
pub record Told (w : World) (r : Outcome (World × Args)) (calls : List Invocation) (rep : Report)
    : Type 0 where
  pub world : World
  pub first : Jval
  pub rest : List Jval
  pub returned : r ≡ ok (world, filled 2 (first ∷ rest))
  pub short : length rest ≤ 1
  pub held : (q : ℕ) → world.counts q ≡ w.counts q + occurrences (first ∷ rest) q
  pub reads : read_arguments world.content (first ∷ rest) ≡ rep
  pub invoked : world.invoked ≡ w.invoked ++ calls

module _ (a : Allocator) (ample : IsAmple a) (js : Script) (f : ℕ)
    (has : js.create_stat ≡ some f) where
  plain_Told :
      (w : World) (v : Jval) (rep : Report)
      → identity v ≡ none
      → ((content : ℕ → Content) → read_arguments content (Jval.null ∷ v ∷ []) ≡ rep)
      → Told w (append w (filled 2 (Jval.null ∷ [])) v) [] rep
  plain_Told w v rep free reads = record {
    world = record w { counts = acquire w.counts v };
    first = Jval.null;
    rest = v ∷ [];
    returned = append-filled w 2 (Jval.null ∷ []) v (omega arith);
    short = omega arith;
    held = λ q. omega (arith, acquire_at w.counts (identity v) q);
    reads = reads w.content;
    invoked = sym (append-nil w.invoked);
  }

  object_Told :
      (w : World) (o : World × ℕ) (c : Content) (calls : List Invocation)
      → Made w o c calls
      → Told w (append_new o (filled 2 (Jval.null ∷ []))) calls (Report.holding c)
  object_Told w o c calls m =
      let r = append_new_lem w o c calls 2 (Jval.null ∷ []) m (omega arith) in
      record {
        world = record o.0 { counts = r.0 };
        first = Jval.null;
        rest = Jval.object o.1 ∷ [];
        returned = r.1;
        short = omega arith;
        held = λ q. omega (arith, r.2 q);
        reads = ap Report.holding m.holds;
        invoked = m.invoked;
      }

  result_Told :
      (w : World) (t : FsType) (fin : Finished)
      → IsFresh w
      → 0 < w.counts f
      → Told w
          (append_result a js w (filled 2 (Jval.null ∷ [])) t fin)
          (calls_of_type t f w.next)
          (success js t fin)
  unfolding append_result make_entries
  result_Told w FsType.close fin fresh held = record {
    world = w;
    first = Jval.null;
    rest = [];
    returned = refl;
    short = omega arith;
    held = λ q. omega arith;
    reads = refl;
    invoked = sym (append-nil w.invoked);
  }
  result_Told w FsType.open_file fin fresh held =
      plain_Told w (Jval.number fin.result) _ refl (λ c. refl)
  result_Told w FsType.read fin fresh held =
      plain_Told w (Jval.number fin.result) _ refl (λ c. refl)
  result_Told w FsType.write fin fresh held =
      plain_Told w (Jval.number fin.result) _ refl (λ c. refl)
  result_Told w FsType.mkdir fin fresh held = plain_Told w Jval.null _ refl (λ c. refl)
  result_Told w FsType.rmdir fin fresh held = plain_Told w Jval.null _ refl (λ c. refl)
  result_Told w FsType.unlink fin fresh held = plain_Told w Jval.null _ refl (λ c. refl)
  result_Told w FsType.rename fin fresh held = plain_Told w Jval.null _ refl (λ c. refl)
  result_Told w FsType.scandir fin fresh held =
      object_Told w (create_object w (Content.strings fin.entries)) (Content.strings fin.entries) []
        (create_object-Made w (Content.strings fin.entries) fresh)
  result_Told w FsType.stat fin fresh held =
      let s = make_stat_object-Made a ample js f has w fin.statbuf fresh held in
      let o = object_Told w s.0 (js.stat_of fin.statbuf) (stat_call f w.next ∷ []) s.2 in
      record {
        world = o.world;
        first = o.first;
        rest = o.rest;
        returned = rw s.1 o.returned;
        short = o.short;
        held = o.held;
        reads = o.reads;
        invoked = o.invoked;
      }

  error_Told :
      (w : World) (e : ℤ)
      → IsFresh w
      → Told w
          (append_new
            (create_object w (Content.uv_error e (name_of FsType.open_file)))
            (filled 2 []))
          []
          (Report.failed e (name_of FsType.open_file))
  error_Told w e fresh =
      let c = Content.uv_error e (name_of FsType.open_file) in
      let o = create_object w c in
      let m = create_object-Made w c fresh in
      let r = append_new_lem w o c [] 2 [] m (omega arith) in
      record {
        world = record o.0 { counts = r.0 };
        first = Jval.object o.1;
        rest = [];
        returned = r.1;
        short = omega arith;
        held = λ q. omega (arith, r.2 q);
        reads = ap error_of m.holds;
        invoked = m.invoked;
      }

  pub outcome_Told :
      (w : World) (t : FsType) (fin : Finished)
      → IsFresh w
      → 0 < w.counts f
      → Told w
          (append_outcome a js w (filled 2 []) t fin)
          (calls_before t fin f w.next)
          (report js (name_of FsType.open_file) t fin)
  unfolding append_outcome
  outcome_Told w t fin fresh held = elim (Bool-cases (ltb_ℤ fin.result (pos 0))) [
    | inl bad ↦ rw bad (error_Told w fin.result fresh)
    | inr good ↦
        rw good (rw (append-filled w 2 [] Jval.null (omega arith)) (result_Told w t fin fresh held))
  ]
