-- ===== src/Fs/Objects.antt =====
-- The objects that src/module/iotjs_module_fs.c makes for JavaScript: the stat object and what is
-- appended or returned.
use ble_central.Base.{ℕ, ◌+◌, ◌<◌, ◌≡◌, refl, arith, List, [], ◌∷◌, ◌++◌, length, some, true, ok}
use ble_central.Base.Int.{ℤ}
use ble_central.Binding.Value.{Jval}
use ble_central.Binding.Args.{Counts, acquire, Handler}
use ble_central.Binding.Balance.{filled, counts_as, occurrences, acquire_at, create-filled}
use ble_central.Binding.World.{Content, World, Invocation, copy_value, call_ok, create_object}
use ble_central.Binding.World.Calls.{
  append-filled, make_callback-filled, destroy_args-filled, with_call,
}
use ble_central.Binding.World.Fresh.{
  IsFresh, Made, create_object-Made, drop_value_at, held-fresh, IsOpen, give_back_lem,
}
use ble_central.Memory.{Allocator}
use ble_central.Memory.Laws.{IsAmple}
use ble_central.Fs.{Script, make_stat_object, append_new, return_new}

-- A new object that is appended is held by the arguments alone.
pub append_new_lem :
    (w : World) (o : World × ℕ) (c : Content) (calls : List Invocation) (n : ℕ) (ws : List Jval)
    → Made w o c calls
    → length ws < n
    → (k : Counts) × (append_new o (filled n ws)
        ≡ ok (record o.0 { counts = k }, filled n (ws ++ (Jval.object o.1 ∷ []))))
      × ((q : ℕ) → k q ≡ w.counts q + counts_as (some o.1) q)
unfolding append_new
append_new_lem w o c calls n ws m h =
    let v = Jval.object o.1 in
    let d =
      drop_value_at (record o.0 { counts = acquire o.0.counts v }) v
        (λ q. omega (arith, acquire_at o.0.counts (some o.1) q)) in
    (
      d.0,
      rw (append-filled o.0 n ws v h) (rw d.1 refl),
      λ q. omega (arith, d.2 q, acquire_at o.0.counts (some o.1) q, m.adds.at q),
    )

-- A new object that is returned is held by the frame alone.
pub return_new_lem :
    (w : World) (o : World × ℕ) (c : Content) (calls : List Invocation) (h : Handler)
    → Made w o c calls
    → IsOpen h
    → (k : Counts) × (return_new o h
        ≡ ok (record o.0 { counts = k }, record h { jret = Jval.object o.1; finished = true }))
      × ((q : ℕ) → k q ≡ w.counts q + counts_as (some o.1) q)
unfolding return_new
return_new_lem w o c calls h m free =
    let v = Jval.object o.1 in
    let d =
      drop_value_at (record o.0 { counts = acquire o.0.counts v }) v
        (λ q. omega (arith, acquire_at o.0.counts (some o.1) q)) in
    (
      d.0,
      rw (give_back_lem o.0 h v free) (rw d.1 refl),
      λ q. omega (arith, d.2 q, acquire_at o.0.counts (some o.1) q, m.adds.at q),
    )

-- The call of `_createStat`.
abbrev pub stat_call : ℕ → ℕ → Invocation
stat_call f o = record {
  callee = Jval.function f;
  this = Jval.undefined;
  arguments = Jval.object o ∷ [];
}

module _ (a : Allocator) (ample : IsAmple a) (js : Script) (f : ℕ)
    (has : js.create_stat ≡ some f) where
  pub make_stat_object-Made :
      (w : World) (s : List ℤ)
      → IsFresh w
      → 0 < w.counts f
      → (o : World × ℕ) × (make_stat_object a js w s ≡ ok o)
        × Made w o (js.stat_of s) (stat_call f w.next ∷ [])
  unfolding make_stat_object call_ok copy_value create_object
  make_stat_object-Made w s fresh held =
      let jf = Jval.function f in
      let w₁ = record w { counts = acquire w.counts jf } in
      let jstat = create_object-Made w₁ (Content.numbers s) (held-fresh w f fresh held) in
      let o = create_object w₁ (Content.numbers s) in
      let r = append_new_lem w₁ o (Content.numbers s) [] 1 [] jstat (omega arith) in
      let w₂ = record o.0 { counts = r.0 } in
      let w₃ = with_call w₂ jf Jval.undefined (Jval.object o.1 ∷ []) in
      let fresh₃ : IsFresh w₃ =
        λ q l. omega (arith, r.2 q, jstat.adds.at q, jstat.adds.fresh q l) in
      let made = create_object-Made w₃ (js.stat_of s) fresh₃ in
      let res = create_object w₃ (js.stat_of s) in
      let d =
        destroy_args-filled res.0 1 (Jval.object o.1) [] (omega arith)
          (λ q. omega (arith, made.adds.at q, r.2 q)) in
      let e =
        drop_value_at (record res.0 { counts = d.0 }) jf
          (λ q. omega (arith, d.2 q, made.adds.at q, r.2 q, acquire_at w.counts (some f) q)) in
      let total : (q : ℕ) → e.0 q ≡ w.counts q + occurrences (Jval.object res.1 ∷ []) q =
        λ q. omega (arith, e.2 q, d.2 q, made.adds.at q, r.2 q, acquire_at w.counts (some f) q) in
      (
        (record res.0 { counts = e.0 }, res.1),
        rw has (
            rw (create-filled a 1 ample (omega arith) (omega arith)) (
              rw r.1 (
                rw (make_callback-filled w₂ jf Jval.undefined 1 (Jval.object o.1 ∷ []))
                  (rw d.1 (rw e.1 refl))))),
        record {
          adds = record {
            at = total;
            fresh = λ q l. omega (arith, e.2 q, d.2 q, made.adds.fresh q l);
          };
          holds = made.holds;
          invoked = refl;
        },
      )
