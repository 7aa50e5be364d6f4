-- ===== src/Net/Tcp/Accept.antt =====
-- `OnConnection` of src/module/iotjs_module_tcp.c on each of its branches.
use ble_central.Base.{
  ℕ, ◌+◌, ◌≤◌, ◌<◌, ◌≡◌, refl, ◌∙◌, arith, List, [], ◌∷◌, ◌++◌, length, some, true, false,
  Bool-cases, inl, inr, if◌then◌else◌, append_assoc, Outcome, ok, ◌>>=◌,
}
use ble_central.Base.Int.{ℤ, pos, ◌==ℤ◌}
use ble_central.Binding.Value.{Jval}
use ble_central.Binding.Args.{Counts, acquire}
use ble_central.Binding.Balance.{filled, counts_as, occurrences, create-filled, acquire_at}
use ble_central.Binding.World.{
  Content, World, Invocation, create_object, copy_value, call_ok, make_callback, read_slots, append,
  drop_value,
}
use ble_central.Binding.World.Calls.{
  append-filled, make_callback-filled, destroy_args-filled, with_call,
}
use ble_central.Binding.World.Fresh.{IsFresh, create_object-Made, drop_value_at, held-fresh}
use ble_central.Memory.{Allocator}
use ble_central.Memory.Laws.{IsAmple}
use ble_central.Handle.{Wrap, jobject}
use ble_central.Net.Tcp.{Uv, Script, from_handle, tcp_handle}
use ble_central.Net.Tcp.Callbacks.{call_onconnection, on_connection}
use ble_central.Net.Life.{IsSocket}

abbrev pub call_of : ℕ → Jval → List Jval → Invocation
call_of f this vs = record { callee = Jval.function f; this = this; arguments = vs }

-- A callback makes the calls, and references to `held` are kept that were not held before.
abbrev pub Leaves : World → List Invocation → (ℕ → ℕ) → Outcome World → Type 0
Leaves w calls held r =
    (w' : World) × (r ≡ ok w')
    × (w'.invoked ≡ w.invoked ++ calls)
    × ((q : ℕ) → w'.counts q ≡ w.counts q + held q)

call_onconnection_lem :
    (f jtcp : ℕ) (v : World) (x : Jval) (xs : List Jval)
    → length xs ≤ 1
    → ((q : ℕ) → counts_as (some f) q + occurrences (x ∷ xs) q ≤ v.counts q)
    → (k : Counts) × (call_onconnection v f jtcp (filled 2 (x ∷ xs))
        ≡ ok (record v {
          counts = k;
          invoked = v.invoked ++ (call_of f (Jval.object jtcp) (x ∷ xs) ∷ []);
        }))
      × ((q : ℕ) → k q + counts_as (some f) q + occurrences (x ∷ xs) q ≡ v.counts q)
unfolding call_onconnection
call_onconnection_lem f jtcp v x xs short enough =
    let v₁ = with_call v (Jval.function f) (Jval.object jtcp) (x ∷ xs) in
    let d = drop_value_at v₁ (Jval.function f) (λ q. omega (arith, enough q)) in
    let e =
      destroy_args-filled (record v₁ { counts = d.0 }) 2 x xs (omega arith)
        (λ q. omega (arith, enough q, d.2 q)) in
    (
      e.0,
      rw (make_callback-filled v (Jval.function f) (Jval.object jtcp) 2 (x ∷ xs)) (rw d.1 e.1),
      λ q. omega (arith, e.2 q, d.2 q),
    )

module _ {H : Type 0} (uv : Uv H) (js : Script H) (f c jtcp : ℕ) (w : World) (t : Wrap H) where
  -- The calls of `OnConnection`, and the references that it keeps.
  abbrev pub calls_made : ℤ → List Invocation
  calls_made status =
      if status ==ℤ pos 0
      then if (uv.accept t.uv (js.client w.next).uv).2 ==ℤ pos 0
        then call_of c Jval.undefined []
          ∷ call_of f (Jval.object jtcp) (Jval.number status ∷ Jval.object w.next ∷ [])
          ∷ []
        else call_of c Jval.undefined [] ∷ []
      else call_of f (Jval.object jtcp) (Jval.number status ∷ []) ∷ []

  abbrev pub kept : ℤ → ℕ → ℕ
  kept status q =
      if status ==ℤ pos 0
      then if (uv.accept t.uv (js.client w.next).uv).2 ==ℤ pos 0
        then 0
        else counts_as (some f) q + counts_as (some c) q + counts_as (some w.next) q
      else 0

module _ (a : Allocator) (ample : IsAmple a) {H : Type 0} (uv : Uv H) (js : Script H) (f c jtcp : ℕ)
    (has_f : js.onconnection ≡ some f) (has_c : js.create_tcp ≡ some c) (w : World) (t : Wrap H)
    (fresh : IsFresh w) (held_f : 0 < w.counts f) (held_c : 0 < w.counts c)
    (valid : from_handle uv t ≡ ok tt) (this : jobject t ≡ ok jtcp)
    (client : IsSocket (js.client w.next)) where
  failed-Leaves :
      (status : ℤ)
      → (status ==ℤ pos 0) ≡ false
      → Leaves w
          (call_of f (Jval.object jtcp) (Jval.number status ∷ []) ∷ [])
          (λ q. 0)
          (on_connection a uv js w t status)
  unfolding on_connection copy_value
  failed-Leaves status bad =
      let v = record w { counts = acquire w.counts (Jval.function f) } in
      let r =
        call_onconnection_lem f jtcp v (Jval.number status) [] (omega arith)
          (λ q. omega (arith, acquire_at w.counts (some f) q)) in
      (
        record w {
          counts = r.0;
          invoked = w.invoked ++ (call_of f (Jval.object jtcp) (Jval.number status ∷ []) ∷ []);
        },
        rw valid (
            rw this (
              rw has_f (
                rw (create-filled a 2 ample (omega arith) (omega arith))
                  (rw (append-filled v 2 [] (Jval.number status) (omega arith)) (rw bad r.1))))),
        refl,
        λ q. omega (arith, r.2 q, acquire_at w.counts (some f) q),
      )

  -- The world in which the client has been made.
  abbrev with_client : World
  with_client =
      let v = record w {
        counts = acquire (acquire w.counts (Jval.function f)) (Jval.function c);
      } in
      (create_object (with_call v (Jval.function c) Jval.undefined []) Content.plain).0

  with_client_at :
      (q : ℕ)
      → with_client.counts q
        ≡ w.counts q + counts_as (some f) q + counts_as (some c) q + counts_as (some w.next) q
  unfolding create_object
  with_client_at q =
      let v = record w {
        counts = acquire (acquire w.counts (Jval.function f)) (Jval.function c);
      } in
      let v₁ = with_call v (Jval.function c) Jval.undefined [] in
      let fresh₁ = held-fresh w f fresh held_f in
      let fresh₂ =
        held-fresh (record w { counts = acquire w.counts (Jval.function f) }) c fresh₁
          (omega (arith, acquire_at w.counts (some f) c)) in
      let made = create_object-Made v₁ Content.plain fresh₂ in
      omega (
        arith,
        made.adds.at q,
        acquire_at w.counts (some f) q,
        acquire_at (acquire w.counts (Jval.function f)) (some c) q,
      )

  refused-Leaves :
      (status : ℤ)
      → (status ==ℤ pos 0) ≡ true
      → (uv.accept t.uv (js.client w.next).uv).2 ==ℤ pos 0 ≡ false
      → Leaves w
          (call_of c Jval.undefined [] ∷ [])
          (λ q. counts_as (some f) q + counts_as (some c) q + counts_as (some w.next) q)
          (on_connection a uv js w t status)
  unfolding on_connection copy_value call_ok make_callback read_slots create_object tcp_handle
  refused-Leaves status zero_status bad =
      let v = record w { counts = acquire w.counts (Jval.function f) } in
      (
        with_client,
        rw valid (
            rw this (
              rw has_f (
                rw (create-filled a 2 ample (omega arith) (omega arith)) (
                  rw (append-filled v 2 [] (Jval.number status) (omega arith))
                    (rw zero_status (rw has_c (rw (client.2) (rw bad refl)))))))),
        refl,
        λ q. omega (arith, with_client_at q),
      )

  -- What is left to do once the client is accepted.
  abbrev hand_over : ℤ → Outcome World
  hand_over status = do
    s ← append with_client (filled 2 (Jval.number status ∷ [])) (Jval.object w.next)
    w₁ ← drop_value s.0 (Jval.function c)
    w₂ ← drop_value w₁ (Jval.object w.next)
    call_onconnection w₂ f jtcp s.1

  accepted-hand_over :
      (status : ℤ)
      → (status ==ℤ pos 0) ≡ true
      → (uv.accept t.uv (js.client w.next).uv).2 ==ℤ pos 0 ≡ true
      → on_connection a uv js w t status ≡ hand_over status
  unfolding on_connection copy_value call_ok make_callback read_slots create_object tcp_handle
  accepted-hand_over status zero_status good =
      let v = record w { counts = acquire w.counts (Jval.function f) } in
      rw valid (
        rw this (
          rw has_f (
            rw (create-filled a 2 ample (omega arith) (omega arith)) (
              rw (append-filled v 2 [] (Jval.number status) (omega arith))
                (rw zero_status (rw has_c (rw (client.2) (rw good refl))))))))

  accepted-Leaves :
      (status : ℤ)
      → (status ==ℤ pos 0) ≡ true
      → (uv.accept t.uv (js.client w.next).uv).2 ==ℤ pos 0 ≡ true
      → Leaves w
          (call_of c Jval.undefined []
            ∷ call_of f (Jval.object jtcp) (Jval.number status ∷ Jval.object w.next ∷ [])
            ∷ [])
          (λ q. 0)
          (on_connection a uv js w t status)
  unfolding create_object
  accepted-Leaves status zero_status good =
      let v = record w { counts = acquire w.counts (Jval.function f) } in
      let jclient = Jval.object w.next in
      let x = record with_client { counts = acquire with_client.counts jclient } in
      let at_x : (q : ℕ)
          → x.counts q
            ≡ w.counts q
              + counts_as (some f) q
              + counts_as (some c) q
              + counts_as (some w.next) q
              + counts_as (some w.next) q =
        λ q. omega (arith, acquire_at with_client.counts (some w.next) q, with_client_at q) in
      let d = drop_value_at x (Jval.function c) (λ q. omega (arith, at_x q)) in
      let e =
        drop_value_at (record x { counts = d.0 }) jclient (λ q. omega (arith, at_x q, d.2 q)) in
      let y = record x { counts = e.0 } in
      let r =
        call_onconnection_lem f jtcp y (Jval.number status) (jclient ∷ []) (omega arith)
          (λ q. omega (arith, at_x q, d.2 q, e.2 q)) in
      (
        record y {
          counts = r.0;
          invoked =
              y.invoked ++ (call_of f (Jval.object jtcp) (Jval.number status ∷ jclient ∷ []) ∷ []);
        },
        accepted-hand_over status zero_status good
            ∙ rw (append-filled with_client 2 (Jval.number status ∷ []) jclient (omega arith))
                (rw d.1 (rw e.1 r.1)),
        append_assoc w.invoked (call_of c Jval.undefined [] ∷ [])
            (call_of f (Jval.object jtcp) (Jval.number status ∷ jclient ∷ []) ∷ []),
        λ q. omega (arith, r.2 q, e.2 q, d.2 q, at_x q),
      )

  -- `OnConnection` of a server socket that passes its checks, for an allocator with room, held functions
  -- `onconnection` and `createTCP`, of which the latter makes an open socket. With a status other than
  -- 0, `onconnection` is called with it, and no count changes. With status 0, `createTCP` is called;
  -- if `uv_accept` accepts, `onconnection` is called with 0 and the client, and no count changes; if
  -- it does not, `onconnection` is not called, and one reference each to both functions and to the
  -- client is never given up.
  pub on_connection_lem :
      (status : ℤ)
      → Leaves w
          (calls_made uv js f c jtcp w t status)
          (kept uv js f c jtcp w t status)
          (on_connection a uv js w t status)
  on_connection_lem status = elim (Bool-cases (status ==ℤ pos 0)) [
    | inr bad ↦ rw bad (failed-Leaves status bad)
    | inl zero_status ↦ elim (Bool-cases ((uv.accept t.uv (js.client w.next).uv).2 ==ℤ pos 0)) [
      | inl good ↦ rw zero_status (rw good (accepted-Leaves status zero_status good))
      | inr refused ↦ rw zero_status (rw refused (refused-Leaves status zero_status refused))
    ]
  ]
