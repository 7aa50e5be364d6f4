-- ===== src/Net/Tcp/Read.antt =====
-- `OnRead` of src/module/iotjs_module_tcp.c on each of its branches.
use ble_central.Base.{
  ℕ, suc, ◌+◌, ◌^◌, ◌≤◌, ◌<◌, ◌≡◌, refl, arith, List, [], ◌∷◌, ◌++◌, length, take, Option, some,
  none, true, false, Bool-cases, inl, inr, if◌then◌else◌, Outcome, ok, ◌>>=◌,
}
use ble_central.Base.Int.{ℤ, pos, negsuc, pos_part, ltb_ℤ}
use ble_central.Binding.Value.{Jval}
use ble_central.Binding.Args.{Counts, acquire}
use ble_central.Binding.Balance.{filled, counts_as, occurrences, create-filled, acquire_at}
use ble_central.Binding.World.{
  Content, World, Invocation, copy_value, put_content, destroy_args, drop_value,
}
use ble_central.Binding.World.Calls.{append-filled, destroy_args-filled}
use ble_central.Binding.World.Fresh.{IsFresh, drop_value_at, held-fresh}
use ble_central.Memory.{Allocator}
use ble_central.Memory.Laws.{IsAmple}
use ble_central.Handle.{Wrap, jobject}
use ble_central.Net.Tcp.{Uv, Script, from_handle}
use ble_central.Net.Tcp.Callbacks.{read_nothing, read_some, on_read}
use ble_central.Net.Tcp.Accept.{call_of}
use ble_central.Net.Tcp.Reading.{
  bytes_in, read_arguments, calls_nothing, has_ended, read_nothing_lem, read_some_lem,
}

module _ {H : Type 0} (uv : Uv H) (f owner : ℕ) (w : World) where
  -- The calls that `OnRead` makes, and the contents of the objects after it.
  abbrev pub calls_read : ℤ → List Invocation
  calls_read nread =
      if ltb_ℤ (pos 0) nread
      then call_of f Jval.undefined (read_arguments owner nread false ++ (Jval.object w.next ∷ []))
        ∷ []
      else calls_nothing f owner nread (has_ended uv nread)

  abbrev pub content_read : ℤ → Option (List ℕ) → ℕ → Content
  content_read nread base =
      if ltb_ℤ (pos 0) nread
      then put_content w.content w.next (Content.bytes (take (pos_part nread) (bytes_in base)))
      else w.content

  abbrev pub Reads : ℤ → Option (List ℕ) → Outcome World → Type 0
  Reads nread base r =
      (w' : World) × (r ≡ ok w')
      × (w'.invoked ≡ w.invoked ++ calls_read nread)
      × (w'.content ≡ content_read nread base)
      × ((q : ℕ) → w'.counts q ≡ w.counts q)

module _ (a : Allocator) (ample : IsAmple a) {H : Type 0} (uv : Uv H) (js : Script H)
    (f owner jtcp : ℕ) (has_f : js.onread ≡ some f) (has_owner : js.owner ≡ some owner) (w : World)
    (t : Wrap H) (fresh : IsFresh w) (held_f : 0 < w.counts f) (held_owner : 0 < w.counts owner)
    (valid : from_handle uv t ≡ ok tt) (this : jobject t ≡ ok jtcp) where
  -- The world in which the three first arguments have been made.
  abbrev with_arguments : World
  with_arguments = record w {
    counts =
        acquire (acquire (acquire w.counts (Jval.object owner)) (Jval.function f))
          (Jval.object owner);
  }

  with_arguments_at :
      (q : ℕ)
      → with_arguments.counts q
        ≡ w.counts q + counts_as (some owner) q + counts_as (some f) q + counts_as (some owner) q
  with_arguments_at q = omega (
    arith,
    acquire_at w.counts (some owner) q,
    acquire_at (acquire w.counts (Jval.object owner)) (some f) q,
    acquire_at (acquire (acquire w.counts (Jval.object owner)) (Jval.function f)) (some owner) q,
  )

  with_arguments-fresh : IsFresh with_arguments
  with_arguments-fresh =
      held-fresh
        (record w { counts = acquire (acquire w.counts (Jval.object owner)) (Jval.function f) })
        owner
        (held-fresh (record w { counts = acquire w.counts (Jval.object owner) }) f
          (held-fresh w owner fresh held_owner) (omega (arith, acquire_at w.counts (some owner) f)))
        (omega (
          arith,
          acquire_at w.counts (some owner) owner,
          acquire_at (acquire w.counts (Jval.object owner)) (some f) owner,
        ))

  -- What is left to do with the arguments.
  abbrev deliver : ℤ → Option (List ℕ) → Outcome World
  deliver nread base = do
    let args = filled 4 (read_arguments owner nread false)
    r ←
        if ltb_ℤ (pos 0) nread
        then read_some a with_arguments f args nread base
        else read_nothing uv with_arguments f args nread base
    w₂ ← destroy_args r.0 r.1
    w₃ ← drop_value w₂ (Jval.function f)
    drop_value w₃ (Jval.object owner)

  on_read-deliver :
      (nread : ℤ) (base : Option (List ℕ)) → on_read a uv js w t nread base ≡ deliver nread base
  unfolding on_read copy_value
  on_read-deliver nread base =
      let v = record w {
        counts = acquire (acquire w.counts (Jval.object owner)) (Jval.function f);
      } in
      rw valid (
        rw this (
          rw has_owner (
            rw has_f (
              rw (create-filled a 4 ample (omega arith) (omega arith)) (
                rw (append-filled v 4 [] (Jval.object owner) (omega arith)) (
                  rw
                    (append-filled with_arguments 4 (Jval.object owner ∷ []) (Jval.number nread)
                      (omega arith))
                    (rw
                      (append-filled with_arguments 4 (Jval.object owner ∷ Jval.number nread ∷ [])
                        (Jval.boolean false) (omega arith))
                      refl)))))))

  -- The end of `OnRead`: the arguments are destroyed, and the two properties given up.
  finish :
      (y : World) (x : Jval) (xs : List Jval)
      → length xs ≤ 3
      → ((q : ℕ)
          → y.counts q
            ≡ w.counts q + counts_as (some owner) q + counts_as (some f) q + occurrences (x ∷ xs) q)
      → (k : Counts) × ((do
        w₂ ← destroy_args y (filled 4 (x ∷ xs))
        w₃ ← drop_value w₂ (Jval.function f)
        drop_value w₃ (Jval.object owner))
          ≡ ok (record y { counts = k }))
        × ((q : ℕ) → k q ≡ w.counts q)
  finish y x xs short at =
      let d = destroy_args-filled y 4 x xs (omega arith) (λ q. omega (arith, at q)) in
      let e =
        drop_value_at (record y { counts = d.0 }) (Jval.function f)
          (λ q. omega (arith, at q, d.2 q)) in
      let g =
        drop_value_at (record y { counts = e.0 }) (Jval.object owner)
          (λ q. omega (arith, at q, d.2 q, e.2 q)) in
      (g.0, rw d.1 (rw e.1 g.1), λ q. omega (arith, at q, d.2 q, e.2 q, g.2 q))

  nothing-Reads :
      (nread : ℤ) (base : Option (List ℕ))
      → ltb_ℤ (pos 0) nread ≡ false
      → Reads uv f owner w nread base (deliver nread base)
  nothing-Reads nread base none_read =
      let ended = has_ended uv nread in
      let n = read_nothing_lem uv with_arguments f owner nread base in
      let y = record with_arguments { invoked = w.invoked ++ calls_nothing f owner nread ended } in
      let z =
        finish y (Jval.object owner) (Jval.number nread ∷ Jval.boolean ended ∷ []) (omega arith)
          (λ q. omega (arith, with_arguments_at q)) in
      rw none_read (record y { counts = z.0 }, rw n z.1, refl, refl, z.2)

  some-Reads :
      (n : ℕ) (b : List ℕ)
      → n ≤ length b
      → n < 2 ^ 32
      → ltb_ℤ (pos 0) (pos n) ≡ true
      → Reads uv f owner w (pos n) (some b) (deliver (pos n) (some b))
  some-Reads n b fits small some_read =
      let r = read_some_lem a with_arguments f owner n b ample with_arguments-fresh fits small in
      let vs = read_arguments owner (pos n) false ++ (Jval.object w.next ∷ []) in
      let y = record with_arguments {
        counts = r.0;
        next = suc w.next;
        content = put_content w.content w.next (Content.bytes (take n b));
        invoked = w.invoked ++ (call_of f Jval.undefined vs ∷ []);
      } in
      let z =
        finish y (Jval.object owner)
          (Jval.number (pos n) ∷ Jval.boolean false ∷ Jval.object w.next ∷ []) (omega arith)
          (λ q. omega (arith, with_arguments_at q, r.2 q)) in
      rw some_read (record y { counts = z.0 }, rw r.1 z.1, refl, refl, z.2)

  deliver-Reads :
      (nread : ℤ) (base : Option (List ℕ))
      → pos_part nread ≤ length (bytes_in base)
      → pos_part nread < 2 ^ 32
      → Reads uv f owner w nread base (deliver nread base)
  deliver-Reads (pos n) (some b) fits small = elim (Bool-cases (ltb_ℤ (pos 0) (pos n))) [
    | inl some_read ↦ some-Reads n b fits small some_read
    | inr none_read ↦ nothing-Reads (pos n) (some b) none_read
  ]
  deliver-Reads (pos n) none fits small = nothing-Reads (pos n) none (ground arith)
  deliver-Reads (negsuc k) base fits small = nothing-Reads (negsuc k) base (ground arith)

  -- `OnRead` on a socket that passes its checks, for an allocator with room, a held owner and a held
  -- function `onread`, and not more bytes reported than are in libuv's block: bytes that were read are
  -- given to `onread` in a new buffer that holds exactly these; an error is given without a buffer, and
  -- with `true` if and only if it is the end of the stream; when nothing was read nothing is called.
  -- In each case no other object's content changes, and no count.
  pub on_read_lem :
      (nread : ℤ) (base : Option (List ℕ))
      → pos_part nread ≤ length (bytes_in base)
      → pos_part nread < 2 ^ 32
      → Reads uv f owner w nread base (on_read a uv js w t nread base)
  on_read_lem nread base fits small =
      rw (on_read-deliver nread base) (deliver-Reads nread base fits small)
