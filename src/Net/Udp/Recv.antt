-- ===== src/Net/Udp/Recv.antt =====
-- `OnRecv` of src/module/iotjs_module_udp.c on each of its branches.
use ble_central.Base.{
  ℕ, suc, ◌+◌, ◌^◌, ◌≤◌, ◌<◌, ◌≡◌, refl, arith, List, [], ◌∷◌, length, take, Option, some, none,
  Outcome, ok, if◌then◌else◌, ==_refl, Bool-cases, inl, inr, true, false, ◌==◌, append-nil, sym,
}
use ble_central.Base.Int.{ℤ, pos, negsuc, pos_part, ltb_ℤ}
use ble_central.Binding.Value.{Jval}
use ble_central.Binding.Args.{acquire}
use ble_central.Binding.Balance.{filled, counts_as, create-filled, acquire_at}
use ble_central.Binding.World.{Content, World, create_object, copy_value, put_content}
use ble_central.Binding.World.Calls.{
  append-filled, make_callback-filled, destroy_args-filled, with_call,
}
use ble_central.Binding.World.Fresh.{IsFresh, create_object-Made, drop_value_at, held-fresh}
use ble_central.Memory.{Allocator}
use ble_central.Memory.Laws.{IsAmple, buffer_release_lem}
use ble_central.Handle.{Wrap, jobject}
use ble_central.Net.{Sockaddr, address_of, address_to_js}
use ble_central.Net.Tcp.Reading.{read_buffer_lem, release_base_lem}
use ble_central.Net.Udp.{Uv, Script, from_handle}
use ble_central.Net.Udp.Arrival.{
  Arrival, nothing, failure, message, reported, sender, size_of, Receives,
}
use ble_central.Net.Udp.Callbacks.{recv_failed, recv_some, is_nothing, on_recv}

module _ (a : Allocator) (ample : IsAmple a) {H : Type 0} (uv : Uv H) (js : Script) (f judp : ℕ)
    (has_f : js.onmessage ≡ some f) (w : World) (t : Wrap H) (fresh : IsFresh w)
    (held_f : 0 < w.counts f) (held_judp : 0 < w.counts judp) (valid : from_handle uv t ≡ ok tt)
    (this : jobject t ≡ ok judp) where
  -- The world in which the two first arguments have been made.
  abbrev with_arguments : World
  with_arguments = record w {
    counts = acquire (acquire w.counts (Jval.function f)) (Jval.object judp);
  }

  with_arguments_at :
      (q : ℕ)
      → with_arguments.counts q ≡ w.counts q + counts_as (some f) q + counts_as (some judp) q
  with_arguments_at q = omega (
    arith,
    acquire_at w.counts (some f) q,
    acquire_at (acquire w.counts (Jval.function f)) (some judp) q,
  )

  with_arguments-fresh : IsFresh with_arguments
  with_arguments-fresh =
      held-fresh (record w { counts = acquire w.counts (Jval.function f) }) judp
        (held-fresh w f fresh held_f) (omega (arith, acquire_at w.counts (some f) judp))

  -- The world in which the buffer is made and appended.
  abbrev with_buffer : List ℕ → World
  with_buffer bs =
      let o = create_object with_arguments (Content.bytes bs) in
      record o.0 { counts = acquire o.0.counts (Jval.object w.next) }

  with_buffer_at :
      (bs : List ℕ) (q : ℕ)
      → (with_buffer bs).counts q
        ≡ with_arguments.counts q + counts_as (some w.next) q + counts_as (some w.next) q
  unfolding create_object
  with_buffer_at bs q =
      let made = create_object-Made with_arguments (Content.bytes bs) with_arguments-fresh in
      omega (
        arith,
        acquire_at (create_object with_arguments (Content.bytes bs)).0.counts (some w.next) q,
        made.adds.at q,
      )

  with_buffer-fresh : (bs : List ℕ) → IsFresh (with_buffer bs)
  unfolding create_object
  with_buffer-fresh bs =
      let c = Content.bytes bs in
      let made = create_object-Made with_arguments c with_arguments-fresh in
      held-fresh (create_object with_arguments c).0 w.next made.adds.fresh
        (rw (==_refl w.next) (omega arith))

  -- What is left to do with the two arguments.
  abbrev deliver : ℤ → Option (List ℕ) → Option Sockaddr → Outcome World
  deliver nread base addr =
      let args = filled 4 (Jval.number nread ∷ Jval.object judp ∷ []) in
      if ltb_ℤ nread (pos 0)
      then recv_failed with_arguments f args base
      else recv_some a with_arguments f args (pos_part nread) base addr

  on_recv-deliver :
      (nread : ℤ) (base : Option (List ℕ)) (addr : Option Sockaddr)
      → is_nothing nread addr ≡ false
      → on_recv a uv js w t nread base addr ≡ deliver nread base addr
  unfolding on_recv copy_value
  on_recv-deliver nread base addr some_news =
      let v = record w { counts = acquire w.counts (Jval.function f) } in
      rw some_news (
        rw valid (
          rw this (
            rw has_f (
              rw (create-filled a 4 ample (omega arith) (omega arith)) (
                rw (append-filled v 4 [] (Jval.number nread) (omega arith)) (
                  rw (append-filled v 4 (Jval.number nread ∷ []) (Jval.object judp) (omega arith))
                    refl))))))

  failure-Receives :
      (k : ℕ) (addr : Option Sockaddr) (b : List ℕ)
      → Receives f judp w (failure k addr) b (on_recv a uv js w t (negsuc k) (some b) addr)
  unfolding recv_failed
  failure-Receives k addr b =
      let xs = Jval.object judp ∷ [] in
      let x₁ =
        with_call with_arguments (Jval.function f) Jval.undefined (Jval.number (negsuc k) ∷ xs) in
      let d = drop_value_at x₁ (Jval.function f) (λ q. omega (arith, with_arguments_at q)) in
      let e =
        destroy_args-filled (record x₁ { counts = d.0 }) 4 (Jval.number (negsuc k)) xs (omega arith)
          (λ q. omega (arith, with_arguments_at q, d.2 q)) in
      (
        record x₁ { counts = e.0 },
        rw (on_recv-deliver (negsuc k) (some b) addr (some_failure k addr)) (
            rw (negative k, release_base_lem (some b))
              (rw
                (make_callback-filled with_arguments (Jval.function f) Jval.undefined 4
                  (Jval.number (negsuc k) ∷ xs))
                (rw d.1 e.1))),
        refl,
        λ q. refl,
        λ q. omega (arith, e.2 q, d.2 q, with_arguments_at q),
      )
    where
      negative : (k : ℕ) → ltb_ℤ (negsuc k) (pos 0) ≡ true
      negative k = ground arith

      some_failure : (k : ℕ) (addr : Option Sockaddr) → is_nothing (negsuc k) addr ≡ false
      some_failure k none = ground arith
      some_failure k (some addr) = refl

  -- The world in which the sender is made and appended.
  abbrev with_sender : List ℕ → Sockaddr → World
  with_sender bs addr =
      let o = create_object (with_buffer bs) Content.plain in
      let told = address_to_js o.0 o.1 addr in
      record told { counts = acquire told.counts (Jval.object (suc w.next)) }

  with_sender_at :
      (bs : List ℕ) (addr : Sockaddr) (q : ℕ)
      → (with_sender bs addr).counts q
        ≡ with_arguments.counts q
          + counts_as (some w.next) q
          + counts_as (some w.next) q
          + counts_as (some (suc w.next)) q
          + counts_as (some (suc w.next)) q
  unfolding create_object address_to_js
  with_sender_at bs addr q =
      let made = create_object-Made (with_buffer bs) Content.plain (with_buffer-fresh bs) in
      omega (
        arith,
        acquire_at (create_object (with_buffer bs) Content.plain).0.counts (some (suc w.next)) q,
        made.adds.at q,
        with_buffer_at bs q,
      )

  message-Receives :
      (n : ℕ) (addr : Sockaddr) (b : List ℕ)
      → n ≤ length b
      → n < 2 ^ 32
      → Receives f judp w (message n addr) b (on_recv a uv js w t (pos n) (some b) (some addr))
  unfolding recv_some create_object address_to_js
  message-Receives n addr b fits small =
      let bs = take n b in
      let o = create_object with_arguments (Content.bytes bs) in
      let xs = Jval.object judp ∷ Jval.object w.next ∷ Jval.object (suc w.next) ∷ [] in
      let z =
        with_call (with_sender bs addr) (Jval.function f) Jval.undefined
          (Jval.number (pos n) ∷ xs) in
      let told = address_to_js (create_object (with_buffer bs) Content.plain).0 (suc w.next) addr in
      let d₁ =
        drop_value_at z (Jval.object (suc w.next)) (λ q. omega (arith, with_sender_at bs addr q)) in
      let d₂ =
        drop_value_at (record z { counts = d₁.0 }) (Jval.object w.next)
          (λ q. omega (arith, with_sender_at bs addr q, d₁.2 q)) in
      let d₃ =
        drop_value_at (record z { counts = d₂.0 }) (Jval.function f)
          (λ q. omega (arith, with_sender_at bs addr q, with_arguments_at q, d₁.2 q, d₂.2 q)) in
      let e =
        destroy_args-filled (record z { counts = d₃.0 }) 4 (Jval.number (pos n)) xs (omega arith)
          (λ q.
            omega (arith, with_sender_at bs addr q, with_arguments_at q, d₁.2 q, d₂.2 q, d₃.2 q)) in
      (
        record z { counts = e.0 },
        rw (on_recv-deliver (pos n) (some b) (some addr) refl) (
            rw (not_negative n) (
              rw (read_buffer_lem a with_arguments b n ample fits small) (
                rw
                  (append-filled o.0 4 (Jval.number (pos n) ∷ Jval.object judp ∷ [])
                    (Jval.object w.next) (omega arith))
                  (rw
                    (append-filled told 4
                      (Jval.number (pos n) ∷ Jval.object judp ∷ Jval.object w.next ∷ [])
                      (Jval.object (suc w.next)) (omega arith))
                    (rw
                      (make_callback-filled (with_sender bs addr) (Jval.function f) Jval.undefined 4
                        (Jval.number (pos n) ∷ xs))
                      (rw d₁.1 (rw d₂.1 (rw d₃.1 (rw (buffer_release_lem b) e.1))))))))),
        refl,
        λ q.
            put_twice (put_content w.content w.next (Content.bytes bs)) (suc w.next) Content.plain
              (address_of addr) q,
        λ q.
            omega
              (arith, e.2 q, d₁.2 q, d₂.2 q, d₃.2 q, with_sender_at bs addr q, with_arguments_at q),
      )
    where
      not_negative : (n : ℕ) → ltb_ℤ (pos n) (pos 0) ≡ false
      not_negative n = ground arith

      put_twice :
          (g : ℕ → Content) (o : ℕ) (c d : Content) (q : ℕ)
          → put_content (put_content g o c) o d q ≡ put_content g o d q
      put_twice g o c d q = elim (Bool-cases (q == o)) [
        | inl same ↦ rw same refl
        | inr other ↦ rw other refl
      ]

  -- `OnRecv` on a socket that passes its checks, for an allocator with room, a held socket object and a
  -- held function `onmessage`, and not more bytes reported than are in libuv's block. When there is
  -- nothing to read nothing is called; a failure is given with its number and the socket; a message,
  -- also an empty one, is given with a new buffer of exactly the bytes that were read and a new object
  -- of the sender's address. In each case no other object's content changes, and no count.
  pub on_recv_lem :
      (x : Arrival) (b : List ℕ)
      → size_of x ≤ length b
      → size_of x < 2 ^ 32
      → Receives f judp w x b (on_recv a uv js w t (reported x) (some b) (sender x))
  unfolding on_recv
  on_recv_lem nothing b fits small =
      (w, rw (release_base_lem (some b)) refl, sym (append-nil w.invoked), λ q. refl, λ q. refl)
  on_recv_lem (failure k addr) b fits small = failure-Receives k addr b
  on_recv_lem (message n addr) b fits small = message-Receives n addr b fits small
