-- ===== src/Net/Tcp/Reading.antt =====
-- The branches of `OnRead` of src/module/iotjs_module_tcp.c, on the arguments that it has made.
use ble_central.Base.{
  ℕ, zero, suc, ◌+◌, ◌-◌, ◌^◌, ◌≤◌, ◌<◌, ◌≡◌, refl, ap, sym, ◌∙◌, arith, List, [], ◌∷◌, ◌++◌,
  length, take, replicate, Option, some, none, true, false, Bool, Bool-cases, inl, inr,
  if◌then◌else◌, append-nil, ==_ne, length-take, length-replicate, ok,
}
use ble_central.Base.Int.{ℤ, pos, ltb_ℤ, ◌==ℤ◌}
use ble_central.Binding.Value.{Jval}
use ble_central.Binding.Args.{Counts, acquire, replace, slot}
use ble_central.Binding.Balance.{filled, counts_as, acquire_at}
use ble_central.Binding.World.{Content, World, Invocation, create_object, put_content, replace_arg}
use ble_central.Binding.World.Calls.{append-filled, make_callback-filled, with_call}
use ble_central.Binding.World.Fresh.{IsFresh, create_object-Made, drop_value_at}
use ble_central.Memory.{Allocator}
use ble_central.Memory.Laws.{IsAmple, buffer_allocate_lem, buffer_release_lem}
use ble_central.Memory.Patch.{patch-whole}
use ble_central.Buffer.Bytes.Copy.{copy_apart}
use ble_central.Net.{read_buffer, release_base}
use ble_central.Net.Tcp.{Uv}
use ble_central.Net.Tcp.Callbacks.{read_nothing, read_some}
use ble_central.Net.Tcp.Accept.{call_of}

-- The new buffer holds exactly the bytes that were read.
pub read_buffer_lem :
    (a : Allocator) (w : World) (b : List ℕ) (n : ℕ)
    → IsAmple a
    → n ≤ length b
    → n < 2 ^ 32
    → read_buffer a w b n ≡ ok (create_object w (Content.bytes (take n b)))
unfolding read_buffer
read_buffer_lem a w b zero ample h small = rw (copy_apart b [] 0 0 0 (omega arith) h) refl
read_buffer_lem a w b (suc m) ample h small =
    let n = suc m in
    rw (==_ne n 0 (λ e. absurd (omega arith))) (
      rw (buffer_allocate_lem a n (ample n small)) (
        rw (copy_apart b (replicate n 0) 0 n 0 (omega arith) h) (
          ap (λ l. ok (create_object w (Content.bytes l)))
            (patch-whole (replicate n 0) (take (n - 0) b)
                (omega (arith, length-take (n - 0) b, length-replicate {A = ℕ} n 0))
              ∙ ap (λ k. take k b) {y = n} (omega arith)))))

abbrev pub bytes_in : Option (List ℕ) → List ℕ
bytes_in none = []
bytes_in (some b) = b

pub release_base_lem : (base : Option (List ℕ)) → release_base base ≡ ok tt
release_base_lem none = refl
release_base_lem (some b) = buffer_release_lem b

replace_filled :
    (w : World) (owner : ℕ) (nread : ℤ)
    → replace_arg w
        (filled 4 (Jval.object owner ∷ Jval.number nread ∷ Jval.boolean false ∷ []))
        2
        (Jval.boolean true)
      ≡ ok (w, filled 4 (Jval.object owner ∷ Jval.number nread ∷ Jval.boolean true ∷ []))
unfolding replace_arg replace slot
replace_filled w owner nread = refl

-- The arguments of `onread`: the owner, what libuv reported, and whether the stream has ended.
abbrev pub read_arguments : ℕ → ℤ → Bool → List Jval
read_arguments owner nread ended = Jval.object owner ∷ Jval.number nread ∷ Jval.boolean ended ∷ []

abbrev pub calls_nothing : ℕ → ℕ → ℤ → Bool → List Invocation
calls_nothing f owner nread ended =
    if ltb_ℤ nread (pos 0)
    then call_of f Jval.undefined (read_arguments owner nread ended) ∷ []
    else []

module _ {H : Type 0} (uv : Uv H) where
  abbrev pub has_ended : ℤ → Bool
  has_ended nread = if ltb_ℤ nread (pos 0) then nread ==ℤ uv.eof else false

  pub read_nothing_lem :
      (x : World) (f owner : ℕ) (nread : ℤ) (base : Option (List ℕ))
      → read_nothing uv x f (filled 4 (read_arguments owner nread false)) nread base
        ≡ ok (
          record x { invoked = x.invoked ++ calls_nothing f owner nread (has_ended nread) },
          filled 4 (read_arguments owner nread (has_ended nread)),
        )
  unfolding read_nothing
  read_nothing_lem x f owner nread base = elim (Bool-cases (ltb_ℤ nread (pos 0))) [
    | inr zero_read ↦ rw (release_base_lem base) (
        rw zero_read (
          ap
            (λ (l : List Invocation).
              ok (record x { invoked = l }, filled 4 (read_arguments owner nread false)))
            (sym (append-nil x.invoked))))
    | inl failed ↦ elim (Bool-cases (nread ==ℤ uv.eof)) [
      | inl end ↦ rw (release_base_lem base) (
          rw failed (
            rw end (
              rw (replace_filled x owner nread) (
                rw
                  (make_callback-filled x (Jval.function f) Jval.undefined 4
                    (read_arguments owner nread true))
                  refl))))
      | inr other ↦ rw (release_base_lem base) (
          rw failed (
            rw other (
              rw
                (make_callback-filled x (Jval.function f) Jval.undefined 4
                  (read_arguments owner nread false))
                refl)))
    ]
  ]

pub read_some_lem :
    (a : Allocator) (x : World) (f owner n : ℕ) (b : List ℕ)
    → IsAmple a
    → IsFresh x
    → n ≤ length b
    → n < 2 ^ 32
    → let vs = read_arguments owner (pos n) false ++ (Jval.object x.next ∷ []) in
      (k : Counts) × (read_some a x f
          (filled 4 (read_arguments owner (pos n) false))
          (pos n)
          (some b)
        ≡ ok (
          record x {
            counts = k;
            next = suc x.next;
            content = put_content x.content x.next (Content.bytes (take n b));
            invoked = x.invoked ++ (call_of f Jval.undefined vs ∷ []);
          },
          filled 4 vs,
        ))
      × ((q : ℕ) → k q ≡ x.counts q + counts_as (some x.next) q)
unfolding read_some create_object
read_some_lem a x f owner n b ample fresh h small =
    let c = Content.bytes (take n b) in
    let o = create_object x c in
    let made = create_object-Made x c fresh in
    let v = Jval.object x.next in
    let vs = read_arguments owner (pos n) false ++ (v ∷ []) in
    let y = record o.0 { counts = acquire o.0.counts v } in
    let y₁ = with_call y (Jval.function f) Jval.undefined vs in
    let d = drop_value_at y₁ v (λ q. omega (arith, acquire_at o.0.counts (some x.next) q)) in
    (
      d.0,
      rw (read_buffer_lem a x b n ample h small) (
          rw (append-filled o.0 4 (read_arguments owner (pos n) false) v (omega arith)) (
            rw (make_callback-filled y (Jval.function f) Jval.undefined 4 vs)
              (rw d.1 (rw (buffer_release_lem b) refl)))),
      λ q. omega (arith, d.2 q, acquire_at o.0.counts (some x.next) q, made.adds.at q),
    )
