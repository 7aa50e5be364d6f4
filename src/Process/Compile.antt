-- ===== src/Process/Compile.antt =====
-- `WrapEval` and `Compile` of src/module/iotjs_module_process.c.
use native.Mathlib.Nat.{mod-eq_of_lt}
use ble_central.Base.{
  ℕ, ◌+◌, ◌^◌, ◌≤◌, ◌<◌, ◌≡◌, refl, ap, arith, Bool, true, false, Bool-cases, inl, inr, List, [],
  ◌∷◌, ◌++◌, take, length, length-take, length-append, if◌then◌else◌, ok,
}
use ble_central.Binding.Value.{Jval}
use ble_central.Binding.Args.{Handler, handler, acquire, identity, get_arg_of}
use ble_central.Binding.Balance.{acquire_at}
use ble_central.Binding.World.{World}
use ble_central.Binding.World.Fresh.{IsOpen, give_back_lem, throw_value_lem, drop_value_at}
use ble_central.Memory.{Allocator, u32_mod}
use ble_central.Memory.Laws.{IsAmple, NoNul}
use ble_central.Buffer.Range.{to_int-pos}
use ble_central.Strings.{Str, Chars, nothing, bytes, contents, is_null}
use ble_central.Strings.Valid.{IsValid, Stores}
use ble_central.Strings.Closed.{Appended}
use ble_central.Strings.Append.{append-Appended}
use ble_central.Strings.Build.{create-nothing, nothing-IsValid, make_empty-nothing}
use ble_central.Strings.Reserve.{reserve-Reserved}
use ble_central.Strings.Files.{made_lem}
use ble_central.HttpParser.Valid.{length-contents}
use ble_central.Process.{
  Engine, wrapper_head, wrapper_tail, wrap_code, wrap_eval, pass_on, js_compile,
}

-- The code that a source is wrapped in.
abbrev pub wrapped : List ℕ → List ℕ
wrapped source = wrapper_head ++ (source ++ wrapper_tail)

head_clean : NoNul wrapper_head
head_clean = omega arith

tail_clean : NoNul wrapper_tail
tail_clean = omega arith

not_null : (s : Str) → IsValid s → is_null s.chars ≡ false
not_null s v = go s.chars v.stored
  where
    go : (c : Chars) → Stores c s.size s.cap → is_null c ≡ false
    go Chars.empty_string h = refl
    go (Chars.block b) h = refl
    go Chars.null h = absurd h

-- The string holds the wrapped source.
wrap_code-Appended :
    (a : Allocator) (src : List ℕ) (n : ℕ)
    → IsAmple a
    → n ≤ length src
    → NoNul (take n src)
    → n + 64 < 2 ^ 31
    → Appended nothing (wrapped (take n src)) (wrap_code a src n)
unfolding wrap_code
wrap_code-Appended a src n ample enough clean small =
    let r =
      reserve-Reserved a nothing (length wrapper_head + n + length wrapper_tail) ample
        nothing-IsValid (λ e. refl) (omega arith) in
    let z₁ = length-contents r.after r.valid in
    let c₂ =
      append-Appended a r.after (wrapper_head ++ (0 ∷ [])) (length wrapper_head) ample r.valid
        r.growable (omega arith) head_clean (omega (arith, z₁, ap length r.same)) in
    let z₂ = length-contents c₂.after c₂.valid in
    let c₃ = append-Appended a c₂.after src n ample c₂.valid c₂.growable enough clean (
      omega (
        arith,
        z₂,
        ap length c₂.extended,
        length-append (contents r.after) wrapper_head,
        ap length r.same,
      )) in
    let z₃ = length-contents c₃.after c₃.valid in
    let c₄ =
      append-Appended a c₃.after (wrapper_tail ++ (0 ∷ [])) (length wrapper_tail) ample c₃.valid
        c₃.growable (omega arith) tail_clean
        (omega (
          arith,
          z₃,
          ap length c₃.extended,
          length-append (contents c₂.after) (take n src),
          ap length c₂.extended,
          length-append (contents r.after) wrapper_head,
          ap length r.same,
          length-take n src,
        )) in
    record {
      after = c₄.after;
      returned = rw (create-nothing a) (
          rw
            (mod-eq_of_lt {n = length wrapper_head + n + length wrapper_tail} {m = u32_mod}
              (omega arith))
            (rw r.returned
              (rw c₂.returned (rw (to_int-pos n (omega arith)) (rw c₃.returned c₄.returned)))));
      valid = c₄.valid;
      growable = c₄.growable;
      extended = rw c₄.extended (rw c₃.extended (rw c₂.extended (rw r.same refl)));
    }

-- What is left of a frame that has been given the value of a call, thrown or not.
abbrev pub given : World × Jval × Bool → Handler → Handler
given r h =
    if r.2
    then record h { jret = r.1; is_error = true; finished = true }
    else record h { jret = r.1; finished = true }

module _ (a : Allocator) (ample : IsAmple a) (engine : Engine) where
  wrap_eval_lem :
      (w : World) (src : List ℕ) (n : ℕ)
      → n ≤ length src
      → NoNul (take n src)
      → n + 64 < 2 ^ 31
      → wrap_eval a engine w src n ≡ ok (engine w (wrapped (take n src)))
  unfolding wrap_eval
  wrap_eval_lem w src n enough clean small =
      let c = wrap_code-Appended a src n ample enough clean small in
      rw c.returned (
        rw (not_null c.after c.valid)
          (rw ((make_empty-nothing c.after c.valid).1) (ap (λ l. ok (engine w l)) c.extended)))

  pass_on_lem :
      (r : World × Jval × Bool) (h : Handler)
      → IsOpen h
      → (w' : World) × (pass_on a engine r h ≡ ok (w', given r h))
        × ((q : ℕ) → w'.counts q ≡ r.0.counts q)
  unfolding pass_on
  pass_on_lem r h free =
      let x = record r.0 { counts = acquire r.0.counts r.1 } in
      let d = drop_value_at x r.1 (λ q. omega (arith, acquire_at r.0.counts (identity r.1) q)) in
      let same : (q : ℕ) → d.0 q ≡ r.0.counts q =
        λ q. omega (arith, d.2 q, acquire_at r.0.counts (identity r.1) q) in
      elim (Bool-cases r.2) [
        | inl thrown ↦
            rw thrown
              (record x { counts = d.0 }, rw (throw_value_lem r.0 h r.1 free) (rw d.1 refl), same)
        | inr fine ↦
            rw fine
              (record x { counts = d.0 }, rw (give_back_lem r.0 h r.1 free) (rw d.1 refl), same)
      ]

  whole_bytes : (s : Str) → IsValid s → s.size ≤ length (bytes s.chars)
  whole_bytes s v = go s.chars v.stored
    where
      go : (c : Chars) → Stores c s.size s.cap → s.size ≤ length (bytes c)
      go Chars.empty_string h = omega arith
      go (Chars.block b) h = omega (arith, v.within)
      go Chars.null h = absurd h

  -- `Compile` of a string without NUL below 2^31 - 64 bytes, for an allocator with room: the engine
  -- evaluates exactly the string between `(function(exports, require, module) {` with a line feed and
  -- a line feed with `});` and a line feed, once; what it gives is returned, or thrown if it was
  -- thrown; and apart from what the evaluation does every count is as before, but for the result's
  -- one reference, which is now the frame's.
  pub compile_lem :
      (w : World) (source : List ℕ)
      → NoNul source
      → length source + 64 < 2 ^ 31
      → let r = engine w (wrapped source) in
        let h = handler (Jval.string source ∷ []) in
        (w' : World) × (js_compile a engine w h ≡ ok (w', given r h))
        × ((q : ℕ) → w'.counts q ≡ r.0.counts q)
  unfolding js_compile get_arg_of handler
  compile_lem w source clean small =
      let h = handler (Jval.string source ∷ []) in
      let m = (made_lem a source ample (omega arith)).1 in
      let whole : take m.after.size (bytes m.after.chars) ≡ source = m.same in
      let p = pass_on_lem (engine w (wrapped source)) h (refl, refl, refl) in
      (
        p.0,
        rw m.returned (
            rw (not_null m.after m.valid) (
              rw
                (wrap_eval_lem w (bytes m.after.chars) m.after.size (whole_bytes m.after m.valid)
                  (rw whole clean) (omega (arith, m.size)))
                (rw whole (rw p.1 (rw ((make_empty-nothing m.after m.valid).1) refl))))),
        p.2,
      )
