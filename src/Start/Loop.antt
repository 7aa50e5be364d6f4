-- ===== src/Start/Loop.antt =====
-- The event loop of `iotjs_start` in src/iotjs.c ends with the first turn after which nothing is left
-- to do, or that ends the program.
use ble_central.Base.{
  ℕ, zero, suc, ◌+◌, ◌<◌, ◌≡◌, refl, ap, ◌∙◌, arith, true, false, Option, none, some,
}
use ble_central.Start.{Turn, more, run_loop}

-- A turn after which the loop goes on, ends by itself, or is ended with a code.
abbrev pub GoesOn : Turn → Type 0
GoesOn t = (t.exits ≡ none) × (more t ≡ true)

pub data Last (t : Turn) : Option ℕ → Type 0 where
  quiet : t.exits ≡ none → more t ≡ false → Last t none
  exits : (c : ℕ) → t.exits ≡ some c → Last t (some c)

run_loop-step :
    (turn : ℕ → Turn) (f n : ℕ)
    → GoesOn (turn n)
    → run_loop turn (suc f) n ≡ run_loop turn f (suc n)
unfolding run_loop
run_loop-step turn f n h = rw (h.0, run_loop) (rw h.1 refl)

run_loop-suc :
    (turn : ℕ → Turn) (f n : ℕ) (code : Option ℕ)
    → Last (turn n) code
    → run_loop turn (suc f) n ≡ some (suc n, code)
unfolding run_loop
run_loop-suc turn f n _ (quiet e q) = rw (e, run_loop) (rw q refl)
run_loop-suc turn f n _ (exits c e) = rw (e, run_loop) refl

loop_from :
    (turn : ℕ → Turn) (f n k : ℕ) (code : Option ℕ)
    → k < f
    → ((i : ℕ) → i < k → GoesOn (turn (n + i)))
    → Last (turn (n + k)) code
    → run_loop turn f n ≡ some (suc (n + k), code)
loop_from turn zero n k code h b q = absurd (omega arith)
loop_from turn (suc f) n zero code h b q =
    let z : n + 0 ≡ n = omega arith in rw z (run_loop-suc turn f n code (rw z at q))
loop_from turn (suc f) n (suc k) code h b q =
    let z : n + 0 ≡ n = omega arith in
    let s : suc n + k ≡ n + suc k = omega arith in
    run_loop-step turn f n (rw z at (b 0 (omega arith)))
    ∙ loop_from turn f (suc n) k code (omega arith)
        (λ i l. let t : suc n + i ≡ n + suc i = omega arith in rw t (b (suc i) (omega arith)))
        (rw s q)
    ∙ ap (λ (m : ℕ). some (suc m, code)) s

-- The loop runs through the turns that go on and ends right after the first other one, given one more
-- unit of fuel than turns before it.
pub run_loop_lem :
    (turn : ℕ → Turn) (f k : ℕ) (code : Option ℕ)
    → k < f
    → ((i : ℕ) → i < k → GoesOn (turn i))
    → Last (turn k) code
    → run_loop turn f 0 ≡ some (suc k, code)
run_loop_lem turn f k code h b q =
    let z : (j : ℕ) → 0 + j ≡ j = λ j. omega arith in
    loop_from turn f 0 k code h (λ i l. rw (z i) (b i l)) (rw (z k) q)
    ∙ ap (λ (m : ℕ). some (suc m, code)) (z k)
