-- ===== src/Strings/Grow.antt =====
-- The doubling loop of `iotjs_string_append`: when it ends, and with what capacity.
use native.Mathlib.Nat.{
  pow-suc, mul_comm, mul_assoc, add-mul-mod_self_right, mod-add-div', mul-mod_left,
}
use native.Mathlib.Decide.{dec_lt}
use ble_central.Base.{
  ℕ, zero, suc, ◌+◌, ◌-◌, ◌*◌, ◌/◌, ◌%◌, ◌^◌, ◌≤◌, ◌<◌, ◌≡◌, refl, ap, ap₂, sym, ◌∙◌, none, some,
  ◌⊎◌, inl, inr, arith, lt→ltb, le→ltb-false,
}
use ble_central.Memory.{u32_mod}
use ble_central.Strings.{grow, grow_fuel}

double-pow : (c f : ℕ) → c * 2 * 2 ^ f ≡ c * 2 ^ suc f
double-pow c f =
    mul_assoc c 2 (2 ^ f) ∙ ap (λ (t : ℕ). c * t) (mul_comm 2 (2 ^ f) ∙ sym (pow-suc 2 f))

grow-more : (f cap need : ℕ) → cap < need → grow (suc f) cap need ≡ grow f (cap * 2 % u32_mod) need
unfolding grow
grow-more f cap need h = rw (lt→ltb cap need h)

grow-done : (f cap need : ℕ) → need ≤ cap → grow (suc f) cap need ≡ some cap
unfolding grow
grow-done f cap need h = rw (le→ltb-false cap need h)

grow-empty : (cap need : ℕ) → grow zero cap need ≡ none
unfolding grow
grow-empty cap need = refl

-- As long as more is needed below 2^31, the loop doubles the capacity without wrapping.
grow-double :
    (f cap need : ℕ)
    → 0 < cap
    → cap < 2 ^ 32
    → need < 2 ^ 31
    → need ≤ cap * 2 ^ f
    → (j : ℕ) × (grow (suc f) cap need ≡ some (cap * 2 ^ j))
      × (need ≤ cap * 2 ^ j)
      × ((j ≡ 0) ⊎ (cap * 2 ^ j < 2 * need))
grow-double zero cap need p b n h =
    (0, grow-done zero cap need (omega arith) ∙ ap some (omega arith), omega arith, inl refl)
grow-double (suc f) cap need p b n h = elim (dec_lt cap need) [
  | no done ↦
      (0, grow-done (suc f) cap need (omega arith) ∙ ap some (omega arith), omega arith, inl refl)
  | yes more ↦
      let e : cap * 2 % u32_mod ≡ cap * 2 = omega arith in
      let (j, r, enough, least) =
        grow-double f (cap * 2) need (omega arith) (omega arith) n
          (omega (arith, double-pow cap f)) in
      (
        suc j,
        grow-more (suc f) cap need more
            ∙ ap (λ (t : ℕ). grow (suc f) t need) e
            ∙ r
            ∙ ap some (double-pow cap j),
        omega (arith, double-pow cap j),
        inr (elim least [
          | inl first ↦ omega (arith, double-pow cap j, ap (λ (t : ℕ). cap * 2 * 2 ^ t) first)
          | inr below ↦ omega (arith, double-pow cap j)
        ]),
      )
]

-- The doubling loop of `iotjs_string_append`, for a capacity that is not 0 and a need below 2^31: it
-- ends, within the model's fuel, with the capacity doubled some number of times, which holds the need
-- and, unless it was not doubled at all, is below twice the need.
pub grow_doubles :
    (cap need : ℕ)
    → 0 < cap
    → cap < 2 ^ 32
    → need < 2 ^ 31
    → (j : ℕ) × (grow grow_fuel cap need ≡ some (cap * 2 ^ j))
      × (need ≤ cap * 2 ^ j)
      × ((j ≡ 0) ⊎ (cap * 2 ^ j < 2 * need))
grow_doubles cap need p b n = grow-double 32 cap need p b n (omega arith)

-- Below 2^31 no doubling wraps: the loop stops at a capacity that holds `need`, in range.
pub grow_total :
    (f cap need : ℕ)
    → 0 < cap
    → cap < 2 ^ 32 - 1
    → need < 2 ^ 31
    → need ≤ cap * 2 ^ f
    → (c : ℕ) × (grow (suc f) cap need ≡ some c) × (need ≤ c) × (cap ≤ c) × (c < 2 ^ 32 - 1)
grow_total zero cap need p b n h =
    (cap, grow-done zero cap need (omega arith), omega arith, omega arith, b)
grow_total (suc f) cap need p b n h = elim (dec_lt cap need) [
  | no done ↦ (cap, grow-done (suc f) cap need (omega arith), omega arith, omega arith, b)
  | yes more ↦
      let e : cap * 2 % u32_mod ≡ cap * 2 = omega arith in
      let (c, r, hc, hd, hb) =
        grow_total f (cap * 2) need (omega arith) (omega arith) n
          (omega (arith, double-pow cap f)) in
      (
        c,
        grow-more (suc f) cap need more ∙ ap (λ (t : ℕ). grow (suc f) t need) e ∙ r,
        hc,
        omega arith,
        hb,
      )
]

-- Fuel only decides whether there is an answer.
grow_mono : (f cap need : ℕ) → grow (suc f) cap need ≡ none → grow f cap need ≡ none
grow_mono zero cap need h = grow-empty cap need
grow_mono (suc f) cap need h = elim (dec_lt cap need) [
  | no done ↦ absurd (cc (grow-done (suc f) cap need (omega arith)))
  | yes more ↦
      grow-more f cap need more
      ∙ grow_mono f (cap * 2 % u32_mod) need (sym (grow-more (suc f) cap need more) ∙ h)
]

split-mul : (r q m a b : ℕ) → r + q * m ≡ a → r * b + q * b * m ≡ a * b
split-mul r q m a b h = omega (arith, ap (λ (t : ℕ). t * b) h)

mod-mul : (a b m : ℕ) → a % m * b % m ≡ a * b % m
mod-mul a b m =
    sym (add-mul-mod_self_right (a % m * b) (a / m * b) m)
    ∙ ap (λ (t : ℕ). t % m) (split-mul (a % m) (a / m) m a b (mod-add-div' a m))

-- `k` rounds that do not end leave the capacity doubled `k` times.
grow-rounds :
    (k f cap need : ℕ)
    → grow k cap need ≡ none
    → cap < u32_mod
    → grow (k + f) cap need ≡ grow f (cap * 2 ^ k % u32_mod) need
grow-rounds zero f cap need h b = ap₂ (λ (x y : ℕ). grow x y need) (omega arith) (omega arith)
grow-rounds (suc k) f cap need h b = elim (dec_lt cap need) [
  | no done ↦ absurd (cc (grow-done k cap need (omega arith)))
  | yes more ↦
      ap (λ (x : ℕ). grow x cap need) (omega arith)
      ∙ grow-more (k + f) cap need more
      ∙ grow-rounds k f (cap * 2 % u32_mod) need (sym (grow-more k cap need more) ∙ h) (omega arith)
      ∙ ap (λ (x : ℕ). grow f x need)
          (mod-mul (cap * 2) (2 ^ k) u32_mod ∙ ap (λ (x : ℕ). x % u32_mod) (double-pow cap k))
]

-- A capacity of 0 never reaches a need.
grow-zero : (f need : ℕ) → 0 < need → grow f 0 need ≡ none
grow-zero zero need h = grow-empty 0 need
grow-zero (suc f) need h = grow-more f 0 need h ∙ grow-zero f need h

grow-none_pos : (cap need : ℕ) → grow grow_fuel cap need ≡ none → 0 < need
grow-none_pos cap zero h = absurd (cc (grow-done 32 cap 0 (omega arith)))
grow-none_pos cap (suc n) h = omega arith

grow_below : (k f cap need : ℕ) → grow (k + f) cap need ≡ none → grow f cap need ≡ none
grow_below zero f cap need h = ap (λ (x : ℕ). grow x cap need) (omega arith) ∙ h
grow_below (suc k) f cap need h =
    grow_below k f cap need
      (grow_mono (k + f) cap need (ap (λ (x : ℕ). grow x cap need) (omega arith) ∙ h))

grow_stuck :
    (f cap need : ℕ)
    → cap < u32_mod
    → grow grow_fuel cap need ≡ none
    → grow (32 + f) cap need ≡ none
grow_stuck f cap need b h =
    grow-rounds 32 f cap need (grow_mono 32 cap need h) b
    ∙ ap (λ (x : ℕ). grow f x need) (mul-mod_left cap u32_mod)
    ∙ grow-zero f need (grow-none_pos cap need h)

grow-some : (k f cap need c : ℕ) → grow k cap need ≡ some c → grow (k + f) cap need ≡ some c
grow-some zero f cap need c h = absurd (cc (grow-empty cap need))
grow-some (suc k) f cap need c h = elim (dec_lt cap need) [
  | no done ↦
      ap (λ (x : ℕ). grow x cap need) (omega arith)
      ∙ grow-done (k + f) cap need (omega arith)
      ∙ sym (grow-done k cap need (omega arith))
      ∙ h
  | yes more ↦
      ap (λ (x : ℕ). grow x cap need) (omega arith)
      ∙ grow-more (k + f) cap need more
      ∙ grow-some k f (cap * 2 % u32_mod) need c (sym (grow-more k cap need more) ∙ h)
]

-- The fuel of the model is enough, for a 32-bit capacity: where the doubling loop of
-- `iotjs_string_append` uses it up, the loop runs for ever (the capacity has wrapped to 0),
-- whatever more fuel it is given; where it does not, more fuel changes nothing.
pub grow_fuel_enough :
    (f cap need : ℕ)
    → cap < u32_mod
    → (grow grow_fuel cap need ≡ none → grow f cap need ≡ none)
      × ((c : ℕ) → grow grow_fuel cap need ≡ some c → grow (grow_fuel + f) cap need ≡ some c)
grow_fuel_enough f cap need b = (
  λ h. grow_below 32 f cap need (grow_stuck f cap need b h),
  λ c h. grow-some grow_fuel f cap need c h,
)
