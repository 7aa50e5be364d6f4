-- ===== src/Strings/Closed.antt =====
-- The string that an append of src/iotjs_string.c leaves in its block.
use ble_central.Base.{
  ℕ, ◌+◌, ◌-◌, ◌^◌, ◌≤◌, ◌<◌, ◌≡◌, ap, ◌∙◌, some, List, [], ◌∷◌, ◌++◌, arith, length, take,
  get_elem?, Outcome, ok,
}
use ble_central.Memory.{u32_mod, add32}
use ble_central.Memory.Patch.{
  patch, length-patch, take-patch, take-patch_above, get_elem?-patch_self,
}
use ble_central.Strings.{Str, block, contents, sign_extend}
use ble_central.Strings.Valid.{IsValid, IsGrowable}

-- What an append gives: the old contents and the new bytes, in a string that can grow again.
pub record Appended (s : Str) (tail : List ℕ) (r : Outcome Str) : Type 0 where
  pub after : Str
  pub returned : r ≡ ok after
  pub valid : IsValid after
  pub growable : IsGrowable after
  pub extended : contents after ≡ contents s ++ tail

-- The bytes `tail` written into a block from `size` on, and a terminator `n` bytes further.
abbrev pub closed : List ℕ → ℕ → List ℕ → ℕ → List ℕ
closed blk size tail n = patch (patch blk size tail) (size + n) (0 ∷ [])

pub length-closed :
    (blk : List ℕ) (size : ℕ) (tail : List ℕ) (n : ℕ) → length (closed blk size tail n) ≡ length blk
length-closed blk size tail n =
    length-patch (patch blk size tail) (size + n) (0 ∷ []) ∙ length-patch blk size tail

pub closed-contents :
    (blk : List ℕ) (size : ℕ) (tail : List ℕ) (n : ℕ)
    → size + n < length blk
    → n ≡ length tail
    → (take (size + n) (closed blk size tail n) ≡ take size blk ++ tail)
      × (get_elem? (closed blk size tail n) (size + n) ≡ some 0)
closed-contents blk size tail n h e = (
  take-patch_above (patch blk size tail) (size + n) (0 ∷ []) (size + n) (omega arith)
      ∙ take-patch blk size tail (size + n) (omega arith) (omega arith),
  get_elem?-patch_self (patch blk size tail) (size + n) 0
      (omega (arith, length-patch blk size tail)),
)

pub sign_extend_lem : (k : ℕ) → k < 2 ^ 31 → sign_extend k ≡ k
sign_extend_lem k h = ground arith

pub add32_lem : (a b : ℕ) → a + b < u32_mod → add32 a b ≡ a + b
add32_lem a b h = omega arith

-- The string that a block of enough room is left as.
pub closed-Appended :
    (s : Str) (cap : ℕ) (blk tail : List ℕ) (n : ℕ) (r : Outcome Str)
    → n ≡ length tail
    → 0 < n
    → s.size + n ≤ cap
    → cap < 2 ^ 32 - 1
    → cap < length blk
    → take s.size blk ≡ contents s
    → r ≡ ok (record { size = s.size + n; cap = cap; chars = block (closed blk s.size tail n) })
    → Appended s tail r
closed-Appended s cap blk tail n r e p hs hc hb keeps h = record {
  after = record { size = s.size + n; cap = cap; chars = block (closed blk s.size tail n) };
  returned = h;
  valid = record {
    within = hs;
    small = hc;
    stored = (
      omega (arith, length-closed blk s.size tail n),
      (closed-contents blk s.size tail n (omega arith) e).1,
    );
  };
  growable = λ z. absurd (omega arith);
  extended =
      (closed-contents blk s.size tail n (omega arith) e).0 ∙ ap (λ (l : List ℕ). l ++ tail) keeps;
}
