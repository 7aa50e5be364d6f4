-- ===== src/Buffer/Bytes/Order.antt =====
-- `iotjs_bufferwrap_compare` against the lexicographic order.
use mathlib.Core.Path.{subst}
use ble_central.Base.{
  ℕ, ◌<◌, ◌≡◌, ◌⊎◌, inl, inr, refl, ap₂, sym, Bool-cases, Bool, true, false, List, [], ◌∷◌, arith,
}
use ble_central.Base.Int.{ℤ, pos, negsuc, ltb_ℤ}
use ble_central.Buffer.Bytes.{char_value, compare_bytes}

abbrev pub IsBytes : List ℕ → Type 0
IsBytes [] = Unit {0}
IsBytes (b ∷ bs) = (b < 256) × IsBytes bs

abbrev pub CharLt : Bool → ℕ → ℕ → Type 0
CharLt signed x y = ltb_ℤ (char_value signed x) (char_value signed y) ≡ true

-- The lexicographic order: a proper prefix comes first, else the first byte that differs decides.
abbrev pub Lex : Bool → List ℕ → List ℕ → Type 0
Lex signed [] [] = ⊥
Lex signed [] (y ∷ ys) = Unit {0}
Lex signed (x ∷ xs) [] = ⊥
Lex signed (x ∷ xs) (y ∷ ys) = CharLt signed x y ⊎ ((x ≡ y) × Lex signed xs ys)

CharLt-irrefl : (signed : Bool) (x : ℕ) → ¬ CharLt signed x x
CharLt-irrefl signed x h = ground arith

CharLt-total :
    (signed : Bool) (x y : ℕ)
    → x < 256
    → y < 256
    → ltb_ℤ (char_value signed x) (char_value signed y) ≡ false
    → ltb_ℤ (char_value signed y) (char_value signed x) ≡ false
    → x ≡ y
unfolding char_value
CharLt-total true x y hx hy h k = ground arith
CharLt-total false x y hx hy h k = ground arith

CharLt-asymm : (signed : Bool) (x y : ℕ) → CharLt signed x y → ¬ CharLt signed y x
CharLt-asymm signed x y h k = ground arith

pub Lex-irrefl : (signed : Bool) (xs : List ℕ) → ¬ Lex signed xs xs
Lex-irrefl signed [] h = h
Lex-irrefl signed (x ∷ xs) (inl h) = CharLt-irrefl signed x h
Lex-irrefl signed (x ∷ xs) (inr (e, h)) = Lex-irrefl signed xs h

pub Lex-asymm : (signed : Bool) (xs ys : List ℕ) → Lex signed xs ys → ¬ Lex signed ys xs
Lex-asymm signed [] [] h k = h
Lex-asymm signed [] (y ∷ ys) h k = k
Lex-asymm signed (x ∷ xs) [] h k = h
Lex-asymm signed (x ∷ xs) (y ∷ ys) (inl h) (inl k) = CharLt-asymm signed x y h k
Lex-asymm signed (x ∷ xs) (y ∷ ys) (inl h) (inr (e, k)) =
    CharLt-irrefl signed x (subst (λ z. CharLt signed x z) e h)
Lex-asymm signed (x ∷ xs) (y ∷ ys) (inr (e, h)) (inl k) =
    CharLt-irrefl signed y (subst (λ z. CharLt signed y z) e k)
Lex-asymm signed (x ∷ xs) (y ∷ ys) (inr (e, h)) (inr (e', k)) = Lex-asymm signed xs ys h k

-- What a comparison answers of two lists of bytes.
pub data Compared (signed : Bool) (xs ys : List ℕ) (r : ℤ) : Type 0 where
  before : Lex signed xs ys → r ≡ negsuc 0 → Compared signed xs ys r
  same : xs ≡ ys → r ≡ pos 0 → Compared signed xs ys r
  after : Lex signed ys xs → r ≡ pos 1 → Compared signed xs ys r

Compared-cons :
    (signed : Bool) (x y : ℕ) (xs ys : List ℕ) (r : ℤ)
    → x ≡ y
    → Compared signed xs ys r
    → Compared signed (x ∷ xs) (y ∷ ys) r
Compared-cons signed x y xs ys r e (before l h) = before (inr (e, l)) h
Compared-cons signed x y xs ys r e (same l h) = same (ap₂ ◌∷◌ e l) h
Compared-cons signed x y xs ys r e (after l h) = after (inr (sym e, l)) h

-- `iotjs_bufferwrap_compare` decides the lexicographic order of the two buffers' bytes, whether
-- `char` is signed or not: it answers -1 exactly when the first comes before the second, 0 exactly
-- when they are equal and 1 exactly when it comes after (`Lex` is irreflexive and asymmetric).
pub compare-Compared :
    (signed : Bool) (xs ys : List ℕ)
    → IsBytes xs
    → IsBytes ys
    → Compared signed xs ys (compare_bytes signed xs ys)
      × (¬ Lex signed xs xs)
      × (Lex signed xs ys → ¬ Lex signed ys xs)
unfolding compare_bytes
compare-Compared signed xs ys bx by =
    (decide xs ys bx by, Lex-irrefl signed xs, Lex-asymm signed xs ys)
  where
    decide :
        (xs ys : List ℕ)
        → IsBytes xs
        → IsBytes ys
        → Compared signed xs ys (compare_bytes signed xs ys)
    decide [] [] bx by = same refl refl
    decide [] (y ∷ ys) bx by = before tt refl
    decide (x ∷ xs) [] bx by = after tt refl
    decide (x ∷ xs) (y ∷ ys) bx by =
        elim (Bool-cases (ltb_ℤ (char_value signed x) (char_value signed y))) [
          | inl lt ↦ before (inl lt) (rw lt)
          | inr ge ↦ elim (Bool-cases (ltb_ℤ (char_value signed y) (char_value signed x))) [
            | inl gt ↦ after (inl gt) (rw (ge, gt))
            | inr le ↦
                rw (ge, le)
                  (Compared-cons signed x y xs ys (compare_bytes signed xs ys)
                    (CharLt-total signed x y bx.0 by.0 ge le) (decide xs ys bx.1 by.1))
          ]
        ]
