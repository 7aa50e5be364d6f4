-- ===== src/Memory/Patch.antt =====
-- A list with some of its elements overwritten.
use ble_central.Base.{
  ℕ, zero, suc, ◌+◌, ◌≤◌, ◌<◌, ◌≡◌, refl, ap, List, [], ◌∷◌, ◌++◌, some, arith, length, take,
  get_elem?,
}

module _ {ℓ} {A : Type ℓ} where
  -- `bs` written over `xs` from index `off` on; what falls outside is lost.
  abbrev pub patch : List A → ℕ → List A → List A
  patch [] off bs = []
  patch (x ∷ xs) zero [] = x ∷ xs
  patch (x ∷ xs) zero (b ∷ bs) = b ∷ patch xs zero bs
  patch (x ∷ xs) (suc off) bs = x ∷ patch xs off bs

  pub length-patch : (xs : List A) (off : ℕ) (bs : List A) → length (patch xs off bs) ≡ length xs
  length-patch [] off bs = refl
  length-patch (x ∷ xs) zero [] = refl
  length-patch (x ∷ xs) zero (b ∷ bs) = ap suc (length-patch xs zero bs)
  length-patch (x ∷ xs) (suc off) bs = ap suc (length-patch xs off bs)

  pub take-patch :
      (xs : List A) (off : ℕ) (bs : List A) (n : ℕ)
      → off + length bs ≤ length xs
      → n ≡ off + length bs
      → take n (patch xs off bs) ≡ take off xs ++ bs
  take-patch [] zero [] zero h e = refl
  take-patch [] zero [] (suc n) h e = refl
  take-patch [] zero (b ∷ bs) n h e = absurd (omega arith)
  take-patch [] (suc off) bs n h e = absurd (omega arith)
  take-patch (x ∷ xs) zero [] zero h e = refl
  take-patch (x ∷ xs) zero [] (suc n) h e = absurd (omega arith)
  take-patch (x ∷ xs) zero (b ∷ bs) zero h e = absurd (omega arith)
  take-patch (x ∷ xs) zero (b ∷ bs) (suc n) h e =
      ap (λ l. b ∷ l) (take-patch xs zero bs n (omega arith) (omega arith))
  take-patch (x ∷ xs) (suc off) bs zero h e = absurd (omega arith)
  take-patch (x ∷ xs) (suc off) bs (suc n) h e =
      ap (λ l. x ∷ l) (take-patch xs off bs n (omega arith) (omega arith))

  pub take-patch_above :
      (xs : List A) (off : ℕ) (bs : List A) (n : ℕ) → n ≤ off → take n (patch xs off bs) ≡ take n xs
  take-patch_above xs off bs zero h = refl
  take-patch_above [] off bs (suc n) h = refl
  take-patch_above (x ∷ xs) zero bs (suc n) h = absurd (omega arith)
  take-patch_above (x ∷ xs) (suc off) bs (suc n) h =
      ap (λ l. x ∷ l) (take-patch_above xs off bs n (omega arith))

  pub get_elem?-patch_self :
      (xs : List A) (off : ℕ) (b : A)
      → off < length xs
      → get_elem? (patch xs off (b ∷ [])) off ≡ some b
  get_elem?-patch_self [] off b h = elim h [ ]
  get_elem?-patch_self (x ∷ xs) zero b h = refl
  get_elem?-patch_self (x ∷ xs) (suc off) b h = get_elem?-patch_self xs off b (omega arith)

pub patch-whole {ℓ} : {A : Type ℓ} (xs bs : List A) → length bs ≡ length xs → patch xs 0 bs ≡ bs
patch-whole [] [] h = refl
patch-whole [] (b ∷ bs) h = absurd (omega arith)
patch-whole (x ∷ xs) [] h = absurd (omega arith)
patch-whole (x ∷ xs) (b ∷ bs) h = ap (λ l. b ∷ l) (patch-whole xs bs (omega arith))
