-- ===== src/Memory/Laws.antt =====
-- What the memory functions give where the bytes are there.
use ble_central.Base.{
  ℕ, zero, suc, ◌+◌, ◌-◌, ◌≤◌, ◌<◌, ◌≡◌, ◌≢◌, refl, ap, ◌∙◌, true, List, [], ◌∷◌, ◌++◌, some, arith,
  length, take, drop, length-append, length-take, replicate, le→leb, ok, take-append_left,
  take-take,
}
use ble_central.Memory.{
  Allocator, u32_mod, buffer_allocate, buffer_reallocate, buffer_release, junk_bytes, strlen,
  strnlen, strncpy_bytes, memcpy_bytes, write_at,
}
use ble_central.Memory.Patch.{patch}

-- No byte of the list is NUL.
abbrev pub NoNul : List ℕ → Type 0
NoNul [] = Unit {0}
NoNul (c ∷ cs) = (c ≢ 0) × NoNul cs

pub take-NoNul : (n : ℕ) (cs : List ℕ) → NoNul cs → NoNul (take n cs)
take-NoNul zero cs h = tt
take-NoNul (suc n) [] h = tt
take-NoNul (suc n) (c ∷ cs) h = (h.0, take-NoNul n cs h.1)

pub drop-NoNul : (n : ℕ) (cs : List ℕ) → NoNul cs → NoNul (drop n cs)
drop-NoNul zero cs h = h
drop-NoNul (suc n) [] h = tt
drop-NoNul (suc n) (c ∷ cs) h = drop-NoNul n cs h.1

-- Every request for less than 2^32 bytes succeeds.
abbrev pub IsAmple : Allocator → Type 0
IsAmple a = (m : ℕ) → m < u32_mod → a.fits m ≡ true

pub write_at_lem :
    (blk : List ℕ) (off : ℕ) (bs : List ℕ)
    → off + length bs ≤ length blk
    → write_at blk off bs ≡ ok (patch blk off bs)
unfolding write_at
write_at_lem blk off bs h = rw (le→leb _ _ h)

pub strncpy_bytes_lem :
    (n : ℕ) (s : List ℕ) → n ≤ length s → NoNul (take n s) → strncpy_bytes n s ≡ ok (take n s)
unfolding strncpy_bytes
strncpy_bytes_lem zero s h z = refl
strncpy_bytes_lem (suc n) [] h z = absurd (omega arith)
strncpy_bytes_lem (suc n) (zero ∷ s) h z = absurd (z.0 refl)
strncpy_bytes_lem (suc n) (suc c ∷ s) h z = rw (strncpy_bytes_lem n s (omega arith) z.1)

pub strnlen_lem : (n : ℕ) (s : List ℕ) → n ≤ length s → NoNul (take n s) → strnlen n s ≡ ok n
unfolding strnlen
strnlen_lem zero s h z = refl
strnlen_lem (suc n) [] h z = absurd (omega arith)
strnlen_lem (suc n) (zero ∷ s) h z = absurd (z.0 refl)
strnlen_lem (suc n) (suc c ∷ s) h z = rw (strnlen_lem n s (omega arith) z.1)

pub strlen_lem : (s t : List ℕ) → NoNul s → strlen (s ++ (0 ∷ t)) ≡ ok (length s)
unfolding strlen
strlen_lem [] t z = refl
strlen_lem (zero ∷ s) t z = absurd (z.0 refl)
strlen_lem (suc c ∷ s) t z = rw (strlen_lem s t z.1)

pub memcpy_bytes_lem : (n : ℕ) (s : List ℕ) → n ≤ length s → memcpy_bytes n s ≡ ok (take n s)
unfolding memcpy_bytes
memcpy_bytes_lem n s h = rw (le→leb _ _ h)

pub buffer_allocate_lem :
    (a : Allocator) (n : ℕ) → a.fits n ≡ true → buffer_allocate a n ≡ ok (replicate n 0)
unfolding buffer_allocate
buffer_allocate_lem a n e = rw e

length-junk_bytes : (a : Allocator) (n : ℕ) → length (junk_bytes a n) ≡ n
unfolding junk_bytes
length-junk_bytes a zero = refl
length-junk_bytes a (suc n) = ap suc (length-junk_bytes a n)

-- A block that is moved keeps its bytes, as far as it is as long.
pub buffer_reallocate_lem :
    (a : Allocator) (blk : List ℕ) (n : ℕ)
    → a.fits n ≡ true
    → (blk' : List ℕ) × (buffer_reallocate a blk n ≡ some blk')
      × (length blk' ≡ n)
      × ((k : ℕ) → k ≤ length blk → k ≤ n → take k blk' ≡ take k blk)
unfolding buffer_reallocate
buffer_reallocate_lem a blk n e = (
  take n blk ++ fresh,
  rw e,
  omega (
    arith,
    length-append (take n blk) fresh,
    length-junk_bytes a (n - length blk),
    length-take n blk,
  ),
  λ k hk hn.
      take-append_left k (take n blk) fresh (omega (arith, length-take n blk))
      ∙ take-take k n blk hn,
)
  where
    fresh : List ℕ
    fresh = junk_bytes a (n - length blk)

pub buffer_release_lem : (b : List ℕ) → buffer_release (some b) ≡ ok tt
unfolding buffer_release
buffer_release_lem b = refl

-- The bytes before the first NUL.
abbrev pub until_nul : List ℕ → List ℕ
until_nul [] = []
until_nul (zero ∷ cs) = []
until_nul (suc c ∷ cs) = suc c ∷ until_nul cs

pub until_nul-NoNul : (cs : List ℕ) → NoNul (until_nul cs)
until_nul-NoNul [] = tt
until_nul-NoNul (zero ∷ cs) = tt
until_nul-NoNul (suc c ∷ cs) = (omega arith, until_nul-NoNul cs)

pub until_nul-le : (n : ℕ) (s : List ℕ) → length (until_nul (take n s)) ≤ n
until_nul-le zero s = omega arith
until_nul-le (suc n) [] = omega arith
until_nul-le (suc n) (zero ∷ s) = omega arith
until_nul-le (suc n) (suc c ∷ s) = omega (arith, until_nul-le n s)

pub take-until_nul :
    (n : ℕ) (s : List ℕ) → take (length (until_nul (take n s))) s ≡ until_nul (take n s)
take-until_nul zero s = refl
take-until_nul (suc n) [] = refl
take-until_nul (suc n) (zero ∷ s) = refl
take-until_nul (suc n) (suc c ∷ s) = ap (λ l. suc c ∷ l) (take-until_nul n s)

pub strnlen_until :
    (n : ℕ) (s : List ℕ) → n ≤ length s → strnlen n s ≡ ok (length (until_nul (take n s)))
unfolding strnlen
strnlen_until zero s h = refl
strnlen_until (suc n) [] h = absurd (omega arith)
strnlen_until (suc n) (zero ∷ s) h = refl
strnlen_until (suc n) (suc c ∷ s) h = rw (strnlen_until n s (omega arith))
