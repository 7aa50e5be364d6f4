-- ===== src/HttpParser/Valid.antt =====
-- The invariant of the wrapper of src/module/iotjs_module_httpparser.h, and its arrays of strings.
use ble_central.Base.{
  ℕ, zero, suc, ◌+◌, ◌^◌, ◌≤◌, ◌<◌, ◌≡◌, ◌⊎◌, refl, ap, sym, ◌∙◌, arith, false, List, [], ◌∷◌, ◌++◌,
  some, length, take, get_elem?, set, length-take, length-append, ok,
}
use ble_central.Memory.{Allocator}
use ble_central.Memory.Laws.{NoNul, IsAmple}
use ble_central.Buffer.Range.{to_int, to_int-pos}
use ble_central.Strings.{
  Str, Chars, empty_string, block, null, nothing, contents, bytes, is_null, append,
}
use ble_central.Strings.Valid.{IsValid, IsGrowable, Stores}
use ble_central.Strings.Append.{append-Appended}
use ble_central.Strings.Build.{nothing-IsValid, make_empty-nothing}
use ble_central.HttpParser.State.{Parser, header_max, slot, empty_slot, text}
use ble_central.HttpParser.Callbacks.{append_slot}

-- A string of at most `m` bytes that can be appended to.
pub record IsString (m : ℕ) (s : Str) : Type 0 where
  pub valid : IsValid s
  pub growable : IsGrowable s
  pub fits : s.size ≤ m

abbrev pub Each : (Str → Type 0) → List Str → Type 0
Each P xs = (i : ℕ) (s : Str) → get_elem? xs i ≡ some s → P s

-- The wrapper between two callbacks, when at most `m` bytes have gone into each string: as many
-- names as values or one more, and never as many as the arrays hold.
pub record IsParser (m : ℕ) (p : Parser) : Type 0 where
  pub url : IsString m p.url
  pub status_msg : IsString m p.status_msg
  pub fields_length : length p.fields ≡ header_max
  pub values_length : length p.values ≡ header_max
  pub fields : Each (IsString m) p.fields
  pub values : Each (IsString m) p.values
  pub below : p.n_fields < header_max
  pub counts : (p.n_fields ≡ p.n_values) ⊎ (p.n_fields ≡ suc p.n_values)

pub IsString-mono : (m n : ℕ) (s : Str) → IsString m s → m ≤ n → IsString n s
IsString-mono m n s v h = record {
  valid = v.valid;
  growable = v.growable;
  fits = omega (arith, v.fits);
}

pub IsString-nothing : (m : ℕ) → IsString m nothing
IsString-nothing m = record { valid = nothing-IsValid; growable = λ e. refl; fits = omega arith }

pub Each-set :
    (P : Str → Type 0) (xs : List Str) (i : ℕ) (s : Str) → Each P xs → P s → Each P (set xs i s)
Each-set P [] i s all new j t e = all j t e
Each-set P (x ∷ xs) zero s all new zero t e = let q : s ≡ t = cc in rw q at new
Each-set P (x ∷ xs) zero s all new (suc j) t e = all (suc j) t e
Each-set P (x ∷ xs) (suc i) s all new zero t e = all zero t e
Each-set P (x ∷ xs) (suc i) s all new (suc j) t e =
    Each-set P xs i s (λ k u e. all (suc k) u e) new j t e

pub there : (xs : List Str) (i : ℕ) → i < length xs → (s : Str) × (get_elem? xs i ≡ some s)
there [] i h = absurd (omega arith)
there (x ∷ xs) zero h = (x, refl)
there (x ∷ xs) (suc i) h = there xs i (omega arith)

bytes_length :
    (ch : Chars) (size cap : ℕ) → Stores ch size cap → size ≤ cap → size ≤ length (bytes ch)
bytes_length empty_string size cap st h = omega (arith, st.0)
bytes_length (block b) size cap st h = omega (arith, st.0)
bytes_length null size cap st h = absurd st

pub length-contents : (s : Str) → IsValid s → length (contents s) ≡ s.size
length-contents s v =
    omega (
      arith,
      length-take s.size (bytes s.chars),
      bytes_length s.chars s.size s.cap v.stored v.within,
    )

not-null : (ch : Chars) (size cap : ℕ) → Stores ch size cap → is_null ch ≡ false
not-null empty_string size cap st = refl
not-null (block b) size cap st = refl
not-null null size cap st = absurd st

pub text_lem : (s : Str) → IsValid s → text s ≡ ok (contents s)
unfolding text
text_lem s v = rw (not-null s.chars s.size s.cap v.stored)

pub empty_slot_lem :
    (m : ℕ) (xs : List Str) (i : ℕ)
    → Each (IsString m) xs
    → i < length xs
    → empty_slot xs (suc i) ≡ ok (set xs i nothing)
unfolding empty_slot slot
empty_slot_lem m xs i all h =
    let s = there xs i h in rw s.1 (rw ((make_empty-nothing s.0 (all i s.0 s.1).valid).0))

-- What an append to a string does: the string gets the bytes.
pub append_string_lem :
    (a : Allocator) (m : ℕ) (s : Str) (src : List ℕ) (n : ℕ)
    → IsAmple a
    → IsString m s
    → n ≤ length src
    → NoNul (take n src)
    → m + n < 2 ^ 31
    → (s' : Str) × (append a s src (to_int n) ≡ ok s')
      × IsString (m + n) s'
      × (contents s' ≡ contents s ++ take n src)
append_string_lem a m s src n ample v enough clean small =
    let r =
      append-Appended a s src n ample v.valid v.growable enough clean (omega (arith, v.fits)) in
    let size : r.after.size ≡ s.size + n =
      sym (length-contents r.after r.valid)
      ∙ ap length r.extended
      ∙ length-append (contents s) (take n src)
      ∙ omega (arith, length-contents s v.valid, length-take n src) in
    (
      r.after,
      rw (to_int-pos n (omega arith)) r.returned,
      record { valid = r.valid; growable = r.growable; fits = omega (arith, v.fits) },
      r.extended,
    )

-- What an append to a string of an array does: the string gets the bytes.
pub append_slot_lem :
    (a : Allocator) (m : ℕ) (xs : List Str) (i : ℕ) (s : Str) (src : List ℕ) (n : ℕ)
    → IsAmple a
    → get_elem? xs i ≡ some s
    → IsString m s
    → n ≤ length src
    → NoNul (take n src)
    → m + n < 2 ^ 31
    → (s' : Str) × (append_slot a xs (suc i) src n ≡ ok (set xs i s'))
      × IsString (m + n) s'
      × (contents s' ≡ contents s ++ take n src)
unfolding append_slot slot
append_slot_lem a m xs i s src n ample e v enough clean small =
    let r = append_string_lem a m s src n ample v enough clean small in
    (r.0, rw e (rw r.1 refl), r.2, r.3)
