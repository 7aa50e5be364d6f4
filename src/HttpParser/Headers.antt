-- ===== src/HttpParser/Headers.antt =====
-- What the wrapper of src/module/iotjs_module_httpparser.c is for: the headers of a message, put
-- together from the fragments of names and values, as an independent description.
use ble_central.Base.{
  ℕ, zero, suc, ◌≤◌, ◌≡◌, refl, ap, sym, ◌∙◌, arith, List, [], ◌∷◌, ◌++◌, append_assoc, Option,
  none, some, ◌==◌, if◌then◌else◌, length, get_elem?, set, ok,
}
use ble_central.Strings.{Str, contents}
use ble_central.HttpParser.State.{Call, Parser, header_array}
use ble_central.HttpParser.Valid.{Each, IsString, text_lem}

-- The headers so far, names and values in turn, and the name whose value has not begun.
pub record Headers : Type 0 where
  pub list : List (List ℕ)
  pub pending : Option (List ℕ)

abbrev pub or_nil {ℓ} : {A : Type ℓ} → Option (List A) → List A
or_nil none = []
or_nil (some l) = l

abbrev pub extend_last : List (List ℕ) → List ℕ → List (List ℕ)
extend_last [] b = []
extend_last (x ∷ []) b = (x ++ b) ∷ []
extend_last (x ∷ y ∷ xs) b = x ∷ extend_last (y ∷ xs) b

-- A fragment of a name begins a name or continues the one that waits for its value.
abbrev pub add_name : Headers → List ℕ → Headers
add_name h b = record { list = h.list; pending = some (or_nil h.pending ++ b) }

-- A fragment of a value begins the value of the name that waits, or continues the last value.
abbrev pub add_value : Headers → List ℕ → Headers
add_value h b = record {
  list = elim h.pending [ none ↦ extend_last h.list b | some name ↦ h.list ++ (name ∷ b ∷ []) ];
  pending = none;
}

-- The headers that JavaScript has been given, in the order of the calls.
abbrev pub headers_of : Call → List (List ℕ)
headers_of (Call.on_headers hs u) = hs
headers_of (Call.on_headers_complete i) = or_nil i.headers
headers_of (Call.on_body b at n) = []
headers_of Call.on_message_complete = []

abbrev pub delivered : List Call → List (List ℕ)
delivered [] = []
delivered (c ∷ cs) = headers_of c ++ delivered cs

-- The headers of the first `n` elements of the two arrays.
abbrev pub pairs : ℕ → List Str → List Str → List (List ℕ)
pairs zero fs vs = []
pairs (suc n) [] vs = []
pairs (suc n) (f ∷ fs) [] = []
pairs (suc n) (f ∷ fs) (v ∷ vs) = contents f ∷ contents v ∷ pairs n fs vs

abbrev pub contents? : Option Str → Option (List ℕ)
contents? none = none
contents? (some s) = some (contents s)

abbrev pub name_at : List Str → ℕ → Option (List ℕ)
name_at fs i = contents? (get_elem? fs i)

-- The headers that a wrapper stands for: those given to JavaScript, those that it keeps, and the
-- name that has no value yet.
abbrev pub assembled : Parser → Headers
assembled p = record {
  list = delivered p.calls ++ pairs p.n_values p.fields p.values;
  pending = if p.n_fields == p.n_values then none else name_at p.fields p.n_values;
}

pub delivered-append : (xs ys : List Call) → delivered (xs ++ ys) ≡ delivered xs ++ delivered ys
delivered-append [] ys = refl
delivered-append (x ∷ xs) ys =
    ap (λ l. headers_of x ++ l) (delivered-append xs ys)
    ∙ sym (append_assoc (headers_of x) (delivered xs) (delivered ys))

pub extend_last-append :
    (l : List (List ℕ)) (n v b : List ℕ)
    → extend_last (l ++ (n ∷ v ∷ [])) b ≡ l ++ (n ∷ (v ++ b) ∷ [])
extend_last-append [] n v b = refl
extend_last-append (x ∷ []) n v b = refl
extend_last-append (x ∷ y ∷ l) n v b = ap (λ l. x ∷ l) (extend_last-append (y ∷ l) n v b)

-- Writing an element that is not among the first `n` keeps their headers.
pub pairs-set_field :
    (n i : ℕ) (s : Str) (fs vs : List Str) → n ≤ i → pairs n (set fs i s) vs ≡ pairs n fs vs
pairs-set_field zero i s fs vs h = refl
pairs-set_field (suc n) i s [] vs h = refl
pairs-set_field (suc n) zero s (f ∷ fs) vs h = absurd (omega arith)
pairs-set_field (suc n) (suc i) s (f ∷ fs) [] h = refl
pairs-set_field (suc n) (suc i) s (f ∷ fs) (v ∷ vs) h =
    ap (λ l. contents f ∷ contents v ∷ l) (pairs-set_field n i s fs vs (omega arith))

pub pairs-set_value :
    (n i : ℕ) (s : Str) (fs vs : List Str) → n ≤ i → pairs n fs (set vs i s) ≡ pairs n fs vs
pairs-set_value zero i s fs vs h = refl
pairs-set_value (suc n) i s [] vs h = refl
pairs-set_value (suc n) i s (f ∷ fs) [] h = refl
pairs-set_value (suc n) zero s (f ∷ fs) (v ∷ vs) h = absurd (omega arith)
pairs-set_value (suc n) (suc i) s (f ∷ fs) (v ∷ vs) h =
    ap (λ l. contents f ∷ contents v ∷ l) (pairs-set_value n i s fs vs (omega arith))

pub pairs-suc :
    (n : ℕ) (f v : Str) (fs vs : List Str)
    → get_elem? fs n ≡ some f
    → get_elem? vs n ≡ some v
    → pairs (suc n) fs vs ≡ pairs n fs vs ++ (contents f ∷ contents v ∷ [])
pairs-suc n f v [] vs e g = cc
pairs-suc n f v (x ∷ fs) [] e g = cc
pairs-suc zero f v (x ∷ fs) (y ∷ vs) e g =
    let p : x ≡ f = cc in let q : y ≡ v = cc in rw p (rw q refl)
pairs-suc (suc n) f v (x ∷ fs) (y ∷ vs) e g =
    ap (λ l. contents x ∷ contents y ∷ l) (pairs-suc n f v fs vs e g)

pub header_array_lem :
    (m n : ℕ) (fs vs : List Str)
    → Each (IsString m) fs
    → Each (IsString m) vs
    → n ≤ length fs
    → n ≤ length vs
    → header_array n fs vs ≡ ok (pairs n fs vs)
unfolding header_array
header_array_lem m zero fs vs af av h g = refl
header_array_lem m (suc n) [] vs af av h g = absurd (omega arith)
header_array_lem m (suc n) (f ∷ fs) [] af av h g = absurd (omega arith)
header_array_lem m (suc n) (f ∷ fs) (v ∷ vs) af av h g = rw (text_lem f (af 0 f refl).valid) (
    rw (text_lem v (av 0 v refl).valid) (
      rw (
        header_array_lem m n fs vs (λ i s e. af (suc i) s e) (λ i s e. av (suc i) s e) (omega arith)
          (omega arith))))
