-- ===== src/Binding/World/Fresh.antt =====
-- How the references of a world change when objects are made and given up (src/iotjs_binding.c).
use ble_central.Base.{
  ℕ, ◌+◌, ◌≤◌, ◌<◌, ◌≡◌, ◌≢◌, refl, ap, arith, List, [], ◌∷◌, ◌++◌, some, ◌==◌, ==_refl, ==_iff,
  ==_ne, Bool-cases, inl, inr, true, false, ok,
}
use ble_central.Binding.Value.{Jval}
use ble_central.Binding.Args.{Counts, acquire, identity, Handler, return_jval, throw}
use ble_central.Binding.Balance.{counts_as, occurrences, acquire_at, release_at}
use ble_central.Binding.World.{
  Content, World, Invocation, create_object, drop_value, put_content, give_back, throw_value,
}

-- No object that is still to be made has references.
abbrev pub IsFresh : World → Type 0
IsFresh w = (q : ℕ) → w.next ≤ q → w.counts q ≡ 0

-- What is held more in `w'` than in `w`.
pub record Adds (w w' : World) (vs : List Jval) : Type 0 where
  pub at : (q : ℕ) → w'.counts q ≡ w.counts q + occurrences vs q
  pub fresh : IsFresh w'

-- An object with content `c` that was made in `w`, and the calls that were made for it.
pub record Made (w : World) (o : World × ℕ) (c : Content) (calls : List Invocation) : Type 0 where
  pub adds : Adds w o.0 (Jval.object o.1 ∷ [])
  pub holds : o.0.content o.1 ≡ c
  pub invoked : o.0.invoked ≡ w.invoked ++ calls

abbrev pub without_more : World → Counts → World
without_more w c = record w { counts = c }

put_content_self : (f : ℕ → Content) (o : ℕ) (c : Content) → put_content f o c o ≡ c
put_content_self f o c = rw (==_refl o) refl

created_at :
    (w : World) (c : Content) (q : ℕ)
    → IsFresh w
    → (create_object w c).0.counts q ≡ w.counts q + counts_as (some w.next) q
unfolding create_object
created_at w c q fresh = elim (Bool-cases (q == w.next)) [
  | inl t ↦
      let same : q ≡ w.next = (==_iff q w.next).0 t in rw t (omega (arith, fresh q (omega arith)))
  | inr f ↦ rw f (omega arith)
]

created-fresh : (w : World) (c : Content) → IsFresh w → IsFresh (create_object w c).0
unfolding create_object
created-fresh w c fresh q h =
    rw (==_ne q w.next (λ e. absurd (omega arith))) (fresh q (omega arith))

append_none : (l : List Invocation) → l ≡ l ++ []
append_none [] = refl
append_none (x ∷ l) = ap (λ r. x ∷ r) (append_none l)

pub create_object-Made : (w : World) (c : Content) → IsFresh w → Made w (create_object w c) c []
unfolding create_object
create_object-Made w c fresh = record {
  adds = record {
    at = λ q. omega (arith, created_at w c q fresh);
    fresh = created-fresh w c fresh;
  };
  holds = put_content_self w.content w.next c;
  invoked = append_none w.invoked;
}

counts_as_other : (f q : ℕ) → q ≢ f → counts_as (some f) q ≡ 0
counts_as_other f q h = rw (==_ne q f h) refl

-- An object that is held is not one that is still to be made.
pub held-fresh :
    (w : World) (f : ℕ)
    → IsFresh w
    → 0 < w.counts f
    → IsFresh (record w { counts = acquire w.counts (Jval.function f) })
held-fresh w f fresh held q h =
    let apart : q ≢ f = λ e. absurd (omega (arith, fresh q h, ap w.counts e)) in
    omega (arith, acquire_at w.counts (some f) q, counts_as_other f q apart, fresh q h)

-- A value that is held can be given up.
pub drop_value_at :
    (w : World) (v : Jval)
    → ((q : ℕ) → counts_as (identity v) q ≤ w.counts q)
    → (c : Counts) × (drop_value w v ≡ ok (record w { counts = c }))
      × ((q : ℕ) → c q + counts_as (identity v) q ≡ w.counts q)
unfolding drop_value
drop_value_at w v h = let r = release_at w.counts (identity v) h in (r.0, rw r.1 refl, r.2)

-- The frame of a native that has returned nothing yet takes one value.
abbrev pub IsOpen : Handler → Type 0
IsOpen h = (h.jret ≡ Jval.undefined) × (h.finished ≡ false) × (h.is_error ≡ false)

pub give_back_lem :
    (w : World) (h : Handler) (v : Jval)
    → IsOpen h
    → give_back w h v
      ≡ ok (record w { counts = acquire w.counts v }, record h { jret = v; finished = true })
unfolding give_back return_jval
give_back_lem w h v o = rw (o.1) (rw (o.0) refl)

pub throw_value_lem :
    (w : World) (h : Handler) (v : Jval)
    → IsOpen h
    → throw_value w h v
      ≡ ok (
        record w { counts = acquire w.counts v },
        record h { jret = v; is_error = true; finished = true },
      )
unfolding throw_value throw
throw_value_lem w h v o = rw (o.1) (rw (o.0) refl)
