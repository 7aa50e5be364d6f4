-- ===== src/Modules/Once.antt =====
-- `iotjs_module_initialize_if_necessary` of src/iotjs_module.c registers a module once.
use ble_central.Base.{
  ℕ, ◌<◌, ◌≡◌, ◌≢◌, refl, arith, false, List, [], ◌∷◌, ◌++◌, some, lt→ltb, length, length-set,
  get_elem?, set, get_elem?-set_self, get_elem?-set_ne, ok,
}
use ble_central.Binding.Value.{Jval}
use ble_central.Modules.{Modules, is_undefined, get, initialize_if_necessary}

get_lem :
    (fs : List Jval) (m : Modules) (kind : ℕ) (v : Jval)
    → get_elem? m.jmodules kind ≡ some v
    → kind < length m.jmodules
    → is_undefined v ≡ false
    → get fs m kind ≡ ok v
unfolding get
get_lem fs m kind v e h u = rw (lt→ltb kind (length m.jmodules) h) (rw e (rw u refl))

-- The first use of a module, whose function returns a defined value, registers it and gives that
-- value; the table of the others stays as it is. Every later use gives the same value and changes
-- nothing.
pub initialize_once :
    (fs : List Jval) (m : Modules) (kind : ℕ) (f : Jval)
    → kind < length m.jmodules
    → get_elem? m.jmodules kind ≡ some Jval.undefined
    → get_elem? fs kind ≡ some f
    → is_undefined f ≡ false
    → (m' : Modules) × (initialize_if_necessary fs m kind ≡ ok (m', f))
      × (m'.registered ≡ m.registered ++ (kind ∷ []))
      × ((j : ℕ) → kind ≢ j → get_elem? m'.jmodules j ≡ get_elem? m.jmodules j)
      × (initialize_if_necessary fs m' kind ≡ ok (m', f))
unfolding initialize_if_necessary
initialize_once fs m kind f h e g u =
    let m' : Modules = record {
      jmodules = set m.jmodules kind f;
      registered = m.registered ++ (kind ∷ []);
    } in
    let now = get_elem?-set_self m.jmodules kind f h in
    let size = length-set m.jmodules kind f in
    let got = get_lem fs m' kind f now (omega (arith, size)) u in
    (
      m',
      rw (lt→ltb kind (length m.jmodules) h) (rw e (rw g (rw got refl))),
      refl,
      (λ j n. get_elem?-set_ne m.jmodules kind j f n),
      rw (lt→ltb kind (length (set m.jmodules kind f)) (omega (arith, size)))
          (rw now (rw g (rw u (rw got refl)))),
    )
