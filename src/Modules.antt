-- ===== src/Modules.antt =====
-- src/iotjs_module.c: the table of the builtin modules, each registered when it is first needed.
pub mod Once
use ble_central.Base.{
  ℕ, zero, suc, Bool, true, false, List, [], ◌∷◌, ◌++◌, Option, none, some, ltb, if◌then◌else◌, not,
  length, get_elem?, set, Outcome, ok, fault, Fault, ◌>>=◌, ◌>>◌, assert, or_fault,
}
use ble_central.Binding.Value.{Kind, Jval, is_kind}

-- `modules`, by their kinds, and the kinds that were registered, in order.
pub record Modules : Type 0 where
  pub jmodules : List Jval
  pub registered : List ℕ

abbrev pub is_undefined : Jval → Bool
is_undefined v = is_kind Kind.undefined v

-- `iotjs_module_list_init` for as many modules as there are registering functions.
abbrev all_undefined : List (Jval) → List Jval
all_undefined [] = []
all_undefined (f ∷ fs) = Jval.undefined ∷ all_undefined fs

-- The `Init…` functions, by what they return.
module _ (fn_register : List Jval) where
  pub list_init : Modules
  list_init = record { jmodules = all_undefined fn_register; registered = [] }

  -- `iotjs_module_get`
  pub get : Modules → ℕ → Outcome Jval
  get m kind = do
    assert (ltb kind (length m.jmodules))
    v ← or_fault Fault.overrun (get_elem? m.jmodules kind)
    assert (not (is_undefined v))
    ok v

  pub initialize_if_necessary : Modules → ℕ → Outcome (Modules × Jval)
  initialize_if_necessary m kind = do
    assert (ltb kind (length m.jmodules))
    v ← or_fault Fault.overrun (get_elem? m.jmodules kind)
    f ← or_fault Fault.overrun (get_elem? fn_register kind)
    let m' =
        if is_undefined v
        then record { jmodules = set m.jmodules kind f; registered = m.registered ++ (kind ∷ []) }
        else m
    r ← get m' kind
    ok (m', r)

-- `iotjs_module_list_cleanup`: the modules whose references are given up.
pub list_cleanup : Modules → List Jval
list_cleanup m = registered_of m.jmodules
  where
    registered_of : List Jval → List Jval
    registered_of [] = []
    registered_of (v ∷ vs) =
        let rest = registered_of vs in if is_undefined v then rest else v ∷ rest
