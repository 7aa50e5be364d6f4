-- ===== src/Binding/Value.antt =====
-- JavaScript values as the natives see them, and the argument checks of `JHANDLER_FUNCTION`s.
use ble_central.Base.{
  ℕ, Bool, true, false, ◌&&◌, List, [], ◌∷◌, leb, ltb, ◌^◌, ◌≡◌, ◌>>=◌, if◌then◌else◌, arith,
  length, get_elem?, Outcome, ok, fault, Fault, or_fault,
}
use ble_central.Base.Int.{ℤ, pos, negsuc, neg_part, pos_part, IsInt}

-- `FOR_EACH_JVAL_TYPES`
pub data Kind : Type 0 where
  undefined null boolean number string object array function : Kind

-- A number is an integer; a string is its bytes; objects, arrays and functions are their identities.
pub data Jval : Type 0 where
  undefined null : Jval
  boolean : Bool → Jval
  number : ℤ → Jval
  string : List ℕ → Jval
  object array function : ℕ → Jval

-- `iotjs_jval_is_*`: arrays and functions are objects too.
abbrev pub is_kind : Kind → Jval → Bool
is_kind Kind.undefined Jval.undefined = true
is_kind Kind.null Jval.null = true
is_kind Kind.boolean (Jval.boolean b) = true
is_kind Kind.number (Jval.number n) = true
is_kind Kind.string (Jval.string s) = true
is_kind Kind.object (Jval.object o) = true
is_kind Kind.object (Jval.array o) = true
is_kind Kind.object (Jval.function o) = true
is_kind Kind.array (Jval.array o) = true
is_kind Kind.function (Jval.function o) = true
is_kind _ _ = false

-- `iotjs_jval_as_number`, `iotjs_jval_as_string`, `iotjs_jval_as_boolean`, `iotjs_jval_as_object`
abbrev pub as_number : Jval → Outcome ℤ
as_number (Jval.number n) = ok n
as_number _ = fault Fault.aborted

-- A number in an `int` variable. C leaves the conversion of a `double` out of range undefined.
unfoldable pub as_int : Jval → Outcome ℤ
as_int v = do
  n ← as_number v
  if leb (neg_part n) (2 ^ 31) && ltb (pos_part n) (2 ^ 31) then ok n else fault Fault.overflow

pub as_int-number : (v : ℤ) → IsInt v → as_int (Jval.number v) ≡ ok v
unfolding as_int
as_int-number (pos n) h = ground arith
as_int-number (negsuc n) h = ground arith

abbrev pub as_string : Jval → Outcome (List ℕ)
as_string (Jval.string s) = ok s
as_string _ = fault Fault.aborted

abbrev pub as_boolean : Jval → Outcome Bool
as_boolean (Jval.boolean b) = ok b
as_boolean _ = fault Fault.aborted

abbrev pub as_object : Jval → Outcome ℕ
as_object (Jval.object o) = ok o
as_object (Jval.array o) = ok o
as_object (Jval.function o) = ok o
as_object _ = fault Fault.aborted

-- What a native function gives back: its return value, the "Internal error" that `JHANDLER_CHECK`
-- throws, or another thrown error by its message.
pub data Reply : Type 0 where
  returned : Jval → Reply
  check_failed : Reply
  thrown : List ℕ → Reply

-- `iotjs_jhandler_get_arg`
abbrev pub get_arg : List Jval → ℕ → Outcome Jval
get_arg args i = or_fault Fault.aborted (get_elem? args i)

-- `JHANDLER_CHECK_ARGS_n`: the kinds of the first arguments, in order.
abbrev pub check_kinds : List Kind → List Jval → Bool
check_kinds [] args = true
check_kinds (k ∷ ks) [] = false
check_kinds (k ∷ ks) (v ∷ vs) = is_kind k v && check_kinds ks vs

-- `JHANDLER_CHECK_ARGS`: at least as many arguments, of these kinds.
abbrev pub check_args : List Kind → List Jval → Bool
check_args kinds args = leb (length kinds) (length args) && check_kinds kinds args
