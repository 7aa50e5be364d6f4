-- ===== src/HttpParser/State.antt =====
-- The state of the wrapper of src/module/iotjs_module_httpparser.h, and its arrays of strings.
use ble_central.Base.{
  ℕ, zero, suc, Bool, true, false, List, [], ◌∷◌, ◌++◌, Option, not, get_elem?, set, Outcome, ok,
  fault, Fault, ◌>>=◌, ◌>>◌, assert, or_fault,
}
use ble_central.Base.Int.{ℤ}
use ble_central.Binding.Value.{Jval}
use ble_central.Strings.{Str, make_empty, is_null, contents}

-- `http_parser_type`
pub data ParserType : Type 0 where
  request response : ParserType

abbrev pub is_request : ParserType → Bool
is_request request = true
is_request response = false

-- The fields of the library's `http_parser` that the wrapper reads; `hidden` are the others, as the
-- bytes they are.
pub record Native : Type 0 where
  pub type : ParserType
  pub method : ℤ
  pub status_code : ℤ
  pub upgrade : Bool
  pub keep_alive : Bool
  pub hidden : List ℕ

-- The object that `OnHeadersComplete` gets; a property that is not set is `none`.
pub record Info : Type 0 where
  pub headers : Option (List (List ℕ))
  pub url : Option (List ℕ)
  pub method : Option ℤ
  pub status : Option ℤ
  pub status_msg : Option (List ℕ)
  pub upgrade : Bool
  pub should_keep_alive : Bool

-- The calls made to JavaScript: headers as an array of names and values in turn, a body as a part
-- of the buffer that is parsed.
pub data Call : Type 0 where
  on_headers : List (List ℕ) → Option (List ℕ) → Call
  on_headers_complete : Info → Call
  on_body : ℕ → ℕ → ℕ → Call
  on_message_complete : Call

-- `HEADER_MAX`
abbrev pub header_max : ℕ
header_max = 10

-- `iotjs_httpparserwrap_t`; `buf` is `cur_jbuf` and `cur_buf`, and `calls` what JavaScript was
-- called with, the earliest first.
pub record Parser : Type 0 where
  pub native : Native
  pub url : Str
  pub status_msg : Str
  pub fields : List Str
  pub values : List Str
  pub n_fields : ℕ
  pub n_values : ℕ
  pub flushed : Bool
  pub buf : Option (ℕ × List ℕ)
  pub calls : List Call

-- What the JavaScript object of the parser does: whether it has each of its four functions, and
-- what `OnHeadersComplete` returns after these calls.
pub record Script : Type 0 where
  pub has_headers : Bool
  pub has_headers_complete : Bool
  pub has_body : Bool
  pub has_message_complete : Bool
  pub answer : List Call → Jval

-- An element of one of the arrays of `HEADER_MAX` strings.
unfoldable pub slot : List Str → ℕ → Outcome Str
slot xs i = or_fault Fault.overrun (get_elem? xs i)

-- The index `n - 1`, which wraps at 0 and is then outside of the array.
abbrev pub last_index : ℕ → Outcome ℕ
last_index zero = fault Fault.overrun
last_index (suc n) = ok n

unfoldable pub empty_slot : List Str → ℕ → Outcome (List Str)
empty_slot xs n = do i ← last_index n; s ← slot xs i; s' ← make_empty s; ok (set xs i s')

-- `iotjs_jval_create_string`
unfoldable pub text : Str → Outcome (List ℕ)
text s = do assert (not (is_null s.chars)); ok (contents s)

-- `iotjs_httpparserwrap_make_header`: the loop over the first `n_values` elements.
unfoldable pub header_array : ℕ → List Str → List Str → Outcome (List (List ℕ))
header_array zero fs vs = ok []
header_array (suc n) [] vs = fault Fault.overrun
header_array (suc n) (f ∷ fs) [] = fault Fault.overrun
header_array (suc n) (f ∷ fs) (v ∷ vs) = do
  let rest = header_array n fs vs
  f' ← text f
  v' ← text v
  r ← rest
  ok (f' ∷ v' ∷ r)

unfoldable pub make_header : Parser → Outcome (List (List ℕ))
make_header p = header_array p.n_values p.fields p.values

unfoldable pub call : Parser → Call → Parser
call p c = record p { calls = p.calls ++ (c ∷ []) }
