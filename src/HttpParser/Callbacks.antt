-- ===== src/HttpParser/Callbacks.antt =====
-- The life of the wrapper and its callbacks, which http_parser calls as it reads a message.
use ble_central.Base.{
  ℕ, zero, suc, ◌&&◌, Bool, true, false, List, [], ◌∷◌, Option, none, some, ◌==◌, if◌then◌else◌,
  not, set, Outcome, ok, fault, Fault, ◌>>=◌, ◌>>◌, assert, or_fault,
}
use ble_central.Binding.Value.{as_boolean}
use ble_central.Memory.{Allocator}
use ble_central.Buffer.Range.{to_int}
use ble_central.Strings.{Str, create, append, make_empty, destroy, is_empty}
use ble_central.HttpParser.State.{
  is_request, Native, Info, Call, header_max, Parser, Script, slot, last_index, empty_slot, text,
  make_header, call,
}

-- `iotjs_httpparserwrap_initialize`, with the state that `http_parser_init` leaves.
unfoldable pub initialize : Parser → Native → Outcome Parser
initialize p n = do
  u ← make_empty p.url
  m ← make_empty p.status_msg
  ok (record p {
    native = n;
    url = u;
    status_msg = m;
    n_fields = 0;
    n_values = 0;
    flushed = false;
    buf = none;
  })

-- `iotjs_httpparserwrap_destroy`: the strings, in the order of the arrays.
unfoldable pub destroy_slots : List Str → List Str → Outcome (Unit {0})
destroy_slots [] vs = ok tt
destroy_slots (f ∷ fs) [] = fault Fault.overrun
destroy_slots (f ∷ fs) (v ∷ vs) = do let rest = destroy_slots fs vs; destroy f; destroy v; rest

unfoldable pub destroy_wrap : Parser → Outcome (Unit {0})
destroy_wrap p = do destroy p.url; destroy p.status_msg; destroy_slots p.fields p.values

unfoldable pub set_buf : Parser → Option (ℕ × List ℕ) → Parser
set_buf p b = record p { buf = b }

unfoldable pub on_message_begin : Parser → Outcome Parser
on_message_begin p = do
  u ← make_empty p.url
  m ← make_empty p.status_msg
  ok (record p { url = u; status_msg = m })

-- `iotjs_httpparserwrap_on_header_value` up to the assertion: a new value, or the same one.
unfoldable pub open_value : Parser → Outcome Parser
open_value p = if p.n_fields == p.n_values then ok p else (do
  vs ← empty_slot p.values (suc p.n_values)
  ok (record p { values = vs; n_values = suc p.n_values }))

module _ (a : Allocator) where
  -- The strings of the arrays, each made from "".
  unfoldable pub create_slots : ℕ → Outcome (List Str)
  create_slots zero = ok []
  create_slots (suc n) = do let rest = create_slots n; s ← create a (0 ∷ []); r ← rest; ok (s ∷ r)

  -- `iotjs_httpparserwrap_create`
  unfoldable pub create_wrap : Native → Outcome Parser
  create_wrap n = do
    u ← create a (0 ∷ [])
    m ← create a (0 ∷ [])
    fs ← create_slots header_max
    vs ← create_slots header_max
    initialize
        (record {
          native = n;
          url = u;
          status_msg = m;
          fields = fs;
          values = vs;
          n_fields = 0;
          n_values = 0;
          flushed = false;
          buf = none;
          calls = [];
        })
        n

  unfoldable pub append_slot : List Str → ℕ → List ℕ → ℕ → Outcome (List Str)
  append_slot xs n src length = do
    i ← last_index n
    s ← slot xs i
    s' ← append a s src (to_int length)
    ok (set xs i s')

  unfoldable pub on_url : Parser → List ℕ → ℕ → Outcome Parser
  on_url p src length = do u ← append a p.url src (to_int length); ok (record p { url = u })

  unfoldable pub on_status : Parser → List ℕ → ℕ → Outcome Parser
  on_status p src length = do
    m ← append a p.status_msg src (to_int length)
    ok (record p { status_msg = m })

  -- Both ends of `iotjs_httpparserwrap_on_header_field` and `_on_header_value`: the assertion and
  -- the append to the last string.
  unfoldable pub append_field : Parser → List ℕ → ℕ → Outcome Parser
  append_field p src length = do
    assert (p.n_fields == suc p.n_values)
    fs ← append_slot p.fields p.n_fields src length
    ok (record p { fields = fs })

  unfoldable pub append_value : Parser → List ℕ → ℕ → Outcome Parser
  append_value p src length = do
    assert (p.n_fields == p.n_values)
    vs ← append_slot p.values p.n_values src length
    ok (record p { values = vs })

  unfoldable pub on_header_value : Parser → List ℕ → ℕ → Outcome Parser
  on_header_value p src length = do p' ← open_value p; append_value p' src length

module _ (js : Script) where
  -- `iotjs_httpparserwrap_flush`
  unfoldable pub flush : Parser → Outcome Parser
  flush p = do
    assert js.has_headers
    hs ← make_header p
    u ←
        if is_request p.native.type && not (is_empty p.url)
        then (do u ← text p.url; ok (some u))
        else ok none
    let p' = call p (Call.on_headers hs u)
    e ← make_empty p'.url
    ok (record p' { url = e; flushed = true })

  -- The info object and the state once the headers are in it, or flushed.
  unfoldable pub take_headers : Parser → Outcome (Parser × Option (List (List ℕ)) × Option (List ℕ))
  take_headers p = if p.flushed then (do p' ← flush p; ok (p', none, none)) else (do
    hs ← make_header p
    u ←
        if is_request p.native.type
        then (do assert (not (is_empty p.url)); u ← text p.url; ok (some u))
        else ok none
    ok (p, some hs, u))

  -- `iotjs_httpparserwrap_on_headers_complete` and its result.
  unfoldable pub on_headers_complete : Parser → Outcome (Parser × Bool)
  on_headers_complete p = do
    assert js.has_headers_complete
    r ← take_headers p
    let p' = record r.0 { n_fields = 0; n_values = 0 }
    m ← if is_request p'.native.type then ok none else (do m ← text p'.status_msg; ok (some m))
    let info : Info = record {
      headers = r.1;
      url = r.2;
      method = if is_request p'.native.type then some p'.native.method else none;
      status = if is_request p'.native.type then none else some p'.native.status_code;
      status_msg = m;
      upgrade = p'.native.upgrade;
      should_keep_alive = p'.native.keep_alive;
    }
    let p'' = call p' (Call.on_headers_complete info)
    b ← as_boolean (js.answer p''.calls)
    ok (p'', b)

  -- `iotjs_httpparserwrap_on_body`; `at` is counted from `cur_buf`.
  unfoldable pub on_body : Parser → ℕ → ℕ → Outcome Parser
  on_body p at length = do
    assert js.has_body
    b ← or_fault Fault.null_pointer p.buf
    ok (call p (Call.on_body b.0 at length))

  unfoldable pub on_message_complete : Parser → Outcome Parser
  on_message_complete p = do assert js.has_message_complete; ok (call p Call.on_message_complete)

  -- `iotjs_httpparserwrap_on_header_field` up to the assertion: a new name, or the same one.
  unfoldable pub open_field : Parser → Outcome Parser
  open_field p =
      if p.n_fields == p.n_values
      then (do
        let q = record p { n_fields = suc p.n_fields }
        q' ←
            if q.n_fields == header_max
            then (do q' ← flush q; ok (record q' { n_fields = 1; n_values = 0 }))
            else ok q
        fs ← empty_slot q'.fields q'.n_fields
        ok (record q' { fields = fs }))
      else ok p

  unfoldable pub on_header_field : Allocator → Parser → List ℕ → ℕ → Outcome Parser
  on_header_field a p src length = do p' ← open_field p; append_field a p' src length
