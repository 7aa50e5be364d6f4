-- ===== src/HttpParser/Natives.antt =====
-- The native functions of src/module/iotjs_module_httpparser.c. The http_parser library is a
-- parameter: what it does is a run that calls back and continues on what the callback returns.
use ble_central.Base.{
  ℕ, Bool, true, false, List, [], ◌∷◌, Option, none, some, if◌then◌else◌, ◌&&◌, not, drop, Outcome,
  ok, fault, Fault, ◌>>=◌, or_fault,
}
use ble_central.Base.Int.{ℤ, pos, ◌==ℤ◌, ltb_ℤ}
use ble_central.Binding.Value.{Kind, Jval, as_number, as_object, check_args, get_arg, is_kind}
use ble_central.Memory.{Allocator}
use ble_central.Buffer.Range.{to_int}
use ble_central.Buffer.Heap.{Heap, update, from_jbuffer, bufferwrap_length, load}
use ble_central.HttpParser.State.{ParserType, request, response, Native, Parser, Script}
use ble_central.HttpParser.Callbacks.{
  create_wrap, initialize, set_buf, on_message_begin, on_url, on_status, on_header_field,
  on_header_value, on_headers_complete, on_body, on_message_complete,
}

-- A callback of `settings`; data is an offset into the bytes that are parsed and a length.
pub data Event : Type 0 where
  message_begin headers_complete message_complete : Event
  url status header_field header_value body : ℕ → ℕ → Event

-- `http_parser_execute`: the library leaves its fields as they are and returns, or calls back and
-- goes on from the callback's result.
pub data Run : Type 0 where
  finished : Native → ℤ → Run
  calls : Native → Event → (ℤ → Run) → Run

-- The functions of the library; the bytes are `none` for the NULL of `Finish`.
pub record Library : Type 0 where
  pub http_request : ℤ
  pub http_response : ℤ
  pub init : ParserType → Native
  pub execute : Native → Option (List ℕ) → Run
  pub errno_name : Native → List ℕ
  pub pause : Bool → Native → Native

-- What a native returns: nothing, the number of bytes parsed, the error object with its property
-- `code`, or the error that a failed `JHANDLER_CHECK` throws.
pub data Result : Type 0 where
  nothing : Result
  parsed : ℤ → Result
  parse_error : List ℕ → Result
  refused : Result

abbrev pub source : Option (List ℕ) → ℕ → Outcome (List ℕ)
source none at = fault Fault.null_pointer
source (some bs) at = ok (drop at bs)

abbrev pub of_bool : Bool → ℤ
of_bool true = pos 1
of_bool false = pos 0

-- The `HTTP_CB` and `HTTP_DATA_CB` functions.
unfoldable pub dispatch :
    Script → Allocator → Option (List ℕ) → Event → Parser → Outcome (Parser × ℤ)
dispatch js a bs Event.message_begin p = do p' ← on_message_begin p; ok (p', pos 0)
dispatch js a bs Event.headers_complete p = do r ← on_headers_complete js p; ok (r.0, of_bool r.1)
dispatch js a bs Event.message_complete p = do p' ← on_message_complete js p; ok (p', pos 0)
dispatch js a bs (Event.url at n) p = do src ← source bs at; p' ← on_url a p src n; ok (p', pos 0)
dispatch js a bs (Event.status at n) p = do
  src ← source bs at
  p' ← on_status a p src n
  ok (p', pos 0)
dispatch js a bs (Event.header_field at n) p = do
  src ← source bs at
  p' ← on_header_field js a p src n
  ok (p', pos 0)
dispatch js a bs (Event.header_value at n) p = do
  src ← source bs at
  p' ← on_header_value a p src n
  ok (p', pos 0)
dispatch js a bs (Event.body at n) p = do p' ← on_body js p at n; ok (p', pos 0)

-- `http_parser_execute` with the wrapper as its `data`.
unfoldable pub run : Script → Allocator → Option (List ℕ) → Run → Parser → Outcome (Parser × ℤ)
run js a bs (Run.finished n r) p = ok (record p { native = n }, r)
run js a bs (Run.calls n e k) p = do
  r ← dispatch js a bs e (record p { native = n })
  run js a bs (k r.1) r.0

-- The wrappers by their JavaScript objects, whose native handles they are.
abbrev pub Store : Type 0
Store = ℕ → Option Parser

module _ (lib : Library) (js : Script) (a : Allocator) where
  -- The cast to `http_parser_type` and the assertion on it.
  pub type_of : ℤ → Outcome ParserType
  type_of n =
      if n ==ℤ lib.http_request
      then ok request
      else if n ==ℤ lib.http_response
      then ok response
      else fault Fault.aborted

  -- `HTTPParserCons`; the wrapper it makes is the handle of `this`.
  pub constructor : Store → Jval → List Jval → Outcome (Store × Result)
  constructor st this args =
      if is_kind Kind.object this && check_args (Kind.number ∷ []) args
      then (do
        t ← type_of (← as_number (← get_arg args 0))
        p ← create_wrap a (lib.init t)
        o ← as_object this
        ok (update st o p, nothing))
      else ok (st, refused)

  pub reinitialize : Store → Jval → List Jval → Outcome (Store × Result)
  reinitialize st this args =
      if is_kind Kind.object this && check_args (Kind.number ∷ []) args
      then (do
        o ← as_object this
        t ← type_of (← as_number (← get_arg args 0))
        p ← or_fault Fault.uninitialized (st o)
        p' ← initialize p (lib.init t)
        ok (update st o p', nothing))
      else ok (st, refused)

  pub finish : Store → Jval → List Jval → Outcome (Store × Result)
  finish st this args =
      if is_kind Kind.object this
      then (do
        o ← as_object this
        p ← or_fault Fault.uninitialized (st o)
        r ← run js a none (lib.execute p.native none) p
        ok (
          update st o r.0,
          if r.1 ==ℤ pos 0 then nothing else parse_error (lib.errno_name r.0.native),
        ))
      else ok (st, refused)

  -- The bytes of a block go to the library once both checks have passed.
  unfoldable pub execute_block : Parser → ℕ → Option (List ℕ) → ℤ → Outcome (Parser × Result)
  execute_block p jbuffer none len = ok (p, refused)
  execute_block p jbuffer (some block) len =
      if ltb_ℤ (pos 0) len
      then (do
        r ←
            run js a (some block) (lib.execute p.native (some block))
              (set_buf p (some (jbuffer, block)))
        ok (
          set_buf r.0 none,
          if not r.0.native.upgrade && not (r.1 ==ℤ len)
              then parse_error (lib.errno_name r.0.native)
              else parsed r.1,
        ))
      else ok (p, refused)

  pub execute : Heap → Store → Jval → List Jval → Outcome (Store × Result)
  execute h st this args =
      if is_kind Kind.object this && check_args (Kind.object ∷ []) args
      then (do
        o ← as_object this
        p ← or_fault Fault.uninitialized (st o)
        jbuffer ← as_object (← get_arg args 0)
        b ← from_jbuffer h jbuffer
        w ← load h b
        n ← bufferwrap_length h b
        r ← execute_block p jbuffer w.buffer (to_int n)
        ok (update st o r.0, r.1))
      else ok (st, refused)

  -- `Pause` and `Resume`
  pub set_paused : Bool → Store → Jval → List Jval → Outcome (Store × Result)
  set_paused paused st this args =
      if is_kind Kind.object this
      then (do
        o ← as_object this
        p ← or_fault Fault.uninitialized (st o)
        ok (update st o (record p { native = lib.pause paused p.native }), nothing))
      else ok (st, refused)
