-- ===== src/HttpParser/Execute.antt =====
-- `http_parser_execute` and `Execute` of src/module/iotjs_module_httpparser.c on a block of a response.
use ble_central.Base.{ℕ, ◌+◌, ◌<◌, ◌≡◌, refl, Bool, true, List, Option, none, some, ok}
use ble_central.Base.Int.{ℤ, pos}
use ble_central.Binding.Value.{Jval}
use ble_central.Memory.{Allocator}
use ble_central.Memory.Laws.{NoNul, IsAmple}
use ble_central.HttpParser.State.{response, Native, Parser, Script, Call}
use ble_central.HttpParser.Valid.{IsParser}
use ble_central.HttpParser.Natives.{Event, Run, dispatch, run}
use ble_central.Base.Int.{◌==ℤ◌, ltb_ℤ}
use ble_central.Base.{if◌then◌else◌, ◌&&◌, not}
use ble_central.HttpParser.Callbacks.{set_buf}
use ble_central.HttpParser.Natives.{Library, execute_block, parsed, parse_error}
use ble_central.HttpParser.Running.{MayCome, added, seen_after, Follows, IsRunning, Handled}
use ble_central.HttpParser.Events.{
  with_strings, begin-Handled, url-Handled, status-Handled, field-Handled, value-Handled,
  complete-Handled, body-Handled, message_complete-Handled,
}

with_buf :
    (m : ℕ) (p : Parser) (b : Option (ℕ × List ℕ))
    → IsParser m p
    → IsParser m (record p { buf = b })
with_buf m p b w = record {
  url = w.url;
  status_msg = w.status_msg;
  fields_length = w.fields_length;
  values_length = w.values_length;
  fields = w.fields;
  values = w.values;
  below = w.below;
  counts = w.counts;
}

module _ (js : Script) (a : Allocator) (bs : List ℕ) (ample : IsAmple a) (clean : NoNul bs)
    (hj : js.has_headers ≡ true) (hc : js.has_headers_complete ≡ true) (hb : js.has_body ≡ true)
    (hm : js.has_message_complete ≡ true)
    (answers : (cs : List Call) → (b : Bool) × (js.answer cs ≡ Jval.boolean b)) where
  dispatch-Handled :
      (m : ℕ) (seen : Bool) (p : Parser) (e : Event)
      → IsRunning bs m seen p
      → p.native.type ≡ response
      → MayCome bs m seen e
      → Handled bs (m + added e) (seen_after seen e) (dispatch js a (some bs) e p)
  dispatch-Handled m seen p Event.message_begin v t d =
      begin-Handled js a bs ample clean hj hc hb hm answers m seen p v
  dispatch-Handled m seen p Event.headers_complete v t d =
      complete-Handled js a bs ample clean hj hc hb hm answers m seen p v t
  dispatch-Handled m seen p Event.message_complete v t d =
      message_complete-Handled js a bs ample clean hj hc hb hm answers m seen p v
  dispatch-Handled m seen p (Event.url at n) v t d =
      url-Handled js a bs ample clean hj hc hb hm answers m seen p at n v d
  dispatch-Handled m seen p (Event.status at n) v t d =
      status-Handled js a bs ample clean hj hc hb hm answers m seen p at n v d
  dispatch-Handled m seen p (Event.header_field at n) v t d =
      field-Handled js a bs ample clean hj hc hb hm answers m seen p at n v d
  dispatch-Handled m seen p (Event.header_value at n) v t d =
      value-Handled js a bs ample clean hj hc hb hm answers m seen p at n v d.0 d.1
  dispatch-Handled m seen p (Event.body at n) v t d =
      body-Handled js a bs ample clean hj hc hb hm answers m seen p at n v

  native-Running :
      (m : ℕ) (seen : Bool) (p : Parser) (n : Native)
      → IsRunning bs m seen p
      → IsRunning bs m seen (record p { native = n })
  native-Running m seen p n v = record {
    valid = with_strings m p p.url p.status_msg n p.calls v.valid v.valid.url v.valid.status_msg;
    named = v.named;
    has_buf = v.has_buf;
  }

  run_lem :
      (m : ℕ) (seen : Bool) (r : Run) (p : Parser)
      → IsRunning bs m seen p
      → Follows bs m seen r
      → (p' : Parser) × (v : ℤ) × (m' : ℕ) × (run js a (some bs) r p ≡ ok (p', v)) × IsParser m' p'
  unfolding run Follows
  run_lem m seen (Run.finished n r) p v f =
      (record p { native = n }, r, m, refl, (native-Running m seen p n v).valid)
  run_lem m seen (Run.calls n e k) p v f =
      let c =
        dispatch-Handled m seen (record p { native = n }) e (native-Running m seen p n v) f.0 f.1 in
      let rest =
        run_lem (m + added e) (seen_after seen e) (k c.result) c.after c.running (f.2 c.result) in
      (rest.0, rest.1, rest.2, rw c.returned (rest.3), rest.4)

  -- `Execute` of a block that is not empty and has no NUL byte, for an allocator with room, a script
  -- with all four functions, whose answers are Booleans, and a valid wrapper, when http_parser parses a
  -- response and its run gives data inside the block, in all less than 2^31 bytes with those that came
  -- before, and a value only after a name: no callback fails, so the run on the wrapper that keeps the
  -- block returns a wrapper and a number of parsed bytes; `Execute` leaves that wrapper without the
  -- block and valid again, and its result is that number, or the library's error where the number is
  -- not the length and nothing is upgraded.
  pub execute_block_lem :
      (lib : Library) (m : ℕ) (seen : Bool) (p : Parser) (j : ℕ) (len : ℤ)
      → IsParser m p
      → (seen ≡ true → 0 < p.n_fields)
      → ltb_ℤ (pos 0) len ≡ true
      → Follows bs m seen (lib.execute p.native (some bs))
      → (q : Parser) × (v : ℤ) × (m' : ℕ) × (run js a
            (some bs)
            (lib.execute p.native (some bs))
            (set_buf p (some (j, bs)))
          ≡ ok (q, v))
        × (execute_block lib js a p j (some bs) len
            ≡ ok (
              set_buf q none,
              if not q.native.upgrade && not (v ==ℤ len)
                  then parse_error (lib.errno_name q.native)
                  else parsed v,
            ))
        × IsParser m' (set_buf q none)
  unfolding execute_block set_buf
  execute_block_lem lib m seen p j len v named h f =
      let start = with_buf m p (some (j, bs)) v in
      let r =
        run_lem m seen (lib.execute p.native (some bs)) (record p { buf = some (j, bs) })
          (record { valid = start; named = named; has_buf = (j, refl) }) f in
      (r.0, r.1, r.2, r.3, rw h (rw (r.3) refl), with_buf r.2 r.0 none r.4)
