-- ===== src/HttpParser/Events.antt =====
-- What the callbacks of src/module/iotjs_module_httpparser.c leave when http_parser calls them.
use ble_central.Base.{
  ℕ, ◌+◌, ◌≤◌, ◌≡◌, refl, ◌∙◌, arith, Bool, true, false, List, [], ◌∷◌, ◌++◌, some, length, take,
  drop, length-drop,
}
use ble_central.Base.Int.{pos}
use ble_central.Binding.Value.{Jval}
use ble_central.Memory.{Allocator}
use ble_central.Memory.Laws.{NoNul, take-NoNul, drop-NoNul, IsAmple}
use ble_central.Strings.{Str, nothing}
use ble_central.Strings.Build.{make_empty-nothing}
use ble_central.HttpParser.State.{response, Native, Parser, Script, Call, call}
use ble_central.HttpParser.Callbacks.{
  on_message_begin, on_url, on_status, on_body, on_message_complete,
}
use ble_central.HttpParser.Valid.{append_string_lem, IsString, IsString-nothing, IsParser}
use ble_central.HttpParser.Collect.{IsParser-mono, on_header_field-Collected}
use ble_central.HttpParser.Values.{on_header_value-Collected}
use ble_central.HttpParser.Complete.{on_headers_complete-Completed}
use ble_central.HttpParser.Natives.{Event, of_bool, dispatch}
use ble_central.HttpParser.Running.{IsPart, IsRunning, Handled}

-- The arrays of strings stand when the other fields of the wrapper change.
pub with_strings :
    (m : ℕ) (p : Parser) (u s : Str) (n : Native) (cs : List Call)
    → IsParser m p
    → IsString m u
    → IsString m s
    → IsParser m (record p { url = u; status_msg = s; native = n; calls = cs })
with_strings m p u s n cs w hu hs = record {
  url = hu;
  status_msg = hs;
  fields_length = w.fields_length;
  values_length = w.values_length;
  fields = w.fields;
  values = w.values;
  below = w.below;
  counts = w.counts;
}

module _ (js : Script) (a : Allocator) (bs : List ℕ) (ample : IsAmple a) (clean : NoNul bs)
    (hj : js.has_headers ≡ true) (hc : js.has_headers_complete ≡ true) (hb : js.has_body ≡ true)
    (hm : js.has_message_complete ≡ true)
    (answers : (cs : List Call) → (b : Bool) × (js.answer cs ≡ Jval.boolean b)) where
  rest_length : (at n : ℕ) → at + n ≤ length bs → n ≤ length (drop at bs)
  rest_length at n h = omega (arith, length-drop at bs)

  part : (at n : ℕ) → NoNul (take n (drop at bs))
  part at n = take-NoNul n (drop at bs) (drop-NoNul at bs clean)

  pub begin-Handled :
      (m : ℕ) (seen : Bool) (p : Parser)
      → IsRunning bs m seen p
      → Handled bs (m + 0) seen (dispatch js a (some bs) Event.message_begin p)
  unfolding dispatch on_message_begin
  begin-Handled m seen p v =
      let w = IsParser-mono m (m + 0) p v.valid (omega arith) in
      record {
        after = record p { url = nothing; status_msg = nothing };
        result = pos 0;
        returned =
            rw ((make_empty-nothing p.url v.valid.url.valid).0)
              (rw ((make_empty-nothing p.status_msg v.valid.status_msg.valid).0) refl);
        running = record {
          valid =
              with_strings (m + 0) p nothing nothing p.native p.calls w (IsString-nothing (m + 0))
                (IsString-nothing (m + 0));
          named = v.named;
          has_buf = v.has_buf;
        };
      }

  pub url-Handled :
      (m : ℕ) (seen : Bool) (p : Parser) (at n : ℕ)
      → IsRunning bs m seen p
      → IsPart bs m at n
      → Handled bs (m + n) seen (dispatch js a (some bs) (Event.url at n) p)
  unfolding dispatch on_url
  url-Handled m seen p at n v d =
      let r =
        append_string_lem a m p.url (drop at bs) n ample v.valid.url (rest_length at n d.0)
          (part at n) d.1 in
      let w = IsParser-mono m (m + n) p v.valid (omega arith) in
      record {
        after = record p { url = r.0 };
        result = pos 0;
        returned = rw r.1 refl;
        running = record {
          valid = with_strings (m + n) p r.0 p.status_msg p.native p.calls w r.2 w.status_msg;
          named = v.named;
          has_buf = v.has_buf;
        };
      }

  pub status-Handled :
      (m : ℕ) (seen : Bool) (p : Parser) (at n : ℕ)
      → IsRunning bs m seen p
      → IsPart bs m at n
      → Handled bs (m + n) seen (dispatch js a (some bs) (Event.status at n) p)
  unfolding dispatch on_status
  status-Handled m seen p at n v d =
      let r =
        append_string_lem a m p.status_msg (drop at bs) n ample v.valid.status_msg
          (rest_length at n d.0) (part at n) d.1 in
      let w = IsParser-mono m (m + n) p v.valid (omega arith) in
      record {
        after = record p { status_msg = r.0 };
        result = pos 0;
        returned = rw r.1 refl;
        running = record {
          valid = with_strings (m + n) p p.url r.0 p.native p.calls w w.url r.2;
          named = v.named;
          has_buf = v.has_buf;
        };
      }

  pub field-Handled :
      (m : ℕ) (seen : Bool) (p : Parser) (at n : ℕ)
      → IsRunning bs m seen p
      → IsPart bs m at n
      → Handled bs (m + n) true (dispatch js a (some bs) (Event.header_field at n) p)
  unfolding dispatch
  field-Handled m seen p at n v d =
      let c =
        on_header_field-Collected a (drop at bs) n ample (rest_length at n d.0) (part at n) m js p
          v.valid hj d.1 in
      record {
        after = c.after;
        result = pos 0;
        returned = rw c.returned refl;
        running = record {
          valid = c.valid;
          named = λ e. c.started;
          has_buf = (v.has_buf.0, c.buf_kept ∙ v.has_buf.1);
        };
      }

  pub value-Handled :
      (m : ℕ) (seen : Bool) (p : Parser) (at n : ℕ)
      → IsRunning bs m seen p
      → IsPart bs m at n
      → seen ≡ true
      → Handled bs (m + n) seen (dispatch js a (some bs) (Event.header_value at n) p)
  unfolding dispatch
  value-Handled m seen p at n v d s =
      let c =
        on_header_value-Collected a (drop at bs) n ample (rest_length at n d.0) (part at n) m p
          v.valid (v.named s) d.1 in
      record {
        after = c.after;
        result = pos 0;
        returned = rw c.returned refl;
        running = record {
          valid = c.valid;
          named = λ e. c.started;
          has_buf = (v.has_buf.0, c.buf_kept ∙ v.has_buf.1);
        };
      }

  pub complete-Handled :
      (m : ℕ) (seen : Bool) (p : Parser)
      → IsRunning bs m seen p
      → p.native.type ≡ response
      → Handled bs (m + 0) false (dispatch js a (some bs) Event.headers_complete p)
  unfolding dispatch
  complete-Handled m seen p v t =
      let c =
        on_headers_complete-Completed js hc answers m p v.valid hj
          (λ f r. absurd (false_true (rw t at r))) in
      record {
        after = c.after;
        result = of_bool c.skip;
        returned = rw c.returned refl;
        running = record {
          valid = IsParser-mono m (m + 0) c.after c.valid (omega arith);
          named = λ e. absurd (false_true e);
          has_buf = (v.has_buf.0, c.buf_kept ∙ v.has_buf.1);
        };
      }
    where
      false_true : false ≡ true → ⊥
      false_true e = cc

  pub body-Handled :
      (m : ℕ) (seen : Bool) (p : Parser) (at n : ℕ)
      → IsRunning bs m seen p
      → Handled bs (m + 0) seen (dispatch js a (some bs) (Event.body at n) p)
  unfolding dispatch on_body call
  body-Handled m seen p at n v = record {
    after = record p { calls = p.calls ++ (Call.on_body v.has_buf.0 at n ∷ []) };
    result = pos 0;
    returned = rw (v.has_buf.1) (rw hb refl);
    running = record {
      valid =
          let w = IsParser-mono m (m + 0) p v.valid (omega arith) in
          with_strings (m + 0) p p.url p.status_msg p.native
            (p.calls ++ (Call.on_body v.has_buf.0 at n ∷ [])) w w.url w.status_msg;
      named = v.named;
      has_buf = v.has_buf;
    };
  }

  pub message_complete-Handled :
      (m : ℕ) (seen : Bool) (p : Parser)
      → IsRunning bs m seen p
      → Handled bs (m + 0) seen (dispatch js a (some bs) Event.message_complete p)
  unfolding dispatch on_message_complete call
  message_complete-Handled m seen p v = record {
    after = record p { calls = p.calls ++ (Call.on_message_complete ∷ []) };
    result = pos 0;
    returned = rw hm refl;
    running = record {
      valid =
          let w = IsParser-mono m (m + 0) p v.valid (omega arith) in
          with_strings (m + 0) p p.url p.status_msg p.native
            (p.calls ++ (Call.on_message_complete ∷ [])) w w.url w.status_msg;
      named = v.named;
      has_buf = v.has_buf;
    };
  }
