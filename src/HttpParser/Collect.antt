-- ===== src/HttpParser/Collect.antt =====
-- `iotjs_httpparserwrap_on_header_field` of src/module/iotjs_module_httpparser.c collects names.
use ble_central.Base.{
  ℕ, suc, ◌+◌, ◌^◌, ◌≤◌, ◌<◌, ◌≡◌, refl, ap, ◌∙◌, arith, true, List, ◌++◌, some, ==_iff, length,
  take, set, length-set, get_elem?-set_self, ok,
}
use ble_central.Memory.{Allocator}
use ble_central.Memory.Laws.{NoNul, IsAmple}
use ble_central.Strings.{Str}
use ble_central.HttpParser.State.{Parser, Script}
use ble_central.HttpParser.Callbacks.{append_slot, append_field, on_header_field}
use ble_central.HttpParser.Valid.{
  IsString, IsString-mono, IsParser, Each, Each-set, there, append_slot_lem,
}
use ble_central.HttpParser.Headers.{add_name, delivered, pairs-set_field, assembled}
use ble_central.HttpParser.Assembly.{Headers-eq, Collected, name_open, open_field_lem}

Each-mono : (m n : ℕ) (xs : List Str) → Each (IsString m) xs → m ≤ n → Each (IsString n) xs
Each-mono m n xs all h i s e = IsString-mono m n s (all i s e) h

-- A wrapper stays valid when more bytes may be in its strings.
pub IsParser-mono : (m n : ℕ) (p : Parser) → IsParser m p → m ≤ n → IsParser n p
IsParser-mono m n p v h = record {
  url = IsString-mono m n p.url v.url h;
  status_msg = IsString-mono m n p.status_msg v.status_msg h;
  fields_length = v.fields_length;
  values_length = v.values_length;
  fields = Each-mono m n p.fields v.fields h;
  values = Each-mono m n p.values v.values h;
  below = v.below;
  counts = v.counts;
}

module _ (a : Allocator) (src : List ℕ) (n : ℕ) (ample : IsAmple a) (enough : n ≤ length src)
    (clean : NoNul (take n src)) where
  append_field_lem :
      (m : ℕ) (p : Parser)
      → IsParser m p
      → p.n_fields ≡ suc p.n_values
      → m + n < 2 ^ 31
      → Collected (m + n) p (add_name (assembled p) (take n src)) (append_field a p src n)
  unfolding append_field
  append_field_lem m p v e small =
      let at = there p.fields p.n_values (omega (arith, v.below, v.fields_length)) in
      let s = at.0 in
      let r =
        append_slot_lem a m p.fields p.n_values s src n ample at.1 (v.fields p.n_values s at.1)
          enough clean small in
      let appends : append_slot a p.fields p.n_fields src n ≡ ok (set p.fields p.n_values r.0) =
        ap (λ k. append_slot a p.fields k src n) e ∙ r.1 in
      let after : Parser = record p { fields = set p.fields p.n_values r.0 } in
      let more = IsParser-mono m (m + n) p v (omega arith) in
      record {
        after = after;
        returned = rw ((==_iff p.n_fields (suc p.n_values)).1 e) (rw appends refl);
        valid = record {
          url = more.url;
          status_msg = more.status_msg;
          fields_length = length-set p.fields p.n_values r.0 ∙ v.fields_length;
          values_length = v.values_length;
          fields = Each-set (IsString (m + n)) p.fields p.n_values r.0 more.fields r.2;
          values = more.values;
          below = v.below;
          counts = v.counts;
        };
        headers =
            Headers-eq (assembled after) (add_name (assembled p) (take n src))
              (ap (λ l. delivered p.calls ++ l)
                (pairs-set_field p.n_values p.n_values r.0 p.fields p.values (omega arith)))
              (name_open after r.0 e (
                  get_elem?-set_self p.fields p.n_values r.0
                    (omega (arith, v.below, v.fields_length)))
                ∙ ap some r.3
                ∙ rw (name_open p s e at.1) refl);
        started = omega arith;
        url_kept = λ h. h;
        buf_kept = refl;
      }

  -- `on_header_field` of `n` bytes without NUL, for an allocator with room, a script with
  -- `OnHeaders` and strings that stay below 2^31 bytes: whatever a valid wrapper holds, also when
  -- its arrays are full and go to JavaScript first, it is left valid and stands for the same
  -- headers with the bytes added to the name that is open, or as a new name.
  pub on_header_field-Collected :
      (m : ℕ) (js : Script) (p : Parser)
      → IsParser m p
      → js.has_headers ≡ true
      → m + n < 2 ^ 31
      → Collected (m + n) p (add_name (assembled p) (take n src)) (on_header_field js a p src n)
  unfolding on_header_field
  on_header_field-Collected m js p v hj small =
      let o = open_field_lem m js p v hj in
      let c = o.collected in
      let r = append_field_lem m c.after c.valid o.counts small in
      record {
        after = r.after;
        returned = rw c.returned r.returned;
        valid = r.valid;
        headers = r.headers ∙ ap (λ h. add_name h (take n src)) c.headers;
        started = r.started;
        url_kept = λ h. r.url_kept (c.url_kept h);
        buf_kept = r.buf_kept ∙ c.buf_kept;
      }
