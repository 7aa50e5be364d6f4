-- ===== src/HttpParser/Values.antt =====
-- `iotjs_httpparserwrap_on_header_value` of src/module/iotjs_module_httpparser.c collects values.
use ble_central.Base.{
  ℕ, suc, ◌+◌, ◌-◌, ◌^◌, ◌≤◌, ◌<◌, ◌≡◌, refl, ap, sym, ◌∙◌, arith, List, [], ◌∷◌, ◌++◌,
  append_assoc, some, inl, inr, ==_iff, ==_ne, length, take, get_elem?, set, length-set,
  get_elem?-set_self, ok,
}
use ble_central.Memory.{Allocator}
use ble_central.Memory.Laws.{NoNul, IsAmple}
use ble_central.Strings.{Str, nothing, contents}
use ble_central.HttpParser.State.{Parser}
use ble_central.HttpParser.Callbacks.{append_slot, append_value, open_value, on_header_value}
use ble_central.HttpParser.Valid.{
  IsString, IsString-nothing, IsParser, Each-set, there, empty_slot_lem, append_slot_lem,
}
use ble_central.HttpParser.Headers.{
  add_value, extend_last, delivered, pairs, pairs-set_value, pairs-suc, extend_last-append,
  assembled,
}
use ble_central.HttpParser.Assembly.{HasUrl, Headers-eq, Collected, name_open, name_closed}
use ble_central.HttpParser.Collect.{IsParser-mono}

-- The last pair of the arrays, and what a longer last value makes of the headers.
last_pair :
    (p : Parser) (k : ℕ) (f v : Str)
    → p.n_values ≡ suc k
    → get_elem? p.fields k ≡ some f
    → get_elem? p.values k ≡ some v
    → delivered p.calls ++ pairs p.n_values p.fields p.values
      ≡ (delivered p.calls ++ pairs k p.fields p.values) ++ (contents f ∷ contents v ∷ [])
last_pair p k f v e ef ev =
    ap (λ i. delivered p.calls ++ pairs i p.fields p.values) e
    ∙ ap (λ l. delivered p.calls ++ l) (pairs-suc k f v p.fields p.values ef ev)
    ∙ sym (
        append_assoc (delivered p.calls) (pairs k p.fields p.values) (contents f ∷ contents v ∷ []))

module _ (a : Allocator) (src : List ℕ) (n : ℕ) (ample : IsAmple a) (enough : n ≤ length src)
    (clean : NoNul (take n src)) where
  extended_pair :
      (p : Parser) (k : ℕ) (f v s : Str)
      → p.n_values ≡ suc k
      → k < length p.values
      → get_elem? p.fields k ≡ some f
      → get_elem? p.values k ≡ some v
      → contents s ≡ contents v ++ take n src
      → delivered p.calls ++ pairs p.n_values p.fields (set p.values k s)
        ≡ extend_last (delivered p.calls ++ pairs p.n_values p.fields p.values) (take n src)
  extended_pair p k f v s e inside ef ev es =
      last_pair (record p { values = set p.values k s }) k f s e ef
        (get_elem?-set_self p.values k s inside)
      ∙ ap (λ l. (delivered p.calls ++ l) ++ (contents f ∷ contents s ∷ []))
          (pairs-set_value k k s p.fields p.values (omega arith))
      ∙ ap (λ c. (delivered p.calls ++ pairs k p.fields p.values) ++ (contents f ∷ c ∷ [])) es
      ∙ sym (
          extend_last-append (delivered p.calls ++ pairs k p.fields p.values) (contents f)
            (contents v) (take n src))
      ∙ ap (λ l. extend_last l (take n src)) (sym (last_pair p k f v e ef ev))

  append_value_lem :
      (m : ℕ) (p : Parser)
      → IsParser m p
      → p.n_fields ≡ p.n_values
      → 0 < p.n_values
      → m + n < 2 ^ 31
      → Collected (m + n) p (add_value (assembled p) (take n src)) (append_value a p src n)
  unfolding append_value
  append_value_lem m p v e h small =
      let k = p.n_values - 1 in
      let ek : p.n_values ≡ suc k = omega arith in
      let inside : k < length p.values = omega (arith, v.below, v.values_length) in
      let f = there p.fields k (omega (arith, v.below, v.fields_length)) in
      let g = there p.values k inside in
      let r =
        append_slot_lem a m p.values k g.0 src n ample g.1 (v.values k g.0 g.1) enough clean
          small in
      let appends : append_slot a p.values p.n_values src n ≡ ok (set p.values k r.0) =
        ap (λ i. append_slot a p.values i src n) ek ∙ r.1 in
      let after : Parser = record p { values = set p.values k r.0 } in
      let more = IsParser-mono m (m + n) p v (omega arith) in
      record {
        after = after;
        returned = rw ((==_iff p.n_fields p.n_values).1 e) (rw appends refl);
        valid = record {
          url = more.url;
          status_msg = more.status_msg;
          fields_length = v.fields_length;
          values_length = length-set p.values k r.0 ∙ v.values_length;
          fields = more.fields;
          values = Each-set (IsString (m + n)) p.values k r.0 more.values r.2;
          below = v.below;
          counts = v.counts;
        };
        headers =
            Headers-eq (assembled after) (add_value (assembled p) (take n src))
              (extended_pair p k f.0 g.0 r.0 ek inside f.1 g.1 r.3 ∙ rw (name_closed p e) refl)
              (name_closed after e);
        started = omega arith;
        url_kept = λ h. h;
        buf_kept = refl;
      }

  -- The value of an open name begins as the empty string.
  open_value_lem :
      (m : ℕ) (p : Parser)
      → IsParser m p
      → p.n_fields ≡ suc p.n_values
      → (p' : Parser) × (open_value p ≡ ok p')
        × IsParser m p'
        × (p'.n_fields ≡ p'.n_values)
        × (0 < p'.n_values)
        × (add_value (assembled p') (take n src) ≡ add_value (assembled p) (take n src))
        × (HasUrl p → HasUrl p')
        × (p'.buf ≡ p.buf)
  unfolding open_value
  open_value_lem m p v e =
      let inside : p.n_values < length p.values = omega (arith, v.below, v.values_length) in
      let f = there p.fields p.n_values (omega (arith, v.below, v.fields_length)) in
      let p' : Parser = record p {
        values = set p.values p.n_values nothing;
        n_values = suc p.n_values;
      } in
      (
        p',
        rw (==_ne p.n_fields p.n_values (omega arith))
            (rw (empty_slot_lem m p.values p.n_values v.values inside) refl),
        record {
          url = v.url;
          status_msg = v.status_msg;
          fields_length = v.fields_length;
          values_length = length-set p.values p.n_values nothing ∙ v.values_length;
          fields = v.fields;
          values = Each-set (IsString m) p.values p.n_values nothing v.values (IsString-nothing m);
          below = v.below;
          counts = inl e;
        },
        e,
        omega arith,
        Headers-eq (add_value (assembled p') (take n src)) (add_value (assembled p) (take n src))
            (rw (name_closed p' e, name_open p f.0 e f.1)
              (ap (λ l. extend_last l (take n src))
                  (last_pair p' p.n_values f.0 nothing refl f.1
                    (get_elem?-set_self p.values p.n_values nothing inside))
                ∙ extend_last-append (delivered p.calls ++ pairs p.n_values p.fields p'.values)
                    (contents f.0) [] (take n src)
                ∙ ap (λ l. (delivered p.calls ++ l) ++ (contents f.0 ∷ take n src ∷ []))
                    (pairs-set_value p.n_values p.n_values nothing p.fields p.values
                      (omega arith))))
            refl,
        (λ h. h),
        refl,
      )

  -- `on_header_value` of `n` bytes without NUL, once a name has been seen, for an allocator with
  -- room and strings that stay below 2^31 bytes: a valid wrapper is left valid and stands for the
  -- same headers with the bytes as the value of the name that is open, or at the end of the last
  -- value.
  pub on_header_value-Collected :
      (m : ℕ) (p : Parser)
      → IsParser m p
      → 0 < p.n_fields
      → m + n < 2 ^ 31
      → Collected (m + n) p (add_value (assembled p) (take n src)) (on_header_value a p src n)
  unfolding on_header_value open_value
  on_header_value-Collected m p v started small = elim v.counts [
    | inl e ↦
        let r = append_value_lem m p v e (omega arith) small in
        record {
          after = r.after;
          returned = rw ((==_iff p.n_fields p.n_values).1 e) r.returned;
          valid = r.valid;
          headers = r.headers;
          started = r.started;
          url_kept = r.url_kept;
          buf_kept = r.buf_kept;
        }
    | inr e ↦
        let o = open_value_lem m p v e in
        let r = append_value_lem m o.0 o.2 o.3 o.4 small in
        record {
          after = r.after;
          returned = rw o.1 r.returned;
          valid = r.valid;
          headers = r.headers ∙ o.5;
          started = r.started;
          url_kept = λ h. r.url_kept (o.6 h);
          buf_kept = r.buf_kept ∙ o.7;
        }
  ]
