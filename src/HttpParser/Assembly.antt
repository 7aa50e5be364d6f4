-- ===== src/HttpParser/Assembly.antt =====
-- The header callbacks of src/module/iotjs_module_httpparser.c put the headers together.
use native.Mathlib.Decide.{dec_lt}
use ble_central.Base.{
  ℕ, suc, ◌≤◌, ◌<◌, ◌≡◌, refl, ap, sym, ◌∙◌, arith, true, false, ◌&&◌, not, List, [], ◌∷◌, ◌++◌,
  append-nil, Option, none, some, inl, inr, ==_iff, ==_ne, if◌then◌else◌, Bool-cases, length,
  get_elem?, set, length-set, get_elem?-set_self, Outcome, ok,
}
use ble_central.Strings.{Str, nothing, contents, is_empty}
use ble_central.Strings.Build.{make_empty-nothing}
use ble_central.HttpParser.State.{is_request, Call, Parser, Script, header_max, make_header, call}
use ble_central.HttpParser.Callbacks.{open_field, flush}
use ble_central.HttpParser.Valid.{
  IsString, IsString-nothing, IsParser, Each, Each-set, there, text_lem, empty_slot_lem,
}
use ble_central.HttpParser.Headers.{
  Headers, or_nil, delivered, delivered-append, pairs, pairs-set_field, contents?, assembled,
  header_array_lem,
}

-- The URL that goes with flushed headers.
abbrev pub shown : Parser → Option (List ℕ)
shown p = if is_request p.native.type && not (is_empty p.url) then some (contents p.url) else none

abbrev pub flushed_by : Parser → Parser
flushed_by p = record p {
  url = nothing;
  flushed = true;
  calls = p.calls ++ (Call.on_headers (pairs p.n_values p.fields p.values) (shown p) ∷ []);
}

pub make_header_lem :
    (m : ℕ) (p : Parser)
    → length p.fields ≡ header_max
    → length p.values ≡ header_max
    → Each (IsString m) p.fields
    → Each (IsString m) p.values
    → p.n_values ≤ header_max
    → make_header p ≡ ok (pairs p.n_values p.fields p.values)
unfolding make_header
make_header_lem m p lf lv af av h =
    header_array_lem m p.n_values p.fields p.values af av (omega arith) (omega arith)

pub flush_lem :
    (m : ℕ) (js : Script) (p : Parser)
    → js.has_headers ≡ true
    → IsString m p.url
    → length p.fields ≡ header_max
    → length p.values ≡ header_max
    → Each (IsString m) p.fields
    → Each (IsString m) p.values
    → p.n_values ≤ header_max
    → flush js p ≡ ok (flushed_by p)
unfolding flush call
flush_lem m js p hj vu lf lv af av h = rw hj (
    rw (make_header_lem m p lf lv af av h)
      (elim (Bool-cases (is_request p.native.type && not (is_empty p.url))) [
        | inl e ↦
            rw e (rw (text_lem p.url vu.valid) (rw ((make_empty-nothing p.url vu.valid).0) refl))
        | inr e ↦ rw e (rw ((make_empty-nothing p.url vu.valid).0) refl)
      ]))

pub delivered-flush :
    (p : Parser)
    → delivered (flushed_by p).calls ≡ delivered p.calls ++ pairs p.n_values p.fields p.values
delivered-flush p =
    delivered-append p.calls (Call.on_headers (pairs p.n_values p.fields p.values) (shown p) ∷ [])
    ∙ ap (λ l. delivered p.calls ++ l) (append-nil (pairs p.n_values p.fields p.values))

pub Headers-eq : (h k : Headers) → h.list ≡ k.list → h.pending ≡ k.pending → h ≡ k
Headers-eq h k e f = λ i. record { list = e i; pending = f i }

-- What `on_headers_complete` asserts: a request whose headers were not flushed has its URL.
abbrev pub HasUrl : Parser → Type 0
HasUrl p = p.flushed ≡ false → is_request p.native.type ≡ true → is_empty p.url ≡ false

-- What a header callback on `p` leaves: a valid wrapper that stands for these headers.
pub record Collected (m : ℕ) (p : Parser) (h : Headers) (r : Outcome Parser) : Type 0 where
  pub after : Parser
  pub returned : r ≡ ok after
  pub valid : IsParser m after
  pub headers : assembled after ≡ h
  pub started : 0 < after.n_fields
  pub url_kept : HasUrl p → HasUrl after
  pub buf_kept : after.buf ≡ p.buf

-- Whether a name is open is what the two counters are compared for.
pub name_open :
    (p : Parser) (s : Str)
    → p.n_fields ≡ suc p.n_values
    → get_elem? p.fields p.n_values ≡ some s
    → (assembled p).pending ≡ some (contents s)
name_open p s e g = rw (==_ne p.n_fields p.n_values (omega arith)) (ap contents? g)

pub name_closed : (p : Parser) → p.n_fields ≡ p.n_values → (assembled p).pending ≡ none
name_closed p e = rw ((==_iff p.n_fields p.n_values).1 e) refl

abbrev pub opened : Headers → Headers
opened h = record { list = h.list; pending = some (or_nil h.pending) }

-- The state once the array has a name that can be appended to.
pub record Opened (m : ℕ) (p : Parser) (r : Outcome Parser) : Type 0 where
  pub collected : Collected m p (opened (assembled p)) r
  pub counts : collected.after.n_fields ≡ suc collected.after.n_values

module _ (m : ℕ) (js : Script) (p : Parser) (v : IsParser m p) (hj : js.has_headers ≡ true) where
  open_field_same : p.n_fields ≡ suc p.n_values → Opened m p (open_field js p)
  unfolding open_field
  open_field_same e =
      let s = there p.fields p.n_values (omega (arith, v.below, v.fields_length)) in
      let o = name_open p s.0 e s.1 in
      record {
        collected = record {
          after = p;
          returned = rw (==_ne p.n_fields p.n_values (omega arith)) refl;
          valid = v;
          headers = Headers-eq (assembled p) (opened (assembled p)) refl (rw o refl);
          started = omega arith;
          url_kept = λ h. h;
          buf_kept = refl;
        };
        counts = e;
      }

  open_field_new :
      p.n_fields ≡ p.n_values → suc p.n_fields < header_max → Opened m p (open_field js p)
  unfolding open_field
  open_field_new e h = record {
    collected = record {
      after = after;
      returned =
          rw ((==_iff p.n_fields p.n_values).1 e, ==_ne (suc p.n_fields) header_max (omega arith))
            (rw (empty_slot_lem m p.fields p.n_fields v.fields inside) refl);
      valid = record {
        url = v.url;
        status_msg = v.status_msg;
        fields_length = length-set p.fields p.n_fields nothing ∙ v.fields_length;
        values_length = v.values_length;
        fields = Each-set (IsString m) p.fields p.n_fields nothing v.fields (IsString-nothing m);
        values = v.values;
        below = h;
        counts = inr (ap suc e);
      };
      headers =
          Headers-eq (assembled after) (opened (assembled p))
            (ap (λ l. delivered p.calls ++ l)
              (pairs-set_field p.n_values p.n_fields nothing p.fields p.values (omega arith)))
            (name_open after nothing (ap suc e)
                (rw (sym e) (get_elem?-set_self p.fields p.n_fields nothing inside))
              ∙ rw (name_closed p e) refl);
      started = omega arith;
      url_kept = λ h. h;
      buf_kept = refl;
    };
    counts = ap suc e;
  }
    where
      inside : p.n_fields < length p.fields
      inside = omega (arith, v.fields_length)

      after : Parser
      after = record p { n_fields = suc p.n_fields; fields = set p.fields p.n_fields nothing }

  open_field_full :
      p.n_fields ≡ p.n_values → suc p.n_fields ≡ header_max → Opened m p (open_field js p)
  unfolding open_field
  open_field_full e h = record {
    collected = record {
      after = after;
      returned =
          rw ((==_iff p.n_fields p.n_values).1 e, (==_iff (suc p.n_fields) header_max).1 h)
            (rw
              (flush_lem m js full hj v.url v.fields_length v.values_length v.fields v.values
                (omega arith))
              (rw (empty_slot_lem m p.fields 0 v.fields inside) refl));
      valid = record {
        url = IsString-nothing m;
        status_msg = v.status_msg;
        fields_length = length-set p.fields 0 nothing ∙ v.fields_length;
        values_length = v.values_length;
        fields = Each-set (IsString m) p.fields 0 nothing v.fields (IsString-nothing m);
        values = v.values;
        below = omega arith;
        counts = inr refl;
      };
      headers =
          Headers-eq (assembled after) (opened (assembled p))
            (append-nil (delivered (flushed_by full).calls) ∙ delivered-flush full)
            (name_open after nothing refl (get_elem?-set_self p.fields 0 nothing inside)
              ∙ rw (name_closed p e) refl);
      started = omega arith;
      url_kept = λ h f. cc;
      buf_kept = refl;
    };
    counts = refl;
  }
    where
      inside : 0 < length p.fields
      inside = omega (arith, v.fields_length)

      full : Parser
      full = record p { n_fields = suc p.n_fields }

      after : Parser
      after = record (flushed_by full) {
        n_fields = 1;
        n_values = 0;
        fields = set p.fields 0 nothing;
      }

pub open_field_lem :
    (m : ℕ) (js : Script) (p : Parser)
    → IsParser m p
    → js.has_headers ≡ true
    → Opened m p (open_field js p)
open_field_lem m js p v hj = elim v.counts [
  | inr e ↦ open_field_same m js p v hj e
  | inl e ↦ elim (dec_lt (suc p.n_fields) header_max) [
    | yes h ↦ open_field_new m js p v hj e h
    | no h ↦ open_field_full m js p v hj e (omega (arith, v.below))
  ]
]
