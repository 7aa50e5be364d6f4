-- ===== src/HttpParser/Complete.antt =====
-- `iotjs_httpparserwrap_on_headers_complete` of src/module/iotjs_module_httpparser.c gives JavaScript
-- all headers of the message.
use ble_central.Base.{
  ℕ, ◌+◌, ◌^◌, ◌≤◌, ◌<◌, ◌≡◌, refl, ap, ◌∙◌, arith, Bool, true, List, [], ◌∷◌, ◌++◌, append-nil,
  Option, none, some, inl, inr, Bool-cases, if◌then◌else◌, Outcome, ok, ◌>>=◌,
}
use ble_central.Binding.Value.{Jval}
use ble_central.Memory.{Allocator}
use ble_central.Memory.Laws.{IsAmple}
use ble_central.Strings.{contents}
use ble_central.HttpParser.State.{is_request, Info, Call, Parser, Script, header_max, call, text}
use ble_central.HttpParser.Callbacks.{on_headers_complete, take_headers}
use ble_central.HttpParser.Valid.{IsString, IsString-nothing, IsParser, text_lem}
use ble_central.HttpParser.Headers.{or_nil, delivered, delivered-append, assembled, pairs}
use ble_central.HttpParser.Assembly.{
  HasUrl, make_header_lem, flush_lem, flushed_by, delivered-flush,
}
use ble_central.HttpParser.Message.{Fragment, total, IsClean, Starts, spell, feed, feed-Fed}

-- What `on_headers_complete` leaves: nothing kept, and all headers given to JavaScript.
pub record Completed (m : ℕ) (p : Parser) (js : Script) (r : Outcome (Parser × Bool)) : Type 0 where
  pub after : Parser
  pub skip : Bool
  pub returned : r ≡ ok (after, skip)
  pub answered : js.answer after.calls ≡ Jval.boolean skip
  pub valid : IsParser m after
  pub nothing_kept : (after.n_fields ≡ 0) × (after.n_values ≡ 0)
  pub all : delivered after.calls ≡ (assembled p).list
  pub buf_kept : after.buf ≡ p.buf

status_text :
    (m : ℕ) (q : Parser)
    → IsString m q.status_msg
    → (if is_request q.native.type then ok none else (do m ← text q.status_msg; ok (some m)))
      ≡ ok (if is_request q.native.type then none else some (contents q.status_msg))
status_text m q v = elim (Bool-cases (is_request q.native.type)) [
  | inl e ↦ rw e refl
  | inr e ↦ rw e (rw (text_lem q.status_msg v.valid) refl)
]

-- The last part of `on_headers_complete`, for what the first has made of the headers.
module _ (js : Script) (hc : js.has_headers_complete ≡ true)
    (answers : (cs : List Call) → (b : Bool) × (js.answer cs ≡ Jval.boolean b)) where
  complete_rest :
      (m : ℕ) (p q : Parser) (hs : Option (List (List ℕ))) (u : Option (List ℕ))
      → take_headers js p ≡ ok (q, hs, u)
      → IsParser m q
      → delivered q.calls ++ or_nil hs ≡ (assembled p).list
      → q.buf ≡ p.buf
      → Completed m p js (on_headers_complete js p)
  unfolding on_headers_complete call
  complete_rest m p q hs u e v d k = record {
    after = after;
    skip = (answers after.calls).0;
    returned = rw e (rw (status_text m q v.status_msg) (rw ((answers after.calls).1) (rw hc refl)));
    answered = (answers after.calls).1;
    valid = record {
      url = v.url;
      status_msg = v.status_msg;
      fields_length = v.fields_length;
      values_length = v.values_length;
      fields = v.fields;
      values = v.values;
      below = omega arith;
      counts = inl refl;
    };
    nothing_kept = (refl, refl);
    all =
        delivered-append q.calls (Call.on_headers_complete info ∷ [])
        ∙ ap (λ l. delivered q.calls ++ l) (append-nil (or_nil hs))
        ∙ d;
    buf_kept = k;
  }
    where
      info : Info
      info = record {
        headers = hs;
        url = u;
        method = if is_request q.native.type then some q.native.method else none;
        status = if is_request q.native.type then none else some q.native.status_code;
        status_msg = if is_request q.native.type then none else some (contents q.status_msg);
        upgrade = q.native.upgrade;
        should_keep_alive = q.native.keep_alive;
      }

      after : Parser
      after = record q {
        n_fields = 0;
        n_values = 0;
        calls = q.calls ++ (Call.on_headers_complete info ∷ []);
      }

  -- `on_headers_complete` of a valid wrapper, of a response or whose URL is there or was flushed,
  -- for a script with `OnHeaders` and an `OnHeadersComplete` that returns a Boolean: it succeeds
  -- with that answer; JavaScript then has all headers, in one piece or in as many as were
  -- flushed, and the wrapper keeps none of them.
  pub on_headers_complete-Completed :
      (m : ℕ) (p : Parser)
      → IsParser m p
      → js.has_headers ≡ true
      → HasUrl p
      → Completed m p js (on_headers_complete js p)
  unfolding take_headers
  on_headers_complete-Completed m p v hj hu = elim (Bool-cases p.flushed) [
    | inl e ↦
        complete_rest m p (flushed_by p) none none
          (rw (flush_lem m js p hj v.url v.fields_length v.values_length v.fields v.values within)
            (rw e refl))
          (record {
            url = IsString-nothing m;
            status_msg = v.status_msg;
            fields_length = v.fields_length;
            values_length = v.values_length;
            fields = v.fields;
            values = v.values;
            below = v.below;
            counts = v.counts;
          })
          (append-nil (delivered (flushed_by p).calls) ∙ delivered-flush p) refl
    | inr e ↦ elim (Bool-cases (is_request p.native.type)) [
      | inl r ↦
          complete_rest m p p (some (pairs p.n_values p.fields p.values)) (some (contents p.url))
            (rw (make_header_lem m p v.fields_length v.values_length v.fields v.values within)
              (rw (text_lem p.url v.url.valid) (rw (hu e r) (rw (e, r) refl))))
            v refl refl
      | inr r ↦
          complete_rest m p p (some (pairs p.n_values p.fields p.values)) none
            (rw (make_header_lem m p v.fields_length v.values_length v.fields v.values within)
              (rw (e, r) refl))
            v refl refl
    ]
  ]
    where
      within : p.n_values ≤ header_max
      within = elim v.counts [ inl c ↦ omega (arith, v.below) | inr c ↦ omega (arith, v.below) ]

-- From a valid wrapper (of a response, or whose URL is there or flushed), for an allocator with
-- room, fragments without NUL and below 2^31 bytes in all that begin with a name unless one was
-- seen, and a script with `OnHeaders` and an `OnHeadersComplete` that returns a Boolean: the
-- header callbacks of the fragments and then `on_headers_complete` all succeed, and the headers
-- that JavaScript has been given, in all calls, are exactly those that the wrapper stood for,
-- continued by what the fragments spell.
pub whole_message :
    (js : Script) (a : Allocator) (fs : List Fragment) (m : ℕ) (p : Parser)
    → IsAmple a
    → js.has_headers ≡ true
    → js.has_headers_complete ≡ true
    → ((cs : List Call) → (b : Bool) × (js.answer cs ≡ Jval.boolean b))
    → IsParser m p
    → HasUrl p
    → Starts p.n_fields fs
    → IsClean fs
    → m + total fs < 2 ^ 31
    → (p' : Parser) × (b : Bool) × ((feed js a fs p >>= on_headers_complete js) ≡ ok (p', b))
      × (delivered p'.calls ≡ (spell (assembled p) fs).list)
      × (p'.n_fields ≡ 0)
whole_message js a fs m p ample hj hc answers v hu st cl small =
    let d = feed-Fed js a ample hj fs m p v st cl small in
    let c =
      on_headers_complete-Completed js hc answers (m + total fs) d.after d.valid hj
        (d.url_kept hu) in
    (
      c.after,
      c.skip,
      rw d.returned c.returned,
      c.all ∙ ap (λ h. h.list) d.headers,
      c.nothing_kept.0,
    )
