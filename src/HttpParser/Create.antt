-- ===== src/HttpParser/Create.antt =====
-- A new or reinitialised wrapper of src/module/iotjs_module_httpparser.c.
use ble_central.Base.{
  ℕ, zero, suc, ◌≡◌, refl, arith, false, [], none, inl, replicate, append-nil, ok,
}
use ble_central.Memory.{Allocator}
use ble_central.Strings.{nothing, make_empty}
use ble_central.Strings.Build.{make_empty-nothing, nothing-IsValid, create-nothing}
use ble_central.HttpParser.State.{Native, Parser, header_max}
use ble_central.HttpParser.Callbacks.{create_slots, create_wrap, initialize, on_message_begin}
use ble_central.HttpParser.Valid.{IsString, IsString-nothing, IsParser, Each}
use ble_central.HttpParser.Headers.{assembled, delivered}
use ble_central.HttpParser.Assembly.{Headers-eq}

-- The wrapper as it is made.
abbrev pub fresh : Native → Parser
fresh n = record {
  native = n;
  url = nothing;
  status_msg = nothing;
  fields = replicate header_max nothing;
  values = replicate header_max nothing;
  n_fields = 0;
  n_values = 0;
  flushed = false;
  buf = none;
  calls = [];
}

Each-replicate : (n : ℕ) → Each (IsString 0) (replicate n nothing)
Each-replicate zero i s e = cc
Each-replicate (suc n) zero s e = let q : nothing ≡ s = cc in rw⁻¹ q (IsString-nothing 0)
Each-replicate (suc n) (suc i) s e = Each-replicate n i s e

fresh-IsParser : (n : Native) → IsParser 0 (fresh n)
fresh-IsParser n = record {
  url = IsString-nothing 0;
  status_msg = IsString-nothing 0;
  fields_length = refl;
  values_length = refl;
  fields = Each-replicate header_max;
  values = Each-replicate header_max;
  below = omega arith;
  counts = inl refl;
}

create_slots_lem : (a : Allocator) (n : ℕ) → create_slots a n ≡ ok (replicate n nothing)
unfolding create_slots
create_slots_lem a zero = refl
create_slots_lem a (suc n) = rw (create-nothing a) (rw (create_slots_lem a n) refl)

make_empty_fresh : make_empty nothing ≡ ok nothing
make_empty_fresh = (make_empty-nothing nothing nothing-IsValid).0

-- `iotjs_httpparserwrap_create` succeeds and gives a valid wrapper that stands for no headers.
pub create_wrap-fresh :
    (a : Allocator) (n : Native)
    → (create_wrap a n ≡ ok (fresh n))
      × IsParser 0 (fresh n)
      × (assembled (fresh n) ≡ record { list = []; pending = none })
unfolding create_wrap initialize
create_wrap-fresh a n = (
  rw (create-nothing a) (rw (create_slots_lem a header_max) (rw make_empty_fresh refl)),
  fresh-IsParser n,
  refl,
)

-- `iotjs_httpparserwrap_initialize` of a valid wrapper drops the URL, the status and the headers
-- that it keeps (the URL and the status are empty strings afterwards), and leaves it valid and not
-- flushed; `on_message_begin` empties the URL and the status and nothing else: the headers and the
-- mark stay.
pub initialize_lem :
    (m : ℕ) (p : Parser) (n : Native)
    → IsParser m p
    → (p' : Parser) × (initialize p n ≡ ok p')
      × IsParser m p'
      × (assembled p' ≡ record { list = delivered p.calls; pending = none })
      × (p'.url ≡ nothing)
      × (p'.status_msg ≡ nothing)
      × (p'.flushed ≡ false)
      × (q : Parser) × (on_message_begin p ≡ ok q)
      × (assembled q ≡ assembled p)
      × (q.flushed ≡ p.flushed)
      × (q.url ≡ nothing)
      × (q.status_msg ≡ nothing)
unfolding initialize on_message_begin
initialize_lem m p n v =
    let u = (make_empty-nothing p.url v.url.valid).0 in
    let s = (make_empty-nothing p.status_msg v.status_msg.valid).0 in
    (
      record p {
        native = n;
        url = nothing;
        status_msg = nothing;
        n_fields = 0;
        n_values = 0;
        flushed = false;
        buf = none;
      },
      rw u (rw s refl),
      record {
        url = IsString-nothing m;
        status_msg = IsString-nothing m;
        fields_length = v.fields_length;
        values_length = v.values_length;
        fields = v.fields;
        values = v.values;
        below = omega arith;
        counts = inl refl;
      },
      Headers-eq _ _ (append-nil (delivered p.calls)) refl,
      refl,
      refl,
      refl,
      record p { url = nothing; status_msg = nothing },
      rw u (rw s refl),
      refl,
      refl,
      refl,
      refl,
    )
