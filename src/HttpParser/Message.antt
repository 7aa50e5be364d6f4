-- ===== src/HttpParser/Message.antt =====
-- A whole message through the wrapper of src/module/iotjs_module_httpparser.c: what JavaScript is
-- given of its headers.
use ble_central.Base.{
  ℕ, ◌+◌, ◌^◌, ◌≤◌, ◌<◌, ◌≡◌, refl, ap, ◌∙◌, arith, true, List, [], ◌∷◌, length, take, take-all,
  Outcome, ok, ◌>>=◌,
}
use ble_central.Memory.{Allocator}
use ble_central.Memory.Laws.{NoNul, IsAmple}
use ble_central.HttpParser.State.{Parser, Script}
use ble_central.HttpParser.Callbacks.{on_header_field, on_header_value}
use ble_central.HttpParser.Valid.{IsParser}
use ble_central.HttpParser.Headers.{Headers, add_name, add_value, assembled}
use ble_central.HttpParser.Assembly.{HasUrl, Collected}
use ble_central.HttpParser.Collect.{IsParser-mono, on_header_field-Collected}
use ble_central.HttpParser.Values.{on_header_value-Collected}

-- The fragments of a header section, as http_parser cuts them.
pub data Fragment : Type 0 where
  name value : List ℕ → Fragment

abbrev pub fragment_bytes : Fragment → List ℕ
fragment_bytes (name b) = b
fragment_bytes (value b) = b

abbrev pub total : List Fragment → ℕ
total [] = 0
total (f ∷ fs) = length (fragment_bytes f) + total fs

abbrev pub IsClean : List Fragment → Type 0
IsClean [] = Unit {0}
IsClean (f ∷ fs) = NoNul (fragment_bytes f) × IsClean fs

-- The first fragment is one of a name, or a name has been seen.
abbrev pub Starts : ℕ → List Fragment → Type 0
Starts n [] = Unit {0}
Starts n (name b ∷ fs) = Unit {0}
Starts n (value b ∷ fs) = 0 < n

abbrev pub spell : Headers → List Fragment → Headers
spell h [] = h
spell h (name b ∷ fs) = spell (add_name h b) fs
spell h (value b ∷ fs) = spell (add_value h b) fs

-- The callbacks for the fragments, one after another.
pub feed : Script → Allocator → List Fragment → Parser → Outcome Parser
feed js a [] p = ok p
feed js a (name b ∷ fs) p = do p' ← on_header_field js a p b (length b); feed js a fs p'
feed js a (value b ∷ fs) p = do p' ← on_header_value a p b (length b); feed js a fs p'

-- What a run of header callbacks leaves.
pub record Fed (m : ℕ) (p : Parser) (h : Headers) (r : Outcome Parser) : Type 0 where
  pub after : Parser
  pub returned : r ≡ ok after
  pub valid : IsParser m after
  pub headers : assembled after ≡ h
  pub url_kept : HasUrl p → HasUrl after

starts : (n : ℕ) (fs : List Fragment) → 0 < n → Starts n fs
starts n [] h = tt
starts n (name b ∷ fs) h = tt
starts n (value b ∷ fs) h = h

-- One callback and those after it.
Fed-step :
    (k l l' : ℕ) (p : Parser) (g h h' : Headers) (r : Outcome Parser)
    → (next : Parser → Outcome Parser) → (c : Collected k p g r) → Fed l c.after h (next c.after)
    → l ≤ l'
    → h ≡ h'
    → Fed l' p h' (r >>= next)
Fed-step k l l' p g h h' r next c d le e = record {
  after = d.after;
  returned = rw c.returned d.returned;
  valid = IsParser-mono l l' d.after d.valid le;
  headers = d.headers ∙ e;
  url_kept = λ u. d.url_kept (c.url_kept u);
}

module _ (js : Script) (a : Allocator) (ample : IsAmple a) (hj : js.has_headers ≡ true) where
  -- Any sequence of header callbacks that begins with a name unless one was seen, of bytes
  -- without NUL and below 2^31 in all, for an allocator with room and a script with `OnHeaders`,
  -- succeeds on a valid wrapper, and leaves a valid one that stands for exactly the headers that
  -- the fragments spell, whichever of them were flushed to JavaScript on the way.
  pub feed-Fed :
      (fs : List Fragment) (m : ℕ) (p : Parser)
      → IsParser m p
      → Starts p.n_fields fs
      → IsClean fs
      → m + total fs < 2 ^ 31
      → Fed (m + total fs) p (spell (assembled p) fs) (feed js a fs p)
  unfolding feed
  feed-Fed [] m p v st cl small = record {
    after = p;
    returned = refl;
    valid = IsParser-mono m (m + 0) p v (omega arith);
    headers = refl;
    url_kept = λ h. h;
  }
  feed-Fed (name b ∷ fs) m p v st cl small =
      let whole : take (length b) b ≡ b = take-all b (length b) (omega arith) in
      let c =
        on_header_field-Collected a b (length b) ample (omega arith) (rw whole cl.0) m js p v hj
          (omega arith) in
      Fed-step (m + length b) (m + length b + total fs) (m + (length b + total fs)) p
        (add_name (assembled p) (take (length b) b)) (spell (assembled c.after) fs)
        (spell (add_name (assembled p) b) fs) (on_header_field js a p b (length b)) (feed js a fs) c
        (feed-Fed fs (m + length b) c.after c.valid (starts c.after.n_fields fs c.started) cl.1
          (omega arith))
        (omega arith) (ap (λ h. spell h fs) (c.headers ∙ ap (add_name (assembled p)) whole))
  feed-Fed (value b ∷ fs) m p v st cl small =
      let whole : take (length b) b ≡ b = take-all b (length b) (omega arith) in
      let c =
        on_header_value-Collected a b (length b) ample (omega arith) (rw whole cl.0) m p v st
          (omega arith) in
      Fed-step (m + length b) (m + length b + total fs) (m + (length b + total fs)) p
        (add_value (assembled p) (take (length b) b)) (spell (assembled c.after) fs)
        (spell (add_value (assembled p) b) fs) (on_header_value a p b (length b)) (feed js a fs) c
        (feed-Fed fs (m + length b) c.after c.valid (starts c.after.n_fields fs c.started) cl.1
          (omega arith))
        (omega arith) (ap (λ h. spell h fs) (c.headers ∙ ap (add_value (assembled p)) whole))
