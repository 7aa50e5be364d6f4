-- ===== src/HttpParser/Running.antt =====
-- What http_parser may do in a run on bytes, and the wrapper of
-- src/module/iotjs_module_httpparser.h in between.
use ble_central.Base.{
  ℕ, ◌+◌, ◌^◌, ◌≤◌, ◌<◌, ◌≡◌, Bool, true, false, List, some, length, Outcome, ok,
}
use ble_central.Base.Int.{ℤ}
use ble_central.HttpParser.State.{response, Parser}
use ble_central.HttpParser.Valid.{IsParser}
use ble_central.HttpParser.Natives.{Event, Run}

-- A part of the bytes that are parsed, that fits beside `m` bytes.
abbrev pub IsPart : List ℕ → ℕ → ℕ → ℕ → Type 0
IsPart bs m at n = (at + n ≤ length bs) × (m + n < 2 ^ 31)

-- The bytes that an event adds to a string.
abbrev pub added : Event → ℕ
added (Event.url at n) = n
added (Event.status at n) = n
added (Event.header_field at n) = n
added (Event.header_value at n) = n
added _ = 0

-- Whether an event may come, when `m` bytes have come and a name has been seen or not, and whether a
-- name has been seen after it.
abbrev pub MayCome : List ℕ → ℕ → Bool → Event → Type 0
MayCome bs m seen (Event.url at n) = IsPart bs m at n
MayCome bs m seen (Event.status at n) = IsPart bs m at n
MayCome bs m seen (Event.header_field at n) = IsPart bs m at n
MayCome bs m seen (Event.header_value at n) = IsPart bs m at n × (seen ≡ true)
MayCome bs m seen _ = Unit {0}

abbrev pub seen_after : Bool → Event → Bool
seen_after seen (Event.header_field at n) = true
seen_after seen Event.headers_complete = false
seen_after seen _ = seen

-- What http_parser promises of a run on `bs` for a response: data lies in the bytes, and no value
-- comes before a name.
unfoldable pub Follows : List ℕ → ℕ → Bool → Run → Type 0
Follows bs m seen (Run.finished n r) = Unit {0}
Follows bs m seen (Run.calls n e k) =
    (n.type ≡ response)
    × MayCome bs m seen e
    × ((v : ℤ) → Follows bs (m + added e) (seen_after seen e) (k v))

-- The wrapper while the bytes are parsed.
pub record IsRunning (bs : List ℕ) (m : ℕ) (seen : Bool) (p : Parser) : Type 0 where
  pub valid : IsParser m p
  pub named : seen ≡ true → 0 < p.n_fields
  pub has_buf : (j : ℕ) × (p.buf ≡ some (j, bs))

-- What an event leaves.
pub record Handled (bs : List ℕ) (m : ℕ) (seen : Bool) (r : Outcome (Parser × ℤ)) : Type 0 where
  pub after : Parser
  pub result : ℤ
  pub returned : r ≡ ok (after, result)
  pub running : IsRunning bs m seen after
