-- ===== src/Strings/Valid.antt =====
-- The representation invariant of `iotjs_string_t`.
use ble_central.Base.{ℕ, ◌-◌, ◌^◌, ◌≤◌, ◌<◌, ◌≡◌, some, get_elem?, length}
use ble_central.Strings.{Str, Chars, empty_string, block, null}

-- The static string is of size and capacity 0; a block holds the capacity and a terminator behind
-- the contents. A NULL left by `realloc` is not valid.
abbrev pub Stores : Chars → ℕ → ℕ → Type 0
Stores empty_string size cap = (size ≡ 0) × (cap ≡ 0)
Stores (block b) size cap = (cap < length b) × (get_elem? b size ≡ some 0)
Stores null size cap = ⊥

pub record IsValid (s : Str) : Type 0 where
  pub within : s.size ≤ s.cap
  pub small : s.cap < 2 ^ 32 - 1
  pub stored : Stores s.chars s.size s.cap

-- A string of capacity 0 has no block of its own: what `iotjs_string_append` and
-- `iotjs_string_reserve` assert of it.
abbrev pub IsGrowable : Str → Type 0
IsGrowable s = s.cap ≡ 0 → s.chars ≡ empty_string
