-- ===== src/Strings/Tests.antt =====
-- Concrete strings of src/iotjs_string.c.
use ble_central.Base.{◌*◌, ◌^◌, ◌≤◌, ◌<◌, ◌⊎◌, ℕ, ◌∷◌, [], ◌≡◌, refl, some, true, arith}
use ble_central.Base.Int.{pos}
use ble_central.Memory.{Allocator}
use ble_central.Memory.Laws.{IsAmple}
use ble_central.Strings.{Str, block, append, grow, grow_fuel}
use ble_central.Strings.Valid.{IsValid, IsGrowable}
use ble_central.Strings.Append.{append-Appended}
use ble_central.Strings.Closed.{Appended}
use ble_central.Strings.Grow.{grow_doubles}

-- An allocator that always succeeds.
abbrev pub heap : Allocator
heap = record { fits = λ n. true; junk = λ n. 7 }

pub heap-IsAmple : IsAmple heap
heap-IsAmple m h = refl

-- "ab" in a block of capacity 2.
abbrev short : Str
short = record { size = 2; cap = 2; chars = block (97 ∷ 98 ∷ 0 ∷ []) }

short-IsValid : IsValid short
short-IsValid = record { within = omega arith; small = omega arith; stored = (omega arith, refl) }

short-IsGrowable : IsGrowable short
short-IsGrowable e = absurd (omega arith)

-- Two bytes of "cde" are appended, which doubles the capacity.
append-Appended_example :
    Appended short (99 ∷ 100 ∷ []) (append heap short (99 ∷ 100 ∷ 101 ∷ 0 ∷ []) (pos 2))
append-Appended_example =
    append-Appended heap short (99 ∷ 100 ∷ 101 ∷ 0 ∷ []) 2 heap-IsAmple short-IsValid
      short-IsGrowable (omega arith) (omega arith) (omega arith)

grow_doubles_example :
    (j : ℕ) × (grow grow_fuel 3 20 ≡ some (3 * 2 ^ j))
    × (20 ≤ 3 * 2 ^ j)
    × ((j ≡ 0) ⊎ (3 * 2 ^ j < 40))
grow_doubles_example = grow_doubles 3 20 (omega arith) (omega arith) (omega arith)
