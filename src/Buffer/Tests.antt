-- ===== src/Buffer/Tests.antt =====
-- Concrete buffers of src/module/iotjs_module_buffer.c.
use ble_central.Base.{
  ℕ, ◌+◌, ◌≡◌, refl, inl, none, some, true, Option, List, [], ◌∷◌, ◌==◌, if◌then◌else◌, ok, fault,
  Fault, arith,
}
use ble_central.Base.Int.{ℤ, pos, negsuc}
use ble_central.Binding.Value.{Jval, returned}
use ble_central.Strings.Tests.{heap, heap-IsAmple}
use ble_central.Buffer.Bytes.{copy_internal, within}
use ble_central.Buffer.Bytes.Copy.{Repeats, copy_within_up}
use ble_central.Buffer.Bytes.Order.{Compared}
use ble_central.Buffer.Heap.{Wrap, Heap, bytes_of, create_buffer}
use ble_central.Buffer.Heap.Valid.{IsBuffer}
use ble_central.Buffer.Heap.Moves.{splice}
use ble_central.Buffer.Handlers.{copy, write, slice, compare, to_string}
use ble_central.Buffer.Handlers.Copying.{copy_lem, write_lem}
use ble_central.Buffer.Handlers.Slicing.{slice_lem}
use ble_central.Buffer.Handlers.Text.{compare_lem, to_string_lem, to_string_empty}

-- Objects 0, 3 and 6 are buffers of four, three and no bytes, with the builtins and wrappers of the
-- next two numbers.
abbrev pub four : Wrap
four = record { jobject = 1; buffer = some (1 ∷ 2 ∷ 3 ∷ 4 ∷ []); length = 4 }

abbrev three : Wrap
three = record { jobject = 4; buffer = some (97 ∷ 98 ∷ 0 ∷ []); length = 3 }

abbrev nil : Wrap
nil = record { jobject = 7; buffer = none; length = 0 }

abbrev table {ℓ} : {A : Type ℓ} → ℕ → A → A → A → ℕ → Option A
table i x y z p =
    if p == i then some x else if p == i + 3 then some y else if p == i + 6 then some z else none

abbrev pub store : Heap
store = record {
  wraps = table 2 four three nil;
  native = table 1 2 5 8;
  builtin = table 0 1 4 7;
  buffer_of = table 1 0 3 6;
  length_of = table 0 (pos 4) (pos 3) (pos 0);
  next = 9;
}

four-IsBuffer : IsBuffer store 0 1 2 four
four-IsBuffer = record {
  has_builtin = refl;
  has_native = refl;
  has_wrap = refl;
  wrap_object = refl;
  back = refl;
  has_length = refl;
  stored = refl;
  small = omega arith;
}

three-IsBuffer : IsBuffer store 3 4 5 three
three-IsBuffer = record {
  has_builtin = refl;
  has_native = refl;
  has_wrap = refl;
  wrap_object = refl;
  back = refl;
  has_length = refl;
  stored = refl;
  small = omega arith;
}

-- Bytes 2 and 3 go over the target from offset 1 on.
copy_lem_example :
    copy heap true store
      (Jval.object 1)
      (Jval.object 3 ∷ Jval.number (pos 1) ∷ Jval.number (pos 1) ∷ Jval.number (pos 3) ∷ [])
    ≡ ok (splice store 5 three 1 (2 ∷ 3 ∷ []), returned (Jval.number (pos 2)))
copy_lem_example =
    copy_lem store 0 1 2 four four-IsBuffer 3 4 5 three three-IsBuffer heap true (pos 1) (pos 1)
      (pos 3) (omega arith, omega arith) (omega arith, omega arith) (omega arith, omega arith)
      (inl (omega arith))

write_lem_example :
    write heap true store
      (Jval.object 4)
      (Jval.string (120 ∷ 121 ∷ []) ∷ Jval.number (pos 2) ∷ Jval.number (pos 9) ∷ [])
    ≡ ok (splice store 5 three 2 (120 ∷ []), returned (Jval.number (pos 1)))
write_lem_example =
    write_lem heap true store 3 4 5 three three-IsBuffer (120 ∷ 121 ∷ []) (pos 2) (pos 9)
      (omega arith, omega arith) (omega arith, omega arith) (omega arith)

slice_lem_example :
    (h' : Heap) × (w : Wrap) × (slice heap true store
        (Jval.object 1)
        (Jval.number (negsuc 2) ∷ Jval.number (pos 3) ∷ [])
      ≡ ok (h', returned (Jval.object 9)))
    × IsBuffer h' 9 10 11 w
    × (bytes_of w ≡ 2 ∷ 3 ∷ [])
    × (w.length ≡ 2)
    × IsBuffer h' 0 1 2 four
slice_lem_example =
    slice_lem heap true store 0 1 2 four four-IsBuffer (omega arith) (omega arith) (omega arith)
      (negsuc 2) (pos 3) (omega arith, omega arith) (omega arith, omega arith) refl

compare_lem_example :
    (r : ℤ) × (compare heap true store (Jval.object 1) (Jval.object 3 ∷ [])
      ≡ ok (store, returned (Jval.number r)))
    × Compared true (bytes_of four) (bytes_of three) r
compare_lem_example =
    compare_lem heap true store 0 1 2 four 3 4 5 three four-IsBuffer three-IsBuffer (omega arith)
      (omega arith)

to_string_lem_example :
    to_string heap true store (Jval.object 4) (Jval.number (pos 0) ∷ Jval.number (pos 3) ∷ [])
    ≡ ok (store, returned (Jval.string (97 ∷ 98 ∷ [])))
to_string_lem_example =
    to_string_lem heap true store 3 4 5 three three-IsBuffer heap-IsAmple (97 ∷ 98 ∷ 0 ∷ []) refl
      (pos 0) (pos 3) (omega arith, omega arith) (omega arith, omega arith)

to_string_empty_example :
    (h' : Heap) × (w : Wrap) × (create_buffer heap store 0 ≡ ok (h', 9))
    × IsBuffer h' 9 10 11 w
    × (w.length ≡ 0)
    × (to_string heap true h' (Jval.object 10) (Jval.number (pos 0) ∷ Jval.number (pos 5) ∷ [])
        ≡ fault Fault.aborted)
to_string_empty_example =
    to_string_empty heap true store (pos 0) (pos 5) (omega arith, omega arith)
      (omega arith, omega arith)

copy_within_up_example :
    (r : List ℕ) × (copy_internal within (1 ∷ 2 ∷ 3 ∷ 4 ∷ []) 0 3 1 ≡ ok (r, 3))
    × Repeats (1 ∷ 2 ∷ 3 ∷ 4 ∷ []) 0 1 3 r
copy_within_up_example =
    copy_within_up (1 ∷ 2 ∷ 3 ∷ 4 ∷ []) 0 3 1 (omega arith) (omega arith) (omega arith)
