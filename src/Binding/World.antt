-- ===== src/Binding/World.antt =====
-- The objects that the natives make for JavaScript and the functions they call: the values behind
-- src/iotjs_binding.c and src/iotjs_binding_helper.c that several modules share.
pub mod Calls
pub mod Fresh
use ble_central.Base.{
  ℕ, zero, suc, List, [], ◌∷◌, ◌++◌, Option, none, some, ◌==◌, if◌then◌else◌, Outcome, ok, ◌>>=◌,
  ◌>>◌, assert,
}
use ble_central.Base.Int.{ℤ}
use ble_central.Binding.Value.{Kind, Jval, is_kind}
use ble_central.Binding.Args.{
  Counts, Args, acquire, release, change, append_jval, replace, slot, destroy, Handler, return_jval,
  throw,
}
use ble_central.Memory.{Allocator}

-- The property `family` of an address.
pub data Family : Type 0 where
  ipv4 ipv6 : Family

-- What is in an object: an error, by its message, the error of a libuv call that failed with a
-- number, a list of strings, or named numbers and strings.
pub data Content : Type 0 where
  internal_error offset_out_of_bound length_out_of_bound bad_family bad_direction bad_mode : Content
  uv_error : ℤ → List ℕ → Content
  strings : List (List ℕ) → Content
  numbers : List ℤ → Content
  address : Family → List ℕ → ℕ → Content
  unknown_address : Content
  bytes : List ℕ → Content
  plain : Content

-- A function that was called, with its `this` and its arguments.
pub record Invocation : Type 0 where
  pub callee : Jval
  pub this : Jval
  pub arguments : List Jval

-- `next` is an identity that no object has yet.
pub record World : Type 0 where
  pub counts : Counts
  pub next : ℕ
  pub content : ℕ → Content
  pub invoked : List Invocation

abbrev pub put_content : (ℕ → Content) → ℕ → Content → ℕ → Content
put_content f o c q = if q == o then c else f q

-- A new object, with one reference: `iotjs_jval_create_object` and its like.
unfoldable pub create_object : World → Content → World × ℕ
create_object w c = (
  record w {
    counts = change w.counts w.next 1;
    next = suc w.next;
    content = put_content w.content w.next c;
  },
  w.next,
)

-- `iotjs_jargs_append_jval` and `iotjs_jval_destroy`
unfoldable pub append : World → Args → Jval → Outcome (World × Args)
append w args v = do r ← append_jval w.counts args v; ok (record w { counts = r.0 }, r.1)

-- `iotjs_jargs_replace`
unfoldable pub replace_arg : World → Args → ℕ → Jval → Outcome (World × Args)
replace_arg w args i v = do r ← replace w.counts args i v; ok (record w { counts = r.0 }, r.1)

unfoldable pub drop_value : World → Jval → Outcome World
drop_value w v = do c ← release w.counts v; ok (record w { counts = c })

-- `iotjs_jval_create_copied`
unfoldable pub copy_value : World → Jval → World
copy_value w v = record w { counts = acquire w.counts v }

unfoldable pub destroy_args : World → Args → Outcome World
destroy_args w args = do c ← destroy w.counts args; ok (record w { counts = c })

-- The values of the slots that the engine reads for a call.
unfoldable pub read_slots : Args → ℕ → ℕ → Outcome (List Jval)
read_slots args i zero = ok []
read_slots args i (suc n) = do v ← slot args i; vs ← read_slots args (suc i) n; ok (v ∷ vs)

-- `iotjs_make_callback` up to the call; the hooks of `process` that follow are those of
-- `Binding.Callback.make_callback`. What is called keeps no reference.
unfoldable pub make_callback : World → Jval → Jval → Args → Outcome World
make_callback w callee this args = do
  vs ← read_slots args 0 args.argc
  ok (record w {
    invoked = w.invoked ++ (record { callee = callee; this = this; arguments = vs } ∷ []);
  })

-- `iotjs_jhelper_call_ok` of a function that returns a new object and does not throw.
unfoldable pub call_ok : World → Jval → Jval → Args → Content → Outcome (World × ℕ)
call_ok w callee this args result = do
  w' ← make_callback w callee this args
  ok (create_object w' result)

-- `iotjs_jhandler_return_jval` and `iotjs_jhandler_throw`
unfoldable pub give_back : World → Handler → Jval → Outcome (World × Handler)
give_back w h v = do r ← return_jval w.counts h v; ok (record w { counts = r.0 }, r.1)

unfoldable pub throw_value : World → Handler → Jval → Outcome (World × Handler)
throw_value w h v = do r ← throw w.counts h v; ok (record w { counts = r.0 }, r.1)

-- `JHANDLER_THROW` and a failed `JHANDLER_CHECK`: a new error object is thrown and given up.
unfoldable pub throw_new : World → Handler → Content → Outcome (World × Handler)
throw_new w h c = do
  let o = create_object w c
  r ← throw_value o.0 h (Jval.object o.1)
  w' ← drop_value r.0 (Jval.object o.1)
  ok (w', r.1)
