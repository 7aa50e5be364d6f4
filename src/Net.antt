-- ===== src/Net.antt =====
-- What src/module/iotjs_module_tcp.c, iotjs_module_udp.c and iotjs_module_dns.c share: the addresses,
-- the buffers for what is read, and what a native leaves.
pub mod Tcp
pub mod Life
pub mod Udp
pub mod Dns
pub mod Tests
use ble_central.Base.{
  ℕ, ◌+◌, ◌*◌, List, [], Option, none, some, ltb, ◌==◌, ◌&&◌, if◌then◌else◌, length, replicate,
  Outcome, ok, fault, Fault, ◌>>=◌, ◌>>◌,
}
use ble_central.Base.Int.{ℤ, pos, ◌==ℤ◌}
use ble_central.Binding.Value.{Kind, Jval, is_kind, check_args}
use ble_central.Binding.Args.{Handler}
use ble_central.Binding.World.{
  Family, Content, World, create_object, put_content, give_back, throw_new,
}
use ble_central.Memory.{Allocator, buffer_allocate, buffer_release}
use ble_central.Buffer.Bytes.{copy_internal, apart}
use ble_central.Handle.Request.{Request}
use ble_central.Handle.Pending.{dispatched}

-- A socket address, with the text that `uv_inet_ntop` makes of it and the bytes of its port, of which
-- the first is the higher one.
pub data Sockaddr : Type 0 where
  inet inet6 : List ℕ → ℕ → ℕ → Sockaddr
  other : Sockaddr

abbrev pub ntohs : ℕ → ℕ → ℕ
ntohs high low = high * 256 + low

-- The properties that `AddressToJS` sets.
unfoldable pub address_of : Sockaddr → Content
address_of (inet6 ip high low) = Content.address Family.ipv6 ip (ntohs high low)
address_of (inet ip high low) = Content.address Family.ipv4 ip (ntohs high low)
address_of other = Content.unknown_address

-- `AddressToJS`
unfoldable pub address_to_js : World → ℕ → Sockaddr → World
address_to_js w obj addr = record w { content = put_content w.content obj (address_of addr) }

-- `IOTJS_MAX_READ_BUFFER_SIZE` on Linux.
abbrev pub max_read_buffer_size : ℕ
max_read_buffer_size = 65535

-- `OnAlloc`: the block that is given to libuv.
unfoldable pub on_alloc : Allocator → ℕ → Outcome (List ℕ)
on_alloc a suggested_size =
    if ltb max_read_buffer_size suggested_size
    then buffer_allocate a max_read_buffer_size
    else buffer_allocate a suggested_size

-- `iotjs_bufferwrap_create_buffer` of `nread` bytes, which has no block for none, and
-- `iotjs_bufferwrap_copy` of those that were read.
unfoldable pub read_buffer : Allocator → World → List ℕ → ℕ → Outcome (World × ℕ)
read_buffer a w base nread = do
  block ← if nread == 0 then ok [] else buffer_allocate a nread
  r ← copy_internal (apart base) block 0 nread 0
  ok (create_object w (Content.bytes r.0))

-- `buf->base` is given up unless it is NULL.
abbrev pub release_base : Option (List ℕ) → Outcome (Unit {0})
release_base none = ok tt
release_base (some b) = buffer_release (some b)

-- What a native leaves: what it works on, and the request that waits for libuv, with what its wrapper
-- keeps.
pub record Done (T Q : Type 0) : Type 0 where
  pub world : World
  pub wrap : T
  pub frame : Handler
  pub waiting : Option Q

module _ {T Q : Type 0} where
  unfoldable pub refuse : World → T → Handler → Content → Outcome (Done T Q)
  refuse w t h c = do
    g ← throw_new w h c
    ok (record { world = g.0; wrap = t; frame = g.1; waiting = none })

  -- `iotjs_jhandler_return_number` of an error code at the end of a native.
  unfoldable pub return_err : World → T → Handler → Option Q → ℤ → Outcome (Done T Q)
  return_err w t h waiting err = do
    g ← give_back w h (Jval.number err)
    ok (record { world = g.0; wrap = t; frame = g.1; waiting = waiting })

  -- What follows an attempt to start a request: it is given up if libuv refuses it.
  unfoldable pub settle : (Q → Request) → World → T → Handler → Q → ℤ → Outcome (Done T Q)
  settle base w t h r err =
      if err ==ℤ pos 0
      then return_err w t h (some r) err
      else (do w' ← dispatched w (base r); return_err w' t h none err)

  -- `JHANDLER_CHECK_THIS(object)` and `JHANDLER_CHECK_ARGS`
  unfoldable pub checked :
      World → Jval → T → Handler → List Kind → Outcome (Done T Q) → Outcome (Done T Q)
  checked w this t h kinds body =
      if is_kind Kind.object this && check_args kinds h.jargv
      then body
      else refuse w t h Content.internal_error
