-- ===== src/Net/Udp.antt =====
-- src/module/iotjs_module_udp.c: datagram sockets, on top of the handle and request wrappers. libuv is a
-- parameter, and so are the properties that JavaScript has set on a socket.
pub mod Callbacks
pub mod Send
pub mod Arrival
pub mod Recv
pub mod Tests
use ble_central.Base.{
  ℕ, zero, suc, ◌%◌, ◌^◌, Bool, true, false, ◌&&◌, ◌||◌, List, [], ◌∷◌, Option, none, some, ◌==◌,
  if◌then◌else◌, Outcome, ok, fault, Fault, ◌>>=◌, ◌>>◌, assert, or_fault,
}
use ble_central.Base.Int.{ℤ, pos, ◌==ℤ◌}
use ble_central.Binding.Value.{
  Kind, Jval, is_kind, check_args, as_number, as_string, as_object, as_boolean,
}
use ble_central.Binding.Args.{Handler, get_arg_of}
use ble_central.Binding.World.{Content, World, give_back}
use ble_central.Memory.Laws.{until_nul}
use ble_central.Buffer.Range.{to_size, to_int}
use ble_central.Buffer.Heap.{Heap, from_jbuffer, bufferwrap_length, load}
use ble_central.Handle as Handles
use ble_central.Handle.{Wrap, initialize, validate, get_uv_handle, close}
use ble_central.Handle.Request.{Request}
use ble_central.Handle.Pending.{create_request}
use ble_central.Net.{Sockaddr, address_to_js, Done, checked, return_err, settle, refuse}

-- `uv_membership`
pub data Membership : Type 0 where
  join leave : Membership

-- What the functions call of libuv, on the state `H` of a handle: each gives the state after it and
-- its result. An address is what `uv_ip4_addr` has made of a text and a port.
pub record Uv (H : Type 0) : Type 1 where
  pub handles : Handles.Uv H
  pub Address : Type 0
  pub ip4_addr : List ℕ → ℤ → ℤ × Address
  pub bind : H → Address → Bool → H × ℤ
  pub recv_start : H → H × ℤ
  pub recv_stop : H → H × ℤ
  pub send : H → ℕ → Option (List ℕ) → ℤ → Address → H × ℤ
  pub getsockname : H → ℤ × Sockaddr
  pub set_broadcast : H → ℤ → H × ℤ
  pub set_ttl : H → ℤ → H × ℤ
  pub set_multicast_ttl : H → ℤ → H × ℤ
  pub set_multicast_loop : H → ℤ → H × ℤ
  pub set_membership : H → List ℕ → Option (List ℕ) → Membership → H × ℤ
  pub already : ℤ

-- The property `_reuseAddr` of a socket, and `onmessage` if it is a function.
pub record Script : Type 0 where
  pub reuse_addr : Jval
  pub onmessage : Option ℕ

-- `JHANDLER_CHECK_ARGS_n` without a count: an argument that is missing fails an assertion.
unfoldable pub check_each : List Kind → List Jval → Outcome Bool
check_each [] vs = ok true
check_each (k ∷ ks) [] = fault Fault.aborted
check_each (k ∷ ks) (v ∷ vs) = if is_kind k v then check_each ks vs else ok false

-- `_reuseAddr` as the flag `UV_UDP_REUSEADDR`.
abbrev pub reuse_flag : Jval → Outcome Bool
reuse_flag Jval.undefined = ok false
reuse_flag (Jval.boolean b) = ok b
reuse_flag _ = fault Fault.aborted

-- The interface of a membership, which may be undefined or null.
abbrev pub interface_of : Jval → Outcome (Option (List ℕ))
interface_of Jval.undefined = ok none
interface_of Jval.null = ok none
interface_of v = do s ← as_string v; ok (some (until_nul s))

-- `iotjs_send_reqwrap_t`: the size of the message is kept beside the request.
pub record SendRequest : Type 0 where
  pub request : Request
  pub msg_size : ℕ

module _ {H : Type 0} (uv : Uv H) where
  -- `iotjs_udpwrap_create`
  unfoldable pub udpwrap_create : ℕ → ℕ → ℕ → ℕ → Outcome (Wrap H)
  udpwrap_create self judp refs handle = initialize uv.handles self judp refs handle

  -- `iotjs_udpwrap_udp_handle`
  unfoldable pub udp_handle : Wrap H → Outcome ℕ
  udp_handle t = get_uv_handle t

  -- `iotjs_udpwrap_from_handle`
  unfoldable pub from_handle : Wrap H → Outcome (Unit {0})
  from_handle t = do
    validate t
    h ← udp_handle t
    p ← or_fault Fault.null_pointer t.handle
    assert (h == p)

  -- `iotjs_send_reqwrap_create`
  unfoldable pub send_reqwrap_create : World → ℕ → ℕ → Jval → ℤ → Outcome (World × SendRequest)
  send_reqwrap_create w self request jcallback msg_size = do
    r ← create_request w self request jcallback
    ok (r.0, record { request = r.1; msg_size = to_size msg_size })

  -- A native on the object `this`, whose wrapper is `t`, in the frame `h`.
  module _ (w : World) (this : Jval) (t : Wrap H) (h : Handler) where
    -- `JHANDLER_CHECK_THIS(object)` and `JHANDLER_CHECK_ARGS_n`
    unfoldable pub checked_each :
        List Kind → Outcome (Done (Wrap H) SendRequest) → Outcome (Done (Wrap H) SendRequest)
    checked_each kinds body =
        if is_kind Kind.object this
        then (do
          good ← check_each kinds h.jargv
          if good then body else refuse w t h Content.internal_error)
        else refuse w t h Content.internal_error

    unfoldable pub js_bind : Script → Outcome (Done (Wrap H) SendRequest)
    js_bind js = checked_each (Kind.string ∷ Kind.number ∷ []) (do
      validate t
      address ← as_string (← get_arg_of h 0)
      port ← as_number (← get_arg_of h 1)
      flags ← reuse_flag js.reuse_addr
      let addr = uv.ip4_addr (until_nul address) port
      if addr.0 ==ℤ pos 0
          then (do
            p ← udp_handle t
            let b = uv.bind t.uv addr.1 flags
            return_err w (record t { uv = b.0 }) h none b.1)
          else return_err w t h none addr.0)

    unfoldable pub js_recv_start : Outcome (Done (Wrap H) SendRequest)
    js_recv_start = checked w this t h [] (do
      validate t
      p ← udp_handle t
      let u = uv.recv_start t.uv
      return_err w (record t { uv = u.0 }) h none (if u.1 ==ℤ uv.already then pos 0 else u.1))

    unfoldable pub js_recv_stop : Outcome (Done (Wrap H) SendRequest)
    js_recv_stop = checked w this t h [] (do
      validate t
      p ← udp_handle t
      let u = uv.recv_stop t.uv
      return_err w (record t { uv = u.0 }) h none u.1)

    -- `Send`: the port is an `unsigned short`, and the callback is read as an object.
    unfoldable pub js_send : Heap → ℕ → ℕ → Outcome (Done (Wrap H) SendRequest)
    js_send heap self request = checked_each (Kind.object ∷ Kind.number ∷ Kind.string ∷ []) (do
      arg3 ← get_arg_of h 3
      assert (is_kind Kind.function arg3 || is_kind Kind.undefined arg3)
      validate t
      jbuffer ← as_object (← get_arg_of h 0)
      port ← as_number (← get_arg_of h 1)
      address ← as_string (← get_arg_of h 2)
      o ← as_object arg3
      b ← from_jbuffer heap jbuffer
      wrap ← load heap b
      n ← bufferwrap_length heap b
      r ← send_reqwrap_create w self request arg3 (to_int n)
      let addr = uv.ip4_addr (until_nul address) (pos (to_size port % 2 ^ 16))
      if addr.0 ==ℤ pos 0
          then (do
            p ← udp_handle t
            let u = uv.send t.uv request wrap.buffer (to_int n) addr.1
            settle (λ q. q.request) r.0 (record t { uv = u.0 }) h r.1 u.1)
          else settle (λ q. q.request) r.0 t h r.1 addr.0)

    unfoldable pub js_close : Outcome (Done (Wrap H) SendRequest)
    js_close = checked w this t h [] (do
      validate t
      ok (record { world = w; wrap = close uv.handles t none; frame = h; waiting = none }))

    -- `GetSockNameFunction`
    unfoldable pub get_socke_name : Outcome (Done (Wrap H) SendRequest)
    get_socke_name =
        if check_args (Kind.object ∷ []) h.jargv
        then (do
          validate t
          p ← udp_handle t
          let s = uv.getsockname t.uv
          if s.0 ==ℤ pos 0
              then (do
                obj ← as_object (← get_arg_of h 0)
                return_err (address_to_js w obj s.1) t h none s.0)
              else return_err w t h none s.0)
        else refuse w t h Content.internal_error

    -- `IOTJS_UV_SET_SOCKOPT`
    unfoldable pub set_sockopt : (H → ℤ → H × ℤ) → Outcome (Done (Wrap H) SendRequest)
    set_sockopt fn = checked_each (Kind.number ∷ []) (do
      validate t
      flag ← as_number (← get_arg_of h 0)
      p ← udp_handle t
      let u = fn t.uv flag
      return_err w (record t { uv = u.0 }) h none u.1)

    unfoldable pub js_set_broadcast : Outcome (Done (Wrap H) SendRequest)
    js_set_broadcast = set_sockopt uv.set_broadcast

    unfoldable pub js_set_ttl : Outcome (Done (Wrap H) SendRequest)
    js_set_ttl = set_sockopt uv.set_ttl

    unfoldable pub js_set_multicast_ttl : Outcome (Done (Wrap H) SendRequest)
    js_set_multicast_ttl = set_sockopt uv.set_multicast_ttl

    unfoldable pub js_set_multicast_loopback : Outcome (Done (Wrap H) SendRequest)
    js_set_multicast_loopback = set_sockopt uv.set_multicast_loop

    unfoldable pub set_membership : Membership → Outcome (Done (Wrap H) SendRequest)
    set_membership membership = checked_each (Kind.string ∷ []) (do
      validate t
      address ← as_string (← get_arg_of h 0)
      arg1 ← get_arg_of h 1
      iface ← interface_of arg1
      p ← udp_handle t
      let u = uv.set_membership t.uv (until_nul address) iface membership
      return_err w (record t { uv = u.0 }) h none u.1)

    unfoldable pub js_add_membership : Outcome (Done (Wrap H) SendRequest)
    js_add_membership = set_membership Membership.join

    unfoldable pub js_drop_membership : Outcome (Done (Wrap H) SendRequest)
    js_drop_membership = set_membership Membership.leave

    -- `Ref` and `Unref` are not implemented.
    unfoldable pub js_ref : Outcome (Done (Wrap H) SendRequest)
    js_ref = fault Fault.aborted

    unfoldable pub js_unref : Outcome (Done (Wrap H) SendRequest)
    js_unref = fault Fault.aborted
