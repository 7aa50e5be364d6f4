-- ===== src/Net/Tcp.antt =====
-- src/module/iotjs_module_tcp.c: stream sockets, on top of the handle and request wrappers. libuv is a
-- parameter, and so are the functions that JavaScript has set on a socket.
pub mod Callbacks
pub mod Requests
pub mod Accept
pub mod Reading
pub mod Read
use ble_central.Base.{
  ℕ, zero, suc, ◌+◌, ◌%◌, ◌^◌, Bool, true, false, ◌&&◌, List, [], ◌∷◌, ◌++◌, Option, none, some,
  ◌==◌, if◌then◌else◌, not, Outcome, ok, fault, Fault, ◌>>=◌, ◌>>◌, assert, or_fault,
}
use ble_central.Base.Int.{ℤ, pos, negsuc, ltb_ℤ, ◌==ℤ◌}
use ble_central.Binding.Value.{Kind, Jval, is_kind, as_number, as_string, as_object, check_args}
use ble_central.Binding.Args.{Args, Handler, create, empty_args, get_arg_of, replace}
use ble_central.Binding.World.{
  Content, World, create_object, append, drop_value, copy_value, destroy_args, make_callback,
  call_ok, give_back, throw_new,
}
use ble_central.Memory.{Allocator, buffer_release}
use ble_central.Memory.Laws.{until_nul}
use ble_central.Buffer.Range.{to_size, to_int}
use ble_central.Buffer.Heap.{Heap, from_jbuffer, bufferwrap_length, load}
use ble_central.Handle as Handles
use ble_central.Handle.{Wrap, initialize, validate, jobject, get_uv_handle, close, on_handle_closed}
use ble_central.Handle.Request.{Request, req, jcallback_of}
use ble_central.Handle.Pending.{create_request, dispatched}
use ble_central.Net.{Sockaddr, address_to_js, Done, checked, return_err, settle, refuse}

-- What the functions call of libuv, on the state `H` of a handle: each gives the state after it and
-- its result. An address is what `uv_ip4_addr` has made of a text and a port.
pub record Uv (H : Type 0) : Type 1 where
  pub handles : Handles.Uv H
  pub Address : Type 0
  pub ip4_addr : List ℕ → ℤ → ℤ × Address
  pub bind : H → Address → H × ℤ
  pub connect : H → ℕ → Address → H × ℤ
  pub listen : H → ℤ → H × ℤ
  pub accept : H → H → H × H × ℤ
  pub write : H → ℕ → Option (List ℕ) → ℤ → H × ℤ
  pub read_start : H → H × ℤ
  pub shutdown : H → ℕ → H × ℤ
  pub keepalive : H → ℤ → ℕ → H × ℤ
  pub getsockname : H → ℤ × Sockaddr
  pub eof : ℤ

-- The properties of a socket that are functions, its owner, and what `createTCP` makes: an object and
-- the wrapper that its constructor has made for it.
pub record Script (H : Type 0) : Type 0 where
  pub onclose : Option ℕ
  pub onconnection : Option ℕ
  pub create_tcp : Option ℕ
  pub client : ℕ → Wrap H
  pub owner : Option ℕ
  pub onread : Option ℕ

module _ {H : Type 0} (uv : Uv H) where
  -- `iotjs_tcpwrap_create`
  unfoldable pub tcpwrap_create : ℕ → ℕ → ℕ → ℕ → Outcome (Wrap H)
  tcpwrap_create self jtcp refs handle = initialize uv.handles self jtcp refs handle

  -- `iotjs_tcpwrap_tcp_handle`
  unfoldable pub tcp_handle : Wrap H → Outcome ℕ
  tcp_handle t = get_uv_handle t

  -- `iotjs_tcpwrap_from_handle`
  unfoldable pub from_handle : Wrap H → Outcome (Unit {0})
  from_handle t = do
    validate t
    h ← tcp_handle t
    p ← or_fault Fault.null_pointer t.handle
    assert (h == p)

  -- The request wrappers of `connect`, `write` and `shutdown`.
  unfoldable pub connect_reqwrap_create : World → ℕ → ℕ → Jval → Outcome (World × Request)
  connect_reqwrap_create w self request jcallback = create_request w self request jcallback

  unfoldable pub write_reqwrap_create : World → ℕ → ℕ → Jval → Outcome (World × Request)
  write_reqwrap_create w self request jcallback = create_request w self request jcallback

  unfoldable pub shutdown_reqwrap_create : World → ℕ → ℕ → Jval → Outcome (World × Request)
  shutdown_reqwrap_create w self request jcallback = create_request w self request jcallback

  -- A native on the object `this`, whose wrapper is `t`, in the frame `h`.
  module _ (w : World) (this : Jval) (t : Wrap H) (h : Handler) where
    -- `Open` does nothing.
    unfoldable pub js_open : Outcome (Done (Wrap H) Request)
    js_open = ok (record { world = w; wrap = t; frame = h; waiting = none })

    -- `Close`; `after_close` is the address of `AfterClose`.
    unfoldable pub js_close : ℕ → Outcome (Done (Wrap H) Request)
    js_close after_close = checked w this t h [] (do
      validate t
      ok (record {
        world = w;
        wrap = close uv.handles t (some after_close);
        frame = h;
        waiting = none;
      }))

    unfoldable pub js_bind : Outcome (Done (Wrap H) Request)
    js_bind = checked w this t h (Kind.string ∷ Kind.number ∷ []) (do
      address ← as_string (← get_arg_of h 0)
      port ← as_number (← get_arg_of h 1)
      let addr = uv.ip4_addr (until_nul address) port
      if addr.0 ==ℤ pos 0
          then (do
            validate t
            p ← tcp_handle t
            let b = uv.bind t.uv addr.1
            return_err w (record t { uv = b.0 }) h none b.1)
          else return_err w t h none addr.0)

    unfoldable pub js_connect : ℕ → ℕ → Outcome (Done (Wrap H) Request)
    js_connect self request =
        checked w this t h (Kind.string ∷ Kind.number ∷ Kind.function ∷ []) (do
          address ← as_string (← get_arg_of h 0)
          port ← as_number (← get_arg_of h 1)
          jcallback ← get_arg_of h 2
          let addr = uv.ip4_addr (until_nul address) port
          if addr.0 ==ℤ pos 0
              then (do
                validate t
                r ← connect_reqwrap_create w self request jcallback
                p ← tcp_handle t
                let c = uv.connect t.uv request addr.1
                settle (λ q. q) r.0 (record t { uv = c.0 }) h r.1 c.1)
              else return_err w t h none addr.0)

    unfoldable pub js_listen : Outcome (Done (Wrap H) Request)
    js_listen = checked w this t h (Kind.number ∷ []) (do
      validate t
      backlog ← as_number (← get_arg_of h 0)
      p ← tcp_handle t
      let l = uv.listen t.uv backlog
      return_err w (record t { uv = l.0 }) h none l.1)

    unfoldable pub js_write : Heap → ℕ → ℕ → Outcome (Done (Wrap H) Request)
    js_write heap self request = checked w this t h (Kind.object ∷ Kind.function ∷ []) (do
      validate t
      jbuffer ← as_object (← get_arg_of h 0)
      b ← from_jbuffer heap jbuffer
      wrap ← load heap b
      n ← bufferwrap_length heap b
      arg1 ← get_arg_of h 1
      r ← write_reqwrap_create w self request arg1
      p ← tcp_handle t
      let u = uv.write t.uv request wrap.buffer (to_int n)
      settle (λ q. q) r.0 (record t { uv = u.0 }) h r.1 u.1)

    unfoldable pub js_read_start : Outcome (Done (Wrap H) Request)
    js_read_start = checked w this t h [] (do
      validate t
      p ← tcp_handle t
      let u = uv.read_start t.uv
      return_err w (record t { uv = u.0 }) h none u.1)

    unfoldable pub js_shutdown : ℕ → ℕ → Outcome (Done (Wrap H) Request)
    js_shutdown self request = checked w this t h (Kind.function ∷ []) (do
      validate t
      arg0 ← get_arg_of h 0
      r ← shutdown_reqwrap_create w self request arg0
      p ← tcp_handle t
      let u = uv.shutdown t.uv request
      settle (λ q. q) r.0 (record t { uv = u.0 }) h r.1 u.1)

    -- The delay is an `unsigned`.
    unfoldable pub js_set_keep_alive : Outcome (Done (Wrap H) Request)
    js_set_keep_alive = checked w this t h (Kind.number ∷ Kind.number ∷ []) (do
      enable ← as_number (← get_arg_of h 0)
      delay ← as_number (← get_arg_of h 1)
      validate t
      p ← tcp_handle t
      let u = uv.keepalive t.uv enable (to_size delay % 2 ^ 32)
      return_err w (record t { uv = u.0 }) h none u.1)

    -- `GetSockNameFunction`
    unfoldable pub get_sock_name : Outcome (Done (Wrap H) Request)
    get_sock_name =
        if check_args (Kind.object ∷ []) h.jargv
        then (do
          validate t
          p ← tcp_handle t
          let s = uv.getsockname t.uv
          if s.0 ==ℤ pos 0
              then (do
                obj ← as_object (← get_arg_of h 0)
                return_err (address_to_js w obj s.1) t h none s.0)
              else return_err w t h none s.0)
        else refuse w t h Content.internal_error
