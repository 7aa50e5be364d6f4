-- ===== src/Net/Tcp/Requests.antt =====
-- The requests of src/module/iotjs_module_tcp.c, from the native that starts one to the callback of libuv
-- that ends it.
use ble_central.Base.{ℕ, ◌<◌, ◌≡◌, inl, inr, refl, arith, List, [], ◌∷◌, Bool-cases, ==_refl, ok}
use ble_central.Base.Int.{ℤ, pos, ◌==ℤ◌}
use ble_central.Binding.Value.{Jval}
use ble_central.Binding.Args.{handler, get_arg_of}
use ble_central.Binding.Balance.{create-filled}
use ble_central.Binding.World.{World}
use ble_central.Binding.World.Calls.{append-filled}
use ble_central.Memory.{Allocator}
use ble_central.Memory.Laws.{IsAmple, until_nul}
use ble_central.Buffer.Range.{to_int}
use ble_central.Buffer.Heap as Buffers
use ble_central.Buffer.Heap.{Heap, from_jbuffer, bufferwrap_length, load}
use ble_central.Handle.{Wrap}
use ble_central.Handle.Request as Requests
use ble_central.Handle.Request.{Request, jcallback_of}
use ble_central.Handle.Pending.{request_of, create_request-request_of}
use ble_central.Net.{checked}
use ble_central.Handle.Notify.{Notified, finish-Notified}
use ble_central.Net.Life.{IsSocket, Life, settle-Life, refused-Life, fresh_frame}
use ble_central.Net.Tcp.{
  Uv, tcp_handle, connect_reqwrap_create, write_reqwrap_create, shutdown_reqwrap_create, js_connect,
  js_write, js_shutdown,
}
use ble_central.Net.Tcp.Callbacks.{notify, after_connect, after_write, after_shutdown}

module _ (a : Allocator) (ample : IsAmple a) where
  notify-Notified :
      (w : World) (self request o : ℕ) (status : ℤ)
      → 0 < w.counts o
      → Notified w o Jval.undefined
          (Jval.number status ∷ [])
          (notify a w (request_of self request o) (Jval.function o) status)
  unfolding notify
  notify-Notified w self request o status held =
      rw (create-filled a 1 ample (omega arith) (omega arith)) (
        rw (append-filled w 1 [] (Jval.number status) (omega arith)) (
          finish-Notified w self request o 1 Jval.undefined (Jval.number status) [] (omega arith)
            (λ q. refl) held))

  after_connect-Notified :
      (w : World) (self request o : ℕ) (status : ℤ)
      → 0 < w.counts o
      → Notified w o Jval.undefined
          (Jval.number status ∷ [])
          (after_connect a w (request_of self request o) status)
  unfolding after_connect jcallback_of Requests.validate
  after_connect-Notified w self request o status held =
      rw (==_refl self) (notify-Notified w self request o status held)

  after_write-Notified :
      (w : World) (self request o : ℕ) (status : ℤ)
      → 0 < w.counts o
      → Notified w o Jval.undefined
          (Jval.number status ∷ [])
          (after_write a w (request_of self request o) status)
  unfolding after_write jcallback_of Requests.validate
  after_write-Notified w self request o status held =
      rw (==_refl self) (notify-Notified w self request o status held)

  after_shutdown-Notified :
      (w : World) (self request o : ℕ) (status : ℤ)
      → 0 < w.counts o
      → Notified w o Jval.undefined
          (Jval.number status ∷ [])
          (after_shutdown a w (request_of self request o) status)
  unfolding after_shutdown jcallback_of Requests.validate
  after_shutdown-Notified w self request o status held =
      rw (==_refl self) (notify-Notified w self request o status held)

module _ (a : Allocator) (ample : IsAmple a) {H : Type 0} (uv : Uv H) (w : World) (this : ℕ)
    (t : Wrap H) (self request o : ℕ) (socket : IsSocket t) (v : World) (status : ℤ)
    (held : 0 < v.counts o) where
  js_connect-Life :
      (s : List ℕ) (port : ℤ)
      → Life w o
          (js_connect uv w
            (Jval.object this)
            t
            (handler (Jval.string s ∷ Jval.number port ∷ Jval.function o ∷ []))
            self
            request)
          (λ r u. after_connect a u r status)
          v
          (Jval.number status ∷ [])
  unfolding js_connect checked get_arg_of handler connect_reqwrap_create tcp_handle
  js_connect-Life s port =
      let h = handler (Jval.string s ∷ Jval.number port ∷ Jval.function o ∷ []) in
      let addr = uv.ip4_addr (until_nul s) port in
      elim (Bool-cases (addr.0 ==ℤ pos 0)) [
        | inl good ↦ rw good (
            rw (socket.0) (
              rw (create_request-request_of w self request o) (
                rw (socket.2) (
                  settle-Life (λ q. q) w (record t { uv = (uv.connect t.uv request addr.1).0 }) h
                    self request o (request_of self request o) (uv.connect t.uv request addr.1).1
                    (λ r u. after_connect a u r status) v (Jval.number status ∷ []) refl
                    (fresh_frame (Jval.string s ∷ Jval.number port ∷ Jval.function o ∷ []))
                    (after_connect-Notified a ample v self request o status held)))))
        | inr bad ↦ rw bad (
            refused-Life w t h o addr.0 (λ r u. after_connect a u r status) v
              (Jval.number status ∷ [])
              (fresh_frame (Jval.string s ∷ Jval.number port ∷ Jval.function o ∷ [])) bad)
      ]

  js_shutdown-Life :
      Life w o
        (js_shutdown uv w (Jval.object this) t (handler (Jval.function o ∷ [])) self request)
        (λ r u. after_shutdown a u r status)
        v
        (Jval.number status ∷ [])
  unfolding js_shutdown checked get_arg_of handler shutdown_reqwrap_create tcp_handle
  js_shutdown-Life = rw (socket.0) (
      rw (create_request-request_of w self request o) (
        rw (socket.2) (
          settle-Life (λ q. q) w (record t { uv = (uv.shutdown t.uv request).0 })
            (handler (Jval.function o ∷ [])) self request o (request_of self request o)
            (uv.shutdown t.uv request).1 (λ r u. after_shutdown a u r status) v
            (Jval.number status ∷ []) refl (fresh_frame (Jval.function o ∷ []))
            (after_shutdown-Notified a ample v self request o status held))))

  module _ (heap : Heap) (jb b : ℕ) (wrap : Buffers.Wrap) (n : ℕ)
      (buffer : from_jbuffer heap jb ≡ ok b) (wrapped : load heap b ≡ ok wrap)
      (sized : bufferwrap_length heap b ≡ ok n) where
    js_write-Life :
        Life w o
          (js_write uv w
            (Jval.object this)
            t
            (handler (Jval.object jb ∷ Jval.function o ∷ []))
            heap
            self
            request)
          (λ r u. after_write a u r status)
          v
          (Jval.number status ∷ [])
    unfolding js_write checked get_arg_of handler write_reqwrap_create tcp_handle
    js_write-Life =
        let u = uv.write t.uv request wrap.buffer (to_int n) in
        rw (socket.0) (
          rw buffer (
            rw wrapped (
              rw sized (
                rw (create_request-request_of w self request o) (
                  rw (socket.2) (
                    settle-Life (λ q. q) w (record t { uv = u.0 })
                      (handler (Jval.object jb ∷ Jval.function o ∷ [])) self request o
                      (request_of self request o) u.1 (λ r u. after_write a u r status) v
                      (Jval.number status ∷ []) refl
                      (fresh_frame (Jval.object jb ∷ Jval.function o ∷ []))
                      (after_write-Notified a ample v self request o status held)))))))

    -- `connect` to any address and port, `write` of a buffer and `shutdown`, with a callback, on a
    -- socket whose handle is open, for an allocator with room: each returns a code and calls nothing.
    -- If the code is not 0, no request waits and every count is as before. If it is 0, a request
    -- waits, which holds one reference to the callback; when libuv ends it, in any world that
    -- holds the callback, is called exactly once, with the status, and the request's reference is given up.
    pub request-Life :
        (s : List ℕ) (port : ℤ)
        → Life w o
            (js_connect uv w
              (Jval.object this)
              t
              (handler (Jval.string s ∷ Jval.number port ∷ Jval.function o ∷ []))
              self
              request)
            (λ r u. after_connect a u r status)
            v
            (Jval.number status ∷ [])
          × Life w o
              (js_write uv w
                (Jval.object this)
                t
                (handler (Jval.object jb ∷ Jval.function o ∷ []))
                heap
                self
                request)
              (λ r u. after_write a u r status)
              v
              (Jval.number status ∷ [])
          × Life w o
              (js_shutdown uv w (Jval.object this) t (handler (Jval.function o ∷ [])) self request)
              (λ r u. after_shutdown a u r status)
              v
              (Jval.number status ∷ [])
    request-Life s port = (js_connect-Life s port, js_write-Life, js_shutdown-Life)
