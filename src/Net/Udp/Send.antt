-- ===== src/Net/Udp/Send.antt =====
-- `Send` and `OnSend` of src/module/iotjs_module_udp.c.
use ble_central.Base.{
  ℕ, ◌%◌, ◌^◌, ◌<◌, ◌≡◌, refl, arith, List, [], ◌∷◌, Bool-cases, inl, inr, ==_refl, ok, fault,
  Fault,
}
use ble_central.Base.Int.{ℤ, pos, ◌==ℤ◌}
use ble_central.Binding.Value.{Jval}
use ble_central.Binding.Args.{handler, get_arg_of}
use ble_central.Binding.Balance.{create-filled}
use ble_central.Binding.World.{World}
use ble_central.Binding.World.Calls.{append-filled}
use ble_central.Memory.{Allocator}
use ble_central.Memory.Laws.{IsAmple, until_nul}
use ble_central.Buffer.Range.{to_int, to_size}
use ble_central.Buffer.Heap as Buffers
use ble_central.Buffer.Heap.{Heap, from_jbuffer, bufferwrap_length, load}
use ble_central.Handle.{Wrap}
use ble_central.Handle.Request as Requests
use ble_central.Handle.Request.{jcallback_of}
use ble_central.Handle.Pending.{request_of, create_request-request_of}
use ble_central.Handle.Notify.{Notified, finish-Notified}
use ble_central.Net.Life.{IsSocket, Life, settle-Life, fresh_frame}
use ble_central.Net.Udp.{Uv, check_each, udp_handle, send_reqwrap_create, checked_each, js_send}
use ble_central.Net.Udp.Callbacks.{on_send}

-- The frame of `send(buffer, port, address, callback)`.
abbrev pub send_arguments : ℕ → ℤ → List ℕ → Jval → List Jval
send_arguments jb port s callback =
    Jval.object jb ∷ Jval.number port ∷ Jval.string s ∷ callback ∷ []

module _ (a : Allocator) (ample : IsAmple a) where
  on_send-Notified :
      (w : World) (self request o n : ℕ) (status : ℤ)
      → 0 < w.counts o
      → Notified w o Jval.undefined
          (Jval.number status ∷ Jval.number (pos n) ∷ [])
          (on_send a w (record { request = request_of self request o; msg_size = n }) status)
  unfolding on_send jcallback_of Requests.validate
  on_send-Notified w self request o n status held = rw (==_refl self) (
      rw (create-filled a 2 ample (omega arith) (omega arith)) (
        rw (append-filled w 2 [] (Jval.number status) (omega arith)) (
          rw (append-filled w 2 (Jval.number status ∷ []) (Jval.number (pos n)) (omega arith)) (
            finish-Notified w self request o 2 Jval.undefined (Jval.number status)
              (Jval.number (pos n) ∷ []) (omega arith) (λ q. refl) held))))

module _ {H : Type 0} (uv : Uv H) (w : World) (this : ℕ) (t : Wrap H) (self request : ℕ)
    (heap : Heap) (jb b : ℕ) (wrap : Buffers.Wrap) (n : ℕ) (socket : IsSocket t)
    (buffer : from_jbuffer heap jb ≡ ok b) (wrapped : load heap b ≡ ok wrap)
    (sized : bufferwrap_length heap b ≡ ok n) where
  -- `send` of a buffer of `n` bytes with a callback, on a socket whose handle is open, for an
  -- allocator with room: it returns a code and calls nothing. If the code is not 0, no request waits
  -- and every count is as before. If it is 0, a request waits, which holds one reference to the
  -- callback and keeps the size; when libuv ends it, in any world that holds the callback, this is called exactly once,
  -- with the status and that size, `n` as an `int` and then a `size_t`, and the request's reference is given up.
  pub send-Life :
      (a : Allocator) (o : ℕ) (v : World) (status port : ℤ) (s : List ℕ)
      → IsAmple a
      → 0 < v.counts o
      → let size = to_size (to_int n) in
        Life w o
          (js_send uv w
            (Jval.object this)
            t
            (handler (send_arguments jb port s (Jval.function o)))
            heap
            self
            request)
          (λ r u. on_send a u r status)
          v
          (Jval.number status ∷ Jval.number (pos size) ∷ [])
  unfolding js_send checked_each check_each get_arg_of handler send_reqwrap_create udp_handle
  send-Life a o v status port s ample held =
      let size = to_size (to_int n) in
      let vs = Jval.number status ∷ Jval.number (pos size) ∷ [] in
      let frame = handler (send_arguments jb port s (Jval.function o)) in
      let open_frame = fresh_frame (send_arguments jb port s (Jval.function o)) in
      let addr = uv.ip4_addr (until_nul s) (pos (to_size port % 2 ^ 16)) in
      let u = uv.send t.uv request wrap.buffer (to_int n) addr.1 in
      let notified = on_send-Notified a ample v self request o size status held in
      rw (socket.0) (
        rw buffer (
          rw wrapped (
            rw sized (
              rw (create_request-request_of w self request o)
                (elim (Bool-cases (addr.0 ==ℤ pos 0)) [
                  | inl good ↦ rw good (
                      rw (socket.2) (
                        settle-Life (λ q. q.request) w (record t { uv = u.0 }) frame self request o
                          (record { request = request_of self request o; msg_size = size }) u.1
                          (λ r x. on_send a x r status) v vs refl open_frame notified))
                  | inr bad ↦ rw bad (
                      settle-Life (λ q. q.request) w t frame self request o
                        (record { request = request_of self request o; msg_size = size }) addr.0
                        (λ r x. on_send a x r status) v vs refl open_frame notified)
                ])))))

  -- `send` with `undefined` as its callback passes the check that accepts it and then fails an
  -- assertion, whatever the rest.
  pub send_undefined :
      (port : ℤ) (s : List ℕ)
      → js_send uv w
          (Jval.object this)
          t
          (handler (send_arguments jb port s Jval.undefined))
          heap
          self
          request
        ≡ fault Fault.aborted
  unfolding js_send checked_each check_each get_arg_of handler
  send_undefined port s = rw (socket.0) refl
