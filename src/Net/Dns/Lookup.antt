-- ===== src/Net/Dns/Lookup.antt =====
-- A whole lookup of src/module/iotjs_module_dns.c.
use ble_central.Base.{
  ℕ, ◌<◌, ◌≡◌, refl, arith, List, [], ◌∷◌, some, Bool-cases, inl, inr, if◌then◌else◌, ==_refl,
}
use ble_central.Base.Int.{ℤ, pos, ◌==ℤ◌}
use ble_central.Binding.Value.{Jval}
use ble_central.Binding.Args.{handler, get_arg_of}
use ble_central.Binding.Balance.{create-filled}
use ble_central.Binding.World.{World}
use ble_central.Binding.World.Calls.{append-filled}
use ble_central.Memory.{Allocator}
use ble_central.Memory.Laws.{IsAmple, until_nul}
use ble_central.Handle.Request as Requests
use ble_central.Handle.Request.{jcallback_of}
use ble_central.Handle.Pending.{request_of, create_request-request_of}
use ble_central.Net.{checked}
use ble_central.Handle.Notify.{Notified, finish-Notified}
use ble_central.Net.Life.{Life, settle-Life, fresh_frame}
use ble_central.Net.Dns.{
  Hint, Uv, family_of, text_of, append_address, after_get_addr_info, js_get_addr_info,
}

module _ (uv : Uv) where
  -- What the callback is told: the status, and the address if the status is 0.
  abbrev pub told : ℤ → uv.Address → List Jval
  told status addr =
      if status ==ℤ pos 0
      then Jval.number status ∷ Jval.string (text_of uv addr) ∷ []
      else Jval.number status ∷ []

  after-Notified :
      (a : Allocator) (w : World) (self request o : ℕ) (status : ℤ) (addr : uv.Address)
      → IsAmple a
      → 0 < w.counts o
      → Notified w o Jval.undefined
          (told status addr)
          (after_get_addr_info uv a w (request_of self request o) status (some addr))
  unfolding after_get_addr_info append_address jcallback_of Requests.validate
  after-Notified a w self request o status addr ample held =
      rw (create-filled a 3 ample (omega arith) (omega arith)) (
        rw (append-filled w 3 [] (Jval.number status) (omega arith))
          (elim (Bool-cases (status ==ℤ pos 0)) [
            | inl good ↦ rw good (
                rw
                  (append-filled w 3 (Jval.number status ∷ []) (Jval.string (text_of uv addr))
                    (omega arith))
                  (rw (==_refl self) (
                    finish-Notified w self request o 3 Jval.undefined (Jval.number status)
                      (Jval.string (text_of uv addr) ∷ []) (omega arith) (λ q. refl) held)))
            | inr bad ↦ rw bad (
                rw (==_refl self) (
                  finish-Notified w self request o 3 Jval.undefined (Jval.number status) []
                    (omega arith) (λ q. refl) held))
          ]))

  -- `getaddrinfo` of any host name and flags with a known family and a callback, for an allocator with
  -- room: it returns a code and calls nothing. If the code is not 0, no request waits and every
  -- count is as before. If it is 0, a request waits, which holds one reference to the callback; when
  -- libuv ends it, in any world that holds the callback, this is called exactly once, with the status
  -- and, if that is 0, the text of the first address, which is empty if there is none; and the
  -- request's reference is given up.
  pub lookup-Life :
      (a : Allocator) (w : World) (this self request o : ℕ) (v : World) (status option flags : ℤ)
      (addr : uv.Address) (hostname : List ℕ) (family : Hint)
      → IsAmple a
      → 0 < v.counts o
      → family_of option ≡ some family
      → Life w o
          (js_get_addr_info uv w
            (Jval.object this)
            (handler (
              Jval.string hostname ∷ Jval.number option ∷ Jval.number flags ∷ Jval.function o ∷ []))
            self
            request)
          (λ r u. after_get_addr_info uv a u r status (some addr))
          v
          (told status addr)
  unfolding js_get_addr_info checked get_arg_of handler
  lookup-Life a w this self request o v status option flags addr hostname family ample held known =
      let vs =
        Jval.string hostname ∷ Jval.number option ∷ Jval.number flags ∷ Jval.function o ∷ [] in
      rw known (
        rw (create_request-request_of w self request o) (
          settle-Life (λ q. q) w tt (handler vs) self request o (request_of self request o)
            (uv.getaddrinfo request (until_nul hostname) family flags)
            (λ r u. after_get_addr_info uv a u r status (some addr)) v (told status addr) refl
            (fresh_frame vs) (after-Notified a v self request o status addr ample held)))
