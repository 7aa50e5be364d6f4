-- ===== src/Net/Dns.antt =====
-- src/module/iotjs_module_dns.c, as compiled for Linux: looking a host name up. libuv is a parameter.
pub mod Lookup
pub mod Tests
use ble_central.Base.{
  ℕ, Bool, true, false, ◌&&◌, List, [], ◌∷◌, Option, none, some, if◌then◌else◌, Outcome, ok, Fault,
  ◌>>=◌, or_fault,
}
use ble_central.Base.Int.{ℤ, pos, ◌==ℤ◌}
use ble_central.Binding.Value.{Kind, Jval, as_number, as_string}
use ble_central.Binding.Args.{Args, Handler, create, get_arg_of}
use ble_central.Binding.World.{Content, World, append, destroy_args, make_callback}
use ble_central.Memory.{Allocator}
use ble_central.Memory.Laws.{until_nul}
use ble_central.Handle.Request.{Request, jcallback_of}
use ble_central.Handle.Pending.{create_request, dispatched}
use ble_central.Net.{Done, checked, refuse, settle}

-- `ai_family` of the hints: `AF_UNSPEC`, `AF_INET` or `AF_INET6`.
pub data Hint : Type 0 where
  unspec inet inet6 : Hint

-- `uv_getaddrinfo` for a request, a host name, a family and flags, and `uv_inet_ntop` of the address
-- of a result, with its error and the text.
pub record Uv : Type 1 where
  pub Address : Type 0
  pub getaddrinfo : ℕ → List ℕ → Hint → ℤ → ℤ
  pub inet_ntop : Address → ℤ × List ℕ

-- The family that an option stands for.
unfoldable pub family_of : ℤ → Option Hint
family_of option =
    if option ==ℤ pos 0
    then some unspec
    else if option ==ℤ pos 4
    then some inet
    else if option ==ℤ pos 6
    then some inet6
    else none

module _ (uv : Uv) where
  -- The text that `AfterGetAddrInfo` gives for the first result: empty if there is none for it.
  unfoldable pub text_of : uv.Address → List ℕ
  text_of addr = let r = uv.inet_ntop addr in if r.0 ==ℤ pos 0 then until_nul r.1 else []

  module _ (a : Allocator) where
    unfoldable pub append_address : World → Args → ℤ → Option uv.Address → Outcome (World × Args)
    append_address w args status res =
        if status ==ℤ pos 0
        then (do addr ← or_fault Fault.null_pointer res; append w args (Jval.string (text_of addr)))
        else ok (w, args)

    -- `AfterGetAddrInfo`, with the first of the results.
    unfoldable pub after_get_addr_info : World → Request → ℤ → Option uv.Address → Outcome World
    after_get_addr_info w r status res = do
      args ← create a 3
      s₁ ← append w args (Jval.number status)
      s₂ ← append_address s₁.0 s₁.1 status res
      jcallback ← jcallback_of r
      w₁ ← make_callback s₂.0 jcallback Jval.undefined s₂.1
      w₂ ← destroy_args w₁ s₂.1
      dispatched w₂ r

  -- `GetAddrInfo` on the object `this`, in the frame `h`; nothing but the request is left.
  unfoldable pub js_get_addr_info :
      World → Jval → Handler → ℕ → ℕ → Outcome (Done (Unit {0}) Request)
  js_get_addr_info w this h self request =
      checked w this tt h (Kind.string ∷ Kind.number ∷ Kind.number ∷ Kind.function ∷ []) (do
        hostname ← as_string (← get_arg_of h 0)
        option ← as_number (← get_arg_of h 1)
        flags ← as_number (← get_arg_of h 2)
        jcallback ← get_arg_of h 3
        elim (family_of option) [
          | none ↦ refuse w tt h Content.bad_family
          | some family ↦ (do
            r ← create_request w self request jcallback
            settle (λ q. q) r.0 tt h r.1 (uv.getaddrinfo request (until_nul hostname) family flags))
        ])
