-- ===== src/Net/Udp/Arrival.antt =====
-- What libuv reports to `OnRecv` of src/module/iotjs_module_udp.c, and what it should leave.
use ble_central.Base.{ℕ, suc, ◌≡◌, List, [], ◌∷◌, ◌++◌, take, Option, some, none, Outcome, ok}
use ble_central.Base.Int.{ℤ, pos, negsuc}
use ble_central.Binding.Value.{Jval}
use ble_central.Binding.World.{Content, World, Invocation, put_content}
use ble_central.Net.{Sockaddr, address_of}
use ble_central.Net.Tcp.Accept.{call_of}

-- What libuv reports: that there is nothing to read, a failure, or a message of a length from a sender.
pub data Arrival : Type 0 where
  nothing : Arrival
  failure : ℕ → Option Sockaddr → Arrival
  message : ℕ → Sockaddr → Arrival

abbrev pub reported : Arrival → ℤ
reported nothing = pos 0
reported (failure k addr) = negsuc k
reported (message n addr) = pos n

abbrev pub sender : Arrival → Option Sockaddr
sender nothing = none
sender (failure k addr) = addr
sender (message n addr) = some addr

abbrev pub size_of : Arrival → ℕ
size_of nothing = 0
size_of (failure k addr) = 0
size_of (message n addr) = n

module _ (f judp : ℕ) (w : World) where
  -- The calls that `OnRecv` makes, and the contents of the objects after it.
  abbrev pub calls_recv : Arrival → List Invocation
  calls_recv nothing = []
  calls_recv (failure k addr) =
      call_of f Jval.undefined (Jval.number (negsuc k) ∷ Jval.object judp ∷ []) ∷ []
  calls_recv (message n addr) =
      call_of f Jval.undefined (
        Jval.number (pos n) ∷ Jval.object judp ∷ Jval.object w.next ∷ Jval.object (suc w.next) ∷ [])
      ∷ []

  abbrev pub content_recv : Arrival → List ℕ → ℕ → Content
  content_recv nothing b = w.content
  content_recv (failure k addr) b = w.content
  content_recv (message n addr) b =
      put_content (put_content w.content w.next (Content.bytes (take n b))) (suc w.next)
        (address_of addr)

  abbrev pub Receives : Arrival → List ℕ → Outcome World → Type 0
  Receives x b r =
      (w' : World) × (r ≡ ok w')
      × (w'.invoked ≡ w.invoked ++ calls_recv x)
      × ((q : ℕ) → w'.content q ≡ content_recv x b q)
      × ((q : ℕ) → w'.counts q ≡ w.counts q)
