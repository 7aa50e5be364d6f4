-- ===== src/Net/Dns/Tests.antt =====
-- A concrete lookup of src/module/iotjs_module_dns.c.
use ble_central.Base.{ℕ, ◌≡◌, refl, some, [], ◌∷◌, arith}
use ble_central.Base.Int.{pos}
use ble_central.Binding.Value.{Jval}
use ble_central.Binding.Args.{handler}
use ble_central.Strings.Tests.{heap, heap-IsAmple}
use ble_central.Net.Life.{Life}
use ble_central.Net.Tests.{world}
use ble_central.Net.Dns.{Hint, Uv, family_of, after_get_addr_info, js_get_addr_info}
use ble_central.Net.Dns.Lookup.{told, lookup-Life}

abbrev uv : Uv
uv = record { Address = ℕ; getaddrinfo = λ r s f n. pos 0; inet_ntop = λ x. (pos 0, 49 ∷ 0 ∷ []) }

inet_family : family_of (pos 4) ≡ some Hint.inet
unfolding family_of
inet_family = refl

lookup-Life_example :
    Life world 3
      (js_get_addr_info uv world
        (Jval.object 2)
        (handler (
          Jval.string (97 ∷ []) ∷ Jval.number (pos 4) ∷ Jval.number (pos 0) ∷ Jval.function 3 ∷ []))
        20
        21)
      (λ r u. after_get_addr_info uv heap u r (pos 0) (some 8))
      world
      (told uv (pos 0) 8)
lookup-Life_example =
    lookup-Life uv heap world 2 20 21 3 world (pos 0) (pos 4) (pos 0) 8 (97 ∷ []) Hint.inet
      heap-IsAmple (omega arith) inet_family
