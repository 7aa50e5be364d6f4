-- ===== src/Net/Udp/Tests.antt =====
-- A concrete socket of src/module/iotjs_module_udp.c.
use ble_central.Base.{ℕ, ◌≡◌, refl, some, Bool, true, false, [], ◌∷◌, ok, arith}
use ble_central.Base.Int.{pos, negsuc}
use ble_central.Binding.Value.{Jval}
use ble_central.Binding.Args.{handler}
use ble_central.Strings.Tests.{heap, heap-IsAmple}
use ble_central.Buffer.Tests.{store, four}
use ble_central.Buffer.Range.{to_int, to_size}
use ble_central.Handle.{Wrap, validate, jobject, get_uv_handle, jobject_of}
use ble_central.Net.{Sockaddr}
use ble_central.Net.Life.{Life}
use ble_central.Net.Tests.{
  socket, world, world-fresh, socket-IsSocket, buffer_of, wrap_of, length_of,
}
use ble_central.Net.Udp.{Uv, Script, udp_handle, from_handle, js_send}
use ble_central.Net.Udp.Callbacks.{on_send, on_recv}
use ble_central.Net.Udp.Send.{send_arguments, send-Life}
use ble_central.Net.Udp.Arrival.{Arrival, Receives}
use ble_central.Net.Udp.Recv.{on_recv_lem}

-- Handles are no more than whether they are closing, and all works.
abbrev uv : Uv Bool
uv = record {
  handles = record {
    init = false;
    is_closing = λ b. b;
    close = λ b. true;
    start = λ b t r. (b, pos 0);
  };
  Address = ℕ;
  ip4_addr = λ s p. (pos 0, 7);
  bind = λ b x f. (b, pos 0);
  recv_start = λ b. (b, negsuc 113);
  recv_stop = λ b. (b, pos 0);
  send = λ b r x n y. (b, pos 0);
  getsockname = λ b. (pos 0, Sockaddr.inet [] 0 80);
  set_broadcast = λ b x. (b, pos 0);
  set_ttl = λ b x. (b, pos 0);
  set_multicast_ttl = λ b x. (b, pos 0);
  set_multicast_loop = λ b x. (b, pos 0);
  set_membership = λ b x y m. (b, pos 0);
  already = negsuc 113;
}

abbrev script : Script
script = record { reuse_addr = Jval.undefined; onmessage = some 6 }

-- The object 5 is the socket's.
abbrev named : Wrap Bool
named = record socket { jobject = 5 }

send-Life_example :
    Life world 3
      (js_send uv world
        (Jval.object 2)
        socket
        (handler (send_arguments 0 (pos 80) (49 ∷ []) (Jval.function 3)))
        store
        20
        21)
      (λ r u. on_send heap u r (pos 0))
      world
      (Jval.number (pos 0) ∷ Jval.number (pos (to_size (to_int 4))) ∷ [])
send-Life_example =
    send-Life uv world 2 socket 20 21 store 0 2 four 4 socket-IsSocket buffer_of wrap_of length_of
      heap 3 world (pos 0) (pos 80) (49 ∷ []) heap-IsAmple (omega arith)

named_handle : from_handle uv named ≡ ok tt
unfolding from_handle udp_handle validate get_uv_handle jobject_of
named_handle = refl

named_object : jobject named ≡ ok 5
unfolding jobject validate jobject_of
named_object = refl

on_recv_lem_example :
    Receives 6 5 world (Arrival.message 2 (Sockaddr.inet (49 ∷ []) 0 80)) (7 ∷ 8 ∷ 9 ∷ []) (
      on_recv heap uv script world named
        (pos 2)
        (some (7 ∷ 8 ∷ 9 ∷ []))
        (some (Sockaddr.inet (49 ∷ []) 0 80)))
on_recv_lem_example =
    on_recv_lem heap heap-IsAmple uv script 6 5 refl world named world-fresh (omega arith)
      (omega arith) named_handle named_object (Arrival.message 2 (Sockaddr.inet (49 ∷ []) 0 80))
      (7 ∷ 8 ∷ 9 ∷ []) (omega arith) (omega arith)
