-- ===== src/Net/Tests.antt =====
-- A concrete socket of src/module/iotjs_module_tcp.c.
use ble_central.Base.{
  ℕ, ◌≡◌, refl, none, some, true, false, Bool, [], ◌∷◌, ◌==◌, if◌then◌else◌, ok, arith,
}
use ble_central.Base.Int.{pos, negsuc}
use ble_central.Binding.Value.{Jval}
use ble_central.Binding.Args.{handler}
use ble_central.Binding.World.{Content, World}
use ble_central.Binding.World.Fresh.{IsFresh}
use ble_central.Strings.Tests.{heap, heap-IsAmple}
use ble_central.Buffer.Tests.{store, four}
use ble_central.Buffer.Heap.{from_jbuffer, from_jbuiltin, load, bufferwrap_length, jbuiltin}
use ble_central.Handle.{Wrap, validate, get_uv_handle, jobject, jobject_of}
use ble_central.Net.{Sockaddr}
use ble_central.Net.Tcp.{Uv, Script, from_handle, tcp_handle, js_connect, js_write, js_shutdown}
use ble_central.Net.Tcp.Callbacks.{
  after_connect, after_write, after_shutdown, on_connection, on_read,
}
use ble_central.Net.Life.{IsSocket, Life}
use ble_central.Net.Tcp.Requests.{request-Life}
use ble_central.Net.Tcp.Accept.{Leaves, calls_made, kept, on_connection_lem}
use ble_central.Net.Tcp.Read.{Reads, on_read_lem}

-- Handles are no more than whether they are closing; connections are refused, all else works.
abbrev uv : Uv Bool
uv = record {
  handles = record {
    init = false;
    is_closing = λ b. b;
    close = λ b. true;
    start = λ b t r. (b, pos 0);
  };
  Address = ℕ;
  ip4_addr = λ s p. (pos 0, 7);
  bind = λ b x. (b, pos 0);
  connect = λ b r x. (b, negsuc 110);
  listen = λ b n. (b, pos 0);
  accept = λ b d. (b, d, negsuc 23);
  write = λ b r x n. (b, pos 0);
  read_start = λ b. (b, pos 0);
  shutdown = λ b r. (b, pos 0);
  keepalive = λ b e d. (b, pos 0);
  getsockname = λ b. (pos 0, Sockaddr.inet [] 0 80);
  eof = negsuc 4094;
}

abbrev pub socket : Wrap Bool
socket = record {
  self = 30;
  jobject = 2;
  native = some 30;
  refs = 2;
  handle = some 31;
  on_close_cb = none;
  handle_data = 30;
  uv = false;
  freed = false;
  calls = [];
}

abbrev script : Script Bool
script = record {
  onclose = none;
  onconnection = some 3;
  create_tcp = some 4;
  client = λ o. socket;
  owner = some 5;
  onread = some 6;
}

-- The functions 3, 4 and 6 and the owner 5 are held once each.
abbrev pub world : World
world = record {
  counts = λ q.
      if q == 3 then 1 else if q == 4 then 1 else if q == 5 then 1 else if q == 6 then 1 else 0;
  next = 9;
  content = λ q. Content.plain;
  invoked = [];
}

pub world-fresh : IsFresh world
world-fresh q h = ground arith

pub socket-IsSocket : IsSocket socket
unfolding validate get_uv_handle jobject_of
socket-IsSocket = (refl, 31, refl)

socket_handle : from_handle uv socket ≡ ok tt
unfolding from_handle tcp_handle validate get_uv_handle jobject_of
socket_handle = refl

socket_object : jobject socket ≡ ok 2
unfolding jobject validate jobject_of
socket_object = refl

pub buffer_of : from_jbuffer store 0 ≡ ok 2
unfolding from_jbuffer from_jbuiltin
buffer_of = refl

pub wrap_of : load store 2 ≡ ok four
unfolding load
wrap_of = refl

pub length_of : bufferwrap_length store 2 ≡ ok 4
unfolding bufferwrap_length jbuiltin load
length_of = refl

request-Life_example :
    Life world 3
      (js_connect uv world
        (Jval.object 2)
        socket
        (handler (Jval.string (49 ∷ []) ∷ Jval.number (pos 80) ∷ Jval.function 3 ∷ []))
        20
        21)
      (λ r u. after_connect heap u r (pos 0))
      world
      (Jval.number (pos 0) ∷ [])
    × Life world 3
        (js_write uv world
          (Jval.object 2)
          socket
          (handler (Jval.object 0 ∷ Jval.function 3 ∷ []))
          store
          20
          21)
        (λ r u. after_write heap u r (pos 0))
        world
        (Jval.number (pos 0) ∷ [])
    × Life world 3
        (js_shutdown uv world (Jval.object 2) socket (handler (Jval.function 3 ∷ [])) 20 21)
        (λ r u. after_shutdown heap u r (pos 0))
        world
        (Jval.number (pos 0) ∷ [])
request-Life_example =
    request-Life heap heap-IsAmple uv world 2 socket 20 21 3 socket-IsSocket world (pos 0)
      (omega arith) store 0 2 four 4 buffer_of wrap_of length_of (49 ∷ []) (pos 80)

on_connection_lem_example :
    Leaves world
      (calls_made uv script 3 4 2 world socket (pos 0))
      (kept uv script 3 4 2 world socket (pos 0))
      (on_connection heap uv script world socket (pos 0))
on_connection_lem_example =
    on_connection_lem heap heap-IsAmple uv script 3 4 2 refl refl world socket world-fresh
      (omega arith) (omega arith) socket_handle socket_object socket-IsSocket (pos 0)

on_read_lem_example :
    Reads uv 6 5 world
      (pos 2)
      (some (7 ∷ 8 ∷ 9 ∷ []))
      (on_read heap uv script world socket (pos 2) (some (7 ∷ 8 ∷ 9 ∷ [])))
on_read_lem_example =
    on_read_lem heap heap-IsAmple uv script 6 5 2 refl refl world socket world-fresh (omega arith)
      (omega arith) socket_handle socket_object (pos 2) (some (7 ∷ 8 ∷ 9 ∷ [])) (omega arith)
      (omega arith)
