-- ===== src/Net/Udp/Callbacks.antt =====
-- The functions of src/module/iotjs_module_udp.c that libuv calls back.
use ble_central.Base.{
  ℕ, Bool, false, List, Option, none, some, if◌then◌else◌, Outcome, ok, Fault, ◌>>=◌, ◌>>◌,
  or_fault,
}
use ble_central.Base.Int.{ℤ, pos, pos_part, ltb_ℤ, ◌==ℤ◌}
use ble_central.Binding.Value.{Kind, Jval, is_kind}
use ble_central.Binding.Args.{Args, create}
use ble_central.Binding.World.{
  Content, World, append, create_object, drop_value, copy_value, destroy_args, make_callback,
}
use ble_central.Memory.{Allocator, buffer_release}
use ble_central.Handle.{Wrap, jobject}
use ble_central.Handle.Request.{jcallback_of}
use ble_central.Handle.Pending.{dispatched}
use ble_central.Net.{Sockaddr, address_to_js, read_buffer, release_base}
use ble_central.Net.Udp.{Uv, SendRequest, Script, from_handle}

abbrev pub is_nothing : ℤ → Option Sockaddr → Bool
is_nothing nread none = nread ==ℤ pos 0
is_nothing nread (some addr) = false

-- `OnRecv` of an error.
unfoldable pub recv_failed : World → ℕ → Args → Option (List ℕ) → Outcome World
recv_failed w f args base = do
  release_base base
  w₁ ← make_callback w (Jval.function f) Jval.undefined args
  w₂ ← drop_value w₁ (Jval.function f)
  destroy_args w₂ args

module _ (a : Allocator) where
  -- `OnSend`, for the request of a message of `msg_size` bytes.
  unfoldable pub on_send : World → SendRequest → ℤ → Outcome World
  on_send w r status = do
    jcallback ← jcallback_of r.request
    if is_kind Kind.function jcallback
        then (do
          args ← create a 2
          s₁ ← append w args (Jval.number status)
          s₂ ← append s₁.0 s₁.1 (Jval.number (pos r.msg_size))
          w₁ ← make_callback s₂.0 jcallback Jval.undefined s₂.1
          w₂ ← destroy_args w₁ s₂.1
          dispatched w₂ r.request)
        else dispatched w r.request

  -- `OnRecv` of a message of `nread` bytes from `addr`.
  unfoldable pub recv_some :
      World → ℕ → Args → ℕ → Option (List ℕ) → Option Sockaddr → Outcome World
  recv_some w f args nread base addr = do
    b ← or_fault Fault.null_pointer base
    jbuffer ← read_buffer a w b nread
    r₁ ← append jbuffer.0 args (Jval.object jbuffer.1)
    let rinfo = create_object r₁.0 Content.plain
    sender ← or_fault Fault.null_pointer addr
    r₂ ← append (address_to_js rinfo.0 rinfo.1 sender) r₁.1 (Jval.object rinfo.1)
    w₁ ← make_callback r₂.0 (Jval.function f) Jval.undefined r₂.1
    w₂ ← drop_value w₁ (Jval.object rinfo.1)
    w₃ ← drop_value w₂ (Jval.object jbuffer.1)
    w₄ ← drop_value w₃ (Jval.function f)
    buffer_release (some b)
    destroy_args w₄ r₂.1

  module _ {H : Type 0} (uv : Uv H) (js : Script) where
    -- `OnRecv`; when there is nothing to read it only gives the block up.
    unfoldable pub on_recv : World → Wrap H → ℤ → Option (List ℕ) → Option Sockaddr → Outcome World
    on_recv w t nread base addr =
        if is_nothing nread addr then (do release_base base; ok w) else (do
          from_handle uv t
          judp ← jobject t
          f ← or_fault Fault.aborted js.onmessage
          args ← create a 4
          r₁ ← append (copy_value w (Jval.function f)) args (Jval.number nread)
          r₂ ← append r₁.0 r₁.1 (Jval.object judp)
          if ltb_ℤ nread (pos 0)
              then recv_failed r₂.0 f r₂.1 base
              else recv_some r₂.0 f r₂.1 (pos_part nread) base addr)
