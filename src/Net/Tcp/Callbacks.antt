-- ===== src/Net/Tcp/Callbacks.antt =====
-- The functions of src/module/iotjs_module_tcp.c that libuv calls back.
use ble_central.Base.{
  ℕ, true, false, List, Option, none, some, if◌then◌else◌, Outcome, ok, Fault, ◌>>=◌, ◌>>◌, assert,
  or_fault,
}
use ble_central.Base.Int.{ℤ, pos, pos_part, ltb_ℤ, ◌==ℤ◌}
use ble_central.Binding.Value.{Kind, Jval, is_kind}
use ble_central.Binding.Args.{Args, create, empty_args}
use ble_central.Binding.World.{
  Content, World, append, replace_arg, drop_value, copy_value, destroy_args, make_callback, call_ok,
}
use ble_central.Memory.{Allocator, buffer_release}
use ble_central.Handle.{Wrap, validate, jobject}
use ble_central.Handle.Request.{Request, jcallback_of}
use ble_central.Handle.Pending.{dispatched}
use ble_central.Net.{read_buffer, release_base}
use ble_central.Net.Tcp.{Uv, Script, from_handle, tcp_handle}

-- The end of `OnConnection`.
unfoldable pub call_onconnection : World → ℕ → ℕ → Args → Outcome World
call_onconnection w f jtcp args = do
  w₁ ← make_callback w (Jval.function f) (Jval.object jtcp) args
  w₂ ← drop_value w₁ (Jval.function f)
  destroy_args w₂ args

module _ {H : Type 0} (uv : Uv H) where
  -- `OnRead` when nothing was read: at the end of the stream the third argument is set to true.
  unfoldable pub read_nothing : World → ℕ → Args → ℤ → Option (List ℕ) → Outcome (World × Args)
  read_nothing w f args nread base = do
    release_base base
    if ltb_ℤ nread (pos 0)
        then (do
          r ← if nread ==ℤ uv.eof then replace_arg w args 2 (Jval.boolean true) else ok (w, args)
          w' ← make_callback r.0 (Jval.function f) Jval.undefined r.1
          ok (w', r.1))
        else ok (w, args)

module _ (a : Allocator) where
  -- The callback of a request is given the status, and the request is done.
  unfoldable pub notify : World → Request → Jval → ℤ → Outcome World
  notify w r jcallback status = do
    args ← create a 1
    s ← append w args (Jval.number status)
    w₁ ← make_callback s.0 jcallback Jval.undefined s.1
    w₂ ← destroy_args w₁ s.1
    dispatched w₂ r

  unfoldable pub after_connect : World → Request → ℤ → Outcome World
  after_connect w r status = do
    jcallback ← jcallback_of r
    assert (is_kind Kind.function jcallback)
    notify w r jcallback status

  unfoldable pub after_write : World → Request → ℤ → Outcome World
  after_write w r status = do jcallback ← jcallback_of r; notify w r jcallback status

  unfoldable pub after_shutdown : World → Request → ℤ → Outcome World
  after_shutdown w r status = do
    jcallback ← jcallback_of r
    assert (is_kind Kind.function jcallback)
    notify w r jcallback status

  -- `OnRead` of `nread` bytes, which are given in a new buffer.
  unfoldable pub read_some : World → ℕ → Args → ℤ → Option (List ℕ) → Outcome (World × Args)
  read_some w f args nread base = do
    b ← or_fault Fault.null_pointer base
    jbuffer ← read_buffer a w b (pos_part nread)
    r ← append jbuffer.0 args (Jval.object jbuffer.1)
    w₁ ← make_callback r.0 (Jval.function f) Jval.undefined r.1
    w₂ ← drop_value w₁ (Jval.object jbuffer.1)
    buffer_release (some b)
    ok (w₂, r.1)

  module _ {H : Type 0} (uv : Uv H) (js : Script H) where
    -- `AfterClose`
    unfoldable pub after_close : World → Wrap H → Outcome World
    after_close w t = do
      validate t
      jtcp ← jobject t
      elim js.onclose [
        | none ↦ ok w
        | some f ↦ (do
          w₁ ←
              make_callback (copy_value w (Jval.function f)) (Jval.function f) Jval.undefined
                empty_args
          drop_value w₁ (Jval.function f))
      ]

    -- `OnConnection` of the server socket `t`. When `uv_accept` fails it returns at once.
    unfoldable pub on_connection : World → Wrap H → ℤ → Outcome World
    on_connection w t status = do
      from_handle uv t
      jtcp ← jobject t
      f ← or_fault Fault.aborted js.onconnection
      args ← create a 2
      r ← append (copy_value w (Jval.function f)) args (Jval.number status)
      if status ==ℤ pos 0
          then (do
            c ← or_fault Fault.aborted js.create_tcp
            client ←
                call_ok (copy_value r.0 (Jval.function c)) (Jval.function c) Jval.undefined
                  empty_args Content.plain
            p ← tcp_handle uv (js.client client.1)
            let accepted = uv.accept t.uv (js.client client.1).uv
            if accepted.2 ==ℤ pos 0
                then (do
                  s ← append client.0 r.1 (Jval.object client.1)
                  w₁ ← drop_value s.0 (Jval.function c)
                  w₂ ← drop_value w₁ (Jval.object client.1)
                  call_onconnection w₂ f jtcp s.1)
                else ok client.0)
          else call_onconnection r.0 f jtcp r.1

    unfoldable pub on_read : World → Wrap H → ℤ → Option (List ℕ) → Outcome World
    on_read w t nread base = do
      from_handle uv t
      jtcp ← jobject t
      owner ← or_fault Fault.aborted js.owner
      f ← or_fault Fault.aborted js.onread
      args ← create a 4
      let w₁ = copy_value (copy_value w (Jval.object owner)) (Jval.function f)
      r₁ ← append w₁ args (Jval.object owner)
      r₂ ← append r₁.0 r₁.1 (Jval.number nread)
      r₃ ← append r₂.0 r₂.1 (Jval.boolean false)
      r ←
          if ltb_ℤ (pos 0) nread
          then read_some r₃.0 f r₃.1 nread base
          else read_nothing uv r₃.0 f r₃.1 nread base
      w₂ ← destroy_args r.0 r.1
      w₃ ← drop_value w₂ (Jval.function f)
      drop_value w₃ (Jval.object owner)
