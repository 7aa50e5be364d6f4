-- ===== src/HttpParser/Tests.antt =====
-- A concrete response through the wrapper of src/module/iotjs_module_httpparser.c.
use ble_central.Base.{◌+◌, ◌∷◌, [], ◌≡◌, refl, none, true, false, Bool, List, ok, ◌>>=◌, arith, inr}
use ble_central.Base.Int.{pos}
use ble_central.Binding.Value.{Jval}
use ble_central.Strings.{nothing}
use ble_central.Strings.Tests.{heap, heap-IsAmple}
use ble_central.Base.{ℕ, some, if◌then◌else◌, ◌&&◌, not}
use ble_central.Base.Int.{ℤ, ◌==ℤ◌}
use ble_central.HttpParser.Natives.{
  Library, Run, run, calls, finished, message_begin, status, header_field, header_value,
  headers_complete, body, message_complete, execute_block, parsed, parse_error,
}
use ble_central.HttpParser.Running.{Follows}
use ble_central.HttpParser.Execute.{execute_block_lem}
use ble_central.HttpParser.State.{Native, response, Parser, Script}
use ble_central.HttpParser.Callbacks.{
  set_buf, initialize, on_message_begin, on_header_field, on_header_value, on_headers_complete,
}
use ble_central.HttpParser.Valid.{IsParser}
use ble_central.HttpParser.Headers.{assembled, add_name, add_value, delivered}
use ble_central.HttpParser.Assembly.{HasUrl, Collected}
use ble_central.HttpParser.Collect.{on_header_field-Collected}
use ble_central.HttpParser.Values.{on_header_value-Collected}
use ble_central.HttpParser.Message.{Fragment, name, value, spell, feed}
use ble_central.HttpParser.Complete.{Completed, on_headers_complete-Completed, whole_message}
use ble_central.HttpParser.Create.{fresh, create_wrap-fresh, initialize_lem}

abbrev reply : Native
reply = record {
  type = response;
  method = pos 0;
  status_code = pos 200;
  upgrade = false;
  keep_alive = true;
  hidden = [];
}

abbrev script : Script
script = record {
  has_headers = true;
  has_headers_complete = true;
  has_body = true;
  has_message_complete = true;
  answer = λ cs. Jval.boolean true;
}

-- "AB: 1", cut after "A".
abbrev fragments : List Fragment
fragments = name (65 ∷ []) ∷ name (66 ∷ []) ∷ value (49 ∷ []) ∷ []

-- A wrapper that has the open name "A".
abbrev named : Parser
named = record (fresh reply) { n_fields = 1 }

fresh-IsParser : IsParser 0 (fresh reply)
fresh-IsParser = (create_wrap-fresh heap reply).1

named-IsParser : IsParser 0 named
named-IsParser = record {
  url = fresh-IsParser.url;
  status_msg = fresh-IsParser.status_msg;
  fields_length = refl;
  values_length = refl;
  fields = fresh-IsParser.fields;
  values = fresh-IsParser.values;
  below = omega arith;
  counts = inr refl;
}

has-url : HasUrl (fresh reply)
has-url f r = cc

whole_message_example :
    (p' : Parser) × (b : Bool) × ((feed script heap fragments (fresh reply)
        >>= on_headers_complete script)
      ≡ ok (p', b))
    × (delivered p'.calls ≡ (spell (assembled (fresh reply)) fragments).list)
    × (p'.n_fields ≡ 0)
whole_message_example =
    whole_message script heap fragments 0 (fresh reply) heap-IsAmple refl refl (λ cs. (true, refl))
      fresh-IsParser has-url tt (omega arith) (omega arith)

on_header_field-Collected_example :
    Collected
      (0 + 2)
      (fresh reply)
      (add_name (assembled (fresh reply)) (65 ∷ 66 ∷ []))
      (on_header_field script heap (fresh reply) (65 ∷ 66 ∷ 58 ∷ []) 2)
on_header_field-Collected_example =
    on_header_field-Collected heap (65 ∷ 66 ∷ 58 ∷ []) 2 heap-IsAmple (omega arith) (omega arith) 0
      script (fresh reply) fresh-IsParser refl (omega arith)

on_header_value-Collected_example :
    Collected
      (0 + 2)
      named
      (add_value (assembled named) (65 ∷ 66 ∷ []))
      (on_header_value heap named (65 ∷ 66 ∷ 58 ∷ []) 2)
on_header_value-Collected_example =
    on_header_value-Collected heap (65 ∷ 66 ∷ 58 ∷ []) 2 heap-IsAmple (omega arith) (omega arith) 0
      named named-IsParser (omega arith) (omega arith)

on_headers_complete-Completed_example :
    Completed 0 (fresh reply) script (on_headers_complete script (fresh reply))
on_headers_complete-Completed_example =
    on_headers_complete-Completed script refl (λ cs. (true, refl)) 0 (fresh reply) fresh-IsParser
      refl has-url

initialize_lem_example :
    (p' : Parser) × (initialize named reply ≡ ok p')
    × IsParser 0 p'
    × (assembled p' ≡ record { list = delivered named.calls; pending = none })
    × (p'.url ≡ nothing)
    × (p'.status_msg ≡ nothing)
    × (p'.flushed ≡ false)
    × (q : Parser) × (on_message_begin named ≡ ok q)
    × (assembled q ≡ assembled named)
    × (q.flushed ≡ named.flushed)
    × (q.url ≡ nothing)
    × (q.status_msg ≡ nothing)
initialize_lem_example = initialize_lem 0 named reply named-IsParser

-- "OKAB1!": a status, a header and a body.
abbrev packet : List ℕ
packet = 79 ∷ 75 ∷ 65 ∷ 66 ∷ 49 ∷ 33 ∷ []

abbrev packet_run : Run
packet_run = calls reply message_begin (λ a. calls reply (status 0 2) (λ b.
    calls reply (header_field 2 2) (λ c. calls reply (header_value 4 1) (λ d.
      calls reply headers_complete (λ e.
        calls reply (body 5 1)
          (λ f. calls reply message_complete (λ g. finished reply (pos 6))))))))

abbrev library : Library
library = record {
  http_request = pos 0;
  http_response = pos 1;
  init = λ t. reply;
  execute = λ n bs. packet_run;
  errno_name = λ n. [];
  pause = λ b n. n;
}

packet-Follows : Follows packet 0 false packet_run
unfolding Follows
packet-Follows = (
  refl,
  tt,
  λ a. (
    refl,
    (omega arith, omega arith),
    λ b. (
      refl,
      (omega arith, omega arith),
      λ c. (
        refl,
        ((omega arith, omega arith), refl),
        λ d. (refl, tt, λ e. (refl, tt, λ f. (refl, tt, λ g. tt))),
      ),
    ),
  ),
)

execute_block_lem_example :
    (q : Parser) × (v : ℤ) × (m' : ℕ) × (run script heap
        (some packet)
        packet_run
        (set_buf (fresh reply) (some (7, packet)))
      ≡ ok (q, v))
    × (execute_block library script heap (fresh reply) 7 (some packet) (pos 6)
        ≡ ok (
          set_buf q none,
          if not q.native.upgrade && not (v ==ℤ pos 6) then parse_error [] else parsed v,
        ))
    × IsParser m' (set_buf q none)
execute_block_lem_example =
    execute_block_lem script heap packet heap-IsAmple
      (omega arith, (omega arith, (omega arith, (omega arith, (omega arith, (omega arith, tt))))))
      refl refl refl refl (λ cs. (true, refl)) library 0 false (fresh reply) 7 (pos 6)
      fresh-IsParser (λ e. absurd (false_true e)) refl packet-Follows
  where
    false_true : false ≡ true → ⊥
    false_true e = cc
