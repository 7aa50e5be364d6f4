-- ===== src/Fs/Tests.antt =====
-- Concrete file system calls of src/module/iotjs_module_fs.c.
use ble_central.Base.{refl, some, [], ◌∷◌, ◌==◌, if◌then◌else◌, arith}
use ble_central.Base.Int.{pos}
use ble_central.Binding.Args.{handler}
use ble_central.Binding.World.{Content, World}
use ble_central.Strings.Tests.{heap, heap-IsAmple}
use ble_central.Binding.World.Fresh.{IsOpen}
use ble_central.Fs.{FsType, Finished, Script, name_of, after_async, after_sync}
use ble_central.Fs.Report.{report}
use ble_central.Fs.Told.{calls_before}
use ble_central.Fs.After.{Async, Sync, after_lem}
use ble_central.Handle.Pending.{request_of}
use ble_central.Fs.Natives.{Uv}

-- Objects 3, a callback, and 5, the function `_createStat`, are held once each.
abbrev pub world : World
world = record {
  counts = λ q. if q == 3 then 1 else if q == 5 then 1 else 0;
  next = 8;
  content = λ q. Content.plain;
  invoked = [];
}

abbrev script : Script
script = record { create_stat = some 5; stat_of = λ s. Content.numbers s }

abbrev finished : Finished
finished = record { result = pos 0; statbuf = pos 1 ∷ []; entries = (97 ∷ []) ∷ [] }

abbrev uv : Uv
uv = record { perform = λ s. (pos 0, finished); queue = λ s. (pos 0, finished) }

handler-IsOpen : IsOpen (handler [])
unfolding handler
handler-IsOpen = (refl, refl, refl)

after_lem_example :
    Async world 3
      (after_async heap script world (request_of 20 21 3) 21 FsType.stat finished)
      (calls_before FsType.stat finished 5 8)
      (report script (name_of FsType.open_file) FsType.stat finished)
    × Sync world
        (after_sync heap script world (handler []) FsType.stat (pos 0) finished)
        (calls_before FsType.stat finished 5 8)
        (report script (name_of FsType.stat) FsType.stat finished)
after_lem_example =
    after_lem heap heap-IsAmple script 5 refl world 20 21 3 (handler []) FsType.stat finished
      (λ q h. ground arith) (omega arith) (omega arith) handler-IsOpen
