-- ===== src/Fs/Report.antt =====
-- What a file system call of src/module/iotjs_module_fs.c tells JavaScript, however it is told.
use ble_central.Base.{ℕ, List, [], ◌∷◌, if◌then◌else◌}
use ble_central.Base.Int.{ℤ, pos, ltb_ℤ}
use ble_central.Binding.Value.{Jval}
use ble_central.Binding.Args.{Handler}
use ble_central.Binding.World.{Content}
use ble_central.Fs.{FsType, Finished, Script}

-- The call of a name failed with a number, or it succeeded, with nothing, a number or an object.
pub data Report : Type 0 where
  failed : ℤ → List ℕ → Report
  nothing : Report
  number : ℤ → Report
  holding : Content → Report
  unreadable : Report

-- What is to be told of a call that has finished, under the name that an error of it gets.
abbrev pub success : Script → FsType → Finished → Report
success js FsType.close f = nothing
success js FsType.open_file f = number f.result
success js FsType.read f = number f.result
success js FsType.write f = number f.result
success js FsType.stat f = holding (js.stat_of f.statbuf)
success js FsType.mkdir f = nothing
success js FsType.rmdir f = nothing
success js FsType.unlink f = nothing
success js FsType.rename f = nothing
success js FsType.scandir f = holding (Content.strings f.entries)

abbrev pub report : Script → List ℕ → FsType → Finished → Report
report js name t f = if ltb_ℤ f.result (pos 0) then failed f.result name else success js t f

abbrev pub error_of : Content → Report
error_of (Content.uv_error e name) = failed e name
error_of _ = unreadable

-- How a callback `function(error, result)` reads its arguments.
abbrev pub read_arguments : (ℕ → Content) → List Jval → Report
read_arguments content (Jval.object o ∷ []) = error_of (content o)
read_arguments content (Jval.null ∷ []) = nothing
read_arguments content (Jval.null ∷ Jval.null ∷ []) = nothing
read_arguments content (Jval.null ∷ Jval.number n ∷ []) = number n
read_arguments content (Jval.null ∷ Jval.object o ∷ []) = holding (content o)
read_arguments content _ = unreadable

abbrev pub read_return : (ℕ → Content) → Jval → Report
read_return content Jval.undefined = nothing
read_return content (Jval.number n) = number n
read_return content (Jval.object o) = holding (content o)
read_return content _ = unreadable

abbrev pub read_thrown : (ℕ → Content) → Jval → Report
read_thrown content (Jval.object o) = error_of (content o)
read_thrown content _ = unreadable

-- How the caller of a native reads what it returns or throws.
abbrev pub read_frame : (ℕ → Content) → Handler → Report
read_frame content h = if h.is_error then read_thrown content h.jret else read_return content h.jret
