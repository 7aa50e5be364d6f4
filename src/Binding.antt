-- ===== src/Binding.antt =====
-- src/iotjs_binding.h and src/iotjs_binding.c: what C sees of JavaScript values, the checks of a
-- native function's arguments (`Value`), argument lists and the frame of a native function with
-- their reference counts (`Args`).
pub mod Value
pub mod Args
pub mod Balance
pub mod Frame
pub mod Callback
pub mod World
pub mod Tests
