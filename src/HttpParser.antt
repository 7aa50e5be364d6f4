-- ===== src/HttpParser.antt =====
-- src/module/iotjs_module_httpparser.c and .h, the wrapper around the http_parser library. A
-- function that updates `*httpparserwrap` returns the new one.
pub mod State
pub mod Callbacks
pub mod Natives
pub mod Valid
pub mod Headers
pub mod Assembly
pub mod Collect
pub mod Values
pub mod Message
pub mod Complete
pub mod Create
pub mod Running
pub mod Events
pub mod Execute
pub mod Tests
