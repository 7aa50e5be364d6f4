-- ===== src/Buffer.antt =====
-- src/module/iotjs_module_buffer.c: byte buffers behind JavaScript `Buffer` objects.
pub mod Range
pub mod Bytes
pub mod Heap
pub mod Handlers
pub mod Tests
