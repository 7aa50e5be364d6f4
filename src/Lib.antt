-- ===== src/Lib.antt =====
-- Verification of the C core of IoT.js, a platform that runs JavaScript applications on JerryScript
-- and libuv.
--
-- The program. `iotjs_entry` (src/iotjs.c) reads the command line into the environment
-- (src/iotjs_env.c), starts the JavaScript engine, registers the builtin modules when they are first
-- needed (src/iotjs_module.c), runs the entry function and then the event loop until nothing is left
-- to do. A native module is a set of C functions that JavaScript calls with a frame of checked
-- arguments (src/iotjs_binding.c and .h) and that call back into JavaScript
-- (src/iotjs_binding_helper.c). What a native object keeps in C is a wrapper that is tied to it
-- (src/iotjs_objectwrap.c), to a libuv handle (src/iotjs_handlewrap.c) or to a libuv request
-- (src/iotjs_reqwrap.c). Bytes are held in strings (src/iotjs_string.c) and buffers
-- (src/module/iotjs_module_buffer.c).
--
-- The files.
--   Base        shared names, Boolean tests, lists over native numbers, integers, and `Outcome`: a C
--               function returns a value or ends in a `Fault` (a failed assertion, an access out of
--               bounds or through NULL, a read of an unset variable, a loop without end).
--   Memory      src/iotjs_util.c (calloc, realloc and free with their assertions) and what is used
--               of <string.h>, on lists of bytes; Memory/Laws and Memory/Patch are lemmas.
--   Strings     src/iotjs_string.c: `Str` is `iotjs_string_t`, one function per operation under its
--               name without `iotjs_string_`. Strings/Valid is the invariant; Strings/Files is
--               `iotjs_file_read` and `iotjs_jval_as_string`.
--   Binding     Binding/Value: the values and the `JHANDLER_CHECK` macros; Binding/Args: `iotjs_jargs_t`
--               and `iotjs_jhandler_t` with reference counts; Binding/Callback:
--               src/iotjs_binding_helper.c; Binding/World: the objects
--               that natives make and the calls of JavaScript functions from C.
--   Buffer      src/module/iotjs_module_buffer.c: Buffer/Bytes its byte loops, Buffer/Range its index
--               arithmetic, Buffer/Heap the wrappers behind JavaScript objects, Buffer/Handlers the
--               natives.
--   HttpParser  src/module/iotjs_module_httpparser.c: HttpParser/State, /Callbacks and /Natives are
--               the code; HttpParser/Headers says independently which headers the fragments of a
--               message spell, HttpParser/Running what http_parser may do in a run.
--   Fs          src/module/iotjs_module_fs.c: Fs/Natives are the natives; Fs/Report says independently
--               what a finished call tells JavaScript.
--   Net         Net/Tcp and Net/Tcp/Callbacks are src/module/iotjs_module_tcp.c, Net/Udp and
--               Net/Udp/Callbacks src/module/iotjs_module_udp.c, Net/Dns src/module/iotjs_module_dns.c;
--               Net/Life is the life of their requests.
--   Device      src/platform/iotjs_systemio-linux.c, over an operating system that is a parameter.
--   Gpio        src/module/iotjs_module_gpio.c; Gpio/Linux is its workers in
--               src/platform/iotjs_module_gpio-linux-general.inl.h, Gpio/Operation a whole operation,
--               and Gpio/Works says independently which files a worker is to write.
--   Pwm         src/module/iotjs_module_pwm.c; Pwm/Linux is its workers in
--               src/platform/iotjs_module_pwm-linux-general.inl.h, and Pwm/Works says independently
--               which files a worker is to write.
--   Process     src/module/iotjs_module_process.c.
--   Env, Modules, Start   src/iotjs_env.c, src/iotjs_module.c and src/iotjs.c.
--   Handle      src/iotjs_objectwrap.c and src/iotjs_handlewrap.c; Handle/Timer is
--               src/module/iotjs_module_timer.c, Handle/Life the transition system of a timer, its
--               object, the event loop and the collector; Handle/Request is src/iotjs_reqwrap.c,
--               Handle/Pending and Handle/Notify the requests of the other modules on it.
--
-- Conventions. A function that updates a struct through a pointer returns the new struct. `unsigned`
-- and `size_t` arithmetic is written out modulo 2^32 and 2^64, `int` conversions by `to_int`. A build
-- with assertions is modelled. What lies outside is a parameter: the C library's allocator
-- (`Allocator`), the http_parser library (`Library`), libuv (`Uv`, `Turn`), the engine and the
-- application (`Host`, `Process`, `Script`, `Engine`), the operating system (`Os`). Numbers of
-- JavaScript are integers; where a buffer, GPIO or PWM native stores one in an `int`, one out of range is a
-- fault, as C leaves that conversion undefined (src/js/buffer.js makes its arguments `int`s). A call back
-- of Binding/World is the call of the function; the hooks that `iotjs_make_callback` runs behind it
-- are in Binding/Callback.
--
-- Fuel. The doubling loop of `iotjs_string_append` has fuel 33: after 32 doublings the capacity has
-- wrapped to 0, and more fuel changes nothing. The event loop takes its fuel as an argument; one more
-- than the turns before the first one after which it does not go on is enough. Printing a decimal has
-- fuel 11, above the digits of an `int`. Every other loop is structural.
--
-- Not modelled: the I2C module; the functions that only fill a module's object (`InitTcp` and its
-- like); the functions of src/iotjs_binding.c that only pass a call on to the engine; logging,
-- formatting and generated tables (src/iotjs_debuglog.c, src/iotjs_exception.c,
-- src/iotjs_string_ext.c); the board drivers of NuttX under src/platform; the JavaScript under src/js.
pub mod Base
pub mod Memory
pub mod Strings
pub mod Binding
pub mod Buffer
pub mod HttpParser
pub mod Env
pub mod Modules
pub mod Start
pub mod Handle
pub mod Fs
pub mod Net
pub mod Device
pub mod Gpio
pub mod Pwm
pub mod Process
