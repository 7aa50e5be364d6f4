-- ===== src/Gpio/Operations.antt =====
-- The five operations of src/module/iotjs_module_gpio.c on Linux.
use ble_central.Binding.World.{World}
