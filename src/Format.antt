-- ===== src/Format.antt =====
-- The formatted output of the kernel. lib/sprintf.c prints on the serial port; lib/console.c holds the
-- same code, with console_putchar for serial_putchar.
pub mod Parse
pub mod Print
pub mod Vprintf
pub mod Text
pub mod Digits
pub mod Int
pub mod Width
pub mod Refine
pub mod Device
pub mod Plain
pub mod Fuel
mod Witness
