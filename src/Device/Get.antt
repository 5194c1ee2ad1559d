-- ===== src/Device/Get.antt =====
-- main.cpp, section 2: the property Get callbacks, one module for each datatype.
pub mod Real
pub mod Enumerated
pub mod Unsigned
pub mod Flag
pub mod Octets
pub mod Text
