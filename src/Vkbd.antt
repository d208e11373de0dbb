-- ===== src/Vkbd.antt =====
-- src/vkbd: the virtual keyboards that the daemon may be built with.
pub mod HidTable
pub mod Gadget
pub mod Uinput
