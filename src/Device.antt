-- ===== src/Device.antt =====
-- src/device.h and src/device.c: input devices, and the events that they give.
pub mod Id
pub mod Init
pub mod Read
use keyd_fork.Common.{ℕ, Bool, Option, List}

abbrev pub cap_mouse : ℕ
cap_mouse = 1

abbrev pub cap_mouse_abs : ℕ
cap_mouse_abs = 2

abbrev pub cap_keyboard : ℕ
cap_keyboard = 4

-- `fd` is none for -1. `data'` is the address of the keyboard that the events go to.
pub record Device : Type 0 where
  pub fd : Option ℕ
  pub grabbed : Bool
  pub capabilities : ℕ
  pub is_virtual : Bool
  pub id : List ℕ
  pub name : List ℕ
  pub path : List ℕ
  pub maxx : ℕ
  pub maxy : ℕ
  pub minx : ℕ
  pub miny : ℕ
  pub data' : Option ℕ

pub data EventType : Type 0 where
  key led mouse_move mouse_move_abs mouse_scroll removed : EventType

-- `x` and `y` are words of 32 bits.
pub record DeviceEvent : Type 0 where
  pub type : EventType
  pub code : ℕ
  pub pressed : ℕ
  pub x : ℕ
  pub y : ℕ
