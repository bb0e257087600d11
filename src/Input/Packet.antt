-- ===== src/Input/Packet.antt =====
-- The input messages that src/input.cpp reads. Their layouts and the numbers behind their kinds come from
-- moonlight-common-c: a message is a constructor for its magic, with the fields that the program
-- reads, after the byte swaps. A `netfloat` is its 32 bits.
use midnight_sun.Prelude.{ℕ, Bool, List}
use midnight_sun.Prelude.Int.{ℤ}

-- The constants of moonlight-common-c that the code compares with.
pub record Limelight : Type 0 where
  pub touch_event_hover : ℕ
  pub touch_event_move : ℕ
  pub button_left : ℕ
  pub button_right : ℕ

-- A set of the modifiers control, alt and shift: the bits MODIFIER_CTRL, MODIFIER_ALT and MODIFIER_SHIFT of a
-- packet, or the bits CTRL, ALT and SHIFT of `shortcutFlags`.
pub record Modifiers : Type 0 where
  pub ctrl : Bool
  pub alt : Bool
  pub shift : Bool

pub record RelMouseMove : Type 0 where
  pub delta_x : ℤ
  pub delta_y : ℤ

pub record AbsMouseMove : Type 0 where
  pub x : ℤ
  pub y : ℤ
  pub width : ℤ
  pub height : ℤ

-- The two magics of a button packet are `release`.
pub record MouseButton : Type 0 where
  pub release : Bool
  pub button : ℕ

pub record Scroll : Type 0 where
  pub scroll_amt1 : ℤ
  pub scroll_amt2 : ℤ

pub record HScroll : Type 0 where
  pub scroll_amount : ℤ

-- The two magics of a keyboard packet are `release`.
pub record Keyboard : Type 0 where
  pub release : Bool
  pub key_code : ℕ
  pub modifiers : Modifiers
  pub flags : ℕ

pub record MultiController : Type 0 where
  pub controller_number : ℤ
  pub active_gamepad_mask : ℕ
  pub button_flags : ℕ
  pub button_flags2 : ℕ
  pub left_trigger : ℕ
  pub right_trigger : ℕ
  pub left_stick_x : ℤ
  pub left_stick_y : ℤ
  pub right_stick_x : ℤ
  pub right_stick_y : ℤ

pub record Touch : Type 0 where
  pub event_type : ℕ
  pub rotation : ℕ
  pub pointer_id : ℕ
  pub x : ℕ
  pub y : ℕ
  pub pressure_or_distance : ℕ
  pub contact_area_major : ℕ
  pub contact_area_minor : ℕ

pub record Pen : Type 0 where
  pub event_type : ℕ
  pub tool_type : ℕ
  pub pen_buttons : ℕ
  pub x : ℕ
  pub y : ℕ
  pub pressure_or_distance : ℕ
  pub rotation : ℕ
  pub tilt : ℕ
  pub contact_area_major : ℕ
  pub contact_area_minor : ℕ

pub record ControllerArrival : Type 0 where
  pub controller_number : ℕ
  pub kind : ℕ
  pub capabilities : ℕ
  pub supported_button_flags : ℕ

pub record ControllerTouch : Type 0 where
  pub controller_number : ℕ
  pub event_type : ℕ
  pub pointer_id : ℕ
  pub x : ℕ
  pub y : ℕ
  pub pressure : ℕ

pub record ControllerMotion : Type 0 where
  pub controller_number : ℕ
  pub motion_type : ℕ
  pub x : ℕ
  pub y : ℕ
  pub z : ℕ

pub record ControllerBattery : Type 0 where
  pub controller_number : ℕ
  pub battery_state : ℕ
  pub battery_percentage : ℕ

pub data Packet : Type 0 where
  rel_mouse_move : RelMouseMove → Packet
  abs_mouse_move : AbsMouseMove → Packet
  mouse_button : MouseButton → Packet
  scroll : Scroll → Packet
  hscroll : HScroll → Packet
  keyboard : Keyboard → Packet
  utf8_text : List ℕ → Packet
  multi_controller : MultiController → Packet
  touch : Touch → Packet
  pen : Pen → Packet
  controller_arrival : ControllerArrival → Packet
  controller_touch : ControllerTouch → Packet
  controller_motion : ControllerMotion → Packet
  controller_battery : ControllerBattery → Packet
  unknown : ℕ → Packet  -- any other magic
