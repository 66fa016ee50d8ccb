-- ===== src/Keyboard/Tests.antt =====
-- A poll of the mouse, a key that has no character, and the key of "1".
use os_from_zero.Base.{◌≡◌, refl, false, some, List, [], ◌∷◌, arith}
use os_from_zero.Base.Int.{pos}
use os_from_zero.Mouse.{Mouse, MouseState, mouse_handle_interrupt}
use os_from_zero.Mouse.Bounds.{OnScreen}
use os_from_zero.Keyboard.{Poll, read_key}
use os_from_zero.Keyboard.Keys.{IsKey, FirstKey, read_key-IsKey}

abbrev still : MouseState
still = record {
  x = pos 0;
  y = pos 0;
  left_button = false;
  right_button = false;
  middle_button = false;
  x_overflow = false;
  y_overflow = false;
  x_negative = false;
  y_negative = false;
}

abbrev mouse : Mouse
mouse = record {
  state = still;
  max_x = pos 800;
  max_y = pos 600;
  packet_buffer = [];
  packet_ready = false;
}

abbrev polls : List Poll
polls =
    record { status = 1; mouse_statuses = []; byte = 42 }
    ∷ record { status = 33; mouse_statuses = []; byte = 9 }
    ∷ record { status = 1; mouse_statuses = []; byte = 2 }
    ∷ []

read_1 : read_key mouse polls ≡ some (b'1', mouse, [])
unfolding read_key mouse_handle_interrupt
read_1 = refl

read_key-IsKey_example : IsKey b'1' × OnScreen mouse × FirstKey mouse polls b'1' mouse []
read_key-IsKey_example =
    read_key-IsKey mouse polls b'1' mouse []
      (record { column = (refl, omega arith); row = (refl, omega arith) }) read_1
