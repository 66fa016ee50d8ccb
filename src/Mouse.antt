-- ===== src/Mouse.antt =====
-- kernel/src/mouse.c: the mouse state, its packets, and the clamp to the screen. The PS/2
-- controller is a list of what its two ports answer, in the order of the reads.
pub mod Bounds
pub mod Packet
mod Tests
use os_from_zero.Base.{
  ℕ, zero, suc, ◌+◌, ◌-◌, ◌/◌, ◌%◌, ◌^◌, Bool, true, false, ◌&&◌, ◌||◌, not, Option, none, some,
  List, [], ◌∷◌, ◌==◌, ltb, if◌then◌else◌, test_bit,
}
use os_from_zero.Base.Int.{ℤ, pos, negsuc, ◌+ℤ◌, ◌-ℤ◌, ltb_ℤ}

-- mouse_state_t
pub record MouseState : Type 0 where
  pub x : ℤ
  pub y : ℤ
  pub left_button : Bool
  pub right_button : Bool
  pub middle_button : Bool
  pub x_overflow : Bool
  pub y_overflow : Bool
  pub x_negative : Bool
  pub y_negative : Bool

-- mouse_packet_t
pub record MousePacket : Type 0 where
  pub flags : ℕ
  pub x_movement : ℕ
  pub y_movement : ℕ

-- The static variables. `packet_buffer` holds the bytes of the packet so far; packet_byte is
-- their number.
pub record Mouse : Type 0 where
  pub state : MouseState
  pub max_x : ℤ
  pub max_y : ℤ
  pub packet_buffer : List ℕ
  pub packet_ready : Bool

-- Only where it stands on the screen is clamped: below 0 first, then from the bound on.
unfoldable pub clamp : ℤ → ℤ → ℤ
clamp v bound =
    let low = (if ltb_ℤ v (pos 0) then pos 0 else v) in
    if ltb_ℤ low bound then low else bound -ℤ pos 1

-- A movement byte with its sign bit.
unfoldable pub delta : ℕ → Bool → ℤ
delta movement negative = if negative then pos movement -ℤ pos 256 else pos movement

-- The sum of an `int` and a movement, in 32 bits: it wraps round to the other end, and the clamp
-- then brings it back to the screen.
unfoldable pub wrap_int : ℤ → ℤ
wrap_int (pos n) = if ltb n (2 ^ 31) then pos n else pos n -ℤ pos (2 ^ 32)
wrap_int (negsuc n) = if ltb n (2 ^ 31) then negsuc n else negsuc n +ℤ pos (2 ^ 32)

unfoldable pub mouse_process_packet : Mouse → MousePacket → Mouse
unfolding clamp delta wrap_int
mouse_process_packet m packet =
    let x_overflow = test_bit packet.flags 6 in
    let y_overflow = test_bit packet.flags 7 in
    let x_negative = test_bit packet.flags 4 in
    let y_negative = test_bit packet.flags 5 in
    let moves = not x_overflow && not y_overflow in
    record m {
      state = record {
        x =
            if moves
            then clamp (wrap_int (m.state.x +ℤ delta packet.x_movement x_negative)) m.max_x
            else m.state.x;
        y =
            if moves
            then clamp (wrap_int (m.state.y -ℤ delta packet.y_movement y_negative)) m.max_y
            else m.state.y;
        left_button = test_bit packet.flags 0;
        right_button = test_bit packet.flags 1;
        middle_button = test_bit packet.flags 2;
        x_overflow = x_overflow;
        y_overflow = y_overflow;
        x_negative = x_negative;
        y_negative = y_negative;
      };
    }

-- The part of mouse_handle_interrupt after the read: one byte of the mouse. The first byte of a
-- packet must have its bit 3 set.
unfoldable pub accept_byte : Mouse → List ℕ → ℕ → Mouse
unfolding mouse_process_packet
accept_byte m [] byte = if test_bit byte 3 then record m { packet_buffer = byte ∷ [] } else m
accept_byte m (first ∷ []) byte = record m { packet_buffer = first ∷ byte ∷ [] }
accept_byte m (first ∷ second ∷ rest) byte =
    let moved =
      mouse_process_packet m (record { flags = first; x_movement = second; y_movement = byte }) in
    record moved { packet_buffer = []; packet_ready = true }

unfoldable pub receive : Mouse → ℕ → Mouse
unfolding accept_byte
receive m byte = accept_byte m m.packet_buffer byte

-- mouse_has_data, by the status byte.
abbrev pub mouse_has_data : ℕ → Bool
mouse_has_data status = test_bit status 0 && test_bit status 5

-- wait_for_output with its timeout: it polls the status port until the output is full or the
-- counter is 0; the result is whether the counter is above 0, and the answers left. `statuses` is
-- what the port answers; a port that answers no more counts as empty.
unfoldable pub wait_for_output : ℕ → List ℕ → Bool × List ℕ
wait_for_output timeout [] = (false, [])
wait_for_output zero (status ∷ rest) = (false, rest)
wait_for_output (suc timeout) (status ∷ rest) =
    let again = wait_for_output timeout rest in if test_bit status 0 then (true, rest) else again

abbrev pub poll_timeout : ℕ
poll_timeout = 100000

-- mouse_handle_interrupt: what the status port answers in turn, and the byte of the data port.
unfoldable pub mouse_handle_interrupt : Mouse → List ℕ → ℕ → Mouse
unfolding receive wait_for_output
mouse_handle_interrupt m [] byte = m
mouse_handle_interrupt m (status ∷ statuses) byte =
    if mouse_has_data status
    then if (wait_for_output poll_timeout statuses).0 then receive m byte else m
    else m

-- `v / 2` of an int, which rounds towards 0.
abbrev pub half_int : ℤ → ℤ
half_int (pos n) = pos (n / 2)
half_int (negsuc n) = if n == 0 then pos 0 else negsuc ((n + 1) / 2 - 1)

-- The start of mouse_init, which sets the state before it talks to the controller; what it then
-- sends changes no state of the driver.
unfoldable pub mouse_reset : Mouse → Mouse
mouse_reset m = record m {
  state = record {
    x = half_int m.max_x;
    y = half_int m.max_y;
    left_button = false;
    right_button = false;
    middle_button = false;
    x_overflow = false;
    y_overflow = false;
    x_negative = false;
    y_negative = false;
  };
  packet_buffer = [];
  packet_ready = false;
}

-- mouse_set_bounds: the position is not clamped at 0.
unfoldable pub mouse_set_bounds : Mouse → ℤ → ℤ → Mouse
mouse_set_bounds m bound_x bound_y = record m {
  max_x = bound_x;
  max_y = bound_y;
  state = record m.state {
    x = if ltb_ℤ m.state.x bound_x then m.state.x else bound_x -ℤ pos 1;
    y = if ltb_ℤ m.state.y bound_y then m.state.y else bound_y -ℤ pos 1;
  };
}
