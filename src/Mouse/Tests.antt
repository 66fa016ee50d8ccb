-- ===== src/Mouse/Tests.antt =====
-- A mouse on a screen of 800 by 600.
use os_from_zero.Base.{◌≡◌, ◌++◌, refl, true, false, [], ◌∷◌}
use os_from_zero.Base.Int.{pos}
use os_from_zero.Mouse.{Mouse, MouseState, mouse_process_packet, mouse_reset}
use os_from_zero.Mouse.Bounds.{OnScreen, interrupt, resize, handle_all, mouse_stays-OnScreen}
use os_from_zero.Mouse.Packet.{receive_all, receive_all_lem}

abbrev still : MouseState
still = record {
  x = pos 0;
  y = pos 0;
  left_button = false;
  right_button = false;
  middle_button = false;
  x_overflow = false;
  y_overflow = false;
  x_negative = false;
  y_negative = false;
}

abbrev mouse : Mouse
mouse = record {
  state = still;
  max_x = pos 800;
  max_y = pos 600;
  packet_buffer = [];
  packet_ready = false;
}

-- A byte of a packet, and a smaller screen.
mouse_stays-OnScreen_example :
    OnScreen (handle_all (mouse_reset mouse) (interrupt (33 ∷ 1 ∷ []) 9 ∷ resize 639 479 ∷ []))
mouse_stays-OnScreen_example =
    mouse_stays-OnScreen mouse (interrupt (33 ∷ 1 ∷ []) 9 ∷ resize 639 479 ∷ []) refl refl

-- One stray byte, and a packet.
receive_all_lem_example : receive_all mouse ((0 ∷ []) ++ (9 ∷ 5 ∷ 4 ∷ [])) ≡ (
    let moved = mouse_process_packet mouse (record { flags = 9; x_movement = 5; y_movement = 4 }) in
    record moved { packet_buffer = []; packet_ready = true })
receive_all_lem_example = receive_all_lem mouse (0 ∷ []) 9 5 4 refl (refl, tt) refl
