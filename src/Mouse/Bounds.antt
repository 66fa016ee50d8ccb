-- ===== src/Mouse/Bounds.antt =====
-- The mouse position stays on the screen.
use os_from_zero.Base.{
  ℕ, suc, ◌+◌, ◌<◌, ◌≡◌, Bool, true, false, ◌&&◌, not, List, [], ◌∷◌, arith, if◌then◌else◌,
  test_bit,
}
use os_from_zero.Base.Int.{ℤ, pos, negsuc, pos_part, neg_part, ◌+ℤ◌, ◌-ℤ◌, ltb_ℤ}
use os_from_zero.Mouse.{
  Mouse, MousePacket, clamp, delta, wrap_int, mouse_process_packet, accept_byte, receive,
  wait_for_output, mouse_handle_interrupt, mouse_reset, mouse_set_bounds, half_int, mouse_has_data,
  poll_timeout,
}

-- 0 ≤ v < bound
abbrev pub InRange : ℤ → ℤ → Type 0
InRange v bound = (neg_part v ≡ 0) × (pos_part v + neg_part bound < pos_part bound)

pub record OnScreen (m : Mouse) : Type 0 where
  pub column : InRange m.state.x m.max_x
  pub row : InRange m.state.y m.max_y

pub clamp-InRange : (v bound : ℤ) → ltb_ℤ (pos 0) bound ≡ true → InRange (clamp v bound) bound
unfolding clamp ◌-ℤ◌
clamp-InRange v bound h = ground arith

bound_positive : (v bound : ℤ) → InRange v bound → ltb_ℤ (pos 0) bound ≡ true
bound_positive v bound h = ground arith

moved-InRange :
    (b : Bool) (v old bound : ℤ)
    → InRange old bound
    → InRange (if b then clamp v bound else old) bound
moved-InRange true v old bound h = clamp-InRange v bound (bound_positive old bound h)
moved-InRange false v old bound h = h

-- A packet of whatever bytes leaves the position on the screen.
pub mouse_process_packet-OnScreen :
    (m : Mouse) (p : MousePacket) → OnScreen m → OnScreen (mouse_process_packet m p)
unfolding mouse_process_packet
mouse_process_packet-OnScreen m p h =
    let moves = not (test_bit p.flags 6) && not (test_bit p.flags 7) in
    record {
      column =
          moved-InRange moves (wrap_int (m.state.x +ℤ delta p.x_movement (test_bit p.flags 4)))
            m.state.x m.max_x h.column;
      row =
          moved-InRange moves (wrap_int (m.state.y -ℤ delta p.y_movement (test_bit p.flags 5)))
            m.state.y m.max_y h.row;
    }

if_OnScreen : (b : Bool) (m n : Mouse) → OnScreen m → OnScreen n → OnScreen (if b then n else m)
if_OnScreen true m n h k = k
if_OnScreen false m n h k = h

half-InRange : (bound : ℤ) → ltb_ℤ (pos 0) bound ≡ true → InRange (half_int bound) bound
half-InRange (pos n) h = ground arith
half-InRange (negsuc n) h = ground arith

limit-InRange :
    (v old bound : ℤ)
    → InRange v old
    → ltb_ℤ (pos 0) bound ≡ true
    → InRange (if ltb_ℤ v bound then v else bound -ℤ pos 1) bound
unfolding ◌-ℤ◌
limit-InRange v old bound h k = ground arith

accept_byte-OnScreen :
    (m : Mouse) (buffer : List ℕ) (byte : ℕ) → OnScreen m → OnScreen (accept_byte m buffer byte)
unfolding accept_byte
accept_byte-OnScreen m [] byte h =
    if_OnScreen (test_bit byte 3) m _ h (record { column = h.column; row = h.row })
accept_byte-OnScreen m (first ∷ []) byte h = record { column = h.column; row = h.row }
accept_byte-OnScreen m (first ∷ second ∷ rest) byte h =
    let moved =
      mouse_process_packet-OnScreen m
        (record { flags = first; x_movement = second; y_movement = byte }) h in
    record { column = moved.column; row = moved.row }

-- So does every interrupt, whatever the controller answers.
pub mouse_handle_interrupt-OnScreen :
    (m : Mouse) (statuses : List ℕ) (byte : ℕ)
    → OnScreen m
    → OnScreen (mouse_handle_interrupt m statuses byte)
unfolding mouse_handle_interrupt receive
mouse_handle_interrupt-OnScreen m [] byte h = h
mouse_handle_interrupt-OnScreen m (status ∷ statuses) byte h =
    if_OnScreen (mouse_has_data status) m _ h (
      if_OnScreen (wait_for_output poll_timeout statuses).0 m _ h
        (accept_byte-OnScreen m m.packet_buffer byte h))

pub mouse_reset-OnScreen :
    (m : Mouse)
    → ltb_ℤ (pos 0) m.max_x ≡ true
    → ltb_ℤ (pos 0) m.max_y ≡ true
    → OnScreen (mouse_reset m)
unfolding mouse_reset
mouse_reset-OnScreen m hx hy = record {
  column = half-InRange m.max_x hx;
  row = half-InRange m.max_y hy;
}

pub mouse_set_bounds-OnScreen :
    (m : Mouse) (bound_x bound_y : ℤ)
    → OnScreen m
    → ltb_ℤ (pos 0) bound_x ≡ true
    → ltb_ℤ (pos 0) bound_y ≡ true
    → OnScreen (mouse_set_bounds m bound_x bound_y)
unfolding mouse_set_bounds ◌-ℤ◌
mouse_set_bounds-OnScreen m bound_x bound_y h hx hy = record {
  column = limit-InRange m.state.x m.max_x bound_x h.column hx;
  row = limit-InRange m.state.y m.max_y bound_y h.row hy;
}

-- What happens to the mouse: an interrupt, or a change of the screen to one that is not empty.
pub data MouseEvent : Type 0 where
  interrupt : List ℕ → ℕ → MouseEvent
  resize : ℕ → ℕ → MouseEvent

pub handle : Mouse → MouseEvent → Mouse
handle m (interrupt statuses byte) = mouse_handle_interrupt m statuses byte
handle m (resize w h) = mouse_set_bounds m (pos (suc w)) (pos (suc h))

pub handle_all : Mouse → List MouseEvent → Mouse
unfolding handle
handle_all m [] = m
handle_all m (e ∷ es) = handle_all (handle m e) es

handle_all-OnScreen : (m : Mouse) (es : List MouseEvent) → OnScreen m → OnScreen (handle_all m es)
unfolding handle_all
handle_all-OnScreen m [] h = h
handle_all-OnScreen m (interrupt statuses byte ∷ es) h =
    handle_all-OnScreen (mouse_handle_interrupt m statuses byte) es
      (mouse_handle_interrupt-OnScreen m statuses byte h)
handle_all-OnScreen m (resize w v ∷ es) h =
    handle_all-OnScreen (mouse_set_bounds m (pos (suc w)) (pos (suc v))) es
      (mouse_set_bounds-OnScreen m (pos (suc w)) (pos (suc v)) h (ground arith) (ground arith))

-- From mouse_init on, with a screen that is not empty, no sequence of interrupts and of changes
-- to a screen that is not empty moves the mouse off the screen.
pub mouse_stays-OnScreen :
    (m : Mouse) (es : List MouseEvent)
    → ltb_ℤ (pos 0) m.max_x ≡ true
    → ltb_ℤ (pos 0) m.max_y ≡ true
    → OnScreen (handle_all (mouse_reset m) es)
mouse_stays-OnScreen m es wide high =
    handle_all-OnScreen (mouse_reset m) es (mouse_reset-OnScreen m wide high)
