-- ===== src/Mouse/Packet.antt =====
-- How the byte stream of the mouse is cut into packets.
use os_from_zero.Mouse.{accept_byte, mouse_process_packet, Mouse, receive}
use os_from_zero.Base.{
  ℕ, ◌≡◌, ap, ◌∙◌, true, false, List, [], ◌∷◌, ◌++◌, test_bit, if_true, if_false,
}

-- The bytes of the data port, one after another.
abbrev pub receive_all : Mouse → List ℕ → Mouse
receive_all m [] = m
receive_all m (b ∷ bs) = receive_all (receive m b) bs

-- Bytes that cannot begin a packet.
abbrev pub AllUnsynced : List ℕ → Type 0
AllUnsynced [] = Unit {0}
AllUnsynced (b ∷ bs) = (test_bit b 3 ≡ false) × AllUnsynced bs

receive_unsynced :
    (m : Mouse) (b : ℕ) → m.packet_buffer ≡ [] → test_bit b 3 ≡ false → receive m b ≡ m
unfolding receive accept_byte
receive_unsynced m b empty off =
    ap (λ buffer. accept_byte m buffer b) empty ∙ if_false (test_bit b 3) _ _ off

receive_packet :
    (m : Mouse) (first second third : ℕ)
    → m.packet_buffer ≡ []
    → test_bit first 3 ≡ true
    → receive_all m (first ∷ second ∷ third ∷ []) ≡ (
        let moved =
          mouse_process_packet m
            (record { flags = first; x_movement = second; y_movement = third }) in
        record moved { packet_buffer = []; packet_ready = true })
unfolding receive accept_byte mouse_process_packet
receive_packet m first second third empty on =
    ap (λ buffer. receive_all (accept_byte m buffer first) (second ∷ third ∷ [])) empty
    ∙ ap (λ (n : Mouse). receive_all n (second ∷ third ∷ [])) (if_true (test_bit first 3) _ _ on)

-- Between packets the driver drops the bytes that cannot begin one; the next three bytes are then
-- processed as one packet, once, and the driver is between packets again.
pub receive_all_lem :
    (m : Mouse) (noise : List ℕ) (first second third : ℕ)
    → m.packet_buffer ≡ []
    → AllUnsynced noise
    → test_bit first 3 ≡ true
    → receive_all m (noise ++ (first ∷ second ∷ third ∷ [])) ≡ (
        let moved =
          mouse_process_packet m
            (record { flags = first; x_movement = second; y_movement = third }) in
        record moved { packet_buffer = []; packet_ready = true })
receive_all_lem m [] first second third empty quiet on =
    receive_packet m first second third empty on
receive_all_lem m (b ∷ noise) first second third empty quiet on =
    ap (λ (n : Mouse). receive_all n (noise ++ (first ∷ second ∷ third ∷ [])))
      (receive_unsynced m b empty quiet.0)
    ∙ receive_all_lem m noise first second third empty quiet.1 on
