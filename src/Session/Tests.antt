-- ===== src/Session/Tests.antt =====
-- The theorems on a client's session at a concrete client.
use p2pchat.Prelude.{ℕ, ◌≡◌, refl, ap, true, [], ◌∷◌, length, arith, List, zero, suc, replicate}
use p2pchat.Outcome.{◌>>◌}
use p2pchat.Session.{ClientHandle, new_client, new_protocol, packet, var_int32, string}
use p2pchat.Session.Packets.{IsReady, Delivered, payload, frame, packet-Delivered}
use p2pchat.ByteBuffer.VarInt.Groups.{groups}
use p2pchat.Session.Fresh.{new_protocol-out, new_protocol-len}
use p2pchat.Session.Sending.{send_disconnect, server_busy, bad_packet}
use p2pchat.Session.Disconnect.{send_disconnect_once, Disconnected, send_disconnect_lem}

-- Memory that is all zero.
abbrev zeros : ℕ → List ℕ
zeros n = replicate n 0

length-zeros : (n : ℕ) → length (zeros n) ≡ n
length-zeros zero = refl
length-zeros (suc n) = ap suc (length-zeros n)

-- A client that logs in.
abbrev guest : ClientHandle
guest = record (new_client zeros 0 (49 ∷ []) 1) {
  protocol = record (new_protocol zeros) { state = 2 };
}

guest-IsReady : IsReady guest
guest-IsReady = record {
  out = new_protocol-out zeros length-zeros;
  len = new_protocol-len zeros length-zeros;
}

packet-Delivered_example :
    Delivered guest
      (frame (payload 0x12 (var_int32 7 ∷ string (104 ∷ 105 ∷ []) ∷ [])))
      (packet 0x12 (var_int32 7 ∷ string (104 ∷ 105 ∷ []) ∷ []) guest)
unfolding groups
packet-Delivered_example =
    packet-Delivered guest 0x12 (var_int32 7 ∷ string (104 ∷ 105 ∷ []) ∷ []) guest-IsReady
      (omega arith) (omega arith, (omega arith, tt)) (omega arith)

send_disconnect_once_example :
    (send_disconnect server_busy >> send_disconnect bad_packet) guest
    ≡ send_disconnect server_busy guest
send_disconnect_once_example = send_disconnect_once server_busy bad_packet guest

send_disconnect_lem_example : Disconnected server_busy guest (send_disconnect server_busy guest)
send_disconnect_lem_example = send_disconnect_lem server_busy guest guest-IsReady (ground arith)

-- The same client behind its disconnect.
abbrev gone : ClientHandle
gone = record guest { has_sent_dc = true }
