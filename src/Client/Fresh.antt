-- ===== src/Client/Fresh.antt =====
-- A client that has just been made (the constructor in Src/Client/peer_connection_client.cpp).
use p2pchat.Prelude.{ℕ, ◌≡◌, List, [], length, arith}
use p2pchat.ByteBuffer.Queue.{init_lem}
use p2pchat.Framing.Frames.{Waits}
use p2pchat.Session.Packets.{IsBlank}
use p2pchat.Client.{new_peer_client}

module _ (K : Type 0) {O : Type 0} (fresh : ℕ → List ℕ) (mem : (n : ℕ) → length (fresh n) ≡ n) where
  pub new_peer_client-out :
      (observer : O) → IsBlank 65536 (new_peer_client {K = K} fresh observer).out_packet_buffer
  unfolding new_peer_client
  new_peer_client-out observer =
      let (valid, seen) = init_lem (fresh 65537) 65536 (omega (arith, mem 65537)) (omega arith) in
      record { valid = valid; seen = seen }

  -- Nothing has been received.
  pub new_peer_client-Waits :
      (observer : O) → Waits 65536 [] (new_peer_client {K = K} fresh observer).received_data
  unfolding new_peer_client
  new_peer_client-Waits observer =
      let (valid, seen) = init_lem (fresh 65537) 65536 (omega (arith, mem 65537)) (omega arith) in
      record { valid = valid; seen = seen }
