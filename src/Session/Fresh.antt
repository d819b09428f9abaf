-- ===== src/Session/Fresh.antt =====
-- A client that has just connected (the constructors in Src/Server/ClientHandle.cpp and
-- Src/Server/Protocol/cProtocol_impl.cpp).
use p2pchat.Prelude.{ℕ, ◌≡◌, List, [], length, arith}
use p2pchat.ByteBuffer.Queue.{init_lem}
use p2pchat.Framing.Frames.{Waits}
use p2pchat.Session.{new_protocol}
use p2pchat.Session.Packets.{IsBlank}

module _ (fresh : ℕ → List ℕ) (mem : (n : ℕ) → length (fresh n) ≡ n) where
  pub new_protocol-out : IsBlank 65536 (new_protocol fresh).out_packet_buffer
  unfolding new_protocol
  new_protocol-out =
      let (valid, seen) = init_lem (fresh 65537) 65536 (omega (arith, mem 65537)) (omega arith) in
      record { valid = valid; seen = seen }

  pub new_protocol-len : IsBlank 20 (new_protocol fresh).out_packet_len_buffer
  unfolding new_protocol
  new_protocol-len =
      let (valid, seen) = init_lem (fresh 21) 20 (omega (arith, mem 21)) (omega arith) in
      record { valid = valid; seen = seen }

  -- Nothing has been received.
  pub new_protocol-Waits : Waits 65536 [] (new_protocol fresh).received_data
  unfolding new_protocol
  new_protocol-Waits =
      let (valid, seen) = init_lem (fresh 65537) 65536 (omega (arith, mem 65537)) (omega arith) in
      record { valid = valid; seen = seen }
