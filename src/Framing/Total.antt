-- ===== src/Framing/Total.antt =====
-- `AddReceivedData` ends on every input (Src/Server/Protocol/cProtocol_impl.cpp and
-- Src/Client/peer_connection_client.cpp).
use p2pchat.Prelude.{
  ℕ, zero, suc, ◌+◌, ◌≤◌, ◌<◌, ◌≡◌, ◌≢◌, refl, ap, Bool, true, false, not, ◌==◌, List, [], ◌∷◌,
  length, Bool-cases, inl, inr, arith, length-drop,
}
use p2pchat.Outcome.{Outcome, ok, fail, undefined, exited, stuck, Reader}
use p2pchat.IniFile.{AString}
use p2pchat.ByteBuffer.{
  ByteBuffer, write, get_readable_space, can_read_bytes, read_to_byte_buffer, init, commit_read,
}
use p2pchat.ByteBuffer.Valid.{IsValid, view, readable_space_lem, length-rest}
use p2pchat.ByteBuffer.Write.{write_refines}
use p2pchat.ByteBuffer.Queue.{init_lem, commit-reset_refine}
use p2pchat.ByteBuffer.Transfer.{read_to_byte_buffer_lem}
use p2pchat.ByteBuffer.VarInt.{read_var_int}
use p2pchat.ByteBuffer.VarInt.Total.{Ends, read_var_int-Ends}
use p2pchat.Framing.{
  after_packet, with_type, take_packet, with_length, packet_size, packet_round, go_on, packet_loop,
  add_received_data,
}

rest_small : (b : ByteBuffer) → IsValid b → length (view b).rest < b.buffer_size
rest_small b v = ground (arith, length-rest b)

-- A round ends, and where the loop goes on, bytes have been taken for good.
record RoundEnds {W : Type 0} (b : ByteBuffer) (r : Outcome Bool × (ByteBuffer × W)) : Type 0 where
  ended : r.0 ≢ stuck
  goes_on : r.0 ≡ ok true → IsValid r.1.0 × (length (view r.1.0).rest < length (view b).rest)

-- A packet's handling ends, and leaves no more unread bytes behind it than there were.
pub record HandlingEnds {W : Type 0} (b : ByteBuffer)
    (r : Outcome Bool × (ByteBuffer × (ByteBuffer × W))) : Type 0 where
  pub ended : r.0 ≢ stuck
  pub valid : IsValid r.1.1.0
  pub shorter : length (view r.1.1.0).rest ≤ length (view b).rest

module _ {W : Type 0} (fresh : ℕ → List ℕ)
    (handle : ℕ → Reader (ByteBuffer × (ByteBuffer × W)) Bool) (complain : ℕ → Reader W (Unit {0}))
    (mem : (n : ℕ) → length (fresh n) ≡ n)
    (handles : (type : ℕ) (bb b : ByteBuffer) (w : W)
      → IsValid bb
      → IsValid b
      → HandlingEnds b (handle type (bb, (b, w))))
    (complains : (type : ℕ) (w : W) → (complain type w).0 ≢ stuck) where
  abbrev settled : Outcome (Unit {0}) → Outcome Bool
  settled r = elim r [
    | ok _ ↦ ok true
    | fail ↦ fail
    | undefined ↦ undefined
    | exited ↦ exited
    | stuck ↦ stuck
  ]

  complained : (r : Outcome (Unit {0})) → r ≢ stuck → settled r ≢ stuck
  complained (ok _) h = λ e. cc
  complained fail h = λ e. cc
  complained undefined h = λ e. cc
  complained exited h = λ e. cc
  complained stuck h = absurd (h refl)

  after_packet-RoundEnds :
      (type : ℕ) (b : ByteBuffer) (r : Outcome Bool × (ByteBuffer × (ByteBuffer × W)))
      → length (view r.1.1.0).rest < length (view b).rest
      → IsValid r.1.1.0
      → r.0 ≢ stuck
      → RoundEnds b (after_packet fresh handle complain type r)
  unfolding after_packet
  after_packet-RoundEnds type b (ok true, (bb, (b', w))) less v h =
      elim (Bool-cases (not (get_readable_space bb == 1))) [
        | inl e ↦ rw e (record {
          ended = complained (complain type w).0 (complains type w);
          goes_on = λ _. (v, less);
        })
        | inr e ↦ rw e (record { ended = λ x. cc; goes_on = λ _. (v, less) })
      ]
  after_packet-RoundEnds type b (ok false, (bb, s)) less v h = record {
    ended = λ x. cc;
    goes_on = λ e. cc;
  }
  after_packet-RoundEnds type b (fail, (bb, s)) less v h = record {
    ended = λ x. cc;
    goes_on = λ e. cc;
  }
  after_packet-RoundEnds type b (undefined, (bb, s)) less v h = record {
    ended = λ x. cc;
    goes_on = λ e. cc;
  }
  after_packet-RoundEnds type b (exited, (bb, s)) less v h = record {
    ended = λ x. cc;
    goes_on = λ e. cc;
  }
  after_packet-RoundEnds type b (stuck, (bb, s)) less v h = absurd (h refl)

  with_type-RoundEnds :
      (b : ByteBuffer) (r : Outcome ℕ × ByteBuffer) (b' : ByteBuffer) (w : W)
      → IsValid r.1
      → IsValid b'
      → length (view b').rest < length (view b).rest
      → r.0 ≢ stuck
      → RoundEnds b (with_type fresh handle complain r (b', w))
  unfolding with_type
  with_type-RoundEnds b (ok type, bb) b' w v v' less h =
      let ends = handles type (write bb (0 ∷ [])).1 b' w (write_refines bb (0 ∷ []) v).0 v' in
      after_packet-RoundEnds type b (handle type ((write bb (0 ∷ [])).1, (b', w)))
        (omega (arith, ends.shorter)) ends.valid ends.ended
  with_type-RoundEnds b (fail, bb) b' w v v' less h = record { ended = λ x. cc; goes_on = λ e. cc }
  with_type-RoundEnds b (undefined, bb) b' w v v' less h = record {
    ended = λ x. cc;
    goes_on = λ e. cc;
  }
  with_type-RoundEnds b (exited, bb) b' w v v' less h = record {
    ended = λ x. cc;
    goes_on = λ e. cc;
  }
  with_type-RoundEnds b (stuck, bb) b' w v v' less h = absurd (h refl)

  commit_read-rest :
      (b : ByteBuffer)
      → IsValid b
      → IsValid (commit_read b) × ((view (commit_read b)).rest ≡ (view b).rest)
  commit_read-rest b v =
      let (still_valid, reset_valid, committed, was_reset) = commit-reset_refine b v in
      (still_valid, ap (λ s. s.rest) committed)

  take_packet-RoundEnds :
      (b : ByteBuffer) (r : Outcome (Unit {0}) × (ByteBuffer × ByteBuffer)) (w : W)
      → IsValid r.1.0
      → IsValid r.1.1
      → length (view r.1.0).rest < length (view b).rest
      → RoundEnds b (take_packet fresh handle complain r w)
  unfolding take_packet
  take_packet-RoundEnds b (ok _, (b', bb)) w v vb less =
      let h = read_var_int-Ends bb vb in
      let (valid, same) = commit_read-rest b' v in
      with_type-RoundEnds b (read_var_int bb) (commit_read b') w h.valid valid
        (omega (arith, ap length same)) h.ended
  take_packet-RoundEnds b (fail, (b', bb)) w v vb less = record {
    ended = λ x. cc;
    goes_on = λ e. cc;
  }
  take_packet-RoundEnds b (undefined, (b', bb)) w v vb less = record {
    ended = λ x. cc;
    goes_on = λ e. cc;
  }
  take_packet-RoundEnds b (exited, (b', bb)) w v vb less = record {
    ended = λ x. cc;
    goes_on = λ e. cc;
  }
  take_packet-RoundEnds b (stuck, (b', bb)) w v vb less = record {
    ended = λ x. cc;
    goes_on = λ e. cc;
  }

  -- A copy takes no unread bytes but its own.
  left_after :
      (src dst : ByteBuffer) (n : ℕ)
      → IsValid src
      → IsValid dst
      → let (r, (src', dst')) = read_to_byte_buffer n (src, dst) in
        IsValid src' × IsValid dst' × (length (view src').rest ≤ length (view src).rest)
  left_after src dst n vs vd =
      let (vs', vd', cases) = read_to_byte_buffer_lem src dst n vs vd in
      (
        vs',
        vd',
        elim cases [
          | inl (short, r, same, kept) ↦ omega (arith, ap (λ b. length (view b).rest) same)
          | inr (room, enough, r, moved, filled) ↦
              omega (arith, ap (λ s. length s.rest) moved, length-drop n (view src).rest)
        ],
      )

  with_length-RoundEnds :
      (b : ByteBuffer) (r : Outcome ℕ × ByteBuffer) (w : W)
      → IsValid b
      → Ends b r
      → RoundEnds b (with_length fresh handle complain r w)
  unfolding with_length
  with_length-RoundEnds b (ok len, b') w v h =
      let less : length (view b').rest < length (view b).rest = h.taken len refl in
      elim (Bool-cases (can_read_bytes b' len)) [
        | inl e ↦
            let size = packet_size len in
            let (valid, seen) =
              init_lem (fresh (size + 1)) size (omega (arith, mem (size + 1))) (omega arith) in
            let (vs, vd, fewer) = left_after b' (init (fresh (size + 1)) size) len h.valid valid in
            rw e (
              take_packet-RoundEnds b (read_to_byte_buffer len (b', init (fresh (size + 1)) size)) w
                vs vd (omega (arith, fewer)))
        | inr e ↦ rw e (record { ended = λ x. cc; goes_on = λ x. cc })
      ]
  with_length-RoundEnds b (fail, b') w v h = record { ended = λ x. cc; goes_on = λ e. cc }
  with_length-RoundEnds b (undefined, b') w v h = record { ended = λ x. cc; goes_on = λ e. cc }
  with_length-RoundEnds b (exited, b') w v h = record { ended = λ x. cc; goes_on = λ e. cc }
  with_length-RoundEnds b (stuck, b') w v h = absurd (h.ended refl)

  go_on_ended :
      (b : ByteBuffer) (r : Outcome Bool × (ByteBuffer × W))
      (next : Reader (ByteBuffer × W) (Unit {0}))
      → RoundEnds b r
      → ((b' : ByteBuffer) (w : W)
          → IsValid b'
          → length (view b').rest < length (view b).rest
          → (next (b', w)).0 ≢ stuck)
      → (go_on fresh handle complain r next).0 ≢ stuck
  unfolding go_on
  go_on_ended b (ok true, (b', w)) next h g = let (v, less) = h.goes_on refl in g b' w v less
  go_on_ended b (ok false, s) next h g = λ x. cc
  go_on_ended b (fail, s) next h g = λ x. cc
  go_on_ended b (undefined, s) next h g = λ x. cc
  go_on_ended b (exited, s) next h g = λ x. cc
  go_on_ended b (stuck, s) next h g = absurd (h.ended refl)

  packet_loop_ended :
      (fuel : ℕ) (b : ByteBuffer) (w : W)
      → IsValid b
      → length (view b).rest < fuel
      → (packet_loop fresh handle complain fuel (b, w)).0 ≢ stuck
  unfolding packet_loop packet_round
  packet_loop_ended zero b w v few = absurd (omega arith)
  packet_loop_ended (suc fuel) b w v few =
      go_on_ended b (packet_round fresh handle complain (b, w))
        (packet_loop fresh handle complain fuel)
        (with_length-RoundEnds b (read_var_int b) w v (read_var_int-Ends b v))
        (λ b' w' v' less. packet_loop_ended fuel b' w' v' (omega arith))

  -- Where the memory that `new` gives has the length that was asked for, the handler comes to an end on
  -- valid buffers and leaves the buffer of received bytes valid, with no more unread bytes than it had,
  -- and the two calls of the client come to an end, `add_received_data` comes to an end on every valid
  -- buffer, whatever bytes wait and arrive: the rounds that the model gives its loop are enough.
  pub add_received_data_ends :
      (full : Reader W (Unit {0})) (bytes : AString) (b : ByteBuffer) (w : W)
      → (full w).0 ≢ stuck
      → IsValid b
      → (add_received_data fresh handle complain full bytes (b, w)).0 ≢ stuck
  unfolding add_received_data
  add_received_data_ends full bytes b w ends v =
      let valid = (write_refines b bytes v).0 in
      elim (Bool-cases (not (write b bytes).0)) [
        | inl e ↦ rw e ends
        | inr e ↦ rw e (
            packet_loop_ended (suc (get_readable_space (write b bytes).1)) (write b bytes).1 w valid
              (omega (arith, readable_space_lem (write b bytes).1 valid)))
      ]
