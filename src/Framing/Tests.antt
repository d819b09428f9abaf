-- ===== src/Framing/Tests.antt =====
-- The theorem on a stream of frames at a handler that keeps the types of the packets.
use p2pchat.Prelude.{
  ℕ, ◌≡◌, ◌≢◌, refl, ap, Bool, true, [], ◌∷◌, length, arith, List, zero, suc, replicate,
}
use p2pchat.Outcome.{stuck, ok, Reader, modify}
use p2pchat.ByteBuffer.Valid.{IsValid, readable_space_lem}
use p2pchat.ByteBuffer.VarInt.Groups.{groups}
use p2pchat.ByteBuffer.Queue.{init_lem}
use p2pchat.ByteBuffer.{ByteBuffer, init}
use p2pchat.Framing.Frames.{Waits}
use p2pchat.Framing.Stream.{Packet, Handles, add_received_data-frames}
use p2pchat.Framing.Total.{HandlingEnds, add_received_data_ends}
use p2pchat.Framing.Short.{IsPartial}
use p2pchat.Framing.{add_received_data}

-- Memory that is all zero.
abbrev zeros : ℕ → List ℕ
zeros n = replicate n 0

length-zeros : (n : ℕ) → length (zeros n) ≡ n
length-zeros zero = refl
length-zeros (suc n) = ap suc (length-zeros n)

abbrev keep_type : ℕ → Reader (ByteBuffer × (ByteBuffer × List ℕ)) Bool
keep_type type (bb, (b, types)) = (ok true, (bb, (b, type ∷ types)))

abbrev nothing : ℕ → Reader (List ℕ) (Unit {0})
nothing type = modify (λ types. types)

-- A packet that is its type alone.
abbrev bare : ℕ → Packet
bare type = (type, [])

abbrev AnyTypes : List ℕ → Type 0
AnyTypes types = Unit {0}

bare-Handles :
    (type : ℕ) → Handles zeros keep_type nothing bare (λ t types. t ∷ types) AnyTypes type
unfolding Handles
bare-Handles type bb b types holds p =
    (bb, refl, omega (arith, readable_space_lem bb p.valid, ap length p.unread), tt)

-- The first byte of a third packet, of two bytes.
begun : IsPartial (2 ∷ [])
unfolding groups
begun = record {
  packet = 1 ∷ 2 ∷ [];
  next = 1;
  missing = 2 ∷ [];
  short = omega arith;
  whole = refl;
}

abbrev blank : ByteBuffer
blank = init (0 ∷ 0 ∷ 0 ∷ 0 ∷ 0 ∷ 0 ∷ 0 ∷ 0 ∷ []) 7

blank-Waits : Waits 7 [] blank
blank-Waits =
    let (valid, seen) = init_lem (0 ∷ 0 ∷ 0 ∷ 0 ∷ 0 ∷ 0 ∷ 0 ∷ 0 ∷ []) 7 refl (omega arith) in
    record { valid = valid; seen = seen }

add_received_data-frames_example :
    (left : ByteBuffer) × Waits 7 (2 ∷ []) left
    × (add_received_data zeros keep_type nothing
          (modify (λ types. types))
          (1 ∷ 5 ∷ 1 ∷ 6 ∷ 2 ∷ [])
          (blank, [])
        ≡ (ok tt, (left, 6 ∷ 5 ∷ [])))
unfolding groups
add_received_data-frames_example =
    add_received_data-frames zeros keep_type nothing bare (λ t types. t ∷ types) AnyTypes
      (5 ∷ 6 ∷ []) [] (1 ∷ 5 ∷ 1 ∷ 6 ∷ 2 ∷ []) (2 ∷ []) 7 (modify (λ types. types)) blank []
      length-zeros ((omega arith, omega arith), ((omega arith, omega arith), tt))
      (bare-Handles 5, (bare-Handles 6, tt)) tt begun refl (omega arith) blank-Waits

keep_type_ends :
    (type : ℕ) (bb b : ByteBuffer) (w : List ℕ)
    → IsValid b
    → HandlingEnds b (keep_type type (bb, (b, w)))
keep_type_ends type bb b w v = record { ended = λ e. cc; valid = v; shorter = omega arith }

nothing_ends : (type : ℕ) (w : List ℕ) → (nothing type w).0 ≢ stuck
nothing_ends type w = λ e. cc

-- A packet with a length that is too great, and more bytes.
add_received_data_ends_example :
    (add_received_data zeros keep_type nothing
      (modify (λ types. types))
      (9 ∷ 1 ∷ 6 ∷ 2 ∷ [])
      (blank, [])).0
    ≢ stuck
add_received_data_ends_example =
    add_received_data_ends zeros keep_type nothing length-zeros
      (λ type bb b w v v'. keep_type_ends type bb b w v') nothing_ends (modify (λ types. types))
      (9 ∷ 1 ∷ 6 ∷ 2 ∷ []) blank [] (nothing_ends 0 []) blank-Waits.valid
