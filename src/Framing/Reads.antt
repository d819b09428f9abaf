-- ===== src/Framing/Reads.antt =====
-- A packet's fields are read, and its handler runs (`HANDLE_READ` and `HandlePacket` of
-- Src/Server/Protocol/cProtocol_impl.cpp and Src/Client/peer_connection_client.cpp).
use p2pchat.Prelude.{Bool, true, false}
use p2pchat.Outcome.{Outcome, ok, fail, undefined, exited, stuck, Reader}
use p2pchat.ByteBuffer.{ByteBuffer}

-- A handler ends, and `HandlePacket` returns true.
abbrev pub handled :
    {S : Type 0} → ByteBuffer → Outcome (Unit {0}) × S → Outcome Bool × (ByteBuffer × S)
handled bb (ok _, s) = (ok true, (bb, s))
handled bb (fail, s) = (fail, (bb, s))
handled bb (undefined, s) = (undefined, (bb, s))
handled bb (exited, s) = (exited, (bb, s))
handled bb (stuck, s) = (stuck, (bb, s))

-- The macro `HANDLE_READ`, for all fields of a packet: where one cannot be read, the handler returns.
abbrev pub handle_read {ℓ} :
    {S : Type 0} {A : Type ℓ}
    → Outcome A × ByteBuffer
    → (A → Reader S (Unit {0}))
    → S
    → Outcome Bool × (ByteBuffer × S)
handle_read (ok a, bb) act s = handled bb (act a s)
handle_read (fail, bb) act s = (ok true, (bb, s))
handle_read (undefined, bb) act s = (undefined, (bb, s))
handle_read (exited, bb) act s = (exited, (bb, s))
handle_read (stuck, bb) act s = (stuck, (bb, s))

-- `HandlePacket` returns false behind a call.
abbrev pub not_handled :
    {S : Type 0} → ByteBuffer → Outcome (Unit {0}) × S → Outcome Bool × (ByteBuffer × S)
not_handled bb (ok _, s) = (ok false, (bb, s))
not_handled bb (fail, s) = (fail, (bb, s))
not_handled bb (undefined, s) = (undefined, (bb, s))
not_handled bb (exited, s) = (exited, (bb, s))
not_handled bb (stuck, s) = (stuck, (bb, s))
