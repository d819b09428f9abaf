-- ===== src/Server/Stream/Received.antt =====
-- A working client's stream of bytes, from the bytes to what the server does (`DataReceived` of
-- Src/Server/Protocol/cProtocol_impl.cpp).
use p2pchat.Prelude.{
  ℕ, ◌+◌, ◌^◌, ◌<◌, ◌≤◌, ◌≡◌, refl, ◌∙◌, ap, Bool, true, some, List, [], ◌∷◌, ◌++◌, map, length,
  length-append, All, arith,
}
use p2pchat.Outcome.{Outcome, ok, fail, undefined, exited, stuck, Reader, modify}
use p2pchat.ByteBuffer.{ByteBuffer}
use p2pchat.ByteBuffer.Valid.{IsValid, view, readable_space_lem}
use p2pchat.ByteBuffer.VarInt.Groups.{groups, groups_shape}
use p2pchat.ByteBuffer.VarInt.Codecs.{var_int32-Codec}
use p2pchat.ByteBuffer.Strings.Codecs.{string-Codec, string_bytes}
use p2pchat.Framing.{aside}
use p2pchat.Framing.Frames.{IsPacket, Waits}
use p2pchat.Framing.Short.{IsPartial}
use p2pchat.Framing.Stream.{IsSendable, frames, Handles, act_all, add_received_data-frames}
use p2pchat.Session.{ClientHandle}
use p2pchat.Session.Sending.{packet_error, packet_buffer_full}
use p2pchat.Server.{Server, find_client, on_client, server_forward_media, server_forward_media_msg}
use p2pchat.Framing.Reads.{handle_read, handled}
use p2pchat.Server.Handlers.{
  handle_packet, dispatch, read_media, read_media_msg, handle_packet_keep_alive,
  handle_packet_media, handle_packet_media_msg,
}
use p2pchat.Server.Served.{AreFit}
use p2pchat.Server.Events.{data_received, keep_received, set_received_data}
use p2pchat.Server.Stream.{
  Request, keep_alive, media, media_msg, request_packet, IsRequest, serve, serve_all,
}
use p2pchat.Framing.Fields.{read_one, read_two}
use p2pchat.Server.Stream.Serve.{IsWorking, serve-Serves, serve-IsWorking}

handled-ok :
    (bb : ByteBuffer) (r : Outcome (Unit {0}) × Server)
    → r.0 ≡ ok tt
    → handled bb r ≡ (ok true, (bb, r.1))
handled-ok bb (ok _, s) e = refl
handled-ok bb (fail, s) e = cc
handled-ok bb (undefined, s) e = cc
handled-ok bb (exited, s) e = cc
handled-ok bb (stuck, s) e = cc

-- The packet of a request, in its own buffer, with its type read.
dispatch_request :
    (now id : ℕ) (q : Request) (bb : ByteBuffer) (s : Server)
    → IsRequest q
    → IsWorking id s
    → IsPacket (request_packet q).0 (request_packet q).1 bb
    → (left : ByteBuffer) × IsValid left
      × ((view left).rest ≡ 0 ∷ [])
      × (dispatch 3 now id (request_packet q).0 (bb, s) ≡ handled left (serve now id q s))
unfolding dispatch handle_packet_keep_alive handle_packet_media handle_packet_media_msg read_media
    read_media_msg
dispatch_request now id (keep_alive n) bb s h w p =
    let r = read_one var_int32-Codec bb n p.valid h p.unread in
    (r.left, r.valid, r.one, rw r.result refl)
dispatch_request now id (media to_id type) bb s (ht, hy) w p =
    let r = read_two var_int32-Codec bb to_id type p.valid ht hy p.unread in
    (
      r.left,
      r.valid,
      r.one,
      ap (λ x. handle_read x (λ m. server_forward_media m.0 id m.1) s) r.result,
    )
dispatch_request now id (media_msg to_id msg) bb s (ht, hm) w p =
    let r = read_two string-Codec bb to_id msg p.valid ht (omega (arith, hm)) p.unread in
    (
      r.left,
      r.valid,
      r.one,
      ap (λ x. handle_read x (λ m. server_forward_media_msg m.0 id m.1) s) r.result,
    )

request_packet-IsSendable : (q : Request) → IsRequest q → IsSendable (request_packet q)
request_packet-IsSendable (keep_alive n) h = (
  omega arith,
  omega (
    arith,
    length-append (groups 4 0x00) (groups 4 n),
    groups_shape 4 0x00 (omega arith),
    groups_shape 4 n (omega arith),
  ),
)
request_packet-IsSendable (media to_id type) (ht, hy) = (
  omega arith,
  omega (
    arith,
    length-append (groups 4 0x11) (groups 4 to_id ++ groups 4 type),
    length-append (groups 4 to_id) (groups 4 type),
    groups_shape 4 0x11 (omega arith),
    groups_shape 4 to_id (omega arith),
    groups_shape 4 type (omega arith),
  ),
)
request_packet-IsSendable (media_msg to_id msg) (ht, hm) = (
  omega arith,
  omega (
    arith,
    length-append (groups 4 0x12) (groups 4 to_id ++ string_bytes msg),
    length-append (groups 4 to_id) (string_bytes msg),
    length-append (groups 4 (length msg)) msg,
    groups_shape 4 0x12 (omega arith),
    groups_shape 4 to_id (omega arith),
    groups_shape 4 (length msg) (omega arith),
  ),
)

requests-AreSendable :
    (qs : List Request) → All IsRequest qs → All IsSendable (map request_packet qs)
requests-AreSendable [] h = tt
requests-AreSendable (q ∷ qs) (h, hs) = (request_packet-IsSendable q h, requests-AreSendable qs hs)

module _ (fresh : ℕ → List ℕ) (now id : ℕ) where
  abbrev handle : ℕ → Reader (ByteBuffer × (ByteBuffer × Server)) Bool
  handle type = aside (handle_packet now id type)

  abbrev complain : ℕ → Reader Server (Unit {0})
  complain type = on_client id packet_error

  abbrev act : Request → Server → Server
  act q s = (serve now id q s).1

  serve-Handles :
      (q : Request)
      → IsRequest q
      → Handles fresh handle complain request_packet act (IsWorking id) q
  unfolding Handles handle_packet aside
  serve-Handles q h bb b s w p =
      let (left, valid, one, e) = dispatch_request now id q bb s h w p in
      let t = serve-Serves now id q s w.numbered h w.fit in
      let whole : handle_packet now id (request_packet q).0 (bb, s)
          ≡ (ok true, (left, (serve now id q s).1)) =
        rw (w.found, handle_packet, w.working) (e ∙ handled-ok left (serve now id q s) t.answer) in
      (
        left,
        ap (λ x. (x.0, (x.1.0, (b, x.1.1)))) whole,
        omega (arith, readable_space_lem left valid, ap length one),
        serve-IsWorking now id q s h w,
      )

  serve-HandlesAll :
      (qs : List Request)
      → All IsRequest qs
      → All (Handles fresh handle complain request_packet act (IsWorking id)) qs
  serve-HandlesAll [] h = tt
  serve-HandlesAll (q ∷ qs) (h, hs) = (serve-Handles q h, serve-HandlesAll qs hs)

  act_all-serve_all :
      (qs : List Request) (s : Server)
      → act_all fresh handle complain request_packet act (IsWorking id) qs s ≡ serve_all now id qs s
  act_all-serve_all [] s = refl
  act_all-serve_all (q ∷ qs) s = act_all-serve_all qs (serve now id q s).1

  -- Bytes that reach a working client of a server on which every packet can be sent, behind those that
  -- waited, make exactly the packets of a list of requests (ids and media types of 32 bits, texts of
  -- up to 65,000 bytes) and the beginning of another packet, and fit the buffer: then the server does
  -- what the requests say, in order, and the beginning waits in the client's buffer. An answer to a ping
  -- is taken with `handle_keep_alive` of the client, which sends nothing; media and texts are forwarded
  -- to the first client with the number that they name, unless it has been sent its disconnect. The
  -- memory that `new` gives has the length that was asked for.
  pub data_received-requests :
      (qs : List Request) (old bytes partial : List ℕ) (s : Server) (c : ClientHandle)
      → ((n : ℕ) → length (fresh n) ≡ n)
      → find_client id s.clients ≡ some c
      → c.protocol.state ≡ 3
      → id < 2 ^ 32
      → AreFit s
      → All IsRequest qs
      → Waits 65536 old c.protocol.received_data
      → IsPartial partial
      → old ++ bytes ≡ frames (map request_packet qs) ++ partial
      → length old + length bytes ≤ 65536
      → (left : ByteBuffer) × Waits 65536 partial left
        × (data_received fresh now id bytes s
            ≡ (ok tt, (on_client id (modify (set_received_data left)) (serve_all now id qs s)).1))
  unfolding data_received
  data_received-requests qs old bytes partial s c mem found three hid fit hs waits short e fits =
      let w : IsWorking id s = record {
        fit = fit;
        numbered = hid;
        client = c;
        found = found;
        working = three;
      } in
      let (left, waits', result) =
        add_received_data-frames fresh handle complain request_packet act (IsWorking id) qs old
          bytes partial 65536 (on_client id packet_buffer_full) c.protocol.received_data s mem
          (requests-AreSendable qs hs) (serve-HandlesAll qs hs) w short e fits waits in
      (
        left,
        waits',
        rw (found, data_received)
            (ap (keep_received id)
              (result ∙ ap (λ s'. (ok tt, (left, s'))) (act_all-serve_all qs s))),
      )
