-- ===== src/Server/Stream.antt =====
-- What a working client sends (Src/Server/Protocol/cProtocol_impl.cpp): its requests, their packets,
-- and what they mean.
pub mod Serve
pub mod Received
use p2pchat.Prelude.{
  ℕ, ◌+◌, ◌^◌, ◌<◌, ◌≤◌, ◌≡◌, refl, ◌∙◌, ap, Bool, true, ◌==◌, some, List, [], ◌∷◌, ◌++◌, map,
  length, length-append, append_assoc, All, arith, Bool-cases, inl, inr,
}
use p2pchat.Outcome.{Outcome, ok, fail, undefined, exited, stuck, Reader, pure, ◌>>=◌, modify}
use p2pchat.IniFile.{AString}
use p2pchat.ByteBuffer.{ByteBuffer}
use p2pchat.ByteBuffer.Valid.{IsValid, view, readable_space_lem}
use p2pchat.ByteBuffer.Read.{moved}
use p2pchat.ByteBuffer.Codec.{Codec, moved_front-IsValid, moved_front-rest}
use p2pchat.ByteBuffer.VarInt.{read_var_int32}
use p2pchat.ByteBuffer.VarInt.Groups.{groups, groups_shape}
use p2pchat.ByteBuffer.VarInt.Codecs.{var_int32-Codec}
use p2pchat.ByteBuffer.Strings.Codecs.{string-Codec, string_bytes}
use p2pchat.Framing.Frames.{IsPacket, Waits}
use p2pchat.Framing.Short.{IsPartial}
use p2pchat.Framing.Stream.{Packet, IsSendable, frames, Handles, act_all, add_received_data-frames}
use p2pchat.Session.{ClientHandle}
use p2pchat.Session.Sending.{
  forward_media, forward_media_msg, handle_keep_alive, packet_error, packet_buffer_full,
}
use p2pchat.Session.Cores.{forward_media-Same, forward_media_msg-Same, keep_alive-Same}
use p2pchat.Session.Sent.{Sent-IsFit}
use p2pchat.Server.{Server, find_client, on_client, server_forward_media, server_forward_media_msg}
use p2pchat.Framing.Reads.{handle_read, handled}
use p2pchat.Server.Handlers.{
  handle_packet, dispatch, read_media, read_media_msg, handle_packet_keep_alive,
  handle_packet_media, handle_packet_media_msg,
}
use p2pchat.Server.Clients.{cores, first_with-Same, found-same}
use p2pchat.Server.Served.{AreFit, Suits, Serves, on_client-Serves}
use p2pchat.Server.Forward.{forward_media-Sent, forward_media_msg-Sent}
use p2pchat.Server.Events.{data_received, keep_received, set_received_data}

-- The requests of a client that has logged in.
pub data Request : Type 0 where
  keep_alive : ℕ → Request
  media : ℕ → ℕ → Request
  media_msg : ℕ → AString → Request

abbrev pub request_packet : Request → Packet
request_packet (keep_alive n) = (0x00, groups 4 n)
request_packet (media to_id type) = (0x11, groups 4 to_id ++ groups 4 type)
request_packet (media_msg to_id msg) = (0x12, groups 4 to_id ++ string_bytes msg)

abbrev pub IsRequest : Request → Type 0
IsRequest (keep_alive n) = n < 2 ^ 32
IsRequest (media to_id type) = (to_id < 2 ^ 32) × (type < 2 ^ 32)
IsRequest (media_msg to_id msg) = (to_id < 2 ^ 32) × (length msg ≤ 65000)

-- What a request of a client means.
abbrev pub serve : ℕ → ℕ → Request → Reader Server (Unit {0})
serve now id (keep_alive n) = on_client id (modify (handle_keep_alive now n))
serve now id (media to_id type) = server_forward_media to_id id type
serve now id (media_msg to_id msg) = server_forward_media_msg to_id id msg

abbrev pub serve_all : ℕ → ℕ → List Request → Server → Server
serve_all now id [] s = s
serve_all now id (q ∷ qs) s = serve_all now id qs (serve now id q s).1
