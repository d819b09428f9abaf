-- ===== src/Session/Sending.antt =====
-- The packets that the server sends to a client, and the calls of cClientHandle that send them
-- (Src/Server/Protocol/cProtocol_impl.cpp and Src/Server/ClientHandle.cpp).
use p2pchat.Prelude.{
  ℕ, suc, ◌+◌, ◌%◌, ◌^◌, true, not, ◌&&◌, ◌==◌, ltb, leb, [], ◌∷◌, ◌++◌, if◌then◌else◌, ℤ, pos,
  negsuc, to_bits, difference,
}
use p2pchat.Outcome.{ok, undefined, Reader, ◌>>◌, modify}
use p2pchat.IniFile.{AString}
use p2pchat.Session.{
  authenticated, working, rank, ClientHandle, be_int32, be_int64, be_uint32, var_int32, string,
  packet,
}

-- Include/ErrorCode.h, the codes that are sent.
abbrev pub already_login : ℤ
already_login = negsuc 1

abbrev pub bad_packet : ℤ
bad_packet = negsuc 3

abbrev pub unknown_packet : ℤ
unknown_packet = negsuc 4

abbrev pub server_busy : ℤ
server_busy = negsuc 5

abbrev pub client_timeout : ℤ
client_timeout = negsuc 7

abbrev pub bad_app : ℤ
bad_app = negsuc 10

-- `m_State` of the protocol.
abbrev pub set_protocol_state : ℕ → ClientHandle → ClientHandle
set_protocol_state n c = record c { protocol = record c.protocol { state = n } }

unfoldable pub send_keep_alive : ℕ → Reader ClientHandle (Unit {0})
send_keep_alive ping_id c =
    let sent = packet 0x00 (var_int32 ping_id ∷ []) c in
    if not (c.protocol.state == 3) then (ok tt, c) else sent

-- `BroadcastUserInfo` to one client, of another one.
unfoldable pub send_user_info : ClientHandle → Reader ClientHandle (Unit {0})
send_user_info who =
    packet 0x01 (var_int32 who.unique_id ∷ string who.username ∷ var_int32 (rank who.state) ∷ [])

unfoldable pub forward_media : ℕ → ℕ → Reader ClientHandle (Unit {0})
forward_media from_id type = packet 0x11 (var_int32 from_id ∷ var_int32 type ∷ [])

unfoldable pub forward_media_msg : ℕ → AString → Reader ClientHandle (Unit {0})
forward_media_msg from_id msg = packet 0x12 (var_int32 from_id ∷ string msg ∷ [])

-- `cProtocol_impl::SendDisconnect`.
unfoldable pub send_reason : ℤ → Reader ClientHandle (Unit {0})
send_reason reason c =
    let login = packet 0 (be_int32 reason ∷ []) c in
    let work = packet 0x40 (be_uint32 (to_bits 32 reason) ∷ []) c in
    if c.protocol.state == 2 then login else if c.protocol.state == 3 then work else (ok tt, c)

unfoldable pub send_login_success : Reader ClientHandle (Unit {0})
send_login_success = packet 0x01 [] >> modify (set_protocol_state 3)

-- `cClientHandle::SendDisconnect`; the texts of the reasons go to the log.
unfoldable pub send_disconnect : ℤ → Reader ClientHandle (Unit {0})
send_disconnect reason c =
    let sent = (send_reason reason >> modify (λ c'. record c' { has_sent_dc = true })) c in
    if not c.has_sent_dc then sent else (ok tt, c)

unfoldable pub kick : ℤ → Reader ClientHandle (Unit {0})
kick reason = send_disconnect reason

unfoldable pub packet_buffer_full : Reader ClientHandle (Unit {0})
packet_buffer_full = send_disconnect server_busy

unfoldable pub packet_unknown : Reader ClientHandle (Unit {0})
packet_unknown = send_disconnect unknown_packet

unfoldable pub packet_error : Reader ClientHandle (Unit {0})
packet_error = send_disconnect bad_packet

-- `HandleKeepAlive` at a time.
unfoldable pub handle_keep_alive : ℕ → ℕ → ClientHandle → ClientHandle
handle_keep_alive now id c =
    if id == c.ping_id then record c { ping = difference now c.ping_start_time } else c

-- The end of `HandlePacketStatusRequest`, in a state that it allows.
unfoldable pub status_reply : ℕ → Reader ClientHandle (Unit {0})
status_reply state c =
    packet 0x00 (be_int32 (pos state) ∷ string c.ip_string ∷ []) (set_protocol_state state c)

-- `HandlePacketStatusPing` behind the reads.
unfoldable pub ping_reply : ℤ → Reader ClientHandle (Unit {0})
ping_reply timestamp = packet 0x01 (be_int64 timestamp ∷ [])

unfoldable pub on_received_data : AString → ClientHandle → ClientHandle
on_received_data bytes c = record c {
  ticks_since_last_packet = 0;
  incoming_data = c.incoming_data ++ bytes;
}

-- The end of `ServerTick`: what is queued goes out, the session starts, a ping is due, and the time
-- since the last packet is counted.
unfoldable pub flush_outgoing : ClientHandle → ClientHandle
flush_outgoing c = record c {
  outgoing_data = [];
  sent = if c.has_link then c.sent ++ c.outgoing_data else c.sent;
}

unfoldable pub start_working : ClientHandle → ClientHandle
start_working c = if rank c.state == rank authenticated then record c { state = working } else c

-- The ping, 15 seconds after the last one.
unfoldable pub ping_if_due : ℕ → Reader ClientHandle (Unit {0})
ping_if_due now c =
    let id = suc c.ping_id % 2 ^ 32 in
    let pinged = send_keep_alive id (record c { ping_id = id; ping_start_time = now }) in
    if (rank c.state == rank working) && leb (c.ping_start_time + 15000) now
    then pinged
    else (ok tt, c)

-- The ticks are counted in an `int`.
unfoldable pub count_tick : Reader ClientHandle (Unit {0})
count_tick c =
    let c' = record c { ticks_since_last_packet = c.ticks_since_last_packet + 1 } in
    let late = send_disconnect client_timeout c' in
    if leb (2 ^ 31) c'.ticks_since_last_packet
    then (undefined, c)
    else if ltb 600 c'.ticks_since_last_packet
    then late
    else (ok tt, c')

unfoldable pub end_tick : ℕ → Reader ClientHandle (Unit {0})
end_tick now = modify (λ c. start_working (flush_outgoing c)) >> ping_if_due now >> count_tick
