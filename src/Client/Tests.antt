-- ===== src/Client/Tests.antt =====
-- The theorems on the chat client at a socket that keeps what it is given, and an observer that keeps the
-- numbers of those who write.
use p2pchat.Prelude.{
  ℕ, ◌≡◌, refl, ap, sym, append-nil, true, false, some, [], ◌∷◌, ◌++◌, map, length, arith, List,
  zero, suc, replicate, ℤ, negsuc,
}
use p2pchat.Outcome.{ok, modify}
use p2pchat.IniFile.{AString}
use p2pchat.ByteBuffer.{ByteBuffer}
use p2pchat.ByteBuffer.Endian.{be_bytes}
use p2pchat.ByteBuffer.VarInt.Groups.{groups}
use p2pchat.Framing.Frames.{Waits}
use p2pchat.Framing.Stream.{frames, packet_bytes}
use p2pchat.Framing.Closing.{nothing-IsPartial}
use p2pchat.Session.{var_int32, be_int32}
use p2pchat.Session.Packets.{payload, frame, fields_bytes}
use p2pchat.Client.{Sockets, Observer, Client, cs_connected, signing_in, new_peer_client, packet}
use p2pchat.Client.Ended.{IsParting, work, ended, data_received-ended}
use p2pchat.Client.Events.{data_received}
use p2pchat.Client.Fresh.{new_peer_client-out, new_peer_client-Waits}
use p2pchat.Client.Sent.{Posted, out_after, packet-Posted}
use p2pchat.Client.Stream.{
  Message, ping, message_from, message_packet, with_received, IsSignedIn, IsWatching, receive_all,
}
use p2pchat.Client.Stream.Received.{data_received-messages}

-- Memory that is all zero.
abbrev zeros : ℕ → List ℕ
zeros n = replicate n 0

length-zeros : (n : ℕ) → length (zeros n) ≡ n
length-zeros zero = refl
length-zeros (suc n) = ap suc (length-zeros n)

abbrev wire : Sockets AString
wire = record {
  create = λ address. [];
  connect = λ address k. (true, k);
  get_state = λ k. cs_connected;
  send = λ bytes k. k ++ bytes;
  close = λ k. k;
  is_unresolved_ip = λ address. false;
}

abbrev Noted : Type 0
Noted = Client AString (List ℤ)

abbrev note : ℤ → Noted → Noted
note id c = record c { observer = id ∷ c.observer }

abbrev notes : Observer Noted
notes = record {
  on_disconnected = modify (λ c. c);
  on_signed_in = modify (λ c. c);
  is_busy = λ c. false;
  on_peer_connected = λ id name. modify (note id);
  on_peer_disconnected = λ id. modify (note id);
  on_peer_response = λ id code. modify (note id);
  on_message_from_peer = λ id text. modify (note id);
  on_server_connection_failure = modify (λ c. c);
  post_notification = λ reason. modify (note (negsuc 0));
}

abbrev Always : List ℤ → Type 0
Always ids = Unit {0}

notes-IsWatching : IsWatching Always notes
notes-IsWatching = record {
  busy = λ c b. refl;
  peer_connected = λ id name. record {
    behind = λ c. id ∷ c.observer;
    keeps = λ c h. tt;
    result = λ c b h. refl;
  };
  peer_disconnected =
      λ id. record { behind = λ c. id ∷ c.observer; keeps = λ c h. tt; result = λ c b h. refl };
  peer_response = λ id code. record {
    behind = λ c. id ∷ c.observer;
    keeps = λ c h. tt;
    result = λ c b h. refl;
  };
  message = λ id text. record {
    behind = λ c. id ∷ c.observer;
    keeps = λ c h. tt;
    result = λ c b h. refl;
  };
}

abbrev notes-IsParting : IsParting notes
notes-IsParting = record {
  disconnected = record { behind = λ c. c.observer; keeps = λ c h. tt; result = λ c b h. refl };
  notified = λ code. record {
    behind = λ c. negsuc 0 ∷ c.observer;
    keeps = λ c h. tt;
    result = λ c b h. refl;
  };
}

-- A client that has signed in.
abbrev carol : Noted
carol = record (new_peer_client zeros []) {
  control_socket = some [];
  state = signing_in;
  is_connected = true;
  user_name = 99 ∷ [];
  pass_word = 99 ∷ [];
  protocol_state = 3;
}

carol-IsSignedIn : IsSignedIn Always carol
carol-IsSignedIn = record {
  signed_in = refl;
  socket = [];
  has_socket = refl;
  blank = new_peer_client-out AString zeros length-zeros [];
  watched = tt;
}

packet-Posted_example :
    Posted wire []
      (payload 0x00 (var_int32 5 ∷ []))
      (out_after 0x00 (var_int32 5 ∷ []) carol.out_packet_buffer)
      carol
      (packet wire zeros 0x00 (var_int32 5 ∷ []) carol)
unfolding groups
packet-Posted_example =
    packet-Posted wire zeros carol [] 0x00 (var_int32 5 ∷ []) length-zeros refl
      (new_peer_client-out AString zeros length-zeros []) (omega arith) (omega arith, tt)
      (omega arith)

-- A ping, and a text.
abbrev messages : List Message
messages = ping 5 ∷ message_from 2 (104 ∷ 105 ∷ []) ∷ []

data_received-messages_example :
    (left : ByteBuffer) × Waits 65536 [] left
    × (data_received wire zeros notes (frames (map message_packet messages)) carol
        ≡ (ok tt, with_received left (receive_all wire zeros notes messages carol)))
unfolding groups
data_received-messages_example =
    data_received-messages wire zeros notes Always length-zeros notes-IsWatching messages []
      (frames (map message_packet messages)) [] carol carol-IsSignedIn
      (omega arith, ((omega arith, omega arith), tt))
      (new_peer_client-Waits AString zeros length-zeros []) nothing-IsPartial
      (sym (append-nil (frames (map message_packet messages)))) (omega arith)

-- The code -2, and a byte behind it.
abbrev goodbye : List ℕ
goodbye = frame (packet_bytes (0x40, fields_bytes (be_int32 (negsuc 1) ∷ []))) ++ 7 ∷ []

data_received-ended_example :
    (left : ByteBuffer) × Waits 65536 [] left
    × (data_received wire zeros notes goodbye carol
        ≡ (ok tt, with_received left (ended wire zeros notes notes-IsParting (negsuc 1) [] carol)))
unfolding groups be_bytes
data_received-ended_example =
    data_received-ended wire zeros notes notes-IsParting 0x40 (negsuc 1) [] [] goodbye (7 ∷ [])
      carol length-zeros work (omega arith) refl refl refl
      (new_peer_client-Waits AString zeros length-zeros []) refl (omega arith)
