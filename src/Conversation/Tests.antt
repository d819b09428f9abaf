-- ===== src/Conversation/Tests.antt =====
-- A text from Carol, who has the number 1, to Dave, who has the number 2.
use p2pchat.Prelude.{
  ℕ, ◌<◌, ◌^◌, ◌≡◌, refl, ap, true, false, some, List, [], ◌∷◌, ◌++◌, zero, suc, length, replicate,
  arith, pos,
}
use p2pchat.Outcome.{modify}
use p2pchat.IniFile.{AString}
use p2pchat.Session.{ClientHandle, working, new_client, new_protocol}
use p2pchat.Session.Sent.{IsFit}
use p2pchat.Session.Fresh.{new_protocol-out, new_protocol-len, new_protocol-Waits}
use p2pchat.Server.{Server, find_client}
use p2pchat.Server.Served.{AreFit}
use p2pchat.Client.{Sockets, Observer, Client, cs_connected, signing_in, new_peer_client}
use p2pchat.Client.Fresh.{new_peer_client-out, new_peer_client-Waits}
use p2pchat.Client.Stream.{IsCalm, IsSignedIn, IsWatching}
use p2pchat.Conversation.{Relayed, send_to_peer-Relayed}

abbrev zeros : ℕ → List ℕ
zeros n = replicate n 0

length-zeros : (n : ℕ) → length (zeros n) ≡ n
length-zeros zero = refl
length-zeros (suc n) = ap suc (length-zeros n)

abbrev wire : Sockets AString
wire = record {
  create = λ address. [];
  connect = λ address k. (true, k);
  get_state = λ k. cs_connected;
  send = λ bytes k. k ++ bytes;
  close = λ k. k;
  is_unresolved_ip = λ address. false;
}

abbrev ignore : Client AString AString → Client AString AString
ignore c = c

-- An observer that keeps the last text.
abbrev ear : Observer (Client AString AString)
ear = record {
  on_disconnected = modify ignore;
  on_signed_in = modify ignore;
  is_busy = λ c. false;
  on_peer_connected = λ id name. modify ignore;
  on_peer_disconnected = λ id. modify ignore;
  on_peer_response = λ id code. modify ignore;
  on_message_from_peer = λ id text. modify (λ c. record c { observer = text });
  on_server_connection_failure = modify ignore;
  post_notification = λ reason. modify ignore;
}

abbrev Always : AString → Type 0
Always text = Unit {0}

ignore-IsCalm : IsCalm Always (modify ignore)
ignore-IsCalm = record { behind = λ c. c.observer; keeps = λ c h. tt; result = λ c b h. refl }

ear-IsWatching : IsWatching Always ear
ear-IsWatching = record {
  busy = λ c b. refl;
  peer_connected = λ id name. ignore-IsCalm;
  peer_disconnected = λ id. ignore-IsCalm;
  peer_response = λ id code. ignore-IsCalm;
  message = λ id text. record { behind = λ c. text; keeps = λ c h. tt; result = λ c b h. refl };
}

abbrev carol : Client AString AString
carol = record (new_peer_client zeros []) {
  control_socket = some [];
  state = signing_in;
  is_connected = true;
  protocol_state = 3;
}

carol-IsSignedIn : IsSignedIn Always carol
carol-IsSignedIn = record {
  signed_in = refl;
  socket = [];
  has_socket = refl;
  blank = new_peer_client-out AString zeros length-zeros [];
  watched = tt;
}

-- The two on the server.
abbrev handle_of : ℕ → ClientHandle
handle_of id = record (new_client zeros 0 (49 ∷ []) id) {
  username = 97 ∷ [];
  protocol = record (new_protocol zeros) { state = 3 };
  state = working;
  unique_id = id;
}

handle_of-IsFit : (id : ℕ) → id < 2 ^ 32 → IsFit (handle_of id)
handle_of-IsFit id h = record {
  ready = record {
    out = new_protocol-out zeros length-zeros;
    len = new_protocol-len zeros length-zeros;
  };
  named = omega arith;
  numbered = h;
}

abbrev chat : Server
chat = record { clients = handle_of 1 ∷ handle_of 2 ∷ []; client_count = 2; queue = [] }

chat-AreFit : AreFit chat
chat-AreFit = record {
  clients = (handle_of-IsFit 1 (omega arith), (handle_of-IsFit 2 (omega arith), tt));
  queue = tt;
}

send_to_peer-Relayed_example :
    Relayed wire zeros length-zeros ear 9 1
      (pos 2)
      (104 ∷ 105 ∷ [])
      []
      carol
      carol
      chat
      (handle_of 2)
unfolding find_client
send_to_peer-Relayed_example =
    send_to_peer-Relayed wire zeros length-zeros ear Always 9 1 (pos 2) (104 ∷ 105 ∷ []) [] carol
      carol chat (handle_of 1) (handle_of 2) ear-IsWatching (omega arith)
      (new_peer_client-out AString zeros length-zeros []) refl refl chat-AreFit (omega arith) refl
      refl (new_protocol-Waits zeros length-zeros) refl carol-IsSignedIn
      (new_peer_client-Waits AString zeros length-zeros [])
