-- ===== src/Conductor/Observer.antt =====
-- What the connection to the server tells the conductor (PeerConnectionClientObserver in
-- Src/Client/conductor.cpp).
use p2pchat.Prelude.{
  ℕ, ◌&&◌, Bool, true, false, not, Option, none, some, List, [], ◌∷◌, if◌then◌else◌, ℤ, pos, negsuc,
}
use p2pchat.Outcome.{ok, Reader, ◌>>=◌, ◌>>◌, modify}
use p2pchat.IniFile.{AString, str_eq}
use p2pchat.Client
use p2pchat.Client.{Sockets, Client, Reason, sign_out}
use p2pchat.Client.Handlers.{int_eq}
use p2pchat.Conductor.{
  Ui, list_peers, peer_connection_closed, only_one_peer, not_initialized, no_server, Window, WebRtc,
  Conductor, no_peer, on_window, on_media, tell, delete_peer_connection, initialize_peer_connection,
}

-- "type", "sdp", "candidate", "sdpMid" and "sdpMLineIndex".
abbrev pub type_name : AString
type_name = 116 ∷ 121 ∷ 112 ∷ 101 ∷ []

abbrev pub sdp_name : AString
sdp_name = 115 ∷ 100 ∷ 112 ∷ []

abbrev pub candidate_name : AString
candidate_name = 99 ∷ 97 ∷ 110 ∷ 100 ∷ 105 ∷ 100 ∷ 97 ∷ 116 ∷ 101 ∷ []

abbrev pub sdp_mid_name : AString
sdp_mid_name = 115 ∷ 100 ∷ 112 ∷ 77 ∷ 105 ∷ 100 ∷ []

abbrev pub sdp_mline_index_name : AString
sdp_mline_index_name = 115 ∷ 100 ∷ 112 ∷ 77 ∷ 76 ∷ 105 ∷ 110 ∷ 101 ∷ 73 ∷ 110 ∷ 100 ∷ 101 ∷ 120 ∷ []

abbrev pub is_listing : Ui → Bool
is_listing list_peers = true
is_listing _ = false

abbrev pub or_empty : Option AString → AString
or_empty (some s) = s
or_empty none = []

-- A call of the conductor that may stop, behind the client.
abbrev pub ask {ℓ} :
    {K M V : Type 0} {A : Type ℓ} → Reader (Conductor M V) A → Reader (Client K (Conductor M V)) A
ask call c = let (r, o) = call c.observer in (r, record c { observer = o })

-- The client with its conductor.
abbrev pub Peer : Type 0 → Type 0 → Type 0 → Type 0
Peer K M V = Client K (Conductor M V)

module _ {K M J D I V : Type 0} (sockets : Sockets K) (fresh : ℕ → List ℕ) (window : Window V)
    (rtc : WebRtc M J D I) where
  unfoldable pub on_signed_in : Reader (Peer K M V) (Unit {0})
  on_signed_in = modify (λ c. tell (on_window (window.switch_to_peer_list c.peers)) c)

  unfoldable pub is_busy : Peer K M V → Bool
  is_busy c = not (int_eq c.observer.peer_id no_peer) && c.observer.peer_connection

  unfoldable pub on_disconnected : Reader (Peer K M V) (Unit {0})
  on_disconnected =
      modify (tell (delete_peer_connection window rtc))
      >> modify (
          tell
            (λ o. if window.is_window o.window then on_window window.switch_to_connect_ui o else o))

  -- The list of peers is shown anew, if it is shown.
  unfoldable pub refresh_list : Reader (Peer K M V) (Unit {0})
  refresh_list = modify (λ c.
      if is_listing (window.current_ui c.observer.window)
      then tell (on_window (window.switch_to_peer_list c.peers)) c
      else c)

  unfoldable pub on_peer_connected : ℤ → AString → Reader (Peer K M V) (Unit {0})
  on_peer_connected id name = refresh_list

  unfoldable pub on_peer_disconnected : ℤ → Reader (Peer K M V) (Unit {0})
  on_peer_disconnected id c =
      let refreshed = refresh_list c in
      if int_eq id c.observer.peer_id
      then (ok tt, tell (on_window (window.queue_ui_thread_callback peer_connection_closed)) c)
      else refreshed

  -- The other side agreed to a call.
  unfoldable pub start_call : ℤ → Reader (Conductor M V) (Unit {0})
  start_call peer_id = initialize_peer_connection window rtc >>= λ started.
      if started
      then modify (λ o. on_media rtc.create_offer (record o { peer_id = peer_id }))
      else modify (on_window (window.message_box not_initialized))

  -- `OnPeerResponse`: 1 agrees, -1 refuses.
  unfoldable pub response : ℤ → ℤ → Reader (Conductor M V) (Unit {0})
  response peer_id code o =
      let started = start_call peer_id o in
      if int_eq code (pos 1)
      then (if o.peer_connection
          then (ok tt, on_window (window.message_box only_one_peer) o)
          else started)
      else if int_eq code (negsuc 0)
      then (ok tt, record o { peer_id = no_peer })
      else (ok tt, o)

  unfoldable pub on_peer_response : ℤ → ℤ → Reader (Peer K M V) (Unit {0})
  on_peer_response peer_id code = ask (response peer_id code)

  -- A message that is not a candidate is a session description.
  unfoldable pub with_description : D → Conductor M V → Conductor M V
  with_description d o =
      let o' = on_media (rtc.set_remote_description d) o in
      if rtc.is_offer d then on_media rtc.create_answer o' else o'

  unfoldable pub apply_description : J → AString → Conductor M V → Conductor M V
  apply_description j type o = elim (rtc.get_string j sdp_name) [
    | none ↦ o
    | some sdp ↦ elim (rtc.create_session_description type sdp) [
      | none ↦ o
      | some d ↦ with_description d o
    ]
  ]

  unfoldable pub read_candidate : J → Option (AString × ℤ × AString)
  read_candidate j = elim (rtc.get_string j sdp_mid_name) [
    | none ↦ none
    | some mid ↦ elim (rtc.get_int j sdp_mline_index_name) [
      | none ↦ none
      | some index ↦ elim (rtc.get_string j candidate_name) [
        | none ↦ none
        | some sdp ↦ some (mid, index, sdp)
      ]
    ]
  ]

  unfoldable pub apply_candidate : J → Conductor M V → Conductor M V
  apply_candidate j o = elim (read_candidate j) [
    | none ↦ o
    | some x ↦ elim (rtc.create_ice_candidate x.0 x.1 x.2) [
      | none ↦ o
      | some i ↦ on_media (rtc.add_ice_candidate i) o
    ]
  ]

  unfoldable pub apply_message : AString → Conductor M V → Conductor M V
  apply_message message o = elim (rtc.parse message) [
    | none ↦ o
    | some j ↦
        let type = or_empty (rtc.get_string j type_name) in
        if not (str_eq type candidate_name) then apply_description j type o else apply_candidate j o
  ]

  -- The first message of a peer begins a call.
  unfoldable pub begin_call : ℤ → AString → Reader (Peer K M V) (Unit {0})
  begin_call peer_id message =
      modify (tell (λ o. record o { peer_id = peer_id }))
      >> (ask (initialize_peer_connection window rtc) >>= λ started.
          if started
          then modify (tell (apply_message message))
          else sign_out sockets fresh on_disconnected)

  unfoldable pub on_message_from_peer : ℤ → AString → Reader (Peer K M V) (Unit {0})
  on_message_from_peer peer_id message c =
      let begun = begin_call peer_id message c in
      if not c.observer.peer_connection
      then begun
      else if not (int_eq peer_id c.observer.peer_id)
      then (ok tt, c)
      else (ok tt, tell (apply_message message) c)

  unfoldable pub on_server_connection_failure : Reader (Peer K M V) (Unit {0})
  on_server_connection_failure =
      modify (tell (λ o. on_window (window.message_box (no_server o.server)) o))

  unfoldable pub post_notification : Reason → Reader (Peer K M V) (Unit {0})
  post_notification reason = modify (tell (on_window (window.post_notification reason)))

  -- The conductor as the client's observer.
  unfoldable pub conductor : Client.Observer (Peer K M V)
  conductor = record {
    on_disconnected = on_disconnected;
    on_signed_in = on_signed_in;
    is_busy = is_busy;
    on_peer_connected = on_peer_connected;
    on_peer_disconnected = on_peer_disconnected;
    on_peer_response = on_peer_response;
    on_message_from_peer = on_message_from_peer;
    on_server_connection_failure = on_server_connection_failure;
    post_notification = post_notification;
  }
