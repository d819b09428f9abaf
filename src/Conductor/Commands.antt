-- ===== src/Conductor/Commands.antt =====
-- What the window and WebRTC ask of the conductor (MainWndCallback, PeerConnectionObserver and
-- CreateSessionDescriptionObserver in Src/Client/conductor.cpp).
use p2pchat.Prelude.{ℕ, ◌++◌, Bool, false, Option, none, some, List, [], ◌∷◌, if◌then◌else◌, ℤ}
use p2pchat.Outcome.{ok, undefined, Reader, ◌>>=◌, ◌>>◌, modify}
use p2pchat.IniFile.{AString}
use p2pchat.Client.{
  Sockets, default_port, sign_out, request_to_peer, send_to_peer, send_hang_up, is_sending_message,
}
use p2pchat.Client.Events.{connect}
use p2pchat.Conductor.{
  Callback, peer_connection_closed, send_message_to_peer, new_stream_added, stream_removed, Window,
  WebRtc, no_peer, on_window, on_media, tell, delete_peer_connection,
}
use p2pchat.Conductor.Observer.{Peer, conductor, on_disconnected}

module _ {K M J D I V : Type 0} (sockets : Sockets K) (fresh : ℕ → List ℕ) (window : Window V)
    (rtc : WebRtc M J D I) where
  unfoldable pub start_login : AString → AString → AString → Reader (Peer K M V) (Unit {0})
  start_login server username password c =
      let connecting =
        connect sockets fresh (conductor sockets fresh window rtc) server default_port username
          password (tell (λ o. record o { server = server }) c) in
      if c.is_connected then (ok tt, c) else connecting

  unfoldable pub disconnect_from_server : Reader (Peer K M V) (Unit {0})
  disconnect_from_server c =
      let leaving = sign_out sockets fresh (on_disconnected sockets fresh window rtc) c in
      if c.is_connected then leaving else (ok tt, c)

  unfoldable pub connect_to_peer : ℤ → Reader (Peer K M V) (Unit {0})
  connect_to_peer peer_id = request_to_peer sockets fresh peer_id

  unfoldable pub disconnect_from_current_peer : Reader (Peer K M V) (Unit {0})
  disconnect_from_current_peer =
      (λ c.
        let hung_up =
          (send_hang_up sockets fresh c.observer.peer_id
              >> modify (tell (delete_peer_connection window rtc)))
            c in
        if c.observer.peer_connection then hung_up else (ok tt, c))
      >> modify (λ c.
        if window.is_window c.observer.window
        then tell (on_window (window.switch_to_peer_list c.peers)) c
        else c)

  -- The three cases of `UIThreadCallback` that do something. A call has ended:
  unfoldable pub on_call_closed : Reader (Peer K M V) (Unit {0})
  on_call_closed = modify (tell (delete_peer_connection window rtc)) >> (λ c.
      let leaving = disconnect_from_server c in
      if window.is_window c.observer.window
      then (
        ok tt,
        (if c.is_connected
            then tell (on_window (window.switch_to_peer_list c.peers)) c
            else tell (on_window window.switch_to_connect_ui) c),
      )
      else leaving)

  -- the next message that waits is sent, if none is being sent;
  unfoldable pub send_pending : List AString → Bool → Reader (Peer K M V) (Unit {0})
  send_pending (message ∷ more) false c =
      (modify (tell (λ o. record o { pending_messages = more }))
          >> send_to_peer sockets fresh c.observer.peer_id message)
        c
  send_pending _ _ c = (ok tt, c)

  abbrev pub queued : Option AString → List AString → List AString
  queued none messages = messages
  queued (some message) messages = messages ++ message ∷ []

  -- a message joins the others, and one is sent; without a call there is no peer.
  unfoldable pub on_send_message : Option AString → Reader (Peer K M V) (Unit {0})
  on_send_message message =
      modify (tell (λ o. record o { pending_messages = queued message o.pending_messages }))
      >> (is_sending_message sockets fresh >>= λ sending c.
          send_pending c.observer.pending_messages sending c)
      >> modify (tell (λ o. if o.peer_connection then o else record o { peer_id = no_peer }))

  unfoldable pub ui_thread_callback : Callback → Reader (Peer K M V) (Unit {0})
  ui_thread_callback peer_connection_closed = on_call_closed
  ui_thread_callback (send_message_to_peer message) = on_send_message message
  ui_thread_callback (new_stream_added has_track) =
      modify (λ c. if has_track then tell (on_window window.start_remote_renderer) c else c)
  ui_thread_callback stream_removed = modify (λ c. c)

  -- `OnMessageSent`, `OnAddStream` and `OnRemoveStream` queue a callback.
  unfoldable pub queue_callback : Callback → Reader (Peer K M V) (Unit {0})
  queue_callback callback = modify (tell (on_window (window.queue_ui_thread_callback callback)))

  -- `SendMessage`.
  unfoldable pub send_message : AString → Reader (Peer K M V) (Unit {0})
  send_message text = queue_callback (send_message_to_peer (some text))

  -- The description is reached through a pointer.
  unfoldable pub send_description : Option AString → Reader (Peer K M V) (Unit {0})
  send_description none c = (undefined, c)
  send_description (some text) c = send_message text c

  -- `OnIceGatheringChange`: when all candidates are there, the description is sent.
  unfoldable pub on_ice_gathering_change : Bool → Reader (Peer K M V) (Unit {0})
  on_ice_gathering_change complete c =
      let sent = send_description (rtc.local_description_text c.observer.media) c in
      if complete then (if c.observer.peer_connection then sent else (undefined, c)) else (ok tt, c)

  -- `OnSuccess` of a description that WebRTC has made.
  unfoldable pub on_success : D → Reader (Peer K M V) (Unit {0})
  on_success description c =
      if c.observer.peer_connection
      then (ok tt, tell (on_media (rtc.set_local_description description)) c)
      else (undefined, c)

  -- `Close`.
  unfoldable pub close_conductor : Reader (Peer K M V) (Unit {0})
  close_conductor =
      sign_out sockets fresh (on_disconnected sockets fresh window rtc)
      >> modify (tell (delete_peer_connection window rtc))
