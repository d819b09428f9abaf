-- ===== src/Conductor/Runs.antt =====
-- What holds of a whole chat client, whatever happens to it (Src/Client/conductor.cpp and
-- Src/Client/peer_connection_client.cpp).
use p2pchat.Prelude.{
  ℕ, refl, sym, subst, Bool, true, false, Bool-cases, inl, inr, Option, none, some, List, [], ◌∷◌,
  ℤ, if◌then◌else◌,
}
use p2pchat.Outcome.{ok, undefined, Reader, ◌>>◌, modify}
use p2pchat.IniFile.{AString}
use p2pchat.Client.{
  Sockets, default_port, sign_out, request_to_peer, send_to_peer, send_hang_up, is_sending_message,
  bye_message, new_peer_client,
}
use p2pchat.Client.Events.{Event, connects, run}
use p2pchat.Client.Events as Events
use p2pchat.Client.Keeps.{Keeps, bind-Keeps, then-Keeps, choice-keeps}
use p2pchat.Client.Sound.{sign_out-IsSound, packet-IsSound}
use p2pchat.Client.Sound.Events.{
  connect-IsSound, step-IsSound, is_sending_message-IsSound, new_peer_client-IsSound,
}
use p2pchat.Conductor.{
  Callback, peer_connection_closed, send_message_to_peer, new_stream_added, stream_removed, Window,
  WebRtc, Conductor, no_peer, new_conductor, on_window, on_media, tell, delete_peer_connection,
}
use p2pchat.Conductor.Tidy.{IsTidy}
use p2pchat.Conductor.Observer.{Peer, conductor, on_disconnected}
use p2pchat.Conductor.Commands.{
  start_login, disconnect_from_server, connect_to_peer, disconnect_from_current_peer,
  on_call_closed, send_pending, queued, on_send_message, ui_thread_callback, queue_callback,
  send_message, send_description, on_ice_gathering_change, on_success, close_conductor,
}
use p2pchat.Conductor.Civil.{
  IsWell, retell-IsWell, tell-IsWell, deleted-IsWell, on_disconnected-IsWell, conductor-IsCivil,
}
use p2pchat.Conductor.Actions.{
  Action, network, logs_in, logs_out, calls_off, closes_down, calls, callback, queues, gathers,
  describes, act, act_all,
}

if-IsWell :
    {K M V : Type 0} (b : Bool) (c c' : Peer K M V)
    → IsWell c
    → IsWell c'
    → IsWell (if b then c else c')
if-IsWell true c c' h g = h
if-IsWell false c c' h g = g

choose-IsTidy :
    {M V : Type 0} (b : Bool) (o o' : Conductor M V)
    → IsTidy o
    → IsTidy o'
    → IsTidy (if b then o else o')
choose-IsTidy true o o' h g = h
choose-IsTidy false o o' h g = g

-- Without a connection there is no peer anyway.
no_peer-IsTidy :
    {M V : Type 0} (o : Conductor M V)
    → IsTidy o
    → IsTidy (if o.peer_connection then o else record o { peer_id = no_peer })
no_peer-IsTidy o h =
    choose-IsTidy o.peer_connection o (record o { peer_id = no_peer }) h
      (record { alone = λ e. refl; silent = h.silent; made = h.made })

module _ {K M J D I V : Type 0} (sockets : Sockets K) (fresh : ℕ → List ℕ) (window : Window V)
    (rtc : WebRtc M J D I) where
  start_login-IsWell :
      (server username password : AString)
      → Keeps (IsWell {K = K}) (start_login sockets fresh window rtc server username password)
  unfolding start_login
  start_login-IsWell server username password = record {
    at = λ c h.
        let c' = tell (λ o. record o { server = server }) c in
        choice-keeps IsWell c.is_connected (ok tt, c)
          (Events.connect sockets fresh (conductor sockets fresh window rtc) server default_port
            username password c')
          h
          ((connect-IsSound sockets fresh IsTidy (conductor sockets fresh window rtc)
              (conductor-IsCivil sockets fresh window rtc) server default_port username password).at
            c' (retell-IsWell c c'.observer h h.watched));
  }

  sign_out-IsWell :
      Keeps (IsWell {K = K}) (sign_out sockets fresh (on_disconnected sockets fresh window rtc))
  sign_out-IsWell =
      sign_out-IsSound sockets fresh IsTidy (on_disconnected sockets fresh window rtc)
        (on_disconnected-IsWell sockets fresh window rtc)

  disconnect-IsWell : Keeps (IsWell {K = K}) (disconnect_from_server sockets fresh window rtc)
  unfolding disconnect_from_server
  disconnect-IsWell = record {
    at = λ c h. choice-keeps IsWell c.is_connected _ (ok tt, c) (sign_out-IsWell.at c h) h;
  }

  send_to_peer-IsWell :
      (peer_id : ℤ) (message : AString)
      → Keeps (IsWell {K = K} {M = M} {V = V}) (send_to_peer sockets fresh peer_id message)
  unfolding send_to_peer
  send_to_peer-IsWell peer_id message = packet-IsSound sockets fresh IsTidy 0x12 _

  -- The list of peers is shown where there is a window.
  show_list-IsWell : Keeps (IsWell {K = K} {M = M}) (
      modify (λ c.
        if window.is_window c.observer.window
        then tell (on_window (window.switch_to_peer_list c.peers)) c
        else c))
  show_list-IsWell = record {
    at = λ c h. elim (Bool-cases (window.is_window c.observer.window)) [
      | inl e ↦
          rw e (
            retell-IsWell c (on_window (window.switch_to_peer_list c.peers) c.observer) h h.watched)
      | inr e ↦ rw e h
    ];
  }

  hang_up-IsWell : Keeps (IsWell {K = K}) (disconnect_from_current_peer sockets fresh window rtc)
  unfolding disconnect_from_current_peer send_hang_up
  hang_up-IsWell =
      then-Keeps IsWell _ _
        (record {
          at = λ c h.
              choice-keeps IsWell c.observer.peer_connection
                ((send_to_peer sockets fresh c.observer.peer_id bye_message
                    >> modify (tell (delete_peer_connection window rtc)))
                  c)
                (ok tt, c)
                ((then-Keeps IsWell _ _ (send_to_peer-IsWell c.observer.peer_id bye_message)
                    (deleted-IsWell sockets fresh window rtc)).at
                  c h)
                h;
        })
        show_list-IsWell

  abbrev after_call : Reader (Peer K M V) (Unit {0})
  after_call c =
      let leaving = disconnect_from_server sockets fresh window rtc c in
      if window.is_window c.observer.window
      then (
        ok tt,
        (if c.is_connected
            then tell (on_window (window.switch_to_peer_list c.peers)) c
            else tell (on_window window.switch_to_connect_ui) c),
      )
      else leaving

  on_call_closed-IsWell : Keeps (IsWell {K = K}) (on_call_closed sockets fresh window rtc)
  unfolding on_call_closed
  on_call_closed-IsWell =
      then-Keeps IsWell _ after_call (deleted-IsWell sockets fresh window rtc) (record {
        at = λ c h.
            let listed = tell (on_window (window.switch_to_peer_list c.peers)) c in
            let unlisted = tell (on_window window.switch_to_connect_ui) c in
            choice-keeps IsWell (window.is_window c.observer.window)
              (ok tt, if c.is_connected then listed else unlisted)
              (disconnect_from_server sockets fresh window rtc c)
              (if-IsWell c.is_connected listed unlisted
                (retell-IsWell c listed.observer h h.watched)
                (retell-IsWell c unlisted.observer h h.watched))
              (disconnect-IsWell.at c h);
      })

  send_pending-IsWell :
      (messages : List AString) (sending : Bool)
      → Keeps (IsWell {K = K}) (send_pending sockets fresh window rtc messages sending)
  unfolding send_pending
  send_pending-IsWell [] sending = record { at = λ c h. h }
  send_pending-IsWell (message ∷ more) true = record { at = λ c h. h }
  send_pending-IsWell (message ∷ more) false = record {
    at = λ c h.
        (send_to_peer-IsWell c.observer.peer_id message).at
          (tell (λ o. record o { pending_messages = more }) c)
          (retell-IsWell c (record c.observer { pending_messages = more }) h h.watched);
  }

  abbrev send_next : Bool → Reader (Peer K M V) (Unit {0})
  send_next sending c = send_pending sockets fresh window rtc c.observer.pending_messages sending c

  on_send_message-IsWell :
      (message : Option AString)
      → Keeps (IsWell {K = K}) (on_send_message sockets fresh window rtc message)
  unfolding on_send_message
  on_send_message-IsWell message =
      then-Keeps IsWell _ _
        (then-Keeps IsWell _ _
          (tell-IsWell
            (λ o. record o {
              pending_messages = queued sockets fresh window rtc message o.pending_messages;
            })
            (λ o h. h))
          (bind-Keeps IsWell (is_sending_message sockets fresh) send_next
            (record {
              at = λ c h.
                  subst (λ r. IsWell r.1)
                    (sym (is_sending_message-IsSound sockets fresh IsTidy c h)) h;
            })
            (λ sending. record {
              at = λ c h. (send_pending-IsWell c.observer.pending_messages sending).at c h;
            })))
        (tell-IsWell (λ o. if o.peer_connection then o else record o { peer_id = no_peer })
          no_peer-IsTidy)

  callback-IsWell :
      (c : Callback) → Keeps (IsWell {K = K}) (ui_thread_callback sockets fresh window rtc c)
  unfolding ui_thread_callback
  callback-IsWell peer_connection_closed = on_call_closed-IsWell
  callback-IsWell (send_message_to_peer message) = on_send_message-IsWell message
  callback-IsWell (new_stream_added has_track) = record {
    at = λ c h.
        let shown = tell (on_window window.start_remote_renderer) c in
        if-IsWell has_track shown c (retell-IsWell c shown.observer h h.watched) h;
  }
  callback-IsWell stream_removed = record { at = λ c h. h }

  queue-IsWell : (c : Callback) → Keeps (IsWell {K = K}) (queue_callback sockets fresh window rtc c)
  unfolding queue_callback
  queue-IsWell c = tell-IsWell (on_window (window.queue_ui_thread_callback c)) (λ o h. h)

  description-IsWell :
      (text : Option AString)
      → Keeps (IsWell {K = K}) (send_description sockets fresh window rtc text)
  unfolding send_description send_message
  description-IsWell none = record { at = λ c h. h }
  description-IsWell (some text) = queue-IsWell (send_message_to_peer (some text))

  gathers-IsWell :
      (complete : Bool)
      → Keeps (IsWell {K = K}) (on_ice_gathering_change sockets fresh window rtc complete)
  unfolding on_ice_gathering_change
  gathers-IsWell complete = record {
    at = λ c h.
        let sent =
          send_description sockets fresh window rtc (rtc.local_description_text c.observer.media)
            c in
        choice-keeps IsWell complete (if c.observer.peer_connection then sent else (undefined, c))
          (ok tt, c)
          (choice-keeps IsWell c.observer.peer_connection sent (undefined, c)
            ((description-IsWell (rtc.local_description_text c.observer.media)).at c h) h)
          h;
  }

  describes-IsWell : (d : D) → Keeps (IsWell {K = K}) (on_success sockets fresh window rtc d)
  unfolding on_success
  describes-IsWell d = record {
    at = λ c h.
        let set = tell (on_media (rtc.set_local_description d)) c in
        choice-keeps IsWell c.observer.peer_connection (ok tt, set) (undefined, c)
          (retell-IsWell c set.observer h h.watched) h;
  }

  close-IsWell : Keeps (IsWell {K = K}) (close_conductor sockets fresh window rtc)
  unfolding close_conductor
  close-IsWell = then-Keeps IsWell _ _ sign_out-IsWell (deleted-IsWell sockets fresh window rtc)

  act-IsWell : (a : Action D) → Keeps (IsWell {K = K}) (act sockets fresh window rtc a)
  unfolding act connect_to_peer request_to_peer
  act-IsWell (network e) =
      step-IsSound sockets fresh IsTidy (conductor sockets fresh window rtc)
        (conductor-IsCivil sockets fresh window rtc) e
  act-IsWell (logs_in server username password) = start_login-IsWell server username password
  act-IsWell logs_out = disconnect-IsWell
  act-IsWell calls_off = hang_up-IsWell
  act-IsWell closes_down = close-IsWell
  act-IsWell (calls peer_id) = packet-IsSound sockets fresh IsTidy 0x11 _
  act-IsWell (callback c) = callback-IsWell c
  act-IsWell (queues c) = queue-IsWell c
  act-IsWell (gathers complete) = gathers-IsWell complete
  act-IsWell (describes d) = describes-IsWell d

  act_all-IsWell :
      (actions : List (Action D))
      → Keeps (IsWell {K = K}) (act_all sockets fresh window rtc actions)
  unfolding act_all
  act_all-IsWell [] = record { at = λ c h. h }
  act_all-IsWell (a ∷ more) = then-Keeps IsWell _ _ (act-IsWell a) (act_all-IsWell more)

  -- A chat client that starts, whatever the network, the user, the window and WebRTC make it do, in any
  -- order, and also where something stops early: its connection to the server rests in one of four
  -- states, follows the protocol in its states 1 to 3, keeps the peers in the order of their numbers
  -- without repeats, and has no number of its own; and without a connection to a peer the conductor names
  -- no peer and has no stream, and with one it has a factory.
  pub act_all-Tidy :
      (actions : List (Action D)) (media : M) (v : V)
      → IsWell
          (act_all sockets fresh window rtc actions
            (new_peer_client {K = K} fresh (new_conductor media v))).1
  unfolding new_conductor
  act_all-Tidy actions media v =
      (act_all-IsWell actions).at (new_peer_client fresh (new_conductor media v)) (
        new_peer_client-IsSound K fresh IsTidy (new_conductor media v)
          (record { alone = λ e. refl; silent = λ e. refl; made = λ e. cc }))
