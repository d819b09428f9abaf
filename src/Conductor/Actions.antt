-- ===== src/Conductor/Actions.antt =====
-- A whole chat client: what the network, the user, the window and WebRTC make it do, in any order
-- (Src/Client/conductor.cpp and Src/Client/peer_connection_client.cpp).
use p2pchat.Prelude.{ℕ, Bool, List, [], ◌∷◌, ℤ}
use p2pchat.Outcome.{Reader, ◌>>◌, modify}
use p2pchat.IniFile.{AString}
use p2pchat.Client.{Sockets}
use p2pchat.Client.Events.{Event, connects, run}
use p2pchat.Client.Events as Events
use p2pchat.Conductor.{Callback, Window, WebRtc}
use p2pchat.Conductor.Observer.{Peer, conductor}
use p2pchat.Conductor.Commands.{
  start_login, disconnect_from_server, connect_to_peer, disconnect_from_current_peer,
  ui_thread_callback, queue_callback, on_ice_gathering_change, on_success, close_conductor,
}

-- What can happen; a description that WebRTC has made comes to `describes`.
pub data Action (D : Type 0) : Type 0 where
  network : Event → Action D
  logs_in : AString → AString → AString → Action D
  logs_out calls_off closes_down : Action D
  calls : ℤ → Action D
  callback : Callback → Action D
  queues : Callback → Action D
  gathers : Bool → Action D
  describes : D → Action D

module _ {K M J D I V : Type 0} (sockets : Sockets K) (fresh : ℕ → List ℕ) (window : Window V)
    (rtc : WebRtc M J D I) where
  unfoldable pub act : Action D → Reader (Peer K M V) (Unit {0})
  act (network e) = Events.step sockets fresh (conductor sockets fresh window rtc) e
  act (logs_in server username password) =
      start_login sockets fresh window rtc server username password
  act logs_out = disconnect_from_server sockets fresh window rtc
  act calls_off = disconnect_from_current_peer sockets fresh window rtc
  act closes_down = close_conductor sockets fresh window rtc
  act (calls peer_id) = connect_to_peer sockets fresh window rtc peer_id
  act (callback c) = ui_thread_callback sockets fresh window rtc c
  act (queues c) = queue_callback sockets fresh window rtc c
  act (gathers complete) = on_ice_gathering_change sockets fresh window rtc complete
  act (describes d) = on_success sockets fresh window rtc d

  unfoldable pub act_all : List (Action D) → Reader (Peer K M V) (Unit {0})
  act_all [] = modify (λ c. c)
  act_all (a ∷ more) = act a >> act_all more
