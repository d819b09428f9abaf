-- ===== src/Conductor.antt =====
-- The call that the chat client is in: Conductor (Src/Client/conductor.cpp), between the connection to the
-- server, the window and WebRTC. The window (MainWindow of Src/Client/MainFrame.h) and WebRTC with its JSON
-- reader are parameters.
pub mod Observer
pub mod Commands
mod Tests
pub mod Watching
pub mod Tidy
pub mod Messages
pub mod Civil
pub mod Actions
pub mod Runs
use p2pchat.Prelude.{
  ℕ, Bool, true, false, not, Option, none, some, List, [], if◌then◌else◌, ℤ, pos, negsuc,
}
use p2pchat.Outcome.{Outcome, ok, undefined, Reader, ◌>>=◌, ◌>>◌, modify}
use p2pchat.IniFile.{AString}
use p2pchat.Client.{Client, Reason}

-- `UI`.
pub data Ui : Type 0 where
  connect_to_server list_peers streaming : Ui

-- `CallbackID` with its data: a text that may be missing, or whether a stream has a track.
pub data Callback : Type 0 where
  peer_connection_closed : Callback
  send_message_to_peer : Option AString → Callback
  new_stream_added : Bool → Callback
  stream_removed : Callback

-- The message boxes; one names the server.
pub data Notice : Type 0 where
  no_factory no_peer_connection only_one_peer not_initialized : Notice
  no_server : AString → Notice

-- MainWindow.
pub record Window (V : Type 0) : Type 0 where
  pub is_window : V → Bool
  pub message_box : Notice → V → V
  pub current_ui : V → Ui
  pub switch_to_connect_ui : V → V
  pub switch_to_peer_list : List (ℤ × AString) → V → V
  pub switch_to_streaming_ui : V → V
  pub start_local_renderer : V → V
  pub stop_local_renderer : V → V
  pub start_remote_renderer : V → V
  pub stop_remote_renderer : V → V
  pub queue_ui_thread_callback : Callback → V → V
  pub post_notification : Reason → V → V

-- What the conductor calls of WebRTC and of the JSON reader: `J` is a JSON value, `D` a session description
-- and `I` a candidate; the local description, as the JSON text that is sent, may be missing. The calls that create something answer whether they did.
pub record WebRtc (M J D I : Type 0) : Type 0 where
  pub create_factory : M → Bool × M
  pub create_peer_connection : M → Bool × M
  pub release : M → M
  pub create_local_stream : M → M
  pub open_video_capture_device : M → Bool × M
  pub add_stream : M → M
  pub create_offer : M → M
  pub create_answer : M → M
  pub set_local_description : D → M → M
  pub set_remote_description : D → M → M
  pub is_offer : D → Bool
  pub local_description_text : M → Option AString
  pub parse : AString → Option J
  pub get_string : J → AString → Option AString
  pub get_int : J → AString → Option ℤ
  pub create_session_description : AString → AString → Option D
  pub create_ice_candidate : AString → ℤ → AString → Option I
  pub add_ice_candidate : I → M → M

-- The members; `active_streams` says whether the one stream is there.
pub record Conductor (M V : Type 0) : Type 0 where
  pub peer_id : ℤ
  pub peer_connection : Bool
  pub peer_connection_factory : Bool
  pub active_streams : Bool
  pub pending_messages : List AString
  pub server : AString
  pub media : M
  pub window : V

-- No peer.
abbrev pub no_peer : ℤ
no_peer = negsuc 0

-- The constructor.
unfoldable pub new_conductor : {M V : Type 0} → M → V → Conductor M V
new_conductor media window = record {
  peer_id = no_peer;
  peer_connection = false;
  peer_connection_factory = false;
  active_streams = false;
  pending_messages = [];
  server = [];
  media = media;
  window = window;
}

abbrev pub on_window : {M V : Type 0} → (V → V) → Conductor M V → Conductor M V
on_window call o = record o { window = call o.window }

abbrev pub on_media : {M V : Type 0} → (M → M) → Conductor M V → Conductor M V
on_media call o = record o { media = call o.media }

-- A change of the conductor behind the client.
abbrev pub tell :
    {K M V : Type 0}
    → (Conductor M V → Conductor M V)
    → Client K (Conductor M V)
    → Client K (Conductor M V)
tell change c = record c { observer = change c.observer }

module _ {M J D I V : Type 0} (window : Window V) (rtc : WebRtc M J D I) where
  unfoldable pub delete_peer_connection : Conductor M V → Conductor M V
  delete_peer_connection o = record o {
    peer_connection = false;
    active_streams = false;
    window = window.stop_remote_renderer (window.stop_local_renderer o.window);
    peer_connection_factory = false;
    media = rtc.release o.media;
    peer_id = no_peer;
  }

  unfoldable pub create_peer_connection : Reader (Conductor M V) Bool
  create_peer_connection o =
      let (created, m) = rtc.create_peer_connection o.media in
      (ok created, record o { peer_connection = created; media = m })

  -- Where there is a camera, its picture is shown.
  unfoldable pub show_camera : Conductor M V → Conductor M V
  show_camera o =
      let (opened, m) = rtc.open_video_capture_device o.media in
      if opened
      then record o { media = m; window = window.start_local_renderer o.window }
      else record o { media = m }

  -- The stream goes to the peer connection, which may be null.
  unfoldable pub add_stream : Reader (Conductor M V) (Unit {0})
  add_stream o = if not o.peer_connection then (undefined, o) else (
    ok tt,
    record o {
      media = rtc.add_stream o.media;
      active_streams = true;
      window = window.switch_to_streaming_ui o.window;
    },
  )

  -- `AddStreams`; the factory may be null.
  unfoldable pub add_streams : Reader (Conductor M V) (Unit {0})
  add_streams o =
      let adding =
        (modify (λ o'. show_camera (on_media rtc.create_local_stream o')) >> add_stream) o in
      if o.active_streams
      then (ok tt, o)
      else if not o.peer_connection_factory
      then (undefined, o)
      else adding

  -- `CreatePeerConnection` of `InitializePeerConnection`, with its failure.
  unfoldable pub create_or_delete : Reader (Conductor M V) (Unit {0})
  create_or_delete = create_peer_connection >>= λ created.
      if created
      then modify (λ o. o)
      else modify
          (λ o. delete_peer_connection (on_window (window.message_box no_peer_connection) o))

  unfoldable pub initialize_peer_connection : Reader (Conductor M V) Bool
  initialize_peer_connection o =
      let (made, m) = rtc.create_factory o.media in
      let o' = record o { peer_connection_factory = made; media = m } in
      let begun = (create_or_delete >> add_streams >> (λ o''. (ok o''.peer_connection, o''))) o' in
      if not made
      then (ok false, delete_peer_connection (on_window (window.message_box no_factory) o'))
      else begun
