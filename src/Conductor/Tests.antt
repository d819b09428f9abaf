-- ===== src/Conductor/Tests.antt =====
-- The theorems on the conductor at a window that keeps its callbacks, and at a WebRTC that makes everything.
use p2pchat.Prelude.{ℕ, refl, true, false, none, some, List, [], ◌∷◌, replicate, pos}
use p2pchat.IniFile.{AString}
use p2pchat.Client.{Sockets, cs_connected, new_peer_client}
use p2pchat.Client.Events.{connected_event, reads}
use p2pchat.Conductor.{
  Callback, peer_connection_closed, send_message_to_peer, list_peers, Window, WebRtc, Conductor,
  new_conductor, initialize_peer_connection,
}
use p2pchat.Conductor.Actions.{Action, network, logs_in, calls, callback, calls_off, act_all}
use p2pchat.Conductor.Civil.{IsWell}
use p2pchat.Conductor.Runs.{act_all-Tidy}
use p2pchat.Conductor.Tidy.{Begun, initialize_peer_connection-Begun}

abbrev zeros : ℕ → List ℕ
zeros n = replicate n 0

abbrev wire : Sockets AString
wire = record {
  create = λ address. [];
  connect = λ address k. (true, k);
  get_state = λ k. cs_connected;
  send = λ bytes k. k;
  close = λ k. k;
  is_unresolved_ip = λ address. false;
}

abbrev pane : Window (List Callback)
pane = record {
  is_window = λ v. true;
  message_box = λ notice v. v;
  current_ui = λ v. list_peers;
  switch_to_connect_ui = λ v. v;
  switch_to_peer_list = λ peers v. v;
  switch_to_streaming_ui = λ v. v;
  start_local_renderer = λ v. v;
  stop_local_renderer = λ v. v;
  start_remote_renderer = λ v. v;
  stop_remote_renderer = λ v. v;
  queue_ui_thread_callback = λ c v. c ∷ v;
  post_notification = λ reason v. v;
}

-- Its state counts the calls, and a text stands for its JSON value, its description and its candidate.
abbrev studio : WebRtc ℕ AString AString AString
studio = record {
  create_factory = λ m. (true, m);
  create_peer_connection = λ m. (true, m);
  release = λ m. m;
  create_local_stream = λ m. m;
  open_video_capture_device = λ m. (true, m);
  add_stream = λ m. m;
  create_offer = λ m. m;
  create_answer = λ m. m;
  set_local_description = λ d m. m;
  set_remote_description = λ d m. m;
  is_offer = λ d. true;
  local_description_text = λ m. some [];
  parse = λ text. some text;
  get_string = λ j name. some j;
  get_int = λ j name. some (pos 0);
  create_session_description = λ type sdp. some sdp;
  create_ice_candidate = λ mid index sdp. none;
  add_ice_candidate = λ i m. m;
}

abbrev idle : Conductor ℕ (List Callback)
idle = new_conductor 0 []

-- A login, a connection, bytes, a call, a text and the end.
abbrev evening : List (Action AString)
evening =
    logs_in (49 ∷ []) (97 ∷ []) (98 ∷ [])
    ∷ network connected_event
    ∷ network (reads ((2 ∷ 1 ∷ 1 ∷ []) ∷ []))
    ∷ calls (pos 2)
    ∷ callback (send_message_to_peer (some (104 ∷ [])))
    ∷ calls_off
    ∷ callback peer_connection_closed
    ∷ []

act_all-Tidy_example :
    IsWell (act_all wire zeros pane studio evening (new_peer_client zeros (new_conductor 0 []))).1
act_all-Tidy_example = act_all-Tidy wire zeros pane studio evening 0 []

initialize_peer_connection-Begun_example :
    Begun pane studio idle (initialize_peer_connection pane studio idle)
unfolding new_conductor
initialize_peer_connection-Begun_example = initialize_peer_connection-Begun pane studio idle refl
