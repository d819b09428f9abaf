-- ===== src/Conductor/Civil.antt =====
-- The conductor keeps its client sound, and the call tidy, whatever it is told (Src/Client/conductor.cpp).
use p2pchat.Prelude.{
  ℕ, ◌≡◌, refl, sym, subst, Bool, true, false, not, Bool-cases, inl, inr, List, ℤ, pos, negsuc,
  if◌then◌else◌,
}
use p2pchat.Outcome.{Outcome, ok, fail, undefined, exited, stuck, Reader, modify, continue}
use p2pchat.IniFile.{AString}
use p2pchat.Client.{Sockets, sign_out}
use p2pchat.Client.Handlers.{int_eq}
use p2pchat.Client.Keeps.{Keeps, continue-keeps, then-Keeps, if-Keeps, choice-keeps, case-keeps}
use p2pchat.Client.Sound.{IsSound, IsCivil, sign_out-IsSound}
use p2pchat.Conductor.{
  Window, WebRtc, Conductor, no_peer, no_server, only_one_peer, peer_connection_closed,
  not_initialized, on_window, on_media, tell, delete_peer_connection, initialize_peer_connection,
}
use p2pchat.Conductor.Tidy.{
  Tidy, IsTidy, delete_peer_connection-IsTidy, initialize_peer_connection-Begun, Begun-IsTidy,
  Begun, no_call, call, crash,
}
use p2pchat.Conductor.Messages.{apply_message-same}
use p2pchat.Conductor.Observer.{
  Peer, is_listing, on_signed_in, on_disconnected, refresh_list, on_peer_connected,
  on_peer_disconnected, on_peer_response, response, start_call, begin_call, on_message_from_peer,
  apply_message, on_server_connection_failure, post_notification, conductor,
}

not-true : (b : Bool) → not b ≡ true → b ≡ false
not-true true e = cc
not-true false e = refl

-- The client is sound, and its conductor tidy.
abbrev pub IsWell : {K M V : Type 0} → Peer K M V → Type 0
IsWell c = IsSound IsTidy c

-- The client with another conductor.
pub retell-IsWell :
    {K M V : Type 0} (c : Peer K M V) (o : Conductor M V)
    → IsWell c
    → IsTidy o
    → IsWell (record c { observer = o })
retell-IsWell c o h tidy = record {
  resting = h.resting;
  low = h.low;
  high = h.high;
  ordered = h.ordered;
  nameless = h.nameless;
  watched = tidy;
}

pub tell-IsWell :
    {K M V : Type 0} (change : Conductor M V → Conductor M V)
    → ((o : Conductor M V) → IsTidy o → IsTidy (change o))
    → Keeps (IsWell {K = K}) (modify (tell change))
tell-IsWell change keeps = record {
  at = λ c h. retell-IsWell c (change c.observer) h (keeps c.observer h.watched);
}

module _ {K M J D I V : Type 0} (sockets : Sockets K) (fresh : ℕ → List ℕ) (window : Window V)
    (rtc : WebRtc M J D I) where
  pub deleted-IsWell : Keeps (IsWell {K = K}) (modify (tell (delete_peer_connection window rtc)))
  deleted-IsWell =
      tell-IsWell (delete_peer_connection window rtc)
        (λ o h. delete_peer_connection-IsTidy window rtc o)

  refresh_list-IsWell : Keeps (IsWell {K = K}) (refresh_list sockets fresh window rtc)
  unfolding refresh_list
  refresh_list-IsWell = record {
    at = λ c h. elim (Bool-cases (is_listing (window.current_ui c.observer.window))) [
      | inl e ↦
          rw e (
            retell-IsWell c (on_window (window.switch_to_peer_list c.peers) c.observer) h h.watched)
      | inr e ↦ rw e h
    ];
  }

  abbrev connect_ui : Conductor M V → Conductor M V
  connect_ui o = if window.is_window o.window then on_window window.switch_to_connect_ui o else o

  connect_ui-IsTidy : (o : Conductor M V) → IsTidy o → IsTidy (connect_ui o)
  connect_ui-IsTidy o h = elim (Bool-cases (window.is_window o.window)) [
    | inl e ↦ rw e h
    | inr e ↦ rw e h
  ]

  pub on_disconnected-IsWell : Keeps (IsWell {K = K}) (on_disconnected sockets fresh window rtc)
  unfolding on_disconnected
  on_disconnected-IsWell =
      then-Keeps IsWell _ _ deleted-IsWell (tell-IsWell connect_ui connect_ui-IsTidy)

  apply_message-IsTidy :
      (message : AString) (o : Conductor M V)
      → IsTidy o
      → IsTidy (apply_message sockets fresh window rtc message o)
  apply_message-IsTidy message o h =
      subst (λ x. Tidy x.0 x.1 x.2 x.3)
        (sym (apply_message-same sockets fresh window rtc message o)) h

  -- Behind the beginning of a call that the other side agreed to.
  abbrev started : ℤ → Bool → Reader (Conductor M V) (Unit {0})
  started peer_id agreed =
      if agreed
      then modify (λ o. on_media rtc.create_offer (record o { peer_id = peer_id }))
      else modify (on_window (window.message_box not_initialized))

  started-IsTidy :
      (peer_id : ℤ) {o : Conductor M V} (r : Outcome Bool × Conductor M V)
      → Begun window rtc o r
      → IsTidy (continue r (started peer_id)).1
  started-IsTidy peer_id (ok true, o') (call e e' answer connection factory streams peer) = record {
    alone = λ x. cc;
    silent = λ x. cc;
    made = λ x. factory;
  }
  started-IsTidy peer_id (ok true, o') (no_call e gone answer idle alone silent) = cc
  started-IsTidy peer_id (ok true, o') (crash e e' answer tidy) = cc
  started-IsTidy peer_id (ok false, o') begun = Begun-IsTidy window rtc _ (ok false, o') begun
  started-IsTidy peer_id (fail, o') begun = Begun-IsTidy window rtc _ (fail, o') begun
  started-IsTidy peer_id (undefined, o') begun = Begun-IsTidy window rtc _ (undefined, o') begun
  started-IsTidy peer_id (exited, o') begun = Begun-IsTidy window rtc _ (exited, o') begun
  started-IsTidy peer_id (stuck, o') begun = Begun-IsTidy window rtc _ (stuck, o') begun

  begin_call-IsWell :
      (peer_id : ℤ) (message : AString) (c : Peer K M V)
      → IsWell c
      → c.observer.peer_connection ≡ false
      → IsWell (begin_call sockets fresh window rtc peer_id message c).1
  unfolding begin_call
  begin_call-IsWell peer_id message c h idle =
      let o : Conductor M V = record c.observer { peer_id = peer_id } in
      let begun = initialize_peer_connection-Begun window rtc o (h.watched.silent idle) in
      let r = initialize_peer_connection window rtc o in
      continue-keeps IsWell (r.0, record c { observer = r.1 })
        (λ started.
          if started
          then modify (tell (apply_message sockets fresh window rtc message))
          else sign_out sockets fresh (on_disconnected sockets fresh window rtc))
        (retell-IsWell c r.1 h (Begun-IsTidy window rtc o r begun))
        (λ started.
          if-Keeps IsWell started _ _
            (tell-IsWell (apply_message sockets fresh window rtc message)
              (apply_message-IsTidy message))
            (sign_out-IsSound sockets fresh IsTidy (on_disconnected sockets fresh window rtc)
              on_disconnected-IsWell))

  on_message-IsWell :
      (peer_id : ℤ) (message : AString)
      → Keeps (IsWell {K = K}) (on_message_from_peer sockets fresh window rtc peer_id message)
  unfolding on_message_from_peer
  on_message-IsWell peer_id message = record {
    at = λ c h.
        case-keeps IsWell (not c.observer.peer_connection)
          (begin_call sockets fresh window rtc peer_id message c)
          (if not (int_eq peer_id c.observer.peer_id)
            then (ok tt, c)
            else (ok tt, tell (apply_message sockets fresh window rtc message) c))
          (λ e. begin_call-IsWell peer_id message c h (not-true c.observer.peer_connection e))
          (λ e.
            choice-keeps IsWell (not (int_eq peer_id c.observer.peer_id)) (ok tt, c)
              (ok tt, tell (apply_message sockets fresh window rtc message) c) h
              (retell-IsWell c (apply_message sockets fresh window rtc message c.observer) h
                (apply_message-IsTidy message c.observer h.watched)));
  }

  -- A call that the other side agreed to.
  start_call-IsTidy :
      (peer_id : ℤ) (o : Conductor M V)
      → o.active_streams ≡ false
      → IsTidy (start_call sockets fresh window rtc peer_id o).1
  unfolding start_call
  start_call-IsTidy peer_id o silent =
      started-IsTidy peer_id (initialize_peer_connection window rtc o)
        (initialize_peer_connection-Begun window rtc o silent)

  response-IsTidy :
      (peer_id code : ℤ) (o : Conductor M V)
      → IsTidy o
      → IsTidy (response sockets fresh window rtc peer_id code o).1
  unfolding response
  response-IsTidy peer_id code o h =
      choice-keeps IsTidy (int_eq code (pos 1)) _ _
        (case-keeps IsTidy o.peer_connection (ok tt, on_window (window.message_box only_one_peer) o)
          (start_call sockets fresh window rtc peer_id o) (λ e. h)
          (λ e. start_call-IsTidy peer_id o (h.silent e)))
        (choice-keeps IsTidy (int_eq code (negsuc 0)) (ok tt, record o { peer_id = no_peer })
          (ok tt, o) (record { alone = λ e. refl; silent = h.silent; made = h.made }) h)

  -- With every answer of the conductor, the client stays sound and the call tidy.
  pub conductor-IsCivil : IsCivil {K = K} IsTidy (conductor sockets fresh window rtc)
  unfolding conductor on_signed_in on_peer_connected on_peer_disconnected on_peer_response
      on_server_connection_failure post_notification
  conductor-IsCivil = record {
    disconnected = on_disconnected-IsWell;
    signed_in = record {
      at = λ c h.
          retell-IsWell c (on_window (window.switch_to_peer_list c.peers) c.observer) h h.watched;
    };
    peer_connected = λ id name. refresh_list-IsWell;
    peer_disconnected = λ id. record {
      at = λ c h.
          choice-keeps IsWell (int_eq id c.observer.peer_id)
            (ok tt, tell (on_window (window.queue_ui_thread_callback peer_connection_closed)) c)
            (refresh_list sockets fresh window rtc c)
            (retell-IsWell c
              (on_window (window.queue_ui_thread_callback peer_connection_closed) c.observer) h
              h.watched)
            (refresh_list-IsWell.at c h);
    };
    peer_response = λ id code. record {
      at = λ c h.
          retell-IsWell c (response sockets fresh window rtc id code c.observer).1 h
            (response-IsTidy id code c.observer h.watched);
    };
    message = on_message-IsWell;
    failure = tell-IsWell (λ o. on_window (window.message_box (no_server o.server)) o) (λ o h. h);
    notified = λ reason. tell-IsWell (on_window (window.post_notification reason)) (λ o h. h);
  }
