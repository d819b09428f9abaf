-- ===== src/Conductor/Watching.antt =====
-- The conductor as the observer of the client's connection (Src/Client/conductor.cpp): during a call, the
-- messages of the server change nothing of the client but the conductor.
use p2pchat.Prelude.{
  ℕ, ◌≡◌, refl, ap, ◌∙◌, true, not, Bool-cases, inl, inr, List, ℤ, pos, negsuc, if◌then◌else◌,
}
use p2pchat.Outcome.{ok}
use p2pchat.IniFile.{AString}
use p2pchat.ByteBuffer.{ByteBuffer}
use p2pchat.Client.{Sockets}
use p2pchat.Client.Handlers.{int_eq}
use p2pchat.Client.Stream.{with_received, IsCalm, IsWatching}
use p2pchat.Conductor.{Window, WebRtc, Conductor, only_one_peer, no_peer, on_window}
use p2pchat.Conductor.Observer.{
  Peer, is_listing, is_busy, refresh_list, on_peer_connected, on_peer_disconnected,
  on_peer_response, response, on_message_from_peer, apply_message, conductor,
}
use p2pchat.Conductor.Messages.{apply_message-same}

-- A call is going on.
abbrev pub IsInCall : {M V : Type 0} → Conductor M V → Type 0
IsInCall o = o.peer_connection ≡ true

module _ {K M J D I V : Type 0} (sockets : Sockets K) (fresh : ℕ → List ℕ) (window : Window V)
    (rtc : WebRtc M J D I) where
  refresh_list-IsInCall :
      (c : Peer K M V)
      → IsInCall c.observer
      → IsInCall (refresh_list sockets fresh window rtc c).1.observer
  unfolding refresh_list
  refresh_list-IsInCall c h = elim (Bool-cases (is_listing (window.current_ui c.observer.window))) [
    | inl e ↦ rw (e, refresh_list) h
    | inr e ↦ rw (e, refresh_list) h
  ]

  refresh_list_apart :
      (c : Peer K M V) (b : ByteBuffer)
      → refresh_list sockets fresh window rtc (with_received b c) ≡ (
        ok tt,
        record (with_received b c) {
          observer = (refresh_list sockets fresh window rtc c).1.observer;
        },
      )
  unfolding refresh_list
  refresh_list_apart c b = elim (Bool-cases (is_listing (window.current_ui c.observer.window))) [
    | inl e ↦ rw (e, refresh_list) refl
    | inr e ↦ rw (e, refresh_list) refl
  ]

  refresh_list-IsCalm : IsCalm {K = K} IsInCall (refresh_list sockets fresh window rtc)
  refresh_list-IsCalm = record {
    behind = λ c. (refresh_list sockets fresh window rtc c).1.observer;
    keeps = refresh_list-IsInCall;
    result = λ c b h. refresh_list_apart c b;
  }

  on_peer_disconnected-IsCalm :
      (id : ℤ) → IsCalm {K = K} IsInCall (on_peer_disconnected sockets fresh window rtc id)
  unfolding on_peer_disconnected
  on_peer_disconnected-IsCalm id = record {
    behind = λ c. (on_peer_disconnected sockets fresh window rtc id c).1.observer;
    keeps = λ c h. elim (Bool-cases (int_eq id c.observer.peer_id)) [
      | inl e ↦ rw (e, on_peer_disconnected) h
      | inr e ↦ rw (e, on_peer_disconnected) (refresh_list-IsInCall c h)
    ];
    result = λ c b h. elim (Bool-cases (int_eq id c.observer.peer_id)) [
      | inl e ↦ rw (e, on_peer_disconnected) refl
      | inr e ↦ rw (e, on_peer_disconnected) (refresh_list_apart c b)
    ];
  }

  -- During a call, an agreement only shows a message box.
  response_lem :
      (peer_id code : ℤ) (o : Conductor M V)
      → IsInCall o
      → (o' : Conductor M V) × (response sockets fresh window rtc peer_id code o ≡ (ok tt, o'))
        × IsInCall o'
  unfolding response
  response_lem peer_id code o h = elim (Bool-cases (int_eq code (pos 1))) [
    | inl e ↦ (on_window (window.message_box only_one_peer) o, rw (e, h, response) refl, h)
    | inr e ↦ elim (Bool-cases (int_eq code (negsuc 0))) [
      | inl e' ↦ (record o { peer_id = no_peer }, rw (e, e', response) refl, h)
      | inr e' ↦ (o, rw (e, e', response) refl, h)
    ]
  ]

  on_peer_response-IsCalm :
      (peer_id code : ℤ)
      → IsCalm {K = K} IsInCall (on_peer_response sockets fresh window rtc peer_id code)
  unfolding on_peer_response
  on_peer_response-IsCalm peer_id code = record {
    behind = λ c. (response sockets fresh window rtc peer_id code c.observer).1;
    keeps = λ c h.
        let (o', e, h') = response_lem peer_id code c.observer h in
        ap (λ r. r.1.peer_connection) e ∙ h';
    result = λ c b h.
        let (o', e, h') = response_lem peer_id code c.observer h in
        ap
          (λ r. (
            r,
            record (with_received b c) {
              observer = (response sockets fresh window rtc peer_id code c.observer).1;
            },
          ))
          (ap (λ r. r.0) e);
  }

  on_message-IsCalm :
      (peer_id : ℤ) (message : AString)
      → IsCalm {K = K} IsInCall (on_message_from_peer sockets fresh window rtc peer_id message)
  unfolding on_message_from_peer
  on_message-IsCalm peer_id message = record {
    behind = λ c.
        (if not (int_eq peer_id c.observer.peer_id)
          then c.observer
          else apply_message sockets fresh window rtc message c.observer);
    keeps = λ c h. elim (Bool-cases (not (int_eq peer_id c.observer.peer_id))) [
      | inl e ↦ rw e h
      | inr e ↦
          rw e (ap (λ x. x.1) (apply_message-same sockets fresh window rtc message c.observer) ∙ h)
    ];
    result = λ c b h. elim (Bool-cases (not (int_eq peer_id c.observer.peer_id))) [
      | inl e ↦ rw (h, e, on_message_from_peer) refl
      | inr e ↦ rw (h, e, on_message_from_peer) refl
    ];
  }

  -- During a call, the conductor is an observer whose answers to the messages of the server change the
  -- conductor alone.
  pub conductor-IsWatching : IsWatching {K = K} IsInCall (conductor sockets fresh window rtc)
  unfolding conductor is_busy on_peer_connected
  conductor-IsWatching = record {
    busy = λ c b. refl;
    peer_connected = λ id name. refresh_list-IsCalm;
    peer_disconnected = on_peer_disconnected-IsCalm;
    peer_response = on_peer_response-IsCalm;
    message = on_message-IsCalm;
  }
