-- ===== src/Conductor/Tidy.antt =====
-- The beginning and the end of a call (`InitializePeerConnection` and `DeletePeerConnection` of
-- Src/Client/conductor.cpp).
use p2pchat.Prelude.{
  ◌≡◌, refl, ap, ◌∙◌, Bool, true, false, not, Bool-cases, inl, inr, if◌then◌else◌, ℤ,
}
use p2pchat.Outcome.{Outcome, ok, undefined, Reader, ◌>>◌}
use p2pchat.Conductor.{
  Window, WebRtc, Conductor, no_peer, no_peer_connection, on_window, on_media,
  delete_peer_connection, create_peer_connection, show_camera, add_stream, add_streams,
  create_or_delete, initialize_peer_connection,
}

-- Without a connection to the peer there is no peer and no stream; with one there is a factory.
pub record Tidy (peer_id : ℤ) (peer_connection factory streams : Bool) : Type 0 where
  pub alone : peer_connection ≡ false → peer_id ≡ no_peer
  pub silent : peer_connection ≡ false → streams ≡ false
  pub made : peer_connection ≡ true → factory ≡ true

abbrev pub IsTidy : {M V : Type 0} → Conductor M V → Type 0
IsTidy o = Tidy o.peer_id o.peer_connection o.peer_connection_factory o.active_streams

module _ {M J D I V : Type 0} (window : Window V) (rtc : WebRtc M J D I) where
  pub delete_peer_connection-IsTidy :
      (o : Conductor M V) → IsTidy (delete_peer_connection window rtc o)
  unfolding delete_peer_connection
  delete_peer_connection-IsTidy o = record { alone = λ e. refl; silent = λ e. refl; made = λ e. cc }

  show_camera-same :
      (o : Conductor M V)
      → let o' = show_camera window rtc o in
        (o'.peer_id ≡ o.peer_id)
        × (o'.peer_connection ≡ o.peer_connection)
        × (o'.peer_connection_factory ≡ o.peer_connection_factory)
  unfolding show_camera
  show_camera-same o = elim (Bool-cases (rtc.open_video_capture_device o.media).0) [
    | inl e ↦ rw (e, show_camera) (refl, refl, refl)
    | inr e ↦ rw (e, show_camera) (refl, refl, refl)
  ]

  -- How the beginning of a call ends, by what WebRTC gives: without a factory there is no call; with a
  -- factory and a connection there is one, to the same peer; a factory that gives no connection has been
  -- released when it is used.
  pub data Begun (o : Conductor M V) (r : Outcome Bool × Conductor M V) : Type 0 where
    no_call :
        (rtc.create_factory o.media).0 ≡ false
        → r.1.peer_connection_factory ≡ false
        → r.0 ≡ ok false
        → r.1.peer_connection ≡ false
        → r.1.peer_id ≡ no_peer
        → r.1.active_streams ≡ false
        → Begun o r
    call :
        (rtc.create_factory o.media).0 ≡ true
        → (rtc.create_peer_connection (rtc.create_factory o.media).1).0 ≡ true
        → r.0 ≡ ok true
        → r.1.peer_connection ≡ true
        → r.1.peer_connection_factory ≡ true
        → r.1.active_streams ≡ true
        → r.1.peer_id ≡ o.peer_id
        → Begun o r
    crash :
        (rtc.create_factory o.media).0 ≡ true
        → (rtc.create_peer_connection (rtc.create_factory o.media).1).0 ≡ false
        → r.0 ≡ undefined
        → IsTidy r.1
        → Begun o r

  -- The streams are added to a connection.
  record Added (o : Conductor M V) (r : Outcome (Unit {0}) × Conductor M V) : Type 0 where
    with_streams : Conductor M V
    result : r ≡ (ok tt, with_streams)
    connection : with_streams.peer_connection ≡ true
    factory : with_streams.peer_connection_factory ≡ true
    streams : with_streams.active_streams ≡ true
    peer : with_streams.peer_id ≡ o.peer_id

  add_streams-Added :
      (o : Conductor M V)
      → o.peer_connection ≡ true
      → o.peer_connection_factory ≡ true
      → o.active_streams ≡ false
      → Added o (add_streams window rtc o)
  unfolding add_streams add_stream
  add_streams-Added o connection factory silent =
      let shown = show_camera window rtc (on_media rtc.create_local_stream o) in
      let (same_peer, same_connection, same_factory) =
        show_camera-same (on_media rtc.create_local_stream o) in
      record {
        with_streams = record shown {
          media = rtc.add_stream shown.media;
          active_streams = true;
          window = window.switch_to_streaming_ui shown.window;
        };
        result =
            ap
              (λ b.
                if b
                then (ok tt, o)
                else if not o.peer_connection_factory
                then (undefined, o)
                else add_stream window rtc shown)
              silent
            ∙ ap (λ b. if not b then (undefined, o) else add_stream window rtc shown) factory
            ∙ ap
                (λ b. if not b then (undefined, shown) else (
                  ok tt,
                  record shown {
                    media = rtc.add_stream shown.media;
                    active_streams = true;
                    window = window.switch_to_streaming_ui shown.window;
                  },
                ))
                (same_connection ∙ connection);
        connection = same_connection ∙ connection;
        factory = same_factory ∙ factory;
        streams = refl;
        peer = same_peer;
      }

  add_streams_crash :
      (o : Conductor M V)
      → o.peer_connection_factory ≡ false
      → o.active_streams ≡ false
      → add_streams window rtc o ≡ (undefined, o)
  unfolding add_streams
  add_streams_crash o factory silent = rw (silent, factory, add_streams) refl

  -- The connection is made, or all is released.
  created :
      (o : Conductor M V)
      → (rtc.create_peer_connection o.media).0 ≡ true
      → create_or_delete window rtc o ≡ (
        ok tt,
        record o { peer_connection = true; media = (rtc.create_peer_connection o.media).1 },
      )
  unfolding create_or_delete create_peer_connection
  created o e = rw (create_or_delete, create_peer_connection, e) refl

  abbrev unconnected : Conductor M V → Conductor M V
  unconnected o =
      on_window (window.message_box no_peer_connection)
        (record o { peer_connection = false; media = (rtc.create_peer_connection o.media).1 })

  abbrev released : Conductor M V → Conductor M V
  released o = delete_peer_connection window rtc (unconnected o)

  not_created :
      (o : Conductor M V)
      → (rtc.create_peer_connection o.media).0 ≡ false
      → create_or_delete window rtc o ≡ (ok tt, released o)
  unfolding create_or_delete create_peer_connection
  not_created o e = rw (create_or_delete, create_peer_connection, e) refl

  -- Behind the factory.
  abbrev rest : Reader (Conductor M V) Bool
  rest = create_or_delete window rtc >> add_streams window rtc >> (λ o. (ok o.peer_connection, o))

  rest-Begun :
      (o : Conductor M V)
      → (rtc.create_factory o.media).0 ≡ true
      → o.active_streams ≡ false
      → Begun o (
          rest
            (record o { peer_connection_factory = true; media = (rtc.create_factory o.media).1 }))
  unfolding delete_peer_connection
  rest-Begun o made silent =
      let m = (rtc.create_factory o.media).1 in
      let o' : Conductor M V = record o { peer_connection_factory = true; media = m } in
      elim (Bool-cases (rtc.create_peer_connection m).0) [
        | inl e ↦
            let a =
              add_streams-Added
                (record o' { peer_connection = true; media = (rtc.create_peer_connection m).1 })
                refl refl silent in
            rw (created o' e, a.result)
              (call made e (ap ok a.connection) a.connection a.factory a.streams a.peer)
        | inr e ↦
            rw (not_created o' e, add_streams_crash (released o') refl refl)
              (crash made e refl (delete_peer_connection-IsTidy (unconnected o')))
      ]

  -- From a conductor without a stream: where WebRTC gives a factory and this a connection, the call begins,
  -- with the same peer, the factory, the connection and a stream; where it gives no factory, the answer is
  -- `false` and there is no connection, no factory, no stream and no peer; where the factory gives no
  -- connection, the factory that has been released is used, which C++ leaves undefined.
  pub initialize_peer_connection-Begun :
      (o : Conductor M V)
      → o.active_streams ≡ false
      → Begun o (initialize_peer_connection window rtc o)
  unfolding initialize_peer_connection delete_peer_connection
  initialize_peer_connection-Begun o silent = elim (Bool-cases (rtc.create_factory o.media).0) [
    | inr e ↦ rw (e, initialize_peer_connection) (no_call e refl refl refl refl refl)
    | inl e ↦ rw (e, initialize_peer_connection) (rest-Begun o e silent)
  ]

  pub Begun-IsTidy : (o : Conductor M V) (r : Outcome Bool × Conductor M V) → Begun o r → IsTidy r.1
  Begun-IsTidy o r (no_call e gone answer idle alone silent) = record {
    alone = λ x. alone;
    silent = λ x. silent;
    made = λ x. cc;
  }
  Begun-IsTidy o r (call e e' answer connection factory streams peer) = record {
    alone = λ x. cc;
    silent = λ x. cc;
    made = λ x. factory;
  }
  Begun-IsTidy o r (crash e e' answer tidy) = tidy
