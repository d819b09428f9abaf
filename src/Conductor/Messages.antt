-- ===== src/Conductor/Messages.antt =====
-- What a peer says of its session leaves the call itself as it is (`OnMessageFromPeer` of
-- Src/Client/conductor.cpp).
use p2pchat.Prelude.{ℕ, ◌≡◌, refl, Bool, not, Bool-cases, Option-cases, inl, inr, List, ℤ}
use p2pchat.IniFile.{AString, str_eq}
use p2pchat.Client.{Sockets}
use p2pchat.Conductor.{Window, WebRtc, Conductor}
use p2pchat.Conductor.Observer.{
  apply_message, apply_description, apply_candidate, read_candidate, with_description, or_empty,
  type_name, sdp_name, candidate_name,
}

-- The call: its peer, the connection, the factory and the stream.
abbrev pub call_of : {M V : Type 0} → Conductor M V → ℤ × Bool × Bool × Bool
call_of o = (o.peer_id, o.peer_connection, o.peer_connection_factory, o.active_streams)

module _ {K M J D I V : Type 0} (sockets : Sockets K) (fresh : ℕ → List ℕ) (window : Window V)
    (rtc : WebRtc M J D I) where
  with_description-same :
      (d : D) (o : Conductor M V)
      → call_of (with_description sockets fresh window rtc d o) ≡ call_of o
  unfolding with_description
  with_description-same d o = elim (Bool-cases (rtc.is_offer d)) [
    | inl e ↦ rw (e, with_description) refl
    | inr e ↦ rw (e, with_description) refl
  ]

  apply_description-same :
      (j : J) (type : AString) (o : Conductor M V)
      → call_of (apply_description sockets fresh window rtc j type o) ≡ call_of o
  unfolding apply_description
  apply_description-same j type o = elim (Option-cases (rtc.get_string j sdp_name)) [
    | inl e ↦ rw (e, apply_description) refl
    | inr (sdp, e) ↦ elim (Option-cases (rtc.create_session_description type sdp)) [
      | inl e' ↦ rw (e, e', apply_description) refl
      | inr (d, e') ↦ rw (e, e', apply_description) (with_description-same d o)
    ]
  ]

  apply_candidate-same :
      (j : J) (o : Conductor M V)
      → call_of (apply_candidate sockets fresh window rtc j o) ≡ call_of o
  unfolding apply_candidate
  apply_candidate-same j o = elim (Option-cases (read_candidate sockets fresh window rtc j)) [
    | inl e ↦ rw (e, apply_candidate) refl
    | inr (x, e) ↦ elim (Option-cases (rtc.create_ice_candidate x.0 x.1 x.2)) [
      | inl e' ↦ rw (e, e', apply_candidate) refl
      | inr (i, e') ↦ rw (e, e', apply_candidate) refl
    ]
  ]

  -- What a message says leaves the call as it is.
  pub apply_message-same :
      (message : AString) (o : Conductor M V)
      → call_of (apply_message sockets fresh window rtc message o) ≡ call_of o
  unfolding apply_message
  apply_message-same message o = elim (Option-cases (rtc.parse message)) [
    | inl e ↦ rw (e, apply_message) refl
    | inr (j, e) ↦
        let type = or_empty (rtc.get_string j type_name) in
        elim (Bool-cases (not (str_eq type candidate_name))) [
          | inl e' ↦ rw (e, e', apply_message) (apply_description-same j type o)
          | inr e' ↦ rw (e, e', apply_message) (apply_candidate-same j o)
        ]
  ]
