-- ===== src/Session/Sent.antt =====
-- Bytes that have been queued for a client, packet by packet (`SendPacket` of
-- Src/Server/Protocol/cProtocol_impl.cpp), and the clients to which every packet of the server can be
-- sent.
use p2pchat.Prelude.{
  ℕ, ◌^◌, ◌<◌, ◌≤◌, ◌≡◌, refl, sym, ◌∙◌, ap, subst, true, Bool-cases, inl, inr, List, [], ◌∷◌, ◌++◌,
  length, length-append, append_assoc, append-nil, arith,
}
use p2pchat.Outcome.{Outcome, ok}
use p2pchat.IniFile.{AString}
use p2pchat.ByteBuffer.{ByteBuffer}
use p2pchat.ByteBuffer.VarInt.Groups.{groups, groups_shape}
use p2pchat.Session.{
  State, connected, authenticating, authenticated, working, destroying, destroyed, rank,
  ClientHandle, var_int32, string, send_data,
}
use p2pchat.Session.Packets.{
  IsBlank, IsReady, Delivered, with_scratch, fields_bytes, payload, frame, packet-Delivered,
}
use p2pchat.Session.Cores.{Core, core}
use p2pchat.Session.Sending.{send_user_info}

-- `bytes` are queued for the client, unless it has been sent its disconnect, and nothing else happens
-- to it but in the memory of the two buffers.
pub record Sent (bytes : List ℕ) (c c' : ClientHandle) : Type 0 where
  pub out : ByteBuffer
  pub len : ByteBuffer
  pub out_blank : IsBlank 65536 out
  pub len_blank : IsBlank 20 len
  pub result : c' ≡ with_scratch out len (send_data bytes c)

pub Delivered-Sent :
    (c : ClientHandle) (bytes : List ℕ) (r : Outcome (Unit {0}) × ClientHandle)
    → Delivered c bytes r
    → (r.0 ≡ ok tt) × Sent bytes c r.1
Delivered-Sent c bytes r d = (
  ap (λ x. x.0) d.result,
  record {
    out = d.out;
    len = d.len;
    out_blank = d.out_blank;
    len_blank = d.len_blank;
    result = ap (λ x. x.1) d.result;
  },
)

send_data-append :
    (xs ys : List ℕ) (c : ClientHandle)
    → (send_data ys (send_data xs c)).outgoing_data ≡ (send_data (xs ++ ys) c).outgoing_data
unfolding send_data
send_data-append xs ys c = elim (Bool-cases c.has_sent_dc) [
  | inl e ↦ rw e refl
  | inr e ↦ rw e (append_assoc c.outgoing_data xs ys)
]

pub Sent-trans :
    (xs ys : List ℕ) (a b c : ClientHandle) → Sent xs a b → Sent ys b c → Sent (xs ++ ys) a c
unfolding send_data
Sent-trans xs ys a b c s t = record {
  out = t.out;
  len = t.len;
  out_blank = t.out_blank;
  len_blank = t.len_blank;
  result =
      t.result
      ∙ ap (λ x. with_scratch t.out t.len (send_data ys x)) s.result
      ∙ ap (λ o. record (with_scratch t.out t.len a) { outgoing_data = o })
          (send_data-append xs ys a);
}

send_data-nil : (c : ClientHandle) → (send_data [] c).outgoing_data ≡ c.outgoing_data
unfolding send_data
send_data-nil c = elim (Bool-cases c.has_sent_dc) [
  | inl e ↦ rw e refl
  | inr e ↦ rw e (append-nil c.outgoing_data)
]

pub Sent-nil : (c : ClientHandle) → IsReady c → Sent [] c c
unfolding send_data
Sent-nil c ready = record {
  out = c.protocol.out_packet_buffer;
  len = c.protocol.out_packet_len_buffer;
  out_blank = ready.out;
  len_blank = ready.len;
  result = ap (λ o. record c { outgoing_data = o }) (sym (send_data-nil c));
}

send_data-silent :
    (bytes : List ℕ) (c : ClientHandle)
    → c.has_sent_dc ≡ true
    → (send_data bytes c).outgoing_data ≡ c.outgoing_data
unfolding send_data
send_data-silent bytes c e = rw e refl

-- After the disconnect nothing is queued.
pub Sent-marked :
    (bytes : List ℕ) (c : ClientHandle) → c.has_sent_dc ≡ true → IsReady c → Sent bytes c c
unfolding send_data
Sent-marked bytes c e ready = record {
  out = c.protocol.out_packet_buffer;
  len = c.protocol.out_packet_len_buffer;
  out_blank = ready.out;
  len_blank = ready.len;
  result = ap (λ o. record c { outgoing_data = o }) (sym (send_data-silent bytes c e));
}

pub Sent-core : (bytes : List ℕ) (c c' : ClientHandle) → Sent bytes c c' → core c' ≡ core c
unfolding send_data
Sent-core bytes c c' s = ap core s.result

-- A client whose name and number fit into the packets.
pub record IsFit (c : ClientHandle) : Type 0 where
  pub ready : IsReady c
  pub named : length c.username ≤ 65000
  pub numbered : c.unique_id < 2 ^ 32

pub Sent-IsFit : (bytes : List ℕ) (c c' : ClientHandle) → Sent bytes c c' → IsFit c → IsFit c'
unfolding send_data
Sent-IsFit bytes c c' s fit = subst IsFit (sym s.result) (record {
  ready = record { out = s.out_blank; len = s.len_blank };
  named = fit.named;
  numbered = fit.numbered;
})

-- What `BroadcastUserInfo` says of a client.
abbrev pub info : Core → List ℕ
info k =
    frame (payload 0x01 (var_int32 k.unique_id ∷ string k.username ∷ var_int32 (rank k.state) ∷ []))

rank_lt : (state : State) → rank state < 6
rank_lt connected = omega arith
rank_lt authenticating = omega arith
rank_lt authenticated = omega arith
rank_lt working = omega arith
rank_lt destroying = omega arith
rank_lt destroyed = omega arith

-- A number, a text of up to 65,000 bytes and a number fit.
string_fits :
    (type a b : ℕ) (s : AString)
    → type < 2 ^ 32
    → a < 2 ^ 32
    → b < 2 ^ 32
    → length s ≤ 65000
    → length (payload type (var_int32 a ∷ string s ∷ var_int32 b ∷ [])) ≤ 65536
string_fits type a b s ht ha hb hs = omega (
  arith,
  length-append (groups 4 type) (fields_bytes (var_int32 a ∷ string s ∷ var_int32 b ∷ [])),
  length-append (groups 4 a) (fields_bytes (string s ∷ var_int32 b ∷ [])),
  length-append (groups 4 (length s) ++ s) (fields_bytes (var_int32 b ∷ [])),
  length-append (groups 4 (length s)) s,
  length-append (groups 4 b) [],
  groups_shape 4 type (omega arith),
  groups_shape 4 a (omega arith),
  groups_shape 4 b (omega arith),
  groups_shape 4 (length s) (omega arith),
)

-- One client is told of another one.
pub send_user_info-Sent :
    (who c : ClientHandle)
    → IsFit who
    → IsReady c
    → ((send_user_info who c).0 ≡ ok tt) × Sent (info (core who)) c (send_user_info who c).1
unfolding send_user_info
send_user_info-Sent who c fit ready =
    let small : rank who.state < 2 ^ 32 = omega (arith, rank_lt who.state) in
    Delivered-Sent c (info (core who)) (send_user_info who c) (
      packet-Delivered c 0x01
        (var_int32 who.unique_id ∷ string who.username ∷ var_int32 (rank who.state) ∷ []) ready
        (omega arith) (fit.numbered, (omega (arith, fit.named), (small, tt)))
        (string_fits 0x01 who.unique_id (rank who.state) who.username (omega arith) fit.numbered
          small fit.named))
