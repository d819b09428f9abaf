-- ===== src/Framing/Fields.antt =====
-- The fields of a packet, read to the packet's end (Src/Server/Protocol/cProtocol_impl.cpp and
-- Src/Client/peer_connection_client.cpp).
use p2pchat.Prelude.{
  ℕ, ◌^◌, ◌<◌, ◌≡◌, refl, ◌∙◌, Bool, List, [], ◌∷◌, ◌++◌, length, append_assoc, ap,
}
use p2pchat.Outcome.{Outcome, ok, Reader, pure, ◌>>=◌}
use p2pchat.ByteBuffer.{ByteBuffer}
use p2pchat.ByteBuffer.Valid.{IsValid, view}
use p2pchat.ByteBuffer.Read.{moved}
use p2pchat.ByteBuffer.Codec.{Codec, moved_front-IsValid, moved_front-rest}
use p2pchat.ByteBuffer.VarInt.{read_var_int32}
use p2pchat.ByteBuffer.VarInt.Groups.{groups}
use p2pchat.ByteBuffer.VarInt.Codecs.{var_int32-Codec}

-- The body of a packet has been read to its end, and the extra byte is left.
pub record ReadOff {A : Type 0} (a : A) (r : Outcome A × ByteBuffer) : Type 0 where
  pub left : ByteBuffer
  pub valid : IsValid left
  pub one : (view left).rest ≡ 0 ∷ []
  pub result : r ≡ (ok a, left)

-- One field.
module _ {V : Type 0} {InRange : V → Type 0} {write : V → ByteBuffer → Bool × ByteBuffer}
    {read : Reader ByteBuffer V} {bytes : V → List ℕ} (codec : Codec InRange write read bytes) where
  pub read_one :
      (bb : ByteBuffer) (v : V)
      → IsValid bb
      → InRange v
      → (view bb).rest ≡ bytes v ++ 0 ∷ []
      → ReadOff v (read bb)
  read_one bb v valid h e = record {
    left = moved bb (length (bytes v));
    valid = moved_front-IsValid bb (bytes v) (0 ∷ []) valid e;
    one = moved_front-rest bb (bytes v) (0 ∷ []) valid e;
    result = codec.reads bb v (0 ∷ []) valid h e;
  }

  -- A number and a field.
  pub read_two :
      (bb : ByteBuffer) (n : ℕ) (v : V)
      → IsValid bb
      → n < 2 ^ 32
      → InRange v
      → (view bb).rest ≡ (groups 4 n ++ bytes v) ++ 0 ∷ []
      → ReadOff {A = ℕ × V} (n, v) ((do a ← read_var_int32; b ← read; pure (a, b)) bb)
  read_two bb n v valid hn h e =
      let e' : (view bb).rest ≡ groups 4 n ++ (bytes v ++ 0 ∷ []) =
        e ∙ append_assoc (groups 4 n) (bytes v) (0 ∷ []) in
      let second =
        read_one (moved bb (length (groups 4 n))) v (moved_front-IsValid bb (groups 4 n) _ valid e')
          h (moved_front-rest bb (groups 4 n) _ valid e') in
      record {
        left = second.left;
        valid = second.valid;
        one = second.one;
        result =
            rw (var_int32-Codec.reads bb n (bytes v ++ 0 ∷ []) valid hn e', second.result) refl;
      }

  -- A number, a field and a number.
  pub read_three :
      (bb : ByteBuffer) (n : ℕ) (v : V) (m : ℕ)
      → IsValid bb
      → n < 2 ^ 32
      → InRange v
      → m < 2 ^ 32
      → (view bb).rest ≡ (groups 4 n ++ (bytes v ++ groups 4 m)) ++ 0 ∷ []
      → ReadOff {A = ℕ × V × ℕ}
          (n, v, m)
          ((do a ← read_var_int32; b ← read; c ← read_var_int32; pure (a, b, c)) bb)
  read_three bb n v m valid hn h hm e =
      let rest = groups 4 m ++ 0 ∷ [] in
      let e' : (view bb).rest ≡ groups 4 n ++ (bytes v ++ rest) =
        e
        ∙ append_assoc (groups 4 n) (bytes v ++ groups 4 m) (0 ∷ [])
        ∙ ap (λ xs. groups 4 n ++ xs) (append_assoc (bytes v) (groups 4 m) (0 ∷ [])) in
      let b1 = moved bb (length (groups 4 n)) in
      let v1 = moved_front-IsValid bb (groups 4 n) _ valid e' in
      let e1 = moved_front-rest bb (groups 4 n) _ valid e' in
      let b2 = moved b1 (length (bytes v)) in
      let v2 = moved_front-IsValid b1 (bytes v) rest v1 e1 in
      let e2 = moved_front-rest b1 (bytes v) rest v1 e1 in
      let b3 = moved b2 (length (groups 4 m)) in
      record {
        left = b3;
        valid = moved_front-IsValid b2 (groups 4 m) (0 ∷ []) v2 e2;
        one = moved_front-rest b2 (groups 4 m) (0 ∷ []) v2 e2;
        result =
            rw
              (
                var_int32-Codec.reads bb n (bytes v ++ rest) valid hn e',
                codec.reads b1 v rest v1 h e1,
                var_int32-Codec.reads b2 m (0 ∷ []) v2 hm e2,
              )
              refl;
      }
