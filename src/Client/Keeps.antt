-- ===== src/Client/Keeps.antt =====
-- A call that may stop keeps a predicate of the state, however it ends; the rules for the calls that the
-- client is made of (Src/Client/peer_connection_client.cpp).
use p2pchat.Prelude.{◌≡◌, refl, Bool, true, false, some, Option-cases, inl, inr, if◌then◌else◌}
use p2pchat.Outcome.{
  Outcome, ok, fail, undefined, exited, stuck, Reader, ◌>>=◌, ◌>>◌, modify, continue,
}
use p2pchat.ByteBuffer.{ByteBuffer}
use p2pchat.Framing.Reads.{handled, handle_read}
use p2pchat.Client.{Client, at_socket}

pub record Keeps {ℓ} {S : Type 0} {A : Type ℓ} (P : S → Type 0) (m : Reader S A) : Type 0 where
  pub at : (s : S) → P s → P (m s).1

module _ {S : Type 0} (P : S → Type 0) where
  pub continue-keeps {ℓ κ} :
      {A : Type ℓ} {B : Type κ} (r : Outcome A × S) (f : A → Reader S B)
      → P r.1
      → ((a : A) → Keeps P (f a))
      → P (continue r f).1
  continue-keeps (ok a, s) f h g = (g a).at s h
  continue-keeps (fail, s) f h g = h
  continue-keeps (undefined, s) f h g = h
  continue-keeps (exited, s) f h g = h
  continue-keeps (stuck, s) f h g = h

  pub bind-Keeps {ℓ κ} :
      {A : Type ℓ} {B : Type κ} (m : Reader S A) (f : A → Reader S B)
      → Keeps P m
      → ((a : A) → Keeps P (f a))
      → Keeps P (m >>= f)
  bind-Keeps m f h g = record { at = λ s p. continue-keeps (m s) f (h.at s p) g }

  pub then-Keeps {κ} :
      {B : Type κ} (m : Reader S (Unit {0})) (k : Reader S B)
      → Keeps P m
      → Keeps P k
      → Keeps P (m >> k)
  then-Keeps m k h g = bind-Keeps m (λ _. k) h (λ _. g)

  pub if-Keeps {ℓ} :
      {A : Type ℓ} (b : Bool) (m k : Reader S A)
      → Keeps P m
      → Keeps P k
      → Keeps P (if b then m else k)
  if-Keeps true m k h g = h
  if-Keeps false m k h g = g

  pub modify-Keeps : (f : S → S) → ((s : S) → P s → P (f s)) → Keeps P (modify f)
  modify-Keeps f h = record { at = h }

  -- The same for a choice of results.
  pub choice-keeps {ℓ} :
      {A : Type ℓ} (b : Bool) (r t : Outcome A × S) → P r.1 → P t.1 → P (if b then r else t).1
  choice-keeps true r t h g = h
  choice-keeps false r t h g = g

  -- The same, with what the choice says.
  pub case-keeps {ℓ} :
      {A : Type ℓ} (b : Bool) (r t : Outcome A × S)
      → (b ≡ true → P r.1)
      → (b ≡ false → P t.1)
      → P (if b then r else t).1
  case-keeps true r t h g = h refl
  case-keeps false r t h g = g refl

  pub handled-keeps : (bb : ByteBuffer) (r : Outcome (Unit {0}) × S) → P r.1 → P (handled bb r).1.1
  handled-keeps bb (ok _, s) h = h
  handled-keeps bb (fail, s) h = h
  handled-keeps bb (undefined, s) h = h
  handled-keeps bb (exited, s) h = h
  handled-keeps bb (stuck, s) h = h

  pub handle_read-keeps {ℓ} :
      {A : Type ℓ} (r : Outcome A × ByteBuffer) (act : A → Reader S (Unit {0})) (s : S)
      → P s
      → ((a : A) → Keeps P (act a))
      → P (handle_read r act s).1.1
  handle_read-keeps (ok a, bb) act s h g = handled-keeps bb (act a s) ((g a).at s h)
  handle_read-keeps (fail, bb) act s h g = h
  handle_read-keeps (undefined, bb) act s h g = h
  handle_read-keeps (exited, bb) act s h g = h
  handle_read-keeps (stuck, bb) act s h g = h

module _ {K O : Type 0} (P : Client K O → Type 0) where
  pub at_socket-Keeps {ℓ} :
      {A : Type ℓ} (call : K → Reader (Client K O) A)
      → ((k : K) (c : Client K O) → c.control_socket ≡ some k → P c → P (call k c).1)
      → Keeps P (at_socket call)
  unfolding at_socket
  at_socket-Keeps call h = record {
    at = λ c p. elim (Option-cases c.control_socket) [
      | inl e ↦ rw (e, at_socket) p
      | inr (k, e) ↦ rw (e, at_socket) (h k c e p)
    ];
  }
