-- ===== src/Server/Stream/Serve.antt =====
-- A request succeeds, and its client goes on working (Src/Server/Server.cpp).
use p2pchat.Prelude.{ℕ, ◌^◌, ◌<◌, ◌≤◌, ◌≡◌, refl, ◌∙◌, ap, ◌==◌, some, length, Bool-cases, inl, inr}
use p2pchat.Outcome.{modify}
use p2pchat.IniFile.{AString}
use p2pchat.Session.{ClientHandle}
use p2pchat.Session.Sending.{forward_media, forward_media_msg, handle_keep_alive}
use p2pchat.Session.Cores.{forward_media-Same, forward_media_msg-Same, keep_alive-Same}
use p2pchat.Session.Sent.{Sent-IsFit}
use p2pchat.Server.{Server, find_client, server_forward_media, server_forward_media_msg}
use p2pchat.Server.Clients.{cores, first_with-Same, found-same}
use p2pchat.Server.Served.{AreFit, Suits, Serves, on_client-Serves}
use p2pchat.Server.Forward.{forward_media-Sent, forward_media_msg-Sent}
use p2pchat.Server.Stream.{Request, keep_alive, media, media_msg, IsRequest, serve}

-- The client is working, and every packet can be sent to every client.
pub record IsWorking (id : ℕ) (s : Server) : Type 0 where
  pub fit : AreFit s
  pub numbered : id < 2 ^ 32
  pub client : ClientHandle
  pub found : find_client id s.clients ≡ some client
  pub working : client.protocol.state ≡ 3

forward_media-Suits :
    (from_id type : ℕ) → from_id < 2 ^ 32 → type < 2 ^ 32 → Suits (forward_media from_id type)
unfolding forward_media
forward_media-Suits from_id type hf ht c fit =
    let (answer, s) = forward_media-Sent from_id type c fit.ready hf ht in
    (answer, Sent-IsFit _ c _ s fit)

forward_media_msg-Suits :
    (from_id : ℕ) (msg : AString)
    → from_id < 2 ^ 32
    → length msg ≤ 65000
    → Suits (forward_media_msg from_id msg)
forward_media_msg-Suits from_id msg hf hm c fit =
    let (answer, s) = forward_media_msg-Sent from_id msg c fit.ready hf hm in
    (answer, Sent-IsFit _ c _ s fit)

keep_alive-Suits : (now n : ℕ) → Suits (modify (handle_keep_alive now n))
unfolding handle_keep_alive
keep_alive-Suits now n c fit = elim (Bool-cases (n == c.ping_id)) [
  | inl e ↦ (
    refl,
    rw e (record {
      ready = record { out = fit.ready.out; len = fit.ready.len };
      named = fit.named;
      numbered = fit.numbered;
    }),
  )
  | inr e ↦ (refl, rw e fit)
]

pub serve-Serves :
    (now id : ℕ) (q : Request) (s : Server)
    → id < 2 ^ 32
    → IsRequest q
    → AreFit s
    → Serves s (serve now id q s)
unfolding server_forward_media server_forward_media_msg
serve-Serves now id (keep_alive n) s hid h fit =
    on_client-Serves id (modify (handle_keep_alive now n)) s (keep_alive-Suits now n) fit
serve-Serves now id (media to_id type) s hid (ht, hy) fit =
    on_client-Serves to_id (forward_media id type) s (forward_media-Suits id type hid hy) fit
serve-Serves now id (media_msg to_id msg) s hid (ht, hm) fit =
    on_client-Serves to_id (forward_media_msg id msg) s (forward_media_msg-Suits id msg hid hm) fit

serve-same :
    (now id : ℕ) (q : Request) (s : Server) → cores (serve now id q s).1.clients ≡ cores s.clients
unfolding server_forward_media server_forward_media_msg
serve-same now id (keep_alive n) s =
    first_with-Same id (modify (handle_keep_alive now n)) s.clients (keep_alive-Same now n)
serve-same now id (media to_id type) s =
    first_with-Same to_id (forward_media id type) s.clients (forward_media-Same id type)
serve-same now id (media_msg to_id msg) s =
    first_with-Same to_id (forward_media_msg id msg) s.clients (forward_media_msg-Same id msg)

pub serve-IsWorking :
    (now id : ℕ) (q : Request) (s : Server)
    → IsRequest q
    → IsWorking id s
    → IsWorking id (serve now id q s).1
serve-IsWorking now id q s h w =
    let (client, found, same) =
      found-same id s.clients _ w.client w.found (serve-same now id q s) in
    record {
      fit = (serve-Serves now id q s w.numbered h w.fit).fit;
      numbered = w.numbered;
      client = client;
      found = found;
      working = ap (λ k. k.protocol_state) same ∙ w.working;
    }
