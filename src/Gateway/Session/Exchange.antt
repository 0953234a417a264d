-- ===== src/Gateway/Session/Exchange.antt =====
-- The facts of a session over the callbacks of the exchange with the session server.
use cerios_cluster.Common.{
  Option-cases, inl, inr, ℕ, List, [], Bool, true, not, ◌||◌, ◌≡◌, refl, if_elim,
}
use cerios_cluster.Common.Text.{codes}
use cerios_cluster.Gateway.Client.{
  Turn, socket_cancel, https_read_body, https_handshake, https_write, https_read_header,
}
use cerios_cluster.Gateway.Client.Https.{
  HeaderRead, pairs_read, refused, header_loop, stoul, get_pair, after_header, read_http_header,
  connected_to_mojang, ssl_handshake_complete, send_http_request_done,
}
use cerios_cluster.Gateway.Session.{is_connect, is_stage, any_effect}
use cerios_cluster.Gateway.Session.Facts.{IsSession, EnsuresSession, Ensures-any}
use cerios_cluster.Gateway.Session.Emits.{emit_benign, emit_stage}

module _ {seen : Bool} {Cipher : Type 0} where
  pub connected_to_mojang-IsSession :
      (t : Turn Cipher) (request : List ℕ) (error : Bool)
      → IsSession seen t
      → any_effect is_connect t.effects ≡ true
      → IsSession seen (connected_to_mojang t request error)
  unfolding connected_to_mojang
  connected_to_mojang-IsSession t request error v c = emit_stage v (https_handshake request) refl c

  pub ssl_handshake_complete-IsSession :
      (t : Turn Cipher) (request : List ℕ) (error : Bool)
      → IsSession seen t
      → any_effect is_stage t.effects ≡ true
      → IsSession seen (ssl_handshake_complete t request error)
  unfolding ssl_handshake_complete
  ssl_handshake_complete-IsSession t request error v s =
      if_elim (λ (t' : Turn Cipher). IsSession seen t') error (λ a. v)
        (λ a. emit_stage v (https_write request) refl (v.staged s))

  pub send_http_request_done-IsSession :
      (t : Turn Cipher) (error : Bool)
      → IsSession seen t
      → any_effect is_stage t.effects ≡ true
      → IsSession seen (send_http_request_done t error)
  unfolding send_http_request_done
  send_http_request_done-IsSession t error v s =
      if_elim (λ (t' : Turn Cipher). IsSession seen t') error (λ a. v)
        (λ a. emit_stage v https_read_header refl (v.staged s))

  after_header-IsSession :
      (t : Turn Cipher) (r : HeaderRead)
      → IsSession seen t
      → any_effect is_stage t.effects ≡ true
      → IsSession seen (after_header t r)
  unfolding after_header
  after_header-IsSession t refused v s = emit_benign v socket_cancel refl
  after_header-IsSession t (pairs_read pairs left) v s =
      elim (Option-cases (stoul (get_pair (codes "Content-Length") pairs))) [
        | inl p ↦ rw (p, after_header) v
        | inr (n, p) ↦
            rw (p, after_header) (emit_stage v (https_read_body n left) refl (v.staged s))
      ]

  pub read_http_header-IsSession :
      (t : Turn Cipher) (bytes : List ℕ) (error : Bool)
      → IsSession seen t
      → any_effect is_stage t.effects ≡ true
      → EnsuresSession seen (read_http_header t bytes error)
  unfolding read_http_header
  read_http_header-IsSession t bytes error v s =
      if_elim (EnsuresSession seen) (error || not t.client.alive) (λ a. v)
        (λ a.
          Ensures-any (λ (t' : Turn Cipher). IsSession seen t') (header_loop bytes [] []) _
            (λ r. after_header-IsSession t r v s))
