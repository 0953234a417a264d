-- ===== src/Gateway/Servers/Relayed.antt =====
-- The clients that addClient and onDataReceived leave in the map of the relay.
use cerios_cluster.Common.{ℕ, List, false, Option, none, some, ◌≡◌, refl, if_elim}
use cerios_cluster.Common.Outcome.{Outcome, ok, throws, undefined, endless}
use cerios_cluster.McPacket.Base.{Environment, client_bound, play}
use cerios_cluster.McPacket.VarInt.{write_buffer_length_to_front}
use cerios_cluster.McPacket.Classes.{AnyPacket}
use cerios_cluster.McPacket.Registry.{instantiate_new}
use cerios_cluster.InternalComms.{Message, get_message_id, get_player_id, get_payload, from_data}
use cerios_cluster.Gateway.Host.{Host}
use cerios_cluster.Gateway.Pointers.{touch, pointer}
use cerios_cluster.Gateway.Client.{Turn}
use cerios_cluster.Gateway.Client.Login.{same_bytes}
use cerios_cluster.Gateway.Client.Send.{send_data, send_packet}
use cerios_cluster.Gateway.Relay.{
  Clients, as_join_game, as_spawn_position, as_position_and_look, as_abilities, is_mc_packet,
  send_new, add_client, forward, handle_for, handle_message, handle_datagram, on_data_received,
}
use cerios_cluster.Gateway.Session.{Step, sent, relayed}
use cerios_cluster.Gateway.Session.Facts.{Ensures, Ensures-bind, Ensures-any}
use cerios_cluster.Gateway.Servers.Holds.{Holds, AllHold, put-AllHold, touch-AllHold, pointer-Holds}

pub Ensures-self {ℓ κ} :
    {A : Type ℓ} (P : A → Type κ) (m : Outcome A) → ((a : A) → m ≡ ok a → P a) → Ensures P m
Ensures-self P (ok a) f = f a refl
Ensures-self P (throws e) f = tt
Ensures-self P undefined f = tt
Ensures-self P endless f = tt

-- A property that every call of a client keeps is kept for all clients in the map.
module _ (h : Host) (P : Turn h.Cipher → Type 0)
    (keep : (t u : Turn h.Cipher) → P t → Step h t u → P u) where
  open h use {Cipher, deflater}

  send_new-keeps :
      (fuel : ℕ) (t : Turn Cipher) (p : Option AnyPacket) → P t → Ensures P (send_new h fuel t p)
  unfolding send_new
  send_new-keeps fuel t none r = tt
  send_new-keeps fuel t (some m) r =
      Ensures-self P (send_packet h fuel t m) (λ u e. keep t u r (sent fuel m e))

  pub add_client-AllHold :
      (fuel : ℕ) (env : Environment) (clients : Clients Cipher) (t : Turn Cipher)
      → AllHold P clients
      → P t
      → Ensures (λ (c : Clients Cipher). AllHold P c) (add_client h fuel env clients t)
  unfolding add_client
  add_client-AllHold fuel env clients t a r =
      Ensures-bind P _
        (send_new h fuel t (as_join_game (instantiate_new env client_bound play 0x01))) _
        (send_new-keeps fuel t (as_join_game (instantiate_new env client_bound play 0x01)) r)
        (λ t₁ r₁.
          Ensures-bind P _
            (send_new h fuel t₁ (as_spawn_position (instantiate_new env client_bound play 0x05))) _
            (send_new-keeps fuel t₁ (as_spawn_position (instantiate_new env client_bound play 0x05))
              r₁)
            (λ t₂ r₂.
              Ensures-bind P _
                (send_new h fuel t₂
                  (as_position_and_look (instantiate_new env client_bound play 0x08)))
                _
                (send_new-keeps fuel t₂
                  (as_position_and_look (instantiate_new env client_bound play 0x08)) r₂)
                (λ t₃ r₃.
                  Ensures-bind P _
                    (send_new h fuel t₃ (as_abilities (instantiate_new env client_bound play 0x39)))
                    _
                    (send_new-keeps fuel t₃
                      (as_abilities (instantiate_new env client_bound play 0x39)) r₃)
                    (λ t₄ r₄. put-AllHold same_bytes P t.client.userid (some t₄) clients r₄ a))))

  forward-keeps :
      (fuel : ℕ) (t : Turn Cipher) (payload : List ℕ) → P t → Ensures P (forward h fuel t payload)
  unfolding forward
  forward-keeps fuel t payload r = Ensures-any P _ _ (λ packed.
      Ensures-any P (write_buffer_length_to_front packed) _
        (λ framed. keep t (send_data h t framed) r (relayed framed)))

  handle_for-AllHold :
      (fuel : ℕ) (clients : Clients Cipher) (m : Message) (p : Option (Turn Cipher))
      → AllHold P clients
      → Holds P p
      → Ensures (λ (c : Clients Cipher). AllHold P c) (handle_for h fuel clients m p)
  unfolding handle_for
  handle_for-AllHold fuel clients m none a q = a
  handle_for-AllHold fuel clients m (some t) a r =
      if_elim (Ensures (λ (c : Clients Cipher). AllHold P c)) (is_mc_packet (get_message_id m))
        (λ s.
          Ensures-bind P _ (forward h fuel t (get_payload m)) _
            (forward-keeps fuel t (get_payload m) r)
            (λ u v. put-AllHold same_bytes P (get_player_id m) (some u) clients v a))
        (λ s. a)

  handle_datagram-AllHold :
      (fuel : ℕ) (clients : Clients Cipher) (m : Option Message)
      → AllHold P clients
      → Ensures (λ (c : Clients Cipher). AllHold P c) (handle_datagram h fuel clients m)
  unfolding handle_datagram handle_message
  handle_datagram-AllHold fuel clients none a = tt
  handle_datagram-AllHold fuel clients (some m) a =
      handle_for-AllHold fuel (touch same_bytes (get_player_id m) clients) m
        (pointer same_bytes (get_player_id m) clients)
        (touch-AllHold same_bytes P (get_player_id m) clients a)
        (pointer-Holds same_bytes P (get_player_id m) clients a)

  pub on_data_received-AllHold :
      (fuel : ℕ) (clients : Clients Cipher) (datagram : List ℕ)
      → AllHold P clients
      → Ensures (λ (c : Clients Cipher). AllHold P c) (on_data_received h fuel clients datagram)
  unfolding on_data_received
  on_data_received-AllHold fuel clients datagram a =
      Ensures-any (λ (c : Clients Cipher). AllHold P c) (from_data datagram false) _
        (λ (m, left). handle_datagram-AllHold fuel clients m a)
