-- ===== src/McPacket/Registry/Keys.antt =====
-- Which class the registry of MCPacket/Packet.cpp gives for a key.
use cerios_cluster.Common.{
  ℕ, [], ◌∷◌, true, none, some, ◌≡◌, refl, ap, subst, ◌⊎◌, inl, inr, All, Bool-cases, Option-cases,
  arith, ==_iff,
}
use cerios_cluster.McPacket.Base.{
  Environment, Side, client_bound, server_bound, bi_directional, ClientState, handshake, status,
  login, play, unnamed,
}
use cerios_cluster.McPacket.Classes.{
  Class, handshake_packet, server_status_packet, ping_packet, login_start_packet, encryption_packet,
  set_compression_packet, keep_alive_packet, chat_message_packet, base_of, make,
}
use cerios_cluster.McPacket.Messages.World.{chat_id}
use cerios_cluster.McPacket.Registry.{
  Key, Registry, key, side_eq, state_eq, key_eq, find, registrate, registrate_all, registry, lookup,
  instantiate_new,
}

side_eq_sound : (a b : Side) → side_eq a b ≡ true → a ≡ b
unfolding side_eq
side_eq_sound client_bound client_bound e = refl
side_eq_sound server_bound server_bound e = refl
side_eq_sound bi_directional bi_directional e = refl
side_eq_sound client_bound server_bound e = cc
side_eq_sound client_bound bi_directional e = cc
side_eq_sound server_bound client_bound e = cc
side_eq_sound server_bound bi_directional e = cc
side_eq_sound bi_directional client_bound e = cc
side_eq_sound bi_directional server_bound e = cc

state_eq_sound : (a b : ClientState) → state_eq a b ≡ true → a ≡ b
unfolding state_eq
state_eq_sound handshake handshake e = refl
state_eq_sound status status e = refl
state_eq_sound login login e = refl
state_eq_sound play play e = refl
state_eq_sound (unnamed m) (unnamed n) e = ap unnamed ((==_iff m n).0 e)
state_eq_sound _ _ e = cc

key_eq_sound : (a b : Key) → key_eq a b ≡ true → a ≡ b
unfolding key_eq
key_eq_sound a b e = ground (arith, side_eq_sound a.side b.side, state_eq_sound a.state b.state)

-- What holds of every entry holds of what is found.
find-All {ℓ} :
    (P : Key → Class → Type ℓ) (k : Key) (c : Class) (r : Registry)
    → All (λ (e : Key × Class). P e.0 e.1) r
    → find k r ≡ some c
    → P k c
unfolding find
find-All P k c [] all e = cc
find-All P k c ((j, d) ∷ r) (here, there) e = elim (Bool-cases (key_eq j k)) [
  | inl hit ↦
      subst (λ x. P k x) (ground (arith, hit)) (subst (λ x. P x d) (key_eq_sound j k hit) here)
  | inr miss ↦ find-All P k c r there (ground (arith, miss))
]

-- So it holds of what `lookup` finds, under the side or under both.
lookup-All {ℓ} :
    (P : Key → Class → Type ℓ) (side : Side) (state : ClientState) (id : ℕ) (c : Class)
    → All (λ (e : Key × Class). P e.0 e.1) registry
    → lookup side state id ≡ some c
    → P (key side state id) c ⊎ P (key bi_directional state id) c
unfolding lookup
lookup-All P side state id c all e = elim (Option-cases (find (key side state id) registry)) [
  | inl n ↦ inr (find-All P (key bi_directional state id) c registry all (ground (arith, n)))
  | inr (d, s) ↦ inl (find-All P (key side state id) c registry all (ground (arith, s)))
]

-- The packets that a server takes from a client, by the state of the connection.
pub data Receivable : ClientState → Class → Type 0 where
  in_handshake : Receivable handshake handshake_packet
  asks_status : Receivable status server_status_packet
  pings : Receivable status ping_packet
  starts_login : Receivable login login_start_packet
  answers_encryption : Receivable login encryption_packet
  stays_alive : Receivable play keep_alive_packet
  chats : Receivable play chat_message_packet

abbrev FromClient : Side → ClientState → Class → Type 0
FromClient client_bound state c = Unit {0}
FromClient server_bound state c = Receivable state c
FromClient bi_directional state c = Receivable state c

registry-FromClient : All (λ (e : Key × Class). FromClient e.0.side e.0.state e.1) registry
unfolding registry registrate_all registrate key_eq side_eq state_eq
registry-FromClient = (
  in_handshake,
  (
    asks_status,
    (
      pings,
      (
        starts_login,
        (
          answers_encryption,
          (tt, (tt, (stays_alive, (tt, (tt, (chats, (tt, (tt, (tt, (tt, tt)))))))))),
        ),
      ),
    ),
  ),
)

-- A packet from a client is one of the seven that its state allows: none of another state is ever
-- instantiated, and none in a state with no enumerator.
pub lookup-Receivable :
    (state : ClientState) (id : ℕ) (c : Class)
    → lookup server_bound state id ≡ some c
    → Receivable state c
lookup-Receivable state id c e =
    elim (lookup-All (λ k d. FromClient k.side k.state d) server_bound state id c
      registry-FromClient e) [ inl r ↦ r | inr r ↦ r ]

-- The id that a packet is registered under is the one that it is made with, but for the two
-- compression packets, which are made with id 1.
abbrev pub made_id : Class → ℕ → ℕ
made_id set_compression_packet id = 1
made_id _ id = id

abbrev MadeWith : Key → Class → Type 0
MadeWith k c =
    (env : Environment) (side : Side)
    → (side ≡ k.side) ⊎ (k.side ≡ bi_directional)
    → (base_of (make env c side)).packet_id ≡ made_id c k.id

registry-MadeWith : All (λ (e : Key × Class). MadeWith e.0 e.1) registry
unfolding registry registrate_all registrate key_eq side_eq state_eq make base_of chat_id
registry-MadeWith = (
  (λ env side h. refl),
  (
    (λ env side h. refl),
    (
      (λ env side h. refl),
      (
        (λ env side h. refl),
        (
          (λ env side h. refl),
          (
            (λ env side h. refl),
            (
              (λ env side h. refl),
              (
                (λ env side h. refl),
                (
                  (λ env side h. refl),
                  (
                    (λ env side h. ground arith),
                    (
                      (λ env side h. ground arith),
                      (
                        (λ env side h. refl),
                        ((λ env side h. refl), ((λ env side h. refl), ((λ env side h. refl), tt))),
                      ),
                    ),
                  ),
                ),
              ),
            ),
          ),
        ),
      ),
    ),
  ),
)

instantiate_new-id_at :
    (env : Environment) (side : Side) (state : ClientState) (id : ℕ) (c : Class)
    → lookup side state id ≡ some c
    → (base_of (make env c side)).packet_id ≡ made_id c id
instantiate_new-id_at env side state id c e =
    elim (lookup-All (λ k d. MadeWith k d) side state id c registry-MadeWith e) [
      | inl m ↦ m env side (inl refl)
      | inr m ↦ m env side (inr refl)
    ]

-- `newPacket` answers with no packet exactly where the lookup finds no class, and otherwise with
-- one of that class whose id is the requested one, but for the two compression packets, whose id
-- is 1.
pub instantiate_new_lem :
    (env : Environment) (side : Side) (state : ClientState) (id : ℕ)
    → ((lookup side state id ≡ none) × (instantiate_new env side state id ≡ none))
      ⊎ ((c : Class) × (lookup side state id ≡ some c)
          × (instantiate_new env side state id ≡ some (make env c side))
          × ((base_of (make env c side)).packet_id ≡ made_id c id))
unfolding instantiate_new
instantiate_new_lem env side state id = elim (Option-cases (lookup side state id)) [
  | inl e ↦ inl (e, rw e)
  | inr (c, e) ↦ inr (c, e, rw e, instantiate_new-id_at env side state id c e)
]
