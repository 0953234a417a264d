-- ===== src/Gateway/Relay/Chat.antt =====
-- onPacketReceived of Client Gateway/ClientServer.cpp, which filters the chat. It lacks the parameter
-- of the method of ClientOwner that it stands for, so no handler of a client calls it. rapidjson is a
-- parameter.
use cerios_cluster.Common.{
  ℕ, ◌+◌, ◌<◌, List, [], ◌∷◌, ◌++◌, ltb, ◌==◌, Option, none, some, if◌then◌else◌, length, take,
  drop, ◌≡◌, arith, lt→ltb, ==_ne,
}
use cerios_cluster.Common.Outcome.{Outcome, ok, throws, undefined, out_of_range, ◌>>=◌}
use cerios_cluster.McPacket.Messages.World.{ChatMessage}
use cerios_cluster.McPacket.Classes.{AnyPacket, a_chat_message}
use cerios_cluster.Gateway.Host.{Host}
use cerios_cluster.Gateway.Client.{Client}
use cerios_cluster.Gateway.Client.Send.{send_packet}
use cerios_cluster.Gateway.Relay.{Clients}

-- What is used of rapidjson: a parsed text, the string at "text" (none if there is no string there,
-- which the source does not test), and the text of a document with another string there.
pub record Json : Type 1 where
  pub Document : Type 0
  pub parse_text : List ℕ → Option Document
  pub text_of : Document → Option (List ℕ)
  pub write_with : Document → List ℕ → List ℕ

-- `c_str()`: what a reader of it sees ends at the first zero.
unfoldable pub c_str : List ℕ → List ℕ
c_str [] = []
c_str (b ∷ bs) = let rest = c_str bs in if b == 0 then [] else b ∷ rest

-- MC_CHAT_MAX_TEXT_LENGTH
abbrev pub max_text_length : ℕ
max_text_length = 100

-- `stringValue.insert(stringValue.front(), "<" + username + "> ")`: the first letter is taken as the
-- place to insert at. A letter beyond 127, as a signed char, is a place beyond every text.
unfoldable pub insert_name : (username text : List ℕ) → Outcome (List ℕ)
insert_name username [] = undefined
insert_name username (front ∷ rest) =
    if ltb (length (front ∷ rest)) front
    then throws out_of_range
    else ok (
        take front (front ∷ rest)
        ++ ((b'<' ∷ (username ++ (b'>' ∷ b' ' ∷ []))) ++ drop front (front ∷ rest)))

-- The text that is sent to all clients: none for a text that is empty, too long or a command.
unfoldable pub chat_text : (username text : List ℕ) → Outcome (Option (List ℕ))
chat_text username [] = ok none
chat_text username (front ∷ rest) =
    if ltb max_text_length (length (front ∷ rest))
    then ok none
    else if front == b'/'
    then ok none
    else (insert_name username (front ∷ rest) >>= λ text. ok (some text))

-- The broadcast; a null pointer is undefined.
unfoldable pub broadcast :
    (h : Host) → ℕ → Clients h.Cipher → AnyPacket → Outcome (Clients h.Cipher)
broadcast h fuel [] m = ok []
broadcast h fuel ((id, none) ∷ rest) m = undefined
broadcast h fuel ((id, some t) ∷ rest) m = do
  t' ← send_packet h fuel t m
  left ← broadcast h fuel rest m
  ok ((id, some t') ∷ left)

module _ (h : Host) (j : Json) where
  open h use {Cipher}
  open j use {Document, parse_text, text_of, write_with}

  -- What is done with the new text
  unfoldable pub send_chat :
      ℕ → Clients Cipher → ChatMessage → Document → Option (List ℕ) → Outcome (Clients Cipher)
  send_chat fuel clients m document none = ok clients
  send_chat fuel clients m document (some text) =
      broadcast h fuel clients
        (a_chat_message (record m { json_chat_data = write_with document text; chat_position = 0 }))

  unfoldable pub with_document :
      ℕ
      → Clients Cipher
      → (username : List ℕ) → ChatMessage
      → Option Document
      → Outcome (Clients Cipher)
  with_document fuel clients username m none = ok clients
  with_document fuel clients username m (some document) = elim (text_of document) [
    | none ↦ undefined
    | some text ↦ chat_text username text >>= λ new_text. send_chat fuel clients m document new_text
  ]

  -- onPacketReceived, which always returns true
  unfoldable pub relay_packet :
      ℕ → Clients Cipher → Client Cipher → AnyPacket → Outcome (Clients Cipher)
  relay_packet fuel clients c (a_chat_message m) =
      with_document fuel clients c.requested_username m (parse_text (c_str m.json_chat_data))
  relay_packet fuel clients c _ = ok clients

chat_text_short :
    (username : List ℕ) (front : ℕ) (rest : List ℕ)
    → (front ≡ b'/' → ⊥)
    → length (front ∷ rest) < front
    → length (front ∷ rest) < max_text_length + 1
    → chat_text username (front ∷ rest) ≡ throws out_of_range
unfolding chat_text insert_name
chat_text_short username front rest hc hs hl =
    rw (lt→ltb (length (front ∷ rest)) front hs, ==_ne front b'/' hc) (ground (arith, hl))

-- A chat text that is no command, within the limit and shorter than the code of its first letter, as
-- every text below 65 letters that starts with a letter is, makes the relay throw.
pub relay_packet_short :
    (h : Host) (j : Json) (fuel : ℕ) (clients : Clients h.Cipher) (c : Client h.Cipher)
    (m : ChatMessage) (document : j.Document) (front : ℕ) (rest : List ℕ)
    → j.parse_text (c_str m.json_chat_data) ≡ some document
    → j.text_of document ≡ some (front ∷ rest)
    → (front ≡ b'/' → ⊥)
    → length (front ∷ rest) < front
    → length (front ∷ rest) < max_text_length + 1
    → relay_packet h j fuel clients c (a_chat_message m) ≡ throws out_of_range
unfolding relay_packet with_document
relay_packet_short h j fuel clients c m document front rest hp ht hc hs hl =
    rw hp (rw (ht, with_document) (rw (chat_text_short c.requested_username front rest hc hs hl)))
