-- ===== src/Gateway/Client/Auth.antt =====
-- authWithMojang of Client Gateway/Client.cpp: the question whether a player has joined.
use cerios_cluster.Common.{ℕ, List, [], ◌∷◌, ◌++◌, Option, none, some, if◌then◌else◌}
use cerios_cluster.Common.Outcome.{Outcome, ok, throws, system_error}
use cerios_cluster.McPacket.Base.{Environment}
use cerios_cluster.Common.Text.{codes}
use cerios_cluster.Gateway.Client.{Turn, Owner, https_connect, emit}

abbrev pub crlf : List ℕ
crlf = 13 ∷ 10 ∷ []

-- The member SessionServer
abbrev pub session_server : List ℕ
session_server = codes "/session/minecraft/hasJoined"

-- The text of `httpHeader`
unfoldable pub auth_request : (username hash : List ℕ) → List ℕ
auth_request username hash =
    codes "GET "
    ++ (session_server
        ++ (codes "?username="
            ++ (username
                ++ (codes "&serverId="
                    ++ (hash
                        ++ (codes " HTTP/1.1"
                            ++ (crlf
                                ++ (codes "Host: sessionserver.mojang.com"
                                    ++ (crlf
                                        ++ (codes "User-Agent: Cerios Cluster (Minecraft Server)"
                                            ++ (crlf
                                                ++ (codes "Connection: Close"
                                                    ++ (crlf ++ crlf)))))))))))))

-- With an owner, whose io_service is there as long as it is, the connection is asked for. The name is
-- resolved first, which throws if it is not found.
unfoldable pub connect_for :
    {Cipher : Type 0}
    → Environment
    → Turn Cipher
    → Option Owner
    → (request : List ℕ) → Outcome (Turn Cipher)
connect_for env t none request = ok t
connect_for env t (some o) request =
    if env.resolves then ok (emit t (https_connect request)) else throws system_error

-- authWithMojang
unfoldable pub auth_with_mojang :
    {Cipher : Type 0} → Environment → Turn Cipher → (hash : List ℕ) → Outcome (Turn Cipher)
auth_with_mojang env t hash =
    connect_for env t t.client.owner (auth_request t.client.requested_username hash)
