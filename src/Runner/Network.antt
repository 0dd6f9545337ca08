-- ===== src/Runner/Network.antt =====
-- The requests of backend/runner/client.py on their way to the endpoints of backend/app/main.py: each
-- attempt is lost, or served with its reply lost, or served and answered.
pub mod Once
pub mod Progress
use crate_probe.Prelude.{ℕ, zero, suc, [], ◌∷◌, ◌++◌, Bool, true, false, Option, none, some, List}
use crate_probe.Api.Types.{Server, Answer, Reply, ok, http_error}
use crate_probe.Runner.{Exchange, response, request_error}

-- What becomes of an attempt, with the time at which it is served.
pub data Fate : Type 0 where
  lost : Fate
  reply_lost delivered : ℕ → Fate

-- The server, and the fates of the attempts to come; after the last the network is down.
pub record Network : Type 0 where
  pub server : Server
  pub fates : List Fate

-- FastAPI answers a value with the status 200, an HTTPException with its own.
abbrev pub exchange_of : {A : Type 0} → Reply A → Exchange (Option A)
exchange_of (ok a) = response 200 (some a)
exchange_of (http_error status_code) = response status_code none

abbrev pub transmit :
    {A : Type 0} → (ℕ → Server → Answer A) → Server → List Fate → Exchange (Option A) × Network
transmit serve server [] = (request_error, record { server = server; fates = [] })
transmit serve server (lost ∷ fates) = (request_error, record { server = server; fates = fates })
transmit serve server (reply_lost now ∷ fates) =
    (request_error, record { server = (serve now server).1; fates = fates })
transmit serve server (delivered now ∷ fates) =
    (exchange_of (serve now server).0, record { server = (serve now server).1; fates = fates })

abbrev pub send : {A : Type 0} → (ℕ → Server → Answer A) → Network → Exchange (Option A) × Network
send serve n = transmit serve n.server n.fates
