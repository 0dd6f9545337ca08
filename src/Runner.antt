-- ===== src/Runner.antt =====
-- backend/runner: the exchange of one HTTP request, which the runner's clients share.
pub mod Client
pub mod Network
pub mod Reporter
pub mod TaskCache
pub mod Worker
pub mod Cache
pub mod RateLimiter
pub mod CratesApi
pub mod Settings
pub mod Docker
pub mod Executor
use crate_probe.Prelude.{ℕ}

-- what httpx makes of one request: a response with its status and its body, or a RequestError
pub data Exchange (A : Type 0) : Type 0 where
  response : ℕ → A → Exchange A
  request_error : Exchange A

-- what a call of a client ends with: a body, an HTTPStatusError, a RequestError, or the RuntimeError
-- of a loop that made no attempt
pub data HttpResult (A : Type 0) : Type 0 where
  body : A → HttpResult A
  status_error : ℕ → HttpResult A
  network_error exhausted : HttpResult A
