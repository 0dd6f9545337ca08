-- ===== src/Runner/Client.antt =====
-- backend/runner/client.py, `_request_with_retry`. `send` is one request: it maps the state of the
-- network and of the server to an exchange and the state after it. `is_success` is the test of httpx's
-- `raise_for_status`. `asyncio.sleep(0)` waits for nothing.
pub mod Attempts
use crate_probe.Prelude.{
  ℕ, zero, suc, [], ◌∷◌, ◌++◌, Bool, true, false, ◌&&◌, if◌then◌else◌, leb, ltb,
}
use crate_probe.Runner.{
  Exchange, response, request_error, HttpResult, body, status_error, network_error, exhausted,
}

-- `500 <= response.status_code <= 599`
abbrev pub is_server_error : ℕ → Bool
is_server_error status_code = leb 500 status_code && leb status_code 599

-- what ends the loop: a RequestError is raised again, and so is every status that is no success
abbrev pub settled : {A : Type 0} → (ℕ → Bool) → Exchange A → HttpResult A
settled is_success request_error = network_error
settled is_success (response status_code content) =
    if is_success status_code then body content else status_error status_code

module _ {A S : Type 0} (is_success : ℕ → Bool) (send : S → Exchange A × S) where
  -- the attempts that are left, and whether an attempt raised a RequestError
  unfoldable pub request_loop : ℕ → Bool → S → HttpResult A × S
  request_loop zero true s = (network_error, s)
  request_loop zero false s = (exhausted, s)
  request_loop (suc left) last_error s =
      let (exchange, s') = send s in
      elim exchange [
        | request_error ↦
            let again = request_loop left true s' in
            if ltb 0 left then again else (settled is_success request_error, s')
        | response status_code content ↦
            let again = request_loop left last_error s' in
            if is_server_error status_code && ltb 0 left
            then again
            else (settled is_success (response status_code content), s')
      ]

  unfoldable pub request_with_retry : ℕ → S → HttpResult A × S
  unfolding request_loop
  request_with_retry max_attempts s = request_loop max_attempts false s

  -- `_post_with_retry`, `upload_artifact`: three attempts
  unfoldable pub post_with_retry : S → HttpResult A × S
  unfolding request_with_retry
  post_with_retry s = request_with_retry 3 s

  -- `heartbeat`, `send_metrics`, `download_task_zip`: one request
  unfoldable pub request_once : S → HttpResult A × S
  request_once s = let (exchange, s') = send s in (settled is_success exchange, s')
