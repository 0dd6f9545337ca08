-- ===== src/Examples/Uploads.antt =====
-- A runner that pushes the growing log of the job that it holds, over a network that loses requests.
use crate_probe.FilePath.{FilePath, path_eq}
use crate_probe.JobFiles.{read}
use crate_probe.Database.Chunks.Laws.{last_chunk}
use crate_probe.Api.Files.{append}
use crate_probe.Runner.{body}
use crate_probe.Runner.Network.{Network, lost, delivered}
use crate_probe.Runner.Reporter.{Sent, sized, flush_file, run, sent_offset}
use crate_probe.Runner.Reporter.Once.{push_file, taken, push_file-once}
use crate_probe.Runner.Reporter.InSync.{InSync, push}
use crate_probe.Runner.Reporter.Rounds.{Grows, rounds_of, last_read, run-InSync}
use crate_probe.Runner.Reporter.Delivered.{flush_file-delivers}
use crate_probe.Runner.Reporter.Lost.{flush_file-loses, flush_file-doubles}
use crate_probe.Examples.{env, server, header, log_file, is_success}
use crate_probe.Examples.Files.{admitted}
use crate_probe.Prelude.{
  ℕ, ◌≡◌, List, ◌∷◌, [], pos, refl, Bool, Option, some, none, str_eq, if◌then◌else◌, arith,
  coalesce, ◌++◌, ◌⊎◌,
}

-- two bytes of the log are sent
abbrev sent : Sent
sent = record {
  next_chunk_seq = λ path. none;
  sent_offsets = λ path. if str_eq path "log.txt" then some 2 else none;
}

abbrev flaky : Network
flaky = record { server = server; fates = lost ∷ delivered 500 ∷ [] }

push_file-once_example :
    let (result, n') =
      push_file env "east" header 2 "token" is_success 3 "log.txt" append
        (3 ∷ [])
        (some (pos 1))
        flaky in
    ((n'.server ≡ server) ⊎ (n'.server ≡ (taken env 2 "log.txt" (3 ∷ []) (pos 1) server)))
    × ((b : Option Bool)
        → result ≡ body b
        → n'.server ≡ (taken env 2 "log.txt" (3 ∷ []) (pos 1) server))
    × ((q : FilePath)
        → read q (taken env 2 "log.txt" (3 ∷ []) (pos 1) server).disk ≡ (
            if path_eq log_file q
            then some (coalesce (read log_file server.disk) [] ++ 3 ∷ [])
            else read q server.disk))
unfolding last_chunk
push_file-once_example =
    push_file-once env "east" header 2 "token" is_success "log.txt" (3 ∷ []) (pos 1) server log_file
      admitted 3 flaky (omega arith) refl refl

in_sync :
    (local : List ℕ)
    → InSync env "east" header 2 "token" "log.txt" log_file (1 ∷ 2 ∷ local) sent server
unfolding read last_chunk
in_sync local = record { admitted = admitted; within = omega arith; copied = refl; fresh = refl }

flush_file-loses_example :
    let (r', n') =
      flush_file
        (λ bytes. bytes)
        (push env "east" header 2 "token" is_success 1)
        "log.txt"
        append
        (sized 4 (some (1 ∷ 2 ∷ 7 ∷ 8 ∷ [])))
        sent
        (record {
          server = taken env 2 "log.txt" (7 ∷ []) (pos 1) server;
          fates = delivered 500 ∷ [];
        }) in
    (sent_offset "log.txt" r' ≡ 4) × (coalesce (read log_file n'.server.disk) [] ≡ 1 ∷ 2 ∷ 7 ∷ [])
flush_file-loses_example =
    flush_file-loses env "east" header 2 "token" is_success refl (λ bytes. bytes) 0 "log.txt"
      log_file (1 ∷ 2 ∷ 7 ∷ []) (8 ∷ []) sent server 500 [] (in_sync (7 ∷ [])) (omega arith) refl

flush_file-doubles_example :
    let flush =
      flush_file
        (λ bytes. bytes)
        (push env "east" header 2 "token" is_success 1)
        "log.txt"
        append in
    let (r', n') =
      flush
        (sized 3 (some (1 ∷ 2 ∷ 7 ∷ 8 ∷ [])))
        sent
        (record { server = server; fates = delivered 500 ∷ delivered 600 ∷ [] }) in
    let (r'', n'') = flush (sized 4 (some (1 ∷ 2 ∷ 7 ∷ 8 ∷ []))) r' n' in
    coalesce (read log_file n''.server.disk) [] ≡ 1 ∷ 2 ∷ 7 ∷ 8 ∷ 8 ∷ []
flush_file-doubles_example =
    flush_file-doubles env "east" header 2 "token" is_success refl (λ bytes. bytes) 0 "log.txt"
      log_file (1 ∷ 2 ∷ 7 ∷ []) (8 ∷ []) sent server 500 600 [] (in_sync (7 ∷ [])) (omega arith)
      (omega arith) refl refl

-- the file gains a byte, nothing, and two bytes before the rounds
abbrev found : List (ℕ × List ℕ)
found = (3, 1 ∷ 2 ∷ 3 ∷ []) ∷ (3, 1 ∷ 2 ∷ 3 ∷ []) ∷ (5, 1 ∷ 2 ∷ 3 ∷ 4 ∷ 5 ∷ []) ∷ []

found-Grows : Grows (1 ∷ 2 ∷ []) found
found-Grows = (
  (3 ∷ [], (omega arith, tt), refl),
  refl,
  (([], tt, refl), refl, ((4 ∷ 5 ∷ [], (omega arith, (omega arith, tt)), refl), refl, tt)),
)

run-InSync_example :
    let (r', n') =
      run
        (λ bytes. bytes)
        (push env "east" header 2 "token" is_success 3)
        (rounds_of "log.txt" found)
        sent
        (record { server = server; fates = lost ∷ delivered 500 ∷ delivered 600 ∷ [] }) in
    InSync env "east" header 2 "token" "log.txt" log_file (1 ∷ 2 ∷ 3 ∷ 4 ∷ 5 ∷ []) r' n'.server
unfolding last_read
run-InSync_example =
    run-InSync env "east" header 2 "token" is_success refl (λ bytes. bytes) 3 "log.txt" log_file
      (1 ∷ 2 ∷ []) found sent
      (record { server = server; fates = lost ∷ delivered 500 ∷ delivered 600 ∷ [] }) (omega arith)
      (λ bytes ascii. refl) (omega arith, (omega arith, tt)) found-Grows (in_sync [])
      (tt, (tt, (tt, tt)))

flush_file-delivers_example :
    let (r', n') =
      flush_file
        (λ bytes. bytes)
        (push env "east" header 2 "token" is_success 3)
        "log.txt"
        append
        (sized 3 (some (1 ∷ 2 ∷ 3 ∷ [])))
        sent
        (record { server = server; fates = lost ∷ lost ∷ delivered 500 ∷ [] }) in
    coalesce (read log_file n'.server.disk) [] ≡ 1 ∷ 2 ∷ 3 ∷ []
flush_file-delivers_example =
    flush_file-delivers env "east" header 2 "token" is_success refl (λ bytes. bytes) 3 "log.txt"
      log_file (1 ∷ 2 ∷ []) (3 ∷ []) sent server 500 (lost ∷ lost ∷ []) [] (in_sync []) refl
      (tt, (tt, tt)) (omega arith)
