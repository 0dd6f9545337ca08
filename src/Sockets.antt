-- ===== src/Sockets.antt =====
-- backend/app/api/websocket.py, `ConnectionManager`: who watches a job or the dashboards. A WebSocket is a
-- number; `alive` says whether a message can be sent to it.
pub mod Broadcasts
use crate_probe.Prelude.{
  length, ◌&&◌, ℕ, [], ◌∷◌, ◌++◌, Bool, true, false, Option, none, some, List, if◌then◌else◌, ◌==◌,
  ◌||◌,
}
use crate_probe.Table.{select, delete}

pub record Manager : Type 0 where
  pub job_connections : ℕ → Option (List ℕ)
  pub dashboard_connections : List ℕ

abbrev pub mem : ℕ → List ℕ → Bool
mem w [] = false
mem w (x ∷ xs) = x == w || mem w xs

-- `set.add` and `set.discard`
unfoldable pub add : ℕ → List ℕ → List ℕ
add w ws = if mem w ws then ws else w ∷ ws

unfoldable pub discard : ℕ → List ℕ → List ℕ
discard w ws = delete (λ x. x == w) ws

abbrev pub watchers : ℕ → Manager → List ℕ
watchers job_id m = elim (m.job_connections job_id) [ none ↦ [] | some ws ↦ ws ]

-- the entry of a job; an empty one is removed
abbrev pub entry_of : List ℕ → Option (List ℕ)
entry_of [] = none
entry_of (w ∷ ws) = some (w ∷ ws)

abbrev pub put_entry : ℕ → Option (List ℕ) → (ℕ → Option (List ℕ)) → ℕ → Option (List ℕ)
put_entry job_id entry connections k = if k == job_id then entry else connections k

unfoldable pub connect_job : ℕ → ℕ → Manager → Manager
unfolding add
connect_job job_id w m = record m {
  job_connections = put_entry job_id (some (add w (watchers job_id m))) m.job_connections;
}

unfoldable pub connect_dashboard : ℕ → Manager → Manager
unfolding add
connect_dashboard w m = record m { dashboard_connections = add w m.dashboard_connections }

unfoldable pub disconnect_job : ℕ → ℕ → Manager → Manager
unfolding discard
disconnect_job job_id w m = elim (m.job_connections job_id) [
  | none ↦ m
  | some ws ↦ record m {
    job_connections = put_entry job_id (entry_of (discard w ws)) m.job_connections;
  }
]

unfoldable pub disconnect_dashboard : ℕ → Manager → Manager
unfolding discard
disconnect_dashboard w m = record m { dashboard_connections = discard w m.dashboard_connections }

unfoldable pub disconnect_jobs : ℕ → List ℕ → Manager → Manager
unfolding disconnect_job
disconnect_jobs job_id [] m = m
disconnect_jobs job_id (w ∷ ws) m = disconnect_jobs job_id ws (disconnect_job job_id w m)

unfoldable pub disconnect_dashboards : List ℕ → Manager → Manager
unfolding disconnect_dashboard
disconnect_dashboards [] m = m
disconnect_dashboards (w ∷ ws) m = disconnect_dashboards ws (disconnect_dashboard w m)

-- what a loop over a set of WebSockets ends with: all were tried, with those that the message reached and
-- those that it did not; a RuntimeError, as the set has another size than at the start of the loop; or an
-- order that Python leaves open, as the set has the same size and other members
pub data Tried : Type 0 where
  all_tried : List ℕ → List ℕ → Manager → Tried
  size_changed members_changed : Manager → Tried

abbrev pub note : Bool → ℕ → Tried → Tried
note true w (all_tried reached dead m) = all_tried (w ∷ reached) dead m
note false w (all_tried reached dead m) = all_tried reached (w ∷ dead) m
note sent w (size_changed m) = size_changed m
note sent w (members_changed m) = members_changed m

abbrev pub same_set : List ℕ → List ℕ → Bool
same_set [] [] = true
same_set [] (w ∷ ws) = false
same_set (v ∷ vs) [] = false
same_set (v ∷ vs) (w ∷ ws) = v == w && same_set vs ws

-- what else happens while a send is awaited; nothing, if nothing is given
abbrev pub first_change : List (Manager → Manager) → Manager → Manager
first_change [] m = m
first_change (change ∷ changes) m = change m

abbrev pub later_changes : List (Manager → Manager) → List (Manager → Manager)
later_changes [] = []
later_changes (change ∷ changes) = changes

-- the loop over the set `ws`, from the members on that are still to be tried. Python looks at the size of
-- the set before each of them and at the end. A connection that is gone does not come back.
unfoldable pub send_all :
    (ℕ → Bool) → (Manager → List ℕ) → List ℕ → List ℕ → List (Manager → Manager) → Manager → Tried
send_all alive watching ws [] changes m = all_tried [] [] m
send_all alive watching ws (w ∷ todo) changes m =
    let m' = first_change changes m in
    let rest = send_all alive watching ws todo (later_changes changes) m' in
    if same_set (watching m') ws
    then note (alive w) w rest
    else if length (watching m') == length ws
    then members_changed m'
    else size_changed m'

-- how a broadcast ends: with the WebSockets that the message reached, or as the loop does
pub data Broadcast : Type 0 where
  reaches : List ℕ → Broadcast
  raises unspecified : Broadcast

abbrev pub cleaned : (List ℕ → Manager → Manager) → Tried → Broadcast × Manager
cleaned clean (all_tried reached dead m) = (reaches reached, clean dead m)
cleaned clean (size_changed m) = (raises, m)
cleaned clean (members_changed m) = (unspecified, m)

-- the sends, each with what happens meanwhile, and the cleaning up
unfoldable pub broadcast_job_update :
    (ℕ → Bool) → List (Manager → Manager) → ℕ → Manager → Broadcast × Manager
unfolding send_all disconnect_jobs
broadcast_job_update alive changes job_id m =
    cleaned (disconnect_jobs job_id)
      (send_all alive (watchers job_id) (watchers job_id m) (watchers job_id m) changes m)

unfoldable pub broadcast_dashboard_update :
    (ℕ → Bool) → List (Manager → Manager) → Manager → Broadcast × Manager
unfolding send_all disconnect_dashboards
broadcast_dashboard_update alive changes m = cleaned disconnect_dashboards (
    send_all alive (λ (k : Manager). k.dashboard_connections) m.dashboard_connections
      m.dashboard_connections changes m)
