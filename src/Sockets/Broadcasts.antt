-- ===== src/Sockets/Broadcasts.antt =====
-- backend/app/api/websocket.py: who still watches after a broadcast.
use crate_probe.Prelude.{
  All, All-imp, sym, ℕ, [], ◌∷◌, Bool, true, false, not, ◌&&◌, ◌||◌, none, some, List,
  if◌then◌else◌, ◌==◌, ◌≡◌, arith, refl, Bool-cases, Option-cases, inl, inr, ==→eq, ==-self, ap,
  ◌∙◌, sym, All, length,
}
use crate_probe.Table.{select, delete}
use crate_probe.Sockets.{
  Tried, all_tried, size_changed, members_changed, note, same_set, first_change, later_changes,
  send_all, Broadcast, reaches, raises, unspecified, cleaned, Manager, mem, discard, watchers,
  entry_of, disconnect_job, disconnect_jobs, broadcast_job_update,
}

watchers-entry : (ws : List ℕ) → (elim (entry_of ws) [ none ↦ [] | some vs ↦ vs ]) ≡ ws
watchers-entry [] = refl
watchers-entry (w ∷ ws) = refl

watchers-disconnect_job :
    (job_id w k : ℕ) (m : Manager)
    → watchers k (disconnect_job job_id w m)
      ≡ (if k == job_id then discard w (watchers k m) else watchers k m)
unfolding disconnect_job discard
watchers-disconnect_job job_id w k m = elim (Option-cases (m.job_connections job_id)) [
  | inl none_ ↦ ground (arith, ==→eq k job_id)
  | inr (ws, e) ↦ ground (arith, ==→eq k job_id, watchers-entry (delete (λ x. x == w) ws))
]

-- Several WebSockets are discarded.
discard_all : List ℕ → List ℕ → List ℕ
discard_all [] ws = ws
discard_all (d ∷ ds) ws = discard_all ds (discard d ws)

watchers-disconnect_jobs :
    (job_id : ℕ) (ds : List ℕ) (k : ℕ) (m : Manager)
    → watchers k (disconnect_jobs job_id ds m)
      ≡ (if k == job_id then discard_all ds (watchers k m) else watchers k m)
unfolding disconnect_jobs discard_all
watchers-disconnect_jobs job_id [] k m = ground arith
watchers-disconnect_jobs job_id (d ∷ ds) k m = ground (
  arith,
  watchers-disconnect_jobs job_id ds k (disconnect_job job_id d m),
  watchers-disconnect_job job_id d k m,
)

delete-delete :
    (p q : ℕ → Bool) (ws : List ℕ) → delete p (delete q ws) ≡ delete (λ x. q x || p x) ws
delete-delete p q [] = refl
delete-delete p q (w ∷ ws) = ground (arith, delete-delete p q ws)

delete-none : (ws : List ℕ) → delete (λ x. false) ws ≡ ws
delete-none [] = refl
delete-none (w ∷ ws) = ap (λ vs. w ∷ vs) (delete-none ws)

delete-ext : (p q : ℕ → Bool) → ((x : ℕ) → p x ≡ q x) → (ws : List ℕ) → delete p ws ≡ delete q ws
delete-ext p q e [] = refl
delete-ext p q e (w ∷ ws) = ground (arith, e w, delete-ext p q e ws)

swap_eq : (x d : ℕ) → (x == d) ≡ (d == x)
swap_eq x d = ground arith

discard_all-delete : (ds ws : List ℕ) → discard_all ds ws ≡ delete (λ x. mem x ds) ws
unfolding discard_all discard
discard_all-delete [] ws = sym (delete-none ws)
discard_all-delete (d ∷ ds) ws =
    discard_all-delete ds (delete (λ x. x == d) ws)
    ∙ delete-delete (λ x. mem x ds) (λ x. x == d) ws
    ∙ delete-ext _ _ (λ x. ap (λ b. b || mem x ds) (swap_eq x d)) ws

mem-delete :
    (alive : ℕ → Bool) (x : ℕ) (ws : List ℕ) → mem x (delete alive ws) ≡ mem x ws && not (alive x)
mem-delete alive x [] = refl
mem-delete alive x (w ∷ ws) = ground (arith, mem-delete alive x ws, ==→eq w x)

delete_dead :
    (alive : ℕ → Bool) (all ws : List ℕ)
    → All (λ x. mem x all ≡ true) ws
    → delete (λ x. mem x (delete alive all)) ws ≡ select alive ws
delete_dead alive all [] h = refl
delete_dead alive all (w ∷ ws) h =
    ground (arith, mem-delete alive w all, h.0, delete_dead alive all ws h.1)

All-mem : (ws : List ℕ) → All (λ x. mem x ws ≡ true) ws
All-mem [] = tt
All-mem (w ∷ ws) = (
  ground (arith, ==-self w),
  All-imp (λ x. mem x ws ≡ true) (λ x. mem x (w ∷ ws) ≡ true) (λ x h. ground arith) ws (All-mem ws),
)

same_set-eq : (vs ws : List ℕ) → same_set vs ws ≡ true → vs ≡ ws
same_set-eq [] [] h = refl
same_set-eq [] (w ∷ ws) h = absurd (cc)
same_set-eq (v ∷ vs) [] h = absurd (cc)
same_set-eq (v ∷ vs) (w ∷ ws) h =
    let e : vs ≡ ws = same_set-eq vs ws (ground arith) in
    let f : v ≡ w = ==→eq v w (ground arith) in rw (e, f) refl

same_set_refl : (ws : List ℕ) → same_set ws ws ≡ true
same_set_refl [] = refl
same_set_refl (w ∷ ws) = ground (arith, ==-self w, same_set_refl ws)

-- What a loop that tried all has found, of those that were to be tried.
abbrev Finds : (ℕ → Bool) → (Manager → List ℕ) → List ℕ → List ℕ → Tried → Type 0
Finds alive watching ws todo (all_tried reached dead m) =
    (reached ≡ select alive todo) × (dead ≡ delete alive todo) × (watching m ≡ ws)
Finds alive watching ws todo (size_changed m) = Unit
Finds alive watching ws todo (members_changed m) = Unit

Finds-note :
    (alive : ℕ → Bool) (watching : Manager → List ℕ) (ws todo : List ℕ) (w : ℕ) (r : Tried)
    → Finds alive watching ws todo r
    → Finds alive watching ws (w ∷ todo) (note (alive w) w r)
Finds-note alive watching ws todo w (all_tried reached dead m) (e, f, g) =
    elim (Bool-cases (alive w)) [
      | inl sent ↦ rw sent (ground (arith, sent, e), ground (arith, sent, f), g)
      | inr lost ↦ rw lost (ground (arith, lost, e), ground (arith, lost, f), g)
    ]
Finds-note alive watching ws todo w (size_changed m) h = tt
Finds-note alive watching ws todo w (members_changed m) h = tt

send_all-Finds :
    (alive : ℕ → Bool) (watching : Manager → List ℕ) (ws todo : List ℕ)
    (changes : List (Manager → Manager)) (m : Manager)
    → watching m ≡ ws
    → Finds alive watching ws todo (send_all alive watching ws todo changes m)
unfolding send_all
send_all-Finds alive watching ws [] changes m e = (refl, refl, e)
send_all-Finds alive watching ws (w ∷ todo) changes m e =
    let m' = first_change changes m in
    elim (Bool-cases (same_set (watching m') ws)) [
      | inl same ↦ rw same (
          Finds-note alive watching ws todo w _ (
            send_all-Finds alive watching ws todo (later_changes changes) m'
              (same_set-eq (watching m') ws same)))
      | inr other ↦ elim (Bool-cases (length (watching m') == length ws)) [
        | inl size ↦ rw (other, size) tt
        | inr size ↦ rw (other, size) tt
      ]
    ]

-- All were tried.
abbrev HasTried : Tried → Type 0
HasTried (all_tried reached dead m) = Unit
HasTried (size_changed m) = ⊥
HasTried (members_changed m) = ⊥

HasTried-note : (sent : Bool) (w : ℕ) (r : Tried) → HasTried r → HasTried (note sent w r)
HasTried-note true w (all_tried reached dead m) h = tt
HasTried-note false w (all_tried reached dead m) h = tt
HasTried-note sent w (size_changed m) h = absurd h
HasTried-note sent w (members_changed m) h = absurd h

-- What happens meanwhile leaves the set as it is.
abbrev pub Stays : (Manager → List ℕ) → (Manager → Manager) → Type 0
Stays watching change = (m : Manager) → watching (change m) ≡ watching m

first_change-Stays :
    (watching : Manager → List ℕ) (changes : List (Manager → Manager)) (m : Manager)
    → All (Stays watching) changes
    → watching (first_change changes m) ≡ watching m
first_change-Stays watching [] m h = refl
first_change-Stays watching (change ∷ changes) m h = h.0 m

later_changes-Stays :
    (watching : Manager → List ℕ) (changes : List (Manager → Manager))
    → All (Stays watching) changes
    → All (Stays watching) (later_changes changes)
later_changes-Stays watching [] h = tt
later_changes-Stays watching (change ∷ changes) h = h.1

send_all-HasTried :
    (alive : ℕ → Bool) (watching : Manager → List ℕ) (ws todo : List ℕ)
    (changes : List (Manager → Manager)) (m : Manager)
    → watching m ≡ ws
    → All (Stays watching) changes
    → HasTried (send_all alive watching ws todo changes m)
unfolding send_all
send_all-HasTried alive watching ws [] changes m e h = tt
send_all-HasTried alive watching ws (w ∷ todo) changes m e h =
    let m' = first_change changes m in
    let f : watching m' ≡ ws = first_change-Stays watching changes m h ∙ e in
    let same : same_set (watching m') ws ≡ true = rw f (same_set_refl ws) in
    rw same (
      HasTried-note (alive w) w _ (
        send_all-HasTried alive watching ws todo (later_changes changes) m' f
          (later_changes-Stays watching changes h)))

-- A broadcast that tries all reaches those that it can reach, and they are who still watches.
abbrev pub Reaches : (ℕ → Bool) → ℕ → Manager → Broadcast × Manager → Type 0
Reaches alive job_id m (reaches reached, m') =
    (reached ≡ select alive (watchers job_id m)) × (watchers job_id m' ≡ reached)
Reaches alive job_id m (raises, m') = Unit
Reaches alive job_id m (unspecified, m') = Unit

cleaned-Reaches :
    (alive : ℕ → Bool) (job_id : ℕ) (m : Manager) (r : Tried)
    → Finds alive (watchers job_id) (watchers job_id m) (watchers job_id m) r
    → Reaches alive job_id m (cleaned (disconnect_jobs job_id) r)
cleaned-Reaches alive job_id m (all_tried reached dead m') (e, f, g) =
    let ws = watchers job_id m in
    let left : watchers job_id (disconnect_jobs job_id dead m') ≡ discard_all dead ws =
      ground (arith, watchers-disconnect_jobs job_id dead job_id m', ==-self job_id) in
    let gone : discard_all dead ws ≡ select alive ws =
      ap (λ ds. discard_all ds ws) f
      ∙ discard_all-delete (delete alive ws) ws
      ∙ delete_dead alive ws ws (All-mem ws) in
    (e, left ∙ gone ∙ sym e)
cleaned-Reaches alive job_id m (size_changed m') h = tt
cleaned-Reaches alive job_id m (members_changed m') h = tt

cleaned-reaches :
    (alive : ℕ → Bool) (job_id : ℕ) (m : Manager) (r : Tried)
    → Finds alive (watchers job_id) (watchers job_id m) (watchers job_id m) r
    → HasTried r
    → (cleaned (disconnect_jobs job_id) r).0 ≡ reaches (select alive (watchers job_id m))
cleaned-reaches alive job_id m (all_tried reached dead m') found h = ap reaches found.0
cleaned-reaches alive job_id m (size_changed m') found h = absurd h
cleaned-reaches alive job_id m (members_changed m') found h = absurd h

-- Whatever happens while a broadcast to the watchers of a job awaits its sends: if it ends without an
-- error, and in the order that Python promises, it has reached those WebSockets of the job to which a
-- message can be sent, all of them and no other, and they are the watchers of the job that are left, the
-- others taken out. If nothing that happens meanwhile changes who watches the job, it does end so.
pub watchers-broadcast_job_update :
    (alive : ℕ → Bool) (job_id : ℕ) (m : Manager) (changes still : List (Manager → Manager))
    → All (Stays (watchers job_id)) still
    → Reaches alive job_id m (broadcast_job_update alive changes job_id m)
      × Reaches alive job_id m (broadcast_job_update alive still job_id m)
      × ((broadcast_job_update alive still job_id m).0 ≡ reaches (select alive (watchers job_id m)))
unfolding broadcast_job_update
watchers-broadcast_job_update alive job_id m changes still h =
    let ws = watchers job_id m in
    (
      cleaned-Reaches alive job_id m _
          (send_all-Finds alive (watchers job_id) ws ws changes m refl),
      cleaned-Reaches alive job_id m _ (send_all-Finds alive (watchers job_id) ws ws still m refl),
      cleaned-reaches alive job_id m _ (send_all-Finds alive (watchers job_id) ws ws still m refl)
          (send_all-HasTried alive (watchers job_id) ws ws still m refl h),
    )
