-- ===== src/System/Zips/Endpoints.antt =====
-- backend/app/main.py: the task definitions and their stored zips, over the task endpoints.
use crate_probe.Table.{find, update, delete}
use crate_probe.Table.Rows.{find-holds, find-In, count-find}
use crate_probe.TaskSpec.{TaskSpec}
use crate_probe.TaskStore.{Upload, has_zip, delete_zip, store_zip, ingest_zip}
use crate_probe.TaskStore.Laws.{has_zip-store_zip}
use crate_probe.Database.Types.{TaskDefRecord, Database, DbResult, done, raised}
use crate_probe.Database.Tasks.{
  get_task_definition, get_task_definition_by_sha256, create_task_definition,
  update_task_definition, delete_task_definition,
}
use crate_probe.Api.Types.{Env, Server, ok}
use crate_probe.Api.Tasks.{
  ingest_task_upload, upload_checked, upload_task, update_checked, update_task, delete_task,
  created, replaced, conflicts,
}
use crate_probe.System.Safety.{Reply-cases}
use crate_probe.Prelude.{
  refl, ℕ, true, false, In, String, str_eq, ◌≡◌, arith, ◌==◌, none, eq_iff, ◌≢◌, inl, ◌&&◌, inr,
  not, ◌∙◌, ap, subst, Bool-cases, some, Option, ◌⊎◌, Option-cases, Bool, ==→eq,
}
use crate_probe.System.Zips.{
  ZipsKept, KeepsZips, store_zip-ZipsKept, add-ZipsKept, drop-ZipsKept, swap-ZipsKept,
}
use crate_probe.Api.Auth.{require_admin_token}

ingest_cases :
    (env : Env) (u : Upload) (s : Server)
    → ((ingest_task_upload env u s).1 ≡ s)
      ⊎ ((ingest_task_upload env u s).1 ≡ record s { zips = store_zip u.sha256 s.zips })
unfolding ingest_task_upload ingest_zip store_zip
ingest_cases env u s = ground arith

ingest_ok :
    (env : Env) (u : Upload) (s : Server) (spec : TaskSpec)
    → (ingest_task_upload env u s).0 ≡ ok spec
    → (ingest_task_upload env u s).1 ≡ record s { zips = store_zip u.sha256 s.zips }
unfolding ingest_task_upload ingest_zip store_zip
ingest_ok env u s spec e = ground arith

ingest-ZipsKept :
    (env : Env) (u : Upload) (s : Server) → KeepsZips s → KeepsZips (ingest_task_upload env u s).1
ingest-ZipsKept env u s h = elim (ingest_cases env u s) [
  | inl same ↦ rw same h
  | inr more ↦ rw more (store_zip-ZipsKept s.db.tasks s.zips u.sha256 h)
]

ingest_has :
    (env : Env) (u : Upload) (s : Server) (spec : TaskSpec)
    → (ingest_task_upload env u s).0 ≡ ok spec
    → has_zip u.sha256 (ingest_task_upload env u s).1.zips ≡ true
ingest_has env u s spec e =
    rw (ingest_ok env u s spec e)
      (ground (arith, has_zip-store_zip u.sha256 u.sha256 s.zips, eq_iff u.sha256 u.sha256))

created_state : (s : Server) (r : DbResult ℕ × Database) → (created s r).1 ≡ record s { db = r.1 }
created_state s (raised e, db) = refl
created_state s (done n, db) = ground arith

create-ZipsKept :
    (now : ℕ) (name : String) (desc : Option String) (sha path spec : String) (s : Server)
    → get_task_definition_by_sha256 sha s.db ≡ none
    → has_zip sha s.zips ≡ true
    → KeepsZips s
    → KeepsZips (record s { db = (create_task_definition now name desc sha path spec s.db).1 })
unfolding create_task_definition get_task_definition_by_sha256
create-ZipsKept now name desc sha path spec s fresh have h =
    rw fresh (add-ZipsKept s.db.tasks s.zips _ fresh have h)

upload_checked_cases :
    (env : Env) (now : ℕ) (sha : String) (spec : TaskSpec) (s : Server)
    → ((upload_checked env now sha spec s).1 ≡ s)
      ⊎ ((get_task_definition_by_sha256 sha s.db ≡ none)
          × ((upload_checked env now sha spec s).1 ≡ record s {
            db =
                (create_task_definition now spec.name spec.desc sha
                  (env.zip_path sha)
                  (env.dumps spec)
                  s.db).1;
          }))
unfolding upload_checked
upload_checked_cases env now sha spec s =
    elim (Option-cases (get_task_definition_by_sha256 sha s.db)) [
      | inr (t, e) ↦ inl (ground (arith, e))
      | inl fresh ↦ inr (
        fresh,
        ground (
          arith,
          fresh,
          created_state s (
              create_task_definition now spec.name spec.desc sha (env.zip_path sha) (env.dumps spec)
                s.db),
        ),
      )
    ]

upload_checked-ZipsKept :
    (env : Env) (now : ℕ) (sha : String) (spec : TaskSpec) (s : Server)
    → has_zip sha s.zips ≡ true
    → KeepsZips s
    → KeepsZips (upload_checked env now sha spec s).1
upload_checked-ZipsKept env now sha spec s have h = elim (upload_checked_cases env now sha spec s) [
  | inl same ↦ rw same h
  | inr (fresh, e) ↦ rw e (
      create-ZipsKept now spec.name spec.desc sha (env.zip_path sha) (env.dumps spec) s fresh have
        h)
]

pub upload_task-ZipsKept :
    (env : Env) (now : ℕ) (admin : Option String) (u : Upload) (s : Server)
    → KeepsZips s
    → KeepsZips (upload_task env now admin u s).1
unfolding upload_task
upload_task-ZipsKept env now admin u s h = elim (Bool-cases (require_admin_token env admin)) [
  | inr out ↦ rw out h
  | inl in_ ↦ rw in_ (elim (Reply-cases (ingest_task_upload env u s).0) [
    | inl (n, e) ↦ rw e (ingest-ZipsKept env u s h)
    | inr (spec, e) ↦ rw e (
        upload_checked-ZipsKept env now u.sha256 spec (ingest_task_upload env u s).1
          (ingest_has env u s spec e) (ingest-ZipsKept env u s h))
  ])
]

replaced_cases :
    (task_id : ℕ) (old_sha : String) (s : Server) (r : DbResult Bool × Database)
    → ((replaced task_id old_sha s r).1 ≡ record s { db = r.1 })
      ⊎ ((r.0 ≡ done true)
          × ((replaced task_id old_sha s r).1
              ≡ record s { db = r.1; zips = delete_zip old_sha s.zips }))
replaced_cases task_id old_sha s (raised e, db) = inl refl
replaced_cases task_id old_sha s (done false, db) = inl refl
replaced_cases task_id old_sha s (done true, db) = inr (refl, ground arith)

delete_cases :
    (env : Env) (admin : Option String) (task_id : ℕ) (s : Server)
    → ((delete_task env admin task_id s).1 ≡ s)
      ⊎ ((r : TaskDefRecord) × (find (λ t. t.id == task_id) s.db.tasks ≡ some r)
          × ((delete_task env admin task_id s).1 ≡ record s {
            db = record s.db { tasks = delete (λ t. t.id == task_id) s.db.tasks };
            zips = delete_zip r.sha256 s.zips;
          }))
unfolding delete_task delete_task_definition get_task_definition
delete_cases env admin task_id s =
    elim (Option-cases (find (λ (t : TaskDefRecord). t.id == task_id) s.db.tasks)) [
      | inl missing ↦ inl (ground (arith, missing))
      | inr (r, e) ↦ elim (Bool-cases (require_admin_token env admin)) [
        | inr out ↦ inl (ground arith)
        | inl in_ ↦ inr (r, e, ground (arith, e))
      ]
    ]

pub delete_task-ZipsKept :
    (env : Env) (admin : Option String) (task_id : ℕ) (s : Server)
    → KeepsZips s
    → KeepsZips (delete_task env admin task_id s).1
delete_task-ZipsKept env admin task_id s h = elim (delete_cases env admin task_id s) [
  | inl same ↦ rw same h
  | inr (r, e, gone) ↦ rw gone (
      subst (λ k. ZipsKept (delete (λ t. t.id == k) s.db.tasks) (delete_zip r.sha256 s.zips))
        (==→eq r.id task_id (find-holds (λ (t : TaskDefRecord). t.id == task_id) s.db.tasks e))
        (drop-ZipsKept s.db.tasks s.zips r
          (find-In (λ (t : TaskDefRecord). t.id == task_id) s.db.tasks e) h))
]

-- the row that a replacement writes
abbrev replaced_row :
    ℕ → String → Option String → String → String → String → TaskDefRecord → TaskDefRecord
replaced_row now name desc sha path spec t = record t {
  name = name;
  desc = desc;
  sha256 = sha;
  zip_path = path;
  spec = spec;
  updated_at = some now;
}

-- A replacement that is refused changes nothing; any other writes the row and takes the old zip.
update_checked_cases :
    (env : Env) (now : ℕ) (old : TaskDefRecord) (task_id : ℕ) (sha : String) (spec : TaskSpec)
    (s : Server)
    → get_task_definition task_id s.db ≡ some old
    → ((update_checked env now old task_id sha spec s).1 ≡ s)
      ⊎ ((sha ≢ old.sha256)
          × (find (λ t. str_eq t.sha256 sha && not (t.id == task_id)) s.db.tasks ≡ none)
          × ((update_checked env now old task_id sha spec s).1 ≡ record s {
            db = record s.db {
              tasks =
                  update
                    (λ t. t.id == task_id)
                    (replaced_row now spec.name spec.desc sha (env.zip_path sha) (env.dumps spec))
                    s.db.tasks;
            };
            zips = delete_zip old.sha256 s.zips;
          }))
unfolding update_checked update_task_definition get_task_definition
update_checked_cases env now old task_id sha spec s e = elim (Bool-cases (str_eq sha old.sha256)) [
  | inl same ↦ inl (ground (arith, same))
  | inr differ ↦ elim (Bool-cases (conflicts task_id (get_task_definition_by_sha256 sha s.db))) [
    | inl taken ↦ inl (ground (arith, differ, taken))
    | inr clear ↦
        elim (Option-cases
          (find (λ (t : TaskDefRecord). str_eq t.sha256 sha && not (t.id == task_id)) s.db.tasks)) [
            | inr (t, f) ↦ inl (ground (arith, differ, clear, e, f))
            | inl free ↦ inr (
              λ g. ground (arith, differ, eq_iff sha old.sha256),
              free,
              ground (
                arith,
                differ,
                clear,
                e,
                free,
                count-find (λ (t : TaskDefRecord). t.id == task_id) s.db.tasks,
              ),
            )
          ]
  ]
]

swapped :
    (env : Env) (now : ℕ) (old : TaskDefRecord) (task_id : ℕ) (sha : String) (spec : TaskSpec)
    (s : Server)
    → old.id ≡ task_id
    → In old s.db.tasks
    → sha ≢ old.sha256
    → find (λ t. str_eq t.sha256 sha && not (t.id == task_id)) s.db.tasks ≡ none
    → has_zip sha s.zips ≡ true
    → KeepsZips s
    → ZipsKept
        (update
          (λ t. t.id == task_id)
          (replaced_row now spec.name spec.desc sha (env.zip_path sha) (env.dumps spec))
          s.db.tasks)
        (delete_zip old.sha256 s.zips)
swapped env now old task_id sha spec s same there new free have h =
    subst
      (λ k.
        find (λ t. str_eq t.sha256 sha && not (t.id == k)) s.db.tasks ≡ none
        → ZipsKept
            (update (λ t. t.id == k)
              (replaced_row now spec.name spec.desc sha (env.zip_path sha) (env.dumps spec))
              s.db.tasks)
            (delete_zip old.sha256 s.zips))
      same
      (λ free'.
        swap-ZipsKept s.db.tasks s.zips old
          (replaced_row now spec.name spec.desc sha (env.zip_path sha) (env.dumps spec)) sha
          (λ t. (refl, refl)) there new free' have h)
      free

update_checked-ZipsKept :
    (env : Env) (now : ℕ) (old : TaskDefRecord) (task_id : ℕ) (sha : String) (spec : TaskSpec)
    (s : Server)
    → get_task_definition task_id s.db ≡ some old
    → has_zip sha s.zips ≡ true
    → KeepsZips s
    → KeepsZips (update_checked env now old task_id sha spec s).1
update_checked-ZipsKept env now old task_id sha spec s e have h =
    elim (update_checked_cases env now old task_id sha spec s e) [
      | inl same ↦ rw same h
      | inr (new, free, done_it) ↦
          let f : find (λ t. t.id == task_id) s.db.tasks ≡ some old =
            unfold get_task_definition in e in
          rw done_it (
            swapped env now old task_id sha spec s
              (==→eq old.id task_id (find-holds (λ t. t.id == task_id) s.db.tasks f))
              (find-In (λ t. t.id == task_id) s.db.tasks f) new free have h)
    ]

update_task_cases :
    (env : Env) (now : ℕ) (admin : Option String) (task_id : ℕ) (u : Upload) (s : Server)
    → ((update_task env now admin task_id u s).1 ≡ s)
      ⊎ ((update_task env now admin task_id u s).1 ≡ (ingest_task_upload env u s).1)
      ⊎ ((old : TaskDefRecord) × (spec : TaskSpec) × (get_task_definition task_id s.db ≡ some old)
          × ((ingest_task_upload env u s).0 ≡ ok spec)
          × ((update_task env now admin task_id u s).1
              ≡ (update_checked env now old task_id u.sha256 spec
                  (ingest_task_upload env u s).1).1))
unfolding update_task
update_task_cases env now admin task_id u s = elim (Bool-cases (require_admin_token env admin)) [
  | inr out ↦ inl (ground (arith, out))
  | inl in_ ↦ elim (Option-cases (get_task_definition task_id s.db)) [
    | inl missing ↦ inl (ground (arith, missing))
    | inr (old, e) ↦ elim (Reply-cases (ingest_task_upload env u s).0) [
      | inl (n, f) ↦ inr (inl (ground (arith, e, f)))
      | inr (spec, f) ↦ inr (inr (old, spec, e, f, ground (arith, e, f)))
    ]
  ]
]

ingest-tasks : (env : Env) (u : Upload) (s : Server) → (ingest_task_upload env u s).1.db ≡ s.db
ingest-tasks env u s = elim (ingest_cases env u s) [
  | inl same ↦ rw same refl
  | inr more ↦ rw more refl
]

pub update_task-ZipsKept :
    (env : Env) (now : ℕ) (admin : Option String) (task_id : ℕ) (u : Upload) (s : Server)
    → KeepsZips s
    → KeepsZips (update_task env now admin task_id u s).1
update_task-ZipsKept env now admin task_id u s h =
    elim (update_task_cases env now admin task_id u s) [
      | inl same ↦ rw same h
      | inr (inl more) ↦ rw more (ingest-ZipsKept env u s h)
      | inr (inr (old, spec, e, f, g)) ↦ rw g (
          update_checked-ZipsKept env now old task_id u.sha256 spec (ingest_task_upload env u s).1
            (ap (get_task_definition task_id) (ingest-tasks env u s) ∙ e)
            (ingest_has env u s spec f) (ingest-ZipsKept env u s h))
    ]
