-- ===== src/System/Zips.antt =====
-- backend/app/main.py: the task definitions and their stored zips, over the changes to a table of
-- definitions.
pub mod Endpoints
pub mod Same
pub mod Reach
use crate_probe.FilePath.{Text}
use crate_probe.Table.{find, update, delete}
use crate_probe.Table.Rows.{find-holds, find-In}
use crate_probe.Table.Members.{In-append_one, In-update, In-delete, find-none-In}
use crate_probe.TaskSpec.{TaskSpec}
use crate_probe.TaskStore.{Zips, Upload, has_zip, delete_zip, store_zip, ingest_zip}
use crate_probe.TaskStore.Laws.{has_zip-store_zip, has_zip-delete_zip}
use crate_probe.Database.Types.{TaskDefRecord, Database, DbResult, done, raised}
use crate_probe.Database.Tasks.{
  get_task_definition, get_task_definition_by_sha256, create_task_definition,
  update_task_definition, delete_task_definition,
}
use crate_probe.Api.Types.{Env, Server, ok, http_error}
use crate_probe.Api.Tasks.{
  ingest_task_upload, upload_checked, upload_task, update_checked, update_task, delete_task, reread,
  created, replaced, conflicts,
}
use crate_probe.System.Safety.{Reply-cases}
use crate_probe.Prelude.{
  ℕ, [], ◌∷◌, ◌++◌, true, false, List, In, String, str_eq, ◌≡◌, arith, ◌==◌, none, eq_iff, ◌≢◌, inl,
  ==-self, ◌&&◌, inr, not, ◌∙◌, if◌then◌else◌, ap, subst, sym, Bool-cases, some, Option,
}

-- The zip of each definition is stored, and two definitions of the same content are one.
pub record ZipsKept (tasks : List TaskDefRecord) (zips : Zips) : Type 0 where
  pub stored : (t : TaskDefRecord) → In t tasks → has_zip t.sha256 zips ≡ true
  pub unique : (t u : TaskDefRecord) → In t tasks → In u tasks → t.sha256 ≡ u.sha256 → t.id ≡ u.id

abbrev pub KeepsZips : Server → Type 0
KeepsZips s = ZipsKept s.db.tasks s.zips

-- More zips do no harm.
pub store_zip-ZipsKept :
    (tasks : List TaskDefRecord) (zips : Zips) (sha : String)
    → ZipsKept tasks zips
    → ZipsKept tasks (store_zip sha zips)
store_zip-ZipsKept tasks zips sha h = record {
  stored = λ t i. ground (arith, has_zip-store_zip sha t.sha256 zips, h.stored t i);
  unique = h.unique;
}

pub add-ZipsKept :
    (tasks : List TaskDefRecord) (zips : Zips) (row : TaskDefRecord)
    → find (λ t. str_eq t.sha256 row.sha256) tasks ≡ none
    → has_zip row.sha256 zips ≡ true
    → ZipsKept tasks zips
    → ZipsKept (tasks ++ row ∷ []) zips
add-ZipsKept tasks zips row fresh there h = record {
  stored = λ t i. elim (In-append_one tasks row t i) [
    | inl old ↦ h.stored t old
    | inr same ↦ rw same there
  ];
  unique = λ t u i k e. elim (In-append_one tasks row t i) [
    | inl old ↦ elim (In-append_one tasks row u k) [
      | inl old' ↦ h.unique t u old old' e
      | inr same' ↦ absurd (apart t old (e ∙ ap (λ r. r.sha256) same'))
    ]
    | inr same ↦ elim (In-append_one tasks row u k) [
      | inl old' ↦ absurd (apart u old' (sym e ∙ ap (λ r. r.sha256) same))
      | inr same' ↦ ap (λ r. r.id) (same ∙ sym same')
    ]
  ];
}
  where
    apart : (t : TaskDefRecord) → In t tasks → t.sha256 ≢ row.sha256
    apart t i e = ground (
      arith,
      find-none-In (λ t. str_eq t.sha256 row.sha256) tasks t fresh i,
      eq_iff t.sha256 row.sha256,
    )

-- A deletion takes the zip of the definition that goes.
pub drop-ZipsKept :
    (tasks : List TaskDefRecord) (zips : Zips) (gone : TaskDefRecord)
    → In gone tasks
    → ZipsKept tasks zips
    → ZipsKept (delete (λ t. t.id == gone.id) tasks) (delete_zip gone.sha256 zips)
drop-ZipsKept tasks zips gone there h = record {
  stored = λ t i.
      let (old, other) = In-delete (λ t. t.id == gone.id) tasks t i in
      ground (
        arith,
        has_zip-delete_zip gone.sha256 t.sha256 zips,
        h.stored t old,
        h.unique gone t there old,
        eq_iff gone.sha256 t.sha256,
        ==-self gone.id,
      );
  unique = λ t u i k e.
      h.unique t u (In-delete (λ t. t.id == gone.id) tasks t i).0
        (In-delete (λ t. t.id == gone.id) tasks u k).0 e;
}

-- A replacement takes the old zip of its definition, whose new zip is stored.
pub swap-ZipsKept :
    (tasks : List TaskDefRecord) (zips : Zips) (old : TaskDefRecord)
    (f : TaskDefRecord → TaskDefRecord) (sha : String)
    → ((t : TaskDefRecord) → ((f t).sha256 ≡ sha) × ((f t).id ≡ t.id))
    → In old tasks
    → sha ≢ old.sha256
    → find (λ t. str_eq t.sha256 sha && not (t.id == old.id)) tasks ≡ none
    → has_zip sha zips ≡ true
    → ZipsKept tasks zips
    → ZipsKept (update (λ t. t.id == old.id) f tasks) (delete_zip old.sha256 zips)
swap-ZipsKept tasks zips old f sha writes there new free have h = record {
  stored = λ t i.
      let (o, here, e) = In-update (λ t. t.id == old.id) f tasks t i in
      subst (λ x. has_zip x.sha256 (delete_zip old.sha256 zips) ≡ true) (sym e) (kept o here);
  unique = λ t u i k e.
      let (o, here, is) = In-update (λ t. t.id == old.id) f tasks t i in
      let (p, here', is') = In-update (λ t. t.id == old.id) f tasks u k in
      one o p here here' t u is is' e;
}
  where
    kept :
        (o : TaskDefRecord)
        → In o tasks
        → has_zip (if o.id == old.id then f o else o).sha256 (delete_zip old.sha256 zips) ≡ true
    kept o i = elim (Bool-cases (o.id == old.id)) [
      | inl here ↦ rw here (
          rw ((writes o).0) (
            has_zip-delete_zip old.sha256 sha zips
            ∙ ground (arith, have, eq_iff old.sha256 sha, new)))
      | inr apart ↦ rw apart (
          has_zip-delete_zip old.sha256 o.sha256 zips
          ∙ ground (arith, h.stored o i, h.unique old o there i, eq_iff old.sha256 o.sha256))
    ]

    one :
        (o p : TaskDefRecord)
        → In o tasks
        → In p tasks
        → (t u : TaskDefRecord) → t ≡ (if o.id == old.id then f o else o)
        → u ≡ (if p.id == old.id then f p else p)
        → t.sha256 ≡ u.sha256
        → t.id ≡ u.id
    one o p i k t u is is' e = ground (
      arith,
      writes o,
      writes p,
      h.unique o p i k,
      find-none-In (λ t. str_eq t.sha256 sha && not (t.id == old.id)) tasks o free i,
      find-none-In (λ t. str_eq t.sha256 sha && not (t.id == old.id)) tasks p free k,
      eq_iff o.sha256 sha,
      eq_iff p.sha256 sha,
    )
