-- ===== src/TaskStore/Laws.antt =====
-- backend/app/services/task_store.py: which zips are stored after an ingest or a deletion.
use crate_probe.TaskStore.{Zips, has_zip, delete_zip, store_zip}
use crate_probe.Prelude.{String, ◌≡◌, str_eq, not, ◌||◌, ◌&&◌, arith, eq_iff, ◌∷◌, []}

pub has_zip-store_zip :
    (sha other : String) (zips : Zips)
    → has_zip other (store_zip sha zips) ≡ str_eq sha other || has_zip other zips
unfolding store_zip
has_zip-store_zip sha other zips = ground (arith, eq_iff sha other)

pub has_zip-delete_zip :
    (sha other : String) (zips : Zips)
    → has_zip other (delete_zip sha zips) ≡ not (str_eq sha other) && has_zip other zips
unfolding delete_zip
has_zip-delete_zip sha other [] = ground arith
has_zip-delete_zip sha other (z ∷ zs) =
    ground (arith, has_zip-delete_zip sha other zs, eq_iff z sha, eq_iff z other, eq_iff sha other)
