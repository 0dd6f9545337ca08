-- ===== src/Database/Jobs/Order.antt =====
-- backend/app/database.py, ORDER BY priority DESC, created_at ASC: the order of the pending queue.
use crate_probe.Prelude.{
  ◌≡◌, Bool, true, false, Option, none, some, ℤ, int_leb, int_leb_trans, int_leb_total,
  if◌then◌else◌, leb, arith,
}
use crate_probe.Table.Sorting.{IsOrder}
use crate_probe.Database.Types.{JobRecord}

-- SQLite sorts NULL below every number.
unfoldable pub priority_leb : Option ℤ → Option ℤ → Bool
priority_leb none b = true
priority_leb (some a) none = false
priority_leb (some a) (some b) = int_leb a b

-- whether `a` may stand before `b`
unfoldable pub queue_before : JobRecord → JobRecord → Bool
unfolding priority_leb
queue_before a b =
    if priority_leb a.priority b.priority
    then if priority_leb b.priority a.priority then leb a.created_at b.created_at else false
    else true

priority_trans :
    (a b c : Option ℤ) → priority_leb a b ≡ true → priority_leb b c ≡ true → priority_leb a c ≡ true
unfolding priority_leb
priority_trans none b c h k = ground arith
priority_trans (some a) none c h k = ground arith
priority_trans (some a) (some b) none h k = ground arith
priority_trans (some a) (some b) (some c) h k = int_leb_trans a b c h k

priority_total : (a b : Option ℤ) → priority_leb a b ≡ false → priority_leb b a ≡ true
unfolding priority_leb
priority_total none b h = ground arith
priority_total (some a) none h = ground arith
priority_total (some a) (some b) h = int_leb_total a b h

queue_before_total : (a b : JobRecord) → queue_before a b ≡ false → queue_before b a ≡ true
unfolding queue_before priority_leb
queue_before_total a b h = ground (arith, priority_total a.priority b.priority)

queue_before_trans :
    (a b c : JobRecord)
    → queue_before a b ≡ true
    → queue_before b c ≡ true
    → queue_before a c ≡ true
unfolding queue_before
queue_before_trans a b c h k = ground (
  arith,
  priority_trans a.priority b.priority c.priority,
  priority_trans c.priority b.priority a.priority,
  priority_trans b.priority c.priority a.priority,
  priority_trans c.priority a.priority b.priority,
  priority_trans b.priority a.priority c.priority,
  priority_trans a.priority c.priority b.priority,
  priority_total a.priority b.priority,
  priority_total b.priority c.priority,
  priority_total a.priority c.priority,
)

pub queue_before-IsOrder : IsOrder queue_before
queue_before-IsOrder = record { total = queue_before_total; trans = queue_before_trans }
