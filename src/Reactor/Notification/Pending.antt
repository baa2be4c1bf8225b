-- ===== src/Reactor/Notification/Pending.antt =====
-- The states of NotificationCenter.h as a count of notifications that stops at two.
use server_dev_lib.Base.{
  ℕ, ◌+◌, ◌-◌, ◌≡◌, Bool, Option, none, some, List, [], ◌∷◌, min, arith, ◌&&◌, ltb, if◌then◌else◌,
  Option-cases, inl, inr,
}
use server_dev_lib.Base.Map.{lookup, update, lookup-emplace, lookup-update, map_option}
use server_dev_lib.Base.Int.{ℤ, int_eq, eqb, eqb_iff}
use server_dev_lib.Reactor.Notification.{
  ReadyState, Waiting, raise, lower, notify_data_ready, handle_entries, handle_ready_data,
}

-- How many notifications a state stands for, a descriptor that is not in the map for none.
pub pending : ReadyState → ℕ
pending ReadyState.one = 0
pending ReadyState.more = 1
pending ReadyState.more_plus = 2

unfoldable pub count : Option ReadyState → ℕ
unfolding pending
count none = 0
count (some s) = pending s

-- `NotifyDataReady` adds one notification to its descriptor, up to two, and leaves every other
-- descriptor as it was.
notify_counts :
    (fd k : ℤ) (m : Waiting)
    → count (lookup k (notify_data_ready fd m))
      ≡ (if eqb fd k then min 2 (count (lookup fd m) + 1) else count (lookup k m))
unfolding notify_data_ready count raise
notify_counts fd k m = elim (Option-cases (lookup fd m)) [
  | inl absent ↦
      rw (absent, notify_data_ready, lookup-emplace fd k ReadyState.more m, absent)
        (ground (arith, eqb_iff fd k))
  | inr (s, there) ↦
      rw (there, notify_data_ready, lookup-update fd k raise m)
        (ground (arith, eqb_iff fd k, there))
]

-- Every descriptor stands in the map once.
abbrev pub IsDistinct : Waiting → Type 0
IsDistinct [] = Unit {0}
IsDistinct ((fd, s) ∷ m) = (lookup fd m ≡ none) × IsDistinct m

-- How often a descriptor's data is handed on.
unfoldable pub times : ℤ → List ℤ → ℕ
times k [] = 0
times k (fd ∷ fds) = if eqb fd k then times k fds + 1 else times k fds

-- What one pass does to a descriptor: whether it is due, from the copied entry.
pub is_due : (ℤ → Bool) → ℤ → Option ReadyState → Bool
unfolding count
is_due has_channel k o = has_channel k && ltb 0 (count o)

count-lower : (o : Option ReadyState) → count (map_option lower o) ≡ count o - 1
unfolding count lower
count-lower o = ground arith

entries_counts :
    (has_channel : ℤ → Bool) (k : ℤ) (copy m : Waiting)
    → IsDistinct copy
    → let (tasks, m') = handle_entries has_channel copy m in
      let due = is_due has_channel k (lookup k copy) in
      (times k tasks ≡ (if due then 1 else 0))
      × (count (lookup k m') ≡ (if due then count (lookup k m) - 1 else count (lookup k m)))
unfolding handle_entries times is_due lookup
entries_counts has_channel k [] m d = ground arith
entries_counts has_channel k ((fd, s) ∷ copy) m d = ground (
  arith,
  d.0,
  eqb_iff fd k,
  entries_counts has_channel k copy m d.1,
  entries_counts has_channel k copy (update fd lower m) d.1,
  lookup-update fd k lower m,
  count-lower (lookup k m),
)

pub handle_counts :
    (has_channel : ℤ → Bool) (k : ℤ) (m : Waiting)
    → IsDistinct m
    → let (tasks, m') = handle_ready_data has_channel m in
      let due = has_channel k && ltb 0 (count (lookup k m)) in
      (times k tasks ≡ (if due then 1 else 0))
      × (count (lookup k m') ≡ (if due then count (lookup k m) - 1 else count (lookup k m)))
unfolding handle_ready_data is_due
handle_counts has_channel k m d = entries_counts has_channel k m m d
