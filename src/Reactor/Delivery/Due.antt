-- ===== src/Reactor/Delivery/Due.antt =====
-- Which connections a pass of `HandleReadyData` serves.
use server_dev_lib.Base.{
  ◌≡◌, refl, Bool, true, false, ◌||◌, some, [], ◌∷◌, Bool-cases, Option-cases, inl, inr,
}
use server_dev_lib.Base.Map.{lookup, update, emplace}
use server_dev_lib.Base.Int.{ℤ, int_eq, eqb, eqb_iff}
use server_dev_lib.Reactor.Notification.{ReadyState, Waiting, raise, notify_data_ready}

-- An entry for `k` that is not ONE.
abbrev pub is_due_at : ℤ → ℤ × ReadyState → Bool
is_due_at k (j, ReadyState.one) = false
is_due_at k (j, s) = eqb j k

unfoldable pub has_due : ℤ → Waiting → Bool
has_due k [] = false
has_due k (e ∷ copy) = is_due_at k e || has_due k copy

raise-due : (k j : ℤ) (s : ReadyState) → eqb j k ≡ true → is_due_at k (j, raise s) ≡ true
unfolding raise
raise-due k j ReadyState.one same = same
raise-due k j ReadyState.more same = same
raise-due k j ReadyState.more_plus same = same

pub or_true : (b : Bool) → (b || true) ≡ true
or_true true = refl
or_true false = refl

has_due-raise :
    (k : ℤ) (state : ReadyState) (m : Waiting)
    → lookup k m ≡ some state
    → has_due k (update k raise m) ≡ true
unfolding has_due lookup update
has_due-raise k state [] there = absurd cc
has_due-raise k state ((j, s) ∷ m) there = elim (Bool-cases (eqb j k)) [
  | inl same ↦ rw same (rw (raise-due k j s same) refl)
  | inr other ↦
      rw other (rw (has_due-raise k state m (rw other at there)) (or_true (is_due_at k (j, s))))
]

-- A descriptor that was notified is served.
pub has_due-notify : (k : ℤ) (m : Waiting) → has_due k (notify_data_ready k m) ≡ true
unfolding notify_data_ready emplace has_due
has_due-notify k m = elim (Option-cases (lookup k m)) [
  | inl absent ↦
      let own : eqb k k ≡ true = (eqb_iff k k).1 refl in
      rw (absent, notify_data_ready) (rw (absent, emplace) (rw own refl))
  | inr (state, there) ↦ rw (there, notify_data_ready) (has_due-raise k state m there)
]
