-- ===== src/Logging/Lifetime.antt =====
-- The objects of include/server/logging/LogMessage.h and what they own: the constructors, the
-- assignment by move, `Flush` as far as it hands a message on, and the destructor. `new` and `delete`
-- act on an explicit store of `Data`.
pub mod Inv
pub mod Owned
pub mod Arrives
mod Tests
use server_dev_lib.Base.{ℕ, ◌+◌, Bool, true, false, Option, none, some, ◌==◌, if◌then◌else◌}

-- The objects and the `Data` that were made are numbered. An object is none before its construction
-- and after its destruction; while it lives it is its `_data`, none for `nullptr`. A `Data` is its
-- `_has_been_flushed`, none before its `new` and after its `delete`. `sent` counts how often `_sendto`
-- has been called with each `Data`.
pub record World : Type 0 where
  pub object : ℕ → Option (Option ℕ)
  pub objects : ℕ
  pub store : ℕ → Option Bool
  pub allocated : ℕ
  pub sent : ℕ → ℕ

unfoldable pub empty_world : World
empty_world = record {
  object = λ i. none;
  objects = 0;
  store = λ d. none;
  allocated = 0;
  sent = λ d. 0;
}

abbrev pub set : {A : Type 0} → (ℕ → A) → ℕ → A → ℕ → A
set f k v j = if j == k then v else f j

-- `LogMessage(level, filename, func, line)`
unfoldable pub construct : World → World
construct w = record w {
  object = set w.object w.objects (some (some w.allocated));
  objects = w.objects + 1;
  store = set w.store w.allocated (some false);
  allocated = w.allocated + 1;
}

-- `LogMessage(LogMessage && msg)`; none for an object that does not live.
unfoldable pub move_construct : World → ℕ → Option World
move_construct w j = elim (w.object j) [
  | none ↦ none
  | some held ↦ some (record w {
    object = set (set w.object j (some none)) w.objects (some held);
    objects = w.objects + 1;
  })
]

-- `operator=(LogMessage && msg)`, of object `i` from object `j`
unfoldable pub move_assign : World → ℕ → ℕ → Option World
move_assign w i j = elim (w.object i) [
  | none ↦ none
  | some old ↦ elim (w.object j) [
    | none ↦ none
    | some held ↦
        if i == j
        then some w
        else some (record w { object = set (set w.object i (some held)) j (some none) })
  ]
]

-- `_has_been_flushed = true; _sendto(std::move(*this))`: the receiver is `Buffering` of the logger, which
-- makes an object of its own of it.
unfoldable pub hand_over : World → ℕ → ℕ → World
hand_over w i d = record w {
  object = set (set w.object i (some none)) w.objects (some (some d));
  objects = w.objects + 1;
  store = set w.store d (some true);
  sent = set w.sent d (w.sent d + 1);
}

-- `Flush()` of object `i`, whose `_data` is given; none where it reads a `Data` that was deleted.
unfoldable pub flush_object : Bool → World → ℕ → Option ℕ → Option World
unfolding hand_over
flush_object has_sendto w i none = some w
flush_object has_sendto w i (some d) = elim (w.store d) [
  | none ↦ none
  | some flushed ↦
      if flushed then some w else (if has_sendto then some (hand_over w i d) else some w)
]

-- `delete _data`, and the end of object `i`; none where the `Data` was deleted before.
unfoldable pub delete_data : World → ℕ → Option ℕ → Option World
delete_data w i none = some (record w { object = set w.object i none })
delete_data w i (some d) = elim (w.store d) [
  | none ↦ none
  | some flushed ↦ some (record w { object = set w.object i none; store = set w.store d none })
]

-- `~LogMessage()`
unfoldable pub destruct : Bool → World → ℕ → Option World
unfolding flush_object delete_data
destruct has_sendto w i = elim (w.object i) [
  | none ↦ none
  | some held ↦ elim (flush_object has_sendto w i held) [
    | none ↦ none
    | some w' ↦ elim (w'.object i) [ none ↦ none | some rest ↦ delete_data w' i rest ]
  ]
]

pub data Op : Type 0 where
  make : Op
  move : ℕ → Op
  assign : ℕ → ℕ → Op
  destroy : ℕ → Op

unfoldable pub perform : Bool → World → Op → Option World
perform has_sendto w Op.make = some (construct w)
perform has_sendto w (Op.move j) = move_construct w j
perform has_sendto w (Op.assign i j) = move_assign w i j
perform has_sendto w (Op.destroy i) = destruct has_sendto w i
