-- ===== src/Logging/Lifetime/Owned.antt =====
-- Who owns the `Data` of the messages of LogMessage.h.
use server_dev_lib.Base.{
  ℕ, ◌≤◌, ◌≡◌, ◌≢◌, refl, Bool, true, false, Option, none, some, ◌==◌, if◌then◌else◌, arith, inl,
  inr, Option-cases, Bool-cases, subst,
}
use server_dev_lib.Logging.Lifetime.{
  World, empty_world, construct, move_construct, move_assign, hand_over, flush_object, delete_data,
  destruct, Op, perform, set,
}
use server_dev_lib.Logging.Lifetime.Inv.{
  Inv, moved, construct-Inv, moved-Inv, assigned-Inv, hand_over-Inv, ended-Inv, deleted-Inv,
}

abbrev is_assignment : Op → Bool
is_assignment (Op.assign i j) = true
is_assignment _ = false

-- What calls on living objects lead to; the first index is set while no message was assigned to another.
pub data Reach (has_sendto : Bool) : Bool → World → Type 0 where
  start : Reach has_sendto true empty_world
  next :
      {plain : Bool} {w w' : World} (op : Op)
      → Reach has_sendto plain w
      → perform has_sendto w op ≡ some w'
      → Reach has_sendto (if is_assignment op then false else plain) w'

-- `Flush` of a living object does not read a deleted `Data`, and the object lives on.
record Flushed (has_sendto : Bool) (w : World) (i : ℕ) (held : Option ℕ) : Type 0 where
  result : World
  rest : Option ℕ
  computed : flush_object has_sendto w i held ≡ some result
  alive : result.object i ≡ some rest
  inv : Inv result

flush_object-Flushed :
    (has_sendto : Bool) (w : World) (i : ℕ) (held : Option ℕ)
    → w.object i ≡ some held
    → Inv w
    → Flushed has_sendto w i held
unfolding flush_object hand_over
flush_object-Flushed has_sendto w i none at v = record {
  result = w;
  rest = none;
  computed = refl;
  alive = at;
  inv = v;
}
flush_object-Flushed has_sendto w i (some d) at v = elim (Option-cases (w.store d)) [
  | inl gone ↦ absurd (v.valid i d at gone)
  | inr (true, there) ↦ record {
    result = w;
    rest = some d;
    computed = rw (there, flush_object) refl;
    alive = at;
    inv = v;
  }
  | inr (false, there) ↦ sends has_sendto there
]
  where
    sends : (b : Bool) → w.store d ≡ some false → Flushed b w i (some d)
    sends true there = record {
      result = hand_over w i d;
      rest = none;
      computed = rw (there, flush_object) refl;
      alive = ground (arith, v.fresh i);
      inv = hand_over-Inv w i d at there v;
    }
    sends false there = record {
      result = w;
      rest = some d;
      computed = rw (there, flush_object) refl;
      alive = at;
      inv = v;
    }

-- A destructor of a living object.
record Destroyed (has_sendto : Bool) (w : World) (i : ℕ) : Type 0 where
  result : World
  computed : destruct has_sendto w i ≡ some result
  inv : Inv result

delete_data-Inv :
    (w : World) (i : ℕ) (held : Option ℕ)
    → w.object i ≡ some held
    → Inv w
    → (w' : World) × (delete_data w i held ≡ some w') × Inv w'
unfolding delete_data
delete_data-Inv w i none at v = (record w { object = set w.object i none }, refl, ended-Inv w i v)
delete_data-Inv w i (some d) at v = elim (Option-cases (w.store d)) [
  | inl gone ↦ absurd (v.valid i d at gone)
  | inr (flushed, there) ↦ (
    record w { object = set w.object i none; store = set w.store d none },
    rw (there, delete_data) refl,
    deleted-Inv w i d at v,
  )
]

destruct-Destroyed :
    (has_sendto : Bool) (w : World) (i : ℕ) (held : Option ℕ)
    → w.object i ≡ some held
    → Inv w
    → Destroyed has_sendto w i
unfolding destruct
destruct-Destroyed has_sendto w i held at v =
    let f = flush_object-Flushed has_sendto w i held at v in
    let (w', gone, v') = delete_data-Inv f.result i f.rest f.alive f.inv in
    record { result = w'; computed = rw (at, destruct, f.computed, f.alive) gone; inv = v' }

move_construct-Inv : (w w' : World) (j : ℕ) → move_construct w j ≡ some w' → Inv w → Inv w'
unfolding move_construct
move_construct-Inv w w' j e v = elim (Option-cases (w.object j)) [
  | inl dead ↦ let h : move_construct w j ≡ none = rw (dead, move_construct) refl in absurd cc
  | inr (held, at) ↦
      let h : move_construct w j ≡ some (moved w j held) = rw (at, move_construct) refl in
      let same : moved w j held ≡ w' = cc in subst Inv same (moved-Inv w j held at v)
]

move_assign-Inv : (w w' : World) (i j : ℕ) → move_assign w i j ≡ some w' → Inv w → Inv w'
unfolding move_assign
move_assign-Inv w w' i j e v = elim (Option-cases (w.object i)) [
  | inl dead ↦ let h : move_assign w i j ≡ none = rw (dead, move_assign) refl in absurd cc
  | inr (old, at_i) ↦ elim (Option-cases (w.object j)) [
    | inl dead ↦ let h : move_assign w i j ≡ none = rw (at_i, dead, move_assign) refl in absurd cc
    | inr (held, at_j) ↦ elim (Bool-cases (i == j)) [
      | inl same ↦
          let h : move_assign w i j ≡ some w = rw (at_i, at_j, same, move_assign) refl in
          let kept : w ≡ w' = cc in subst Inv kept v
      | inr other ↦
          let to : World = record w { object = set (set w.object i (some held)) j (some none) } in
          let h : move_assign w i j ≡ some to = rw (at_i, at_j, other, move_assign) refl in
          let kept : to ≡ w' = cc in subst Inv kept (assigned-Inv w i j old held at_i at_j other v)
    ]
  ]
]

destruct-Inv :
    (has_sendto : Bool) (w w' : World) (i : ℕ) → destruct has_sendto w i ≡ some w' → Inv w → Inv w'
unfolding destruct
destruct-Inv has_sendto w w' i e v = elim (Option-cases (w.object i)) [
  | inl dead ↦ let h : destruct has_sendto w i ≡ none = rw (dead, destruct) refl in absurd cc
  | inr (held, at) ↦
      let d = destruct-Destroyed has_sendto w i held at v in
      let same : d.result ≡ w' = cc (d.computed) in subst Inv same d.inv
]

perform-Inv :
    (has_sendto : Bool) (w w' : World) (op : Op)
    → perform has_sendto w op ≡ some w'
    → Inv w
    → Inv w'
unfolding perform
perform-Inv has_sendto w w' Op.make e v =
    let same : construct w ≡ w' = cc in subst Inv same (construct-Inv w v)
perform-Inv has_sendto w w' (Op.move j) e v = move_construct-Inv w w' j e v
perform-Inv has_sendto w w' (Op.assign i j) e v = move_assign-Inv w w' i j e v
perform-Inv has_sendto w w' (Op.destroy i) e v = destruct-Inv has_sendto w w' i e v

empty_world-Inv : Inv empty_world
unfolding empty_world
empty_world-Inv = record {
  valid = λ i d h. cc;
  unique = λ i j d h k. cc;
  fresh = λ i h. refl;
  unused = λ d h. (refl, refl);
  counted = λ d. (omega arith, λ h. refl);
}

pub Reach-Inv : {has_sendto plain : Bool} {w : World} → Reach has_sendto plain w → Inv w
Reach-Inv start = empty_world-Inv
Reach-Inv {has_sendto} {w = w'} (next {w = w} op r e) =
    perform-Inv has_sendto w w' op e (Reach-Inv r)

-- Whatever messages are constructed, moved, assigned to one another and destroyed, as long as they
-- live: two living objects that point to a `Data` are the same object, the `Data` was not deleted, it
-- was handed to the logger once at most, and the object can be destroyed without reading or deleting
-- a `Data` that was deleted before.
pub messages_are_safe :
    {has_sendto plain : Bool} (w : World) (i j d : ℕ)
    → Reach has_sendto plain w
    → w.object i ≡ some (some d)
    → w.object j ≡ some (some d)
    → (i ≡ j)
      × ((flushed : Bool) × (w.store d ≡ some flushed))
      × (w.sent d ≤ 1)
      × ((w' : World) × (destruct has_sendto w i ≡ some w'))
messages_are_safe {has_sendto} w i j d r at other =
    let v = Reach-Inv r in
    let end = destruct-Destroyed has_sendto w i (some d) at v in
    (
      v.unique i j d at other,
      there (w.store d) (v.valid i d at),
      (v.counted d).0,
      (end.result, end.computed),
    )
  where
    there : (o : Option Bool) → o ≢ none → (flushed : Bool) × (o ≡ some flushed)
    there none h = absurd (h refl)
    there (some flushed) h = (flushed, refl)
