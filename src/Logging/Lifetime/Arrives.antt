-- ===== src/Logging/Lifetime/Arrives.antt =====
-- Each message of LogMessage.h gets to the logger and its memory is freed, once.
use server_dev_lib.Base.{
  ℕ, ◌<◌, ◌≡◌, ◌≢◌, refl, Bool, true, false, Option, none, some, ◌==◌, arith, inl, inr,
  Option-cases, Bool-cases, subst, ap, sym,
}
use server_dev_lib.Logging.Lifetime.{
  World, empty_world, construct, move_construct, move_assign, hand_over, flush_object, delete_data,
  destruct, Op, perform, set,
}
use server_dev_lib.Logging.Lifetime.Inv.{Inv, moved}
use server_dev_lib.Logging.Lifetime.Owned.{Reach, Reach-Inv}

abbrev Owner : World → ℕ → Type 0
Owner w d = (i : ℕ) × (w.object i ≡ some (some d))

-- Each `Data` has an owner until it is deleted, and was handed to the logger by then.
record Arrival (w : World) : Type 0 where
  owned : (d : ℕ) (flushed : Bool) → w.store d ≡ some flushed → Owner w d
  marked : (d : ℕ) → w.store d ≡ some true → w.sent d ≡ 1
  deleted : (d : ℕ) → d < w.allocated → w.store d ≡ none → w.sent d ≡ 1

construct-Arrival : (w : World) → Inv w → Arrival w → Arrival (construct w)
unfolding construct
construct-Arrival w v a = record {
  owned = λ d flushed h. elim (Bool-cases (d == w.allocated)) [
    | inl new ↦ (w.objects, ground arith)
    | inr old ↦ let (i, at) = a.owned d flushed (ground arith) in (i, ground (arith, v.fresh i))
  ];
  marked = λ d h. ground (arith, a.marked d);
  deleted = λ d h k. ground (arith, a.deleted d);
}

moved-Arrival :
    (w : World) (j : ℕ) (held : Option ℕ)
    → w.object j ≡ some held
    → Inv w
    → Arrival w
    → Arrival (moved w j held)
moved-Arrival w j held at v a = record {
  owned = λ d flushed h.
      let (i, from) = a.owned d flushed h in
      elim (Bool-cases (i == j)) [
        | inl same ↦ (w.objects, ground arith)
        | inr other ↦ (i, ground (arith, v.fresh i))
      ];
  marked = a.marked;
  deleted = a.deleted;
}

hand_over-Arrival :
    (w : World) (i d : ℕ)
    → w.object i ≡ some (some d)
    → w.store d ≡ some false
    → Inv w
    → Arrival w
    → Arrival (hand_over w i d)
unfolding hand_over
hand_over-Arrival w i d at kept v a = record {
  owned = λ e flushed h. elim (Bool-cases (e == d)) [
    | inl same ↦ (w.objects, ground arith)
    | inr other ↦ let (j, from) = a.owned e flushed (ground arith) in (j, ground (arith, v.fresh j))
  ];
  marked = λ e h. ground (arith, a.marked e, v.counted e);
  deleted = λ e h k. ground (arith, a.deleted e);
}

ended-Arrival :
    (w : World) (i : ℕ)
    → w.object i ≡ some none
    → Arrival w
    → Arrival (record w { object = set w.object i none })
ended-Arrival w i at a = record {
  owned = λ d flushed h. let (j, from) = a.owned d flushed h in (j, ground arith);
  marked = a.marked;
  deleted = a.deleted;
}

deleted-Arrival :
    (w : World) (i d : ℕ)
    → w.object i ≡ some (some d)
    → w.store d ≡ some true
    → Arrival w
    → Arrival (record w { object = set w.object i none; store = set w.store d none })
deleted-Arrival w i d at sent a = record {
  owned = λ e flushed h. let (j, from) = a.owned e flushed (ground arith) in (j, ground arith);
  marked = λ e h. ground (arith, a.marked e);
  deleted = λ e h k. ground (arith, a.deleted e, a.marked e);
}

move_construct-Arrival :
    (w w' : World) (j : ℕ) → move_construct w j ≡ some w' → Inv w → Arrival w → Arrival w'
unfolding move_construct
move_construct-Arrival w w' j e v a = elim (Option-cases (w.object j)) [
  | inl dead ↦ let h : move_construct w j ≡ none = rw (dead, move_construct) refl in absurd cc
  | inr (held, at) ↦
      let h : move_construct w j ≡ some (moved w j held) = rw (at, move_construct) refl in
      let same : moved w j held ≡ w' = cc in subst Arrival same (moved-Arrival w j held at v a)
]

-- The destructor where the logger takes what it is handed.
module _ (w : World) (i : ℕ) (v : Inv w) (a : Arrival w) where
  abbrev Ends : Type 0
  Ends = (w' : World) × (destruct true w i ≡ some w') × Arrival w'

  destruct-moved : w.object i ≡ some none → Ends
  unfolding destruct flush_object delete_data
  destruct-moved at = (
    record w { object = set w.object i none },
    rw (at, destruct, at) refl,
    ended-Arrival w i at a,
  )

  destruct-sent : (d : ℕ) → w.object i ≡ some (some d) → w.store d ≡ some true → Ends
  unfolding destruct flush_object delete_data
  destruct-sent d at sent = (
    record w { object = set w.object i none; store = set w.store d none },
    rw (at, destruct, sent, flush_object, at, delete_data, sent) refl,
    deleted-Arrival w i d at sent a,
  )

  destruct-new : (d : ℕ) → w.object i ≡ some (some d) → w.store d ≡ some false → Ends
  unfolding destruct flush_object delete_data hand_over
  destruct-new d at new =
      let w1 : World = hand_over w i d in
      let alive : w1.object i ≡ some none = ground (arith, v.fresh i) in
      (
        record w1 { object = set w1.object i none },
        rw (at, destruct, new, flush_object) (rw alive refl),
        ended-Arrival w1 i alive (hand_over-Arrival w i d at new v a),
      )

  destruct_ends : (held : Option ℕ) → w.object i ≡ some held → Ends
  destruct_ends none at = destruct-moved at
  destruct_ends (some d) at = elim (Option-cases (w.store d)) [
    | inl gone ↦ absurd (v.valid i d at gone)
    | inr (true, sent) ↦ destruct-sent d at sent
    | inr (false, new) ↦ destruct-new d at new
  ]

  destruct-Arrival : (w' : World) → destruct true w i ≡ some w' → Arrival w'
  unfolding destruct
  destruct-Arrival w' e = elim (Option-cases (w.object i)) [
    | inl dead ↦ let h : destruct true w i ≡ none = rw (dead, destruct) refl in absurd cc
    | inr (held, at) ↦
        let (to, ended, kept) = destruct_ends held at in
        let same : to ≡ w' = cc in subst Arrival same kept
  ]

empty_world-Arrival : Arrival empty_world
unfolding empty_world
empty_world-Arrival = record {
  owned = λ d flushed h. absurd cc;
  marked = λ d h. absurd cc;
  deleted = λ d h k. absurd (omega arith);
}

Reach-Arrival : {plain : Bool} {w : World} → Reach true plain w → plain ≡ true → Arrival w
unfolding perform
Reach-Arrival Reach.start h = empty_world-Arrival
Reach-Arrival {w = w'} (Reach.next {w = w} Op.make r e) h =
    let same : construct w ≡ w' = cc in
    subst Arrival same (construct-Arrival w (Reach-Inv r) (Reach-Arrival r h))
Reach-Arrival {w = w'} (Reach.next {w = w} (Op.move j) r e) h =
    move_construct-Arrival w w' j e (Reach-Inv r) (Reach-Arrival r h)
Reach-Arrival (Reach.next (Op.assign i j) r e) h = absurd cc
Reach-Arrival {w = w'} (Reach.next {w = w} (Op.destroy i) r e) h =
    destruct-Arrival w i (Reach-Inv r) (Reach-Arrival r h) w' e

-- With a logger, once every message object has been destroyed, and if none was assigned to another:
-- each `Data` that was made was handed to the logger, once, and has been deleted.
pub messages_arrive :
    (w : World) (d : ℕ)
    → Reach true true w
    → ((i : ℕ) → w.object i ≡ none)
    → d < w.allocated
    → (w.sent d ≡ 1) × (w.store d ≡ none)
messages_arrive w d r over made = elim (Option-cases (w.store d)) [
  | inl gone ↦ (a.deleted d made gone, gone)
  | inr (flushed, there) ↦ let (i, at) = a.owned d flushed there in absurd (cc (over i))
]
  where
    a : Arrival w
    a = Reach-Arrival r refl

-- A message that is assigned to a living one: the `Data` of that one has no owner from then on,
-- although it was not deleted.
pub assignment_leaks :
    {has_sendto plain : Bool} (w w' : World) (i j k d e : ℕ)
    → Reach has_sendto plain w
    → w.object i ≡ some (some d)
    → w.object j ≡ some (some e)
    → i ≢ j
    → perform has_sendto w (Op.assign i j) ≡ some w'
    → (w'.object k ≢ some (some d)) × (w'.store d ≡ w.store d) × (w.store d ≢ none)
unfolding perform move_assign
assignment_leaks w w' i j k d e r at_i at_j other done =
    let v = Reach-Inv r in
    let apart : (i == j) ≡ false = ground arith in
    let to : World = record w { object = set (set w.object i (some (some e))) j (some none) } in
    let result : move_assign w i j ≡ some to = rw (at_i, at_j, apart, move_assign) refl in
    let same : to ≡ w' = cc in
    let lost : to.object k ≢ some (some d) = λ h. ground (arith, v.unique i j e, v.unique i k d) in
    (
      subst (λ (x : World). x.object k ≢ some (some d)) same lost,
      ap (λ (x : World). x.store d) (sym same),
      v.valid i d at_i,
    )
