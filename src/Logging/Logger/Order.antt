-- ===== src/Logging/Logger/Order.antt =====
-- Messages of Logging.h reach the sinks in the order in which they were buffered, each once.
use server_dev_lib.Base.{
  ◌≡◌, ◌≢◌, refl, sym, ap, ◌∙◌, subst, false, List, [], ◌∷◌, ◌++◌, append-nil, append_assoc,
  Bool-cases, inl, inr, ◌⊎◌,
}
use server_dev_lib.Logging.Logger.{
  Logger, Entry, Place, Act, step, run, collect_messages, flush_message, left_over, logged,
  NoneFatal, NoneDestroys, IsTidy, all_of, IsSound,
}

NoneFatal-append : (xs ys : List Entry) → NoneFatal xs → NoneFatal ys → NoneFatal (xs ++ ys)
NoneFatal-append [] ys h k = k
NoneFatal-append (x ∷ xs) ys (plain, h) k = (plain, NoneFatal-append xs ys h k)

record Keeps (l : Logger) (added : List Entry) (l' : Logger) : Type 0 where
  sound : IsSound l'
  same : all_of l' ≡ all_of l ++ added

List-cases : (xs : List Entry) → (xs ≡ []) ⊎ ((x : Entry) × (rest : List Entry) × (xs ≡ x ∷ rest))
List-cases [] = inl refl
List-cases (x ∷ rest) = inr (x, rest, refl)

-- What is known at a place.
place-NoneFatal :
    (l : Logger) (at : Place) → l.place ≡ at → IsSound l → NoneFatal (left_over at ++ l.buf)
place-NoneFatal l at e v = subst (λ p. NoneFatal (left_over p ++ l.buf)) e v.plain

place-IsTidy : (l : Logger) (at : Place) → l.place ≡ at → IsSound l → IsTidy l at
place-IsTidy l at e v = subst (λ p. IsTidy l p) e v.tidy

same_at : (l : Logger) (at : Place) → l.place ≡ at → all_of l ≡ l.flushed ++ (left_over at ++ l.buf)
same_at l at e = ap (λ p. l.flushed ++ (left_over p ++ l.buf)) e

-- What the thread does under the lock, while the logger is not stopped.
collect_waits :
    (l : Logger)
    → l.stop ≡ false
    → l.buf ≡ []
    → (collect_messages l Place.collecting ≡ l)
      ⊎ (collect_messages l Place.collecting ≡ record l { place = Place.writing l.backup_buf })
unfolding collect_messages
collect_waits l going none_there = elim (Bool-cases l.log_with_waiting) [
  | inl waits ↦ inr (rw (going, none_there, waits) refl)
  | inr stays ↦ inl (rw (going, none_there, stays) refl)
]

collect_swaps :
    (l : Logger) (x : Entry) (xs : List Entry)
    → l.stop ≡ false
    → l.buf ≡ x ∷ xs
    → collect_messages l Place.collecting
      ≡ record l { buf = l.backup_buf; backup_buf = l.buf; place = Place.writing l.buf }
unfolding collect_messages
collect_swaps l x xs going some_there = rw (going, some_there) refl

collect-Keeps :
    (l : Logger) (at : Place) → l.place ≡ at → IsSound l → Keeps l [] (collect_messages l at)
unfolding collect_messages
collect-Keeps l Place.collecting e v =
    let tidy : l.backup_buf ≡ [] = place-IsTidy l Place.collecting e v in
    let plain : NoneFatal l.buf = place-NoneFatal l Place.collecting e v in
    let same : all_of l ≡ l.flushed ++ l.buf = same_at l Place.collecting e in
    elim (List-cases l.buf) [
      | inl none_there ↦ elim (collect_waits l v.going none_there) [
        | inl stays ↦
            subst (λ q. Keeps l [] q) (sym stays)
              (record { sound = v; same = sym (append-nil (all_of l)) })
        | inr goes ↦
            subst (λ q. Keeps l [] q) (sym goes)
              (record {
                sound = record {
                  going = v.going;
                  tidy = tt;
                  plain = subst (λ es. NoneFatal (es ++ l.buf)) (sym tidy) plain;
                };
                same =
                    ap (λ es. l.flushed ++ (es ++ l.buf)) tidy ∙ sym (append-nil (all_of l) ∙ same);
              })
      ]
      | inr (x, xs, some_there) ↦
          subst (λ q. Keeps l [] q) (sym (collect_swaps l x xs v.going some_there))
            (record {
              sound = record {
                going = v.going;
                tidy = tt;
                plain = subst (λ es. NoneFatal es) (sym swapped) plain;
              };
              same = ap (◌++◌ l.flushed) swapped ∙ sym (append-nil (all_of l) ∙ same);
            })
    ]
  where
    swapped : l.buf ++ l.backup_buf ≡ l.buf
    swapped = ap (◌++◌ l.buf) (place-IsTidy l Place.collecting e v) ∙ append-nil l.buf
collect-Keeps l (Place.writing left) e v = record { sound = v; same = sym (append-nil (all_of l)) }
collect-Keeps l Place.returned e v = record { sound = v; same = sym (append-nil (all_of l)) }
collect-Keeps l Place.aborted e v = record { sound = v; same = sym (append-nil (all_of l)) }

-- A message that is not FATAL goes to the sinks.
flush_next_lem :
    (l : Logger) (x : Entry) (left : List Entry)
    → x.fatal ≡ false
    → flush_message l (Place.writing (x ∷ left))
      ≡ record l { place = Place.writing left; flushed = l.flushed ++ (x ∷ []) }
unfolding flush_message
flush_next_lem l x left mild = rw mild refl

flush-Keeps : (l : Logger) (at : Place) → l.place ≡ at → IsSound l → Keeps l [] (flush_message l at)
unfolding flush_message
flush-Keeps l Place.collecting e v = record { sound = v; same = sym (append-nil (all_of l)) }
flush-Keeps l (Place.writing []) e v = record {
  sound = record { going = v.going; tidy = refl; plain = place-NoneFatal l (Place.writing []) e v };
  same = sym (append-nil (all_of l) ∙ same_at l (Place.writing []) e);
}
flush-Keeps l (Place.writing (x ∷ left)) e v =
    let (mild, plain) = place-NoneFatal l (Place.writing (x ∷ left)) e v in
    subst (λ q. Keeps l [] q) (sym (flush_next_lem l x left mild))
      (record {
        sound = record { going = v.going; tidy = tt; plain = plain };
        same =
            append_assoc l.flushed (x ∷ []) (left ++ l.buf)
            ∙ sym (append-nil (all_of l) ∙ same_at l (Place.writing (x ∷ left)) e);
      })
flush-Keeps l Place.returned e v = record { sound = v; same = sym (append-nil (all_of l)) }
flush-Keeps l Place.aborted e v = record { sound = v; same = sym (append-nil (all_of l)) }

step-Keeps :
    (l : Logger) (a : Act)
    → a ≢ Act.destroy
    → NoneFatal (logged (a ∷ []))
    → IsSound l
    → Keeps l (logged (a ∷ [])) (step l a)
unfolding step
step-Keeps l (Act.buffering x) h plain v = record {
  sound = record {
    going = v.going;
    tidy = v.tidy;
    plain =
        subst (λ es. NoneFatal es) (append_assoc (left_over l.place) l.buf (x ∷ []))
          (NoneFatal-append (left_over l.place ++ l.buf) (x ∷ []) v.plain plain);
  };
  same =
      ap (◌++◌ l.flushed) (sym (append_assoc (left_over l.place) l.buf (x ∷ [])))
      ∙ sym (append_assoc l.flushed (left_over l.place ++ l.buf) (x ∷ []));
}
step-Keeps l Act.collect h plain v = collect-Keeps l l.place refl v
step-Keeps l Act.flush_next h plain v = flush-Keeps l l.place refl v
step-Keeps l Act.destroy h plain v = absurd (h refl)

logged-cons : (a : Act) (acts : List Act) → logged (a ∷ acts) ≡ logged (a ∷ []) ++ logged acts
logged-cons (Act.buffering x) acts = refl
logged-cons _ acts = refl

NoneFatal-split :
    (a : Act) (acts : List Act)
    → NoneFatal (logged (a ∷ acts))
    → NoneFatal (logged (a ∷ [])) × NoneFatal (logged acts)
NoneFatal-split (Act.buffering x) acts (mild, h) = ((mild, tt), h)
NoneFatal-split Act.collect acts h = (tt, h)
NoneFatal-split Act.flush_next acts h = (tt, h)
NoneFatal-split Act.destroy acts h = (tt, h)

-- Over any interleaving in which the destructor does not run and no message is FATAL, from a logger at
-- work: the messages handed to the sinks, those left in the loop and those in the buffer are, in this
-- order, those that were there before, followed by those logged meanwhile.
pub log_fifo :
    (l : Logger) (acts : List Act)
    → IsSound l
    → NoneDestroys acts
    → NoneFatal (logged acts)
    → let l' = run l acts in
      l'.flushed ++ (left_over l'.place ++ l'.buf)
      ≡ (l.flushed ++ (left_over l.place ++ l.buf)) ++ logged acts
unfolding run
log_fifo l [] v h plain = sym (append-nil (all_of l))
log_fifo l (a ∷ acts) v h plain =
    let (plain_a, plain_acts) = NoneFatal-split a acts plain in
    let k = step-Keeps l a h.0 plain_a v in
    log_fifo (step l a) acts k.sound h.1 plain_acts
    ∙ ap (λ es. es ++ logged acts) k.same
    ∙ append_assoc (all_of l) (logged (a ∷ [])) (logged acts)
    ∙ ap (◌++◌ (all_of l)) (sym (logged-cons a acts))
