-- ===== src/Logging/Logger/Ending.antt =====
-- How the flushing thread of Logging.h ends, and what becomes of the messages that it has not handled.
use server_dev_lib.Base.{◌≡◌, refl, ◌∙◌, Bool, true, false, List, [], ◌∷◌}
use server_dev_lib.Logging.Logger.{Logger, Place, Act, step, run, collect_messages, flush_message}

abbrev pub is_over : Place → Bool
is_over Place.returned = true
is_over Place.aborted = true
is_over _ = false

collect-over : (l : Logger) (at : Place) → is_over at ≡ true → collect_messages l at ≡ l
unfolding collect_messages
collect-over l Place.collecting h = cc
collect-over l (Place.writing left) h = refl
collect-over l Place.returned h = refl
collect-over l Place.aborted h = refl

flush-over : (l : Logger) (at : Place) → is_over at ≡ true → flush_message l at ≡ l
unfolding flush_message
flush-over l Place.collecting h = refl
flush-over l (Place.writing left) h = cc
flush-over l Place.returned h = refl
flush-over l Place.aborted h = refl

step-over :
    (l : Logger) (a : Act)
    → is_over l.place ≡ true
    → (is_over (step l a).place ≡ true) × ((step l a).flushed ≡ l.flushed)
unfolding step
step-over l (Act.buffering e) h = (h, refl)
step-over l Act.collect h = rw (collect-over l l.place h) (h, refl)
step-over l Act.flush_next h = rw (flush-over l l.place h) (h, refl)
step-over l Act.destroy h = (h, refl)

run-over :
    (l : Logger) (acts : List Act) → is_over l.place ≡ true → (run l acts).flushed ≡ l.flushed
unfolding run
run-over l [] h = refl
run-over l (a ∷ acts) h = let (h', same) = step-over l a h in run-over (step l a) acts h' ∙ same

-- When the destructor runs while the flushing thread waits, the thread returns, and no message that is
-- in the buffer, or that comes later, ever reaches a sink.
destroy_loses :
    (l : Logger) (acts : List Act)
    → l.place ≡ Place.collecting
    → (run l (Act.destroy ∷ Act.collect ∷ acts)).flushed ≡ l.flushed
unfolding run step collect_messages
destroy_loses l acts at =
    rw (at, collect_messages)
      (run-over (record l { stop = true; place = Place.returned }) acts refl)
