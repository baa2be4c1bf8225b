-- ===== src/Logging/Sinks/Since.antt =====
-- What the sinks of Logging.h have got, whatever the interleaving of the flushing thread and
-- `AddLogSink`.
use server_dev_lib.Base.{
  ◌≡◌, refl, sym, ap, ◌∙◌, subst, List, [], ◌∷◌, ◌++◌, append-nil, append_assoc, arith, Bool-cases,
  inl, inr,
}
use server_dev_lib.Logging.Logger.{Logger, Entry, Place, Act, step, collect_messages, flush_message}
use server_dev_lib.Logging.Sinks.{
  Sinks, SinkAct, Inner, serve_next, add_log_sink, sink_step, sink_run,
}

-- What was handed on is, for each of the first sinks, what was handed on before the sink was added,
-- followed by what it has got.
abbrev pub AllSince : List Entry → List (List Entry) → List (List Entry) → Type 0
AllSince flushed [] outs = Unit {0}
AllSince flushed (before ∷ befores) [] = ⊥
AllSince flushed (before ∷ befores) (out ∷ outs) =
    (flushed ≡ before ++ out) × AllSince flushed befores outs

-- The outputs after a message for each of them.
unfoldable flush_to_all : Entry → List (List Entry) → List (List Entry)
flush_to_all e [] = []
flush_to_all e (out ∷ outs) = (out ++ (e ∷ [])) ∷ flush_to_all e outs

flush_to_all-AllSince :
    (e : Entry) (flushed : List Entry) (befores outs : List (List Entry))
    → AllSince flushed befores outs
    → AllSince (flushed ++ (e ∷ [])) befores (flush_to_all e outs)
unfolding flush_to_all
flush_to_all-AllSince e flushed [] outs h = tt
flush_to_all-AllSince e flushed (before ∷ befores) [] h = elim h [ ]
flush_to_all-AllSince e flushed (before ∷ befores) (out ∷ outs) (same, h) = (
  ap (λ es. es ++ (e ∷ [])) same ∙ append_assoc before out (e ∷ []),
  flush_to_all-AllSince e flushed befores outs h,
)

-- A sink that is added has got nothing, and leaves the others as they are.
added-AllSince :
    (flushed : List Entry) (befores outs : List (List Entry))
    → AllSince flushed befores outs
    → AllSince flushed befores (outs ++ ([] ∷ []))
added-AllSince flushed [] outs h = tt
added-AllSince flushed (before ∷ befores) [] h = elim h [ ]
added-AllSince flushed (before ∷ befores) (out ∷ outs) (here, h) =
    (here, added-AllSince flushed befores outs h)

collect-flushed : (l : Logger) (at : Place) → (collect_messages l at).flushed ≡ l.flushed
unfolding collect_messages
collect-flushed l at = ground arith

flush-flushed :
    (l : Logger) (e : Entry) (left : List Entry)
    → (flush_message l (Place.writing (e ∷ left))).flushed ≡ l.flushed ++ (e ∷ [])
unfolding flush_message
flush-flushed l e left = elim (Bool-cases e.fatal) [
  | inl fatal ↦ rw fatal refl
  | inr mild ↦ rw mild refl
]

-- What holds of the sinks at any step: in the inner loop, what holds once it is done.
unfoldable Since : List (List Entry) → Logger → List (List Entry) → Inner → Type 0
Since befores l outputs Inner.outside = AllSince l.flushed befores outputs
Since befores l outputs Inner.torn = Unit {0}
Since befores l outputs (Inner.serving outs) =
    (e : Entry) × (left : List Entry) × (l.place ≡ Place.writing (e ∷ left))
    × AllSince (l.flushed ++ (e ∷ [])) befores (outputs ++ flush_to_all e outs)

abbrev IsSince : List (List Entry) → Sinks → Type 0
IsSince befores s = Since befores s.logger s.outputs s.inner

message_done :
    (l : Logger) (e : Entry) (left : List Entry) (befores outputs : List (List Entry))
    → l.place ≡ Place.writing (e ∷ left)
    → AllSince (l.flushed ++ (e ∷ [])) befores outputs
    → AllSince (flush_message l l.place).flushed befores outputs
message_done l e left befores outputs there h =
    subst (λ es. AllSince es befores outputs)
      (sym (ap (λ at. (flush_message l at).flushed) there ∙ flush-flushed l e left)) h

loop_done :
    (l : Logger) → l.place ≡ Place.writing [] → (flush_message l l.place).flushed ≡ l.flushed
unfolding flush_message
loop_done l there = ap (λ at. (flush_message l at).flushed) there

serve-Since :
    (s : Sinks) (at : Place) (inner : Inner) (befores : List (List Entry))
    → s.logger.place ≡ at
    → s.inner ≡ inner
    → Since befores s.logger s.outputs inner
    → IsSince befores (serve_next s at inner)
unfolding serve_next Since flush_to_all
serve-Since s (Place.writing (e ∷ left)) Inner.outside befores there same h =
    (e, left, there, flush_to_all-AllSince e s.logger.flushed befores s.outputs h)
serve-Since s (Place.writing (e ∷ left)) (Inner.serving (out ∷ outs)) befores there same h =
    let (e', left', there', rest) = h in
    let e_is : e' ≡ e = cc (there, there') in
    (
      e,
      left,
      there,
      rw (append_assoc s.outputs ((out ++ (e ∷ [])) ∷ []) (flush_to_all e outs)) (
          subst
            (λ x.
              AllSince (s.logger.flushed ++ (x ∷ [])) befores
                (s.outputs ++ flush_to_all x (out ∷ outs)))
            e_is rest),
    )
serve-Since s (Place.writing (e ∷ left)) (Inner.serving []) befores there same h =
    let (e', left', there', rest) = h in
    message_done s.logger e' left' befores s.outputs there' (rw (append-nil s.outputs) at rest)
serve-Since s (Place.writing []) Inner.outside befores there same h =
    subst (Since befores (flush_message s.logger s.logger.place) s.outputs) (sym same)
      (subst (λ es. AllSince es befores s.outputs) (sym (loop_done s.logger there)) h)
serve-Since s (Place.writing []) (Inner.serving outs) befores there same h =
    subst (Since befores s.logger s.outputs) (sym same) h
serve-Since s (Place.writing []) Inner.torn befores there same h =
    subst (Since befores s.logger s.outputs) (sym same) h
serve-Since s (Place.writing (e ∷ left)) Inner.torn befores there same h =
    subst (Since befores s.logger s.outputs) (sym same) h
serve-Since s Place.collecting inner befores there same h =
    subst (Since befores s.logger s.outputs) (sym same) h
serve-Since s Place.returned inner befores there same h =
    subst (Since befores s.logger s.outputs) (sym same) h
serve-Since s Place.aborted inner befores there same h =
    subst (Since befores s.logger s.outputs) (sym same) h

-- Another logger that has handed on the same, and is at the same message of the loop.
other-Since :
    (l l' : Logger) (outputs : List (List Entry)) (inner : Inner) (befores : List (List Entry))
    → l'.flushed ≡ l.flushed
    → ((e : Entry) (left : List Entry)
        → l.place ≡ Place.writing (e ∷ left)
        → l'.place ≡ Place.writing (e ∷ left))
    → Since befores l outputs inner
    → Since befores l' outputs inner
unfolding Since
other-Since l l' outputs Inner.outside befores same kept h = rw same h
other-Since l l' outputs Inner.torn befores same kept h = tt
other-Since l l' outputs (Inner.serving outs) befores same kept (e, left, there, rest) =
    (e, left, kept e left there, rw same rest)

add-Since :
    (s : Sinks) (inner : Inner) (befores : List (List Entry))
    → s.inner ≡ inner
    → Since befores s.logger s.outputs inner
    → IsSince befores (add_log_sink s inner)
unfolding add_log_sink Since
add-Since s Inner.outside befores same h =
    subst (Since befores s.logger (s.outputs ++ ([] ∷ []))) (sym same)
      (added-AllSince s.logger.flushed befores s.outputs h)
add-Since s Inner.torn befores same h = tt
add-Since s (Inner.serving outs) befores same h = tt

collect-writing :
    (l : Logger) (e : Entry) (left : List Entry)
    → l.place ≡ Place.writing (e ∷ left)
    → (collect_messages l l.place).place ≡ Place.writing (e ∷ left)
unfolding collect_messages
collect-writing l e left there = ap (λ at. (collect_messages l at).place) there ∙ there

step-Since :
    (s : Sinks) (a : SinkAct) (befores : List (List Entry))
    → IsSince befores s
    → IsSince befores (sink_step s a)
unfolding sink_step step
step-Since s SinkAct.add_sink befores h = add-Since s s.inner befores refl h
step-Since s (SinkAct.acts Act.flush_next) befores h =
    serve-Since s s.logger.place s.inner befores refl refl h
step-Since s (SinkAct.acts Act.collect) befores h =
    other-Since s.logger (collect_messages s.logger s.logger.place) s.outputs s.inner befores
      (collect-flushed s.logger s.logger.place) (collect-writing s.logger) h
step-Since s (SinkAct.acts (Act.buffering e)) befores h =
    other-Since s.logger (step s.logger (Act.buffering e)) s.outputs s.inner befores refl
      (λ x left there. there) h
step-Since s (SinkAct.acts Act.destroy) befores h =
    other-Since s.logger (step s.logger Act.destroy) s.outputs s.inner befores refl
      (λ x left there. there) h

run-Since :
    (s : Sinks) (more : List SinkAct) (befores : List (List Entry))
    → IsSince befores s
    → IsSince befores (sink_run s more)
unfolding sink_run
run-Since s [] befores h = h
run-Since s (a ∷ more) befores h = run-Since (sink_step s a) more befores (step-Since s a befores h)

-- Over any interleaving that starts and ends outside of the loop over the sinks, with the destructor,
-- FATAL messages and sinks that are added meanwhile, but none while the flushing thread is in this
-- loop: what was handed on before a sink was added, followed by what the sink has got, is all that was
-- handed on; so it gets every message that is handed on from then on, in order, once, and no other.
pub sinks_get :
    (s : Sinks) (more : List SinkAct) (befores : List (List Entry))
    → s.inner ≡ Inner.outside
    → AllSince s.logger.flushed befores s.outputs
    → (sink_run s more).inner ≡ Inner.outside
    → let s' = sink_run s more in AllSince s'.logger.flushed befores s'.outputs
unfolding Since
sinks_get s more befores starts h ends =
    let s' = sink_run s more in
    subst (Since befores s'.logger s'.outputs) ends
      (run-Since s more befores (subst (Since befores s.logger s.outputs) (sym starts) h))
