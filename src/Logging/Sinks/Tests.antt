-- ===== src/Logging/Sinks/Tests.antt =====
-- A sink that is added while the logger runs, and the theorem about it.
use server_dev_lib.Base.{◌≡◌, refl, false, List, [], ◌∷◌}
use server_dev_lib.Base.Text.{codes}
use server_dev_lib.Logging.Logger.{Entry, Act, init, step, collect_messages, flush_message}
use server_dev_lib.Logging.Sinks.{Sinks, SinkAct, Inner, sink_run, sys_log_flush}
use server_dev_lib.Logging.Sinks.Since.{sinks_get, AllSince}

abbrev entry_one : Entry
entry_one = record { text = codes "one"; fatal = false }

abbrev entry_two : Entry
entry_two = record { text = codes "two"; fatal = false }

-- One sink, that has got the only message.
abbrev one_sink : Sinks
one_sink = record {
  logger = record init { flushed = entry_one ∷ [] };
  outputs = (entry_one ∷ []) ∷ [];
  inner = Inner.outside;
}

abbrev late_acts : List SinkAct
late_acts =
    SinkAct.add_sink
    ∷ SinkAct.acts (Act.buffering entry_two)
    ∷ SinkAct.acts Act.collect
    ∷ SinkAct.acts Act.flush_next
    ∷ SinkAct.acts Act.flush_next
    ∷ SinkAct.acts Act.flush_next
    ∷ SinkAct.acts Act.flush_next
    ∷ []

late_sink :
    (sink_run one_sink late_acts).outputs ≡ (entry_one ∷ entry_two ∷ []) ∷ (entry_two ∷ []) ∷ []
unfolding sink_run init step collect_messages flush_message
late_sink = refl

-- A sink that is added while the flushing thread is in the loop over the sinks.
abbrev early_acts : List SinkAct
early_acts =
    SinkAct.acts (Act.buffering entry_two)
    ∷ SinkAct.acts Act.collect
    ∷ SinkAct.acts Act.flush_next
    ∷ SinkAct.add_sink
    ∷ []

early_sink : (sink_run one_sink early_acts).inner ≡ Inner.torn
unfolding sink_run init step collect_messages flush_message
early_sink = refl

-- The sink that is there before, and the one that is added first.
sinks_get_example :
    let s' = sink_run one_sink late_acts in AllSince s'.logger.flushed ([] ∷ []) s'.outputs
unfolding sink_run init step collect_messages flush_message
sinks_get_example = sinks_get one_sink late_acts ([] ∷ []) refl (refl, tt) refl

prints_line : sys_log_flush (codes "line and late_acts") 4 (codes "> ") ≡ codes "> line"
unfolding sys_log_flush
prints_line = refl
