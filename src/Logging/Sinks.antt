-- ===== src/Logging/Sinks.antt =====
-- The sinks of the logger of include/server/logging/Logging.h: `AddLogSink` at any time, and the inner
-- loop of `Flush`; and `SysLog` of SysLog.h.
pub mod Since
mod Tests
use server_dev_lib.Base.{
  ℕ, ◌≡◌, refl, sym, ap, ◌∙◌, subst, Bool, true, false, List, [], ◌∷◌, ◌++◌, append-nil,
  append_assoc, take, arith, Bool-cases, inl, inr,
}
use server_dev_lib.Logging.Logger.{Logger, Entry, Place, Act, step, collect_messages, flush_message}

-- Where the inner loop of `Flush` is: outside of it; in it, with what the sinks have got to which the
-- loop has still to come; or in it after `_dest_vec` was changed, when its iterators may be stale.
pub data Inner : Type 0 where
  outside torn : Inner
  serving : List (List Entry) → Inner

-- The logger, the inner loop, and what each sink of `_dest_vec` has got, oldest first: in the loop,
-- those to which it has come.
pub record Sinks : Type 0 where
  pub logger : Logger
  pub outputs : List (List Entry)
  pub inner : Inner

-- A step of a thread: an action of the logger, where the flushing thread in the loop over the messages
-- goes on by one sink, or `AddLogSink` of another thread.
pub data SinkAct : Type 0 where
  acts : Act → SinkAct
  add_sink : SinkAct

-- `for ( auto & dest : _dest_vec ) dest->Flush(...)`, one step: the start of the loop, one sink, or its
-- end with what follows for the message.
unfoldable pub serve_next : Sinks → Place → Inner → Sinks
unfolding flush_message
serve_next s (Place.writing (e ∷ left)) Inner.outside = record s {
  outputs = [];
  inner = Inner.serving s.outputs;
}
serve_next s (Place.writing (e ∷ left)) (Inner.serving (out ∷ outs)) = record s {
  outputs = s.outputs ++ ((out ++ (e ∷ [])) ∷ []);
  inner = Inner.serving outs;
}
serve_next s (Place.writing (e ∷ left)) (Inner.serving []) = record s {
  logger = flush_message s.logger s.logger.place;
  inner = Inner.outside;
}
serve_next s (Place.writing []) Inner.outside = record s {
  logger = flush_message s.logger s.logger.place;
}
serve_next s at inner = s

-- `AddLogSink`, without a lock
unfoldable pub add_log_sink : Sinks → Inner → Sinks
add_log_sink s Inner.outside = record s { outputs = s.outputs ++ ([] ∷ []) }
add_log_sink s _ = record s { inner = Inner.torn }

unfoldable pub sink_step : Sinks → SinkAct → Sinks
unfolding serve_next add_log_sink step
sink_step s (SinkAct.acts Act.flush_next) = serve_next s s.logger.place s.inner
sink_step s (SinkAct.acts a) = record s { logger = step s.logger a }
sink_step s SinkAct.add_sink = add_log_sink s s.inner

unfoldable pub sink_run : Sinks → List SinkAct → Sinks
unfolding sink_step
sink_run s [] = s
sink_run s (a ∷ more) = sink_run (sink_step s a) more

-- `SysLog::Flush(str, n)`, on what the standard output has got.
unfoldable pub sys_log_flush : List ℕ → ℕ → List ℕ → List ℕ
sys_log_flush str n out = out ++ take n str
