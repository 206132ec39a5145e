-- ===== src/Metric.antt =====
-- metric/include/metric/metric.h: the event that every module hands to its monitor.
use lark.Base.{Bool, true, List, [], Text}
use lark.Base.Int.{ℤ, pos}

-- `duration` in nanoseconds. The timestamp, which nothing reads, is left out.
pub record Event : Type 0 where
  pub source : Text
  pub action : Text
  pub subject : Text
  pub attrs : List (Text × Text)
  pub duration : ℤ
  pub ok : Bool

-- `Event{source, action, subject}`.
abbrev pub event : Text → Text → Text → Event
event source action subject = record {
  source = source;
  action = action;
  subject = subject;
  attrs = [];
  duration = pos 0;
  ok = true;
}
