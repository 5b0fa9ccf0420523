-- ===== src/Tests/Logging.antt =====
-- Calls of the activity log.
use pywings.Prelude.{refl, none, Text, lit, List, [], ◌∷◌, ◌++◌, arith}
use pywings.Json.{obj, end}
use pywings.Activity.{Entry, Activity}
use pywings.Activity.Order.{
  Call, recording, flushing, perform_all, accepted, IsTail, perform_all-IsTail,
}

abbrev entry : Text → Entry
entry event = record {
  user = none;
  server = lit "one";
  event = event;
  metadata = obj end;
  ip = lit "127.0.0.1";
  timestamp = 0;
}

abbrev empty : Activity
empty = record { queue = []; max_batch = 2 }

empty-IsTail : IsTail [] empty
empty-IsTail = record { dropped = 0; enough = omega arith; tail = refl; bounded = omega arith }

abbrev calls : List Call
calls =
    recording (entry (lit "a"))
    ∷ recording (entry (lit "b"))
    ∷ recording (entry (lit "c"))
    ∷ flushing
    ∷ recording (entry [])
    ∷ []

perform_all-IsTail_example : IsTail ([] ++ accepted calls) (perform_all calls empty)
perform_all-IsTail_example = perform_all-IsTail calls [] empty empty-IsTail
