-- ===== src/Tests/Draining.antt =====
-- A pass over a task and a row of an unknown kind; the world is the list of what happened.
use qi.Base.{ℕ, Text, codes, Bool, Option, none, some, List, [], ◌∷◌, ◌++◌, ok}
use qi.Drain.{RemoteTask, Services}

abbrev trim : Text → Text
trim s = s

abbrev parse_date : Text → Option ℕ
parse_date s = none

abbrev no_client : Option (Text → Bool)
no_client = none

abbrev a_task : RemoteTask
a_task = record {
  id = codes "1";
  text = codes "call";
  kind = [];
  project = codes "home";
  client = [];
  due = [];
  scheduled = [];
}

abbrev a_row : RemoteTask
a_row = record a_task { id = codes "2"; kind = codes "mail" }

-- The ids that were acked, before those that were deadlettered.
abbrev memory : Services (List Text)
memory = record {
  create_task = λ input w. (w ++ input.text ∷ [], none);
  add_note = λ text w. (w, none);
  capture = λ text w. (w, none);
  pull = λ limit w. (w, ok (a_task ∷ a_row ∷ []));
  ack = λ ids w. (w ++ ids, none);
  deadletter = λ fs w. (w, none);
}

abbrev full : Services (List Text)
full = record memory { create_task = λ input w. (w, some (codes "disk full")) }
