-- ===== src/Drain.antt =====
-- internal/service/drain_service.go: one pass over the rows of the remote queue. The queue and the
-- sinks of the vault are functions on the state of the world. `trim` is strings.TrimSpace, and
-- `parse_date` is time.Parse with the layout of a date. The reasons of failures are constructors.
pub mod Accounted
pub mod Totals
pub mod Stopped
use qi.Base.{
  ℕ, suc, Text, codes, Bool, ◌==◌, nat_eq, Option, none, some, List, [], ◌∷◌, length, Result, ok,
  err, if◌then◌else◌,
}
use qi.Intake.{InputError, validate_add_input}

pub record RemoteTask : Type 0 where
  pub id : Text
  pub text : Text
  pub kind : Text
  pub project : Text
  pub client : Text
  pub due : Text
  pub scheduled : Text

-- What CreateTask is given by a drain.
pub record AddTaskInput : Type 0 where
  pub text : Text
  pub project : Text
  pub due : Option ℕ
  pub scheduled : Option ℕ
  pub id : Text

pub data Rejection : Type 0 where
  invalid_input : InputError → Rejection
  invalid_due invalid_scheduled unknown_kind : Text → Rejection

pub record DrainFailure : Type 0 where
  pub id : Text
  pub reason : Rejection

pub record DrainSummary : Type 0 where
  pub drained : ℕ
  pub rejected : ℕ
  pub failures : List DrainFailure

pub data DrainError : Type 0 where
  not_pulled not_acked not_deadlettered : Text → DrainError
  not_written : Text → Text → DrainError

-- TaskService.CreateTask, NoteService.AddNote without a title, CaptureService.Capture, and the queue.
pub record Services (W : Type 0) : Type 0 where
  pub create_task : AddTaskInput → W → W × Option Text
  pub add_note : Text → W → W × Option Text
  pub capture : Text → W → W × Option Text
  pub pull : ℕ → W → W × Result Text (List RemoteTask)
  pub ack : List Text → W → W × Option Text
  pub deadletter : List DrainFailure → W → W × Option Text

-- What is written for a row.
pub data Write : Type 0 where
  task : AddTaskInput → Write
  note captured : Text → Write

pub record Drained (W : Type 0) : Type 0 where
  pub world : W
  pub summary : DrainSummary
  pub error : Option DrainError

-- After the loop: the ids that were written, and the failures.
pub record Passed (W : Type 0) : Type 0 where
  pub world : W
  pub written : List Text
  pub failures : List DrainFailure
  pub error : Option DrainError

module _ (trim : Text → Text) (parse_date : Text → Option ℕ)
    (is_client : Option (Text → Bool)) where
  -- `none` for a text that is not a date.
  unfoldable pub parse_drain_date : Text → Option (Option ℕ)
  parse_drain_date v =
      if v == [] then some none else elim (parse_date v) [ none ↦ none | some t ↦ some (some t) ]

  -- The case of a task, up to CreateTask.
  unfoldable pub route_task : RemoteTask → Result Rejection Write
  unfolding parse_drain_date
  route_task r = elim (validate_add_input trim r.text r.project r.client is_client) [
    | some x ↦ err (invalid_input x)
    | none ↦ elim (parse_drain_date r.due) [
      | none ↦ err (invalid_due r.due)
      | some due ↦ elim (parse_drain_date r.scheduled) [
        | none ↦ err (invalid_scheduled r.scheduled)
        | some scheduled ↦ ok (
            task (record {
              text = r.text;
              project = if trim r.client == [] then trim r.project else trim r.client;
              due = due;
              scheduled = scheduled;
              id = r.id;
            }))
      ]
    ]
  ]

  -- The switch on the kind, without its effects.
  unfoldable pub route : RemoteTask → Result Rejection Write
  unfolding route_task
  route r =
      let kind : Text = trim r.kind in
      if kind == []
      then route_task r
      else if kind == codes "task"
      then route_task r
      else if kind == codes "note"
      then ok (note r.text)
      else if kind == codes "capture"
      then ok (captured r.text)
      else err (unknown_kind kind)

  module _ {W : Type 0} (services : Services W) where
    unfoldable pub perform : Write → W → W × Option Text
    perform (task input) w = services.create_task input w
    perform (note text) w = services.add_note text w
    perform (captured text) w = services.capture text w

    abbrev pub with_failure : RemoteTask → Rejection → Passed W → Passed W
    with_failure r x p = record p { failures = record { id = r.id; reason = x } ∷ p.failures }

    abbrev pub with_written : RemoteTask → Passed W → Passed W
    with_written r p = record p { written = r.id ∷ p.written }

    -- The loop; a write that fails ends it.
    unfoldable pub pass : List RemoteTask → W → Passed W
    unfolding route perform
    pass [] w = record { world = w; written = []; failures = []; error = none }
    pass (r ∷ rs) w = elim (route r) [
      | err x ↦ with_failure r x (pass rs w)
      | ok act ↦
          let (w', failed) = perform act w in
          elim failed [
            | some x ↦ record {
              world = w';
              written = [];
              failures = [];
              error = some (not_written r.id x);
            }
            | none ↦ with_written r (pass rs w')
          ]
    ]

    -- From the deadletters on.
    unfoldable pub reject_failures : ℕ → List DrainFailure → W → Drained W
    reject_failures drained [] w = record {
      world = w;
      summary = record { drained = drained; rejected = 0; failures = [] };
      error = none;
    }
    reject_failures drained (f ∷ fs) w =
        let (w', failed) = services.deadletter (f ∷ fs) w in
        elim failed [
          | some x ↦ record {
            world = w';
            summary = record { drained = drained; rejected = 0; failures = f ∷ fs };
            error = some (not_deadlettered x);
          }
          | none ↦ record {
            world = w';
            summary = record { drained = drained; rejected = suc (length fs); failures = f ∷ fs };
            error = none;
          }
        ]

    -- From the end of the loop on.
    unfoldable pub after_pass : Passed W → Drained W
    unfolding reject_failures
    after_pass p = elim p.error [
      | some x ↦ record {
        world = p.world;
        summary = record { drained = 0; rejected = 0; failures = p.failures };
        error = some x;
      }
      | none ↦
          let (w', failed) = services.ack p.written p.world in
          elim failed [
            | some x ↦ record {
              world = w';
              summary = record { drained = 0; rejected = 0; failures = p.failures };
              error = some (not_acked x);
            }
            | none ↦ reject_failures (length p.written) p.failures w'
          ]
    ]

    -- A limit that is not positive is 0 here.
    unfoldable pub drain : ℕ → W → Drained W
    unfolding pass after_pass
    drain limit w =
        let (w', pulled) = services.pull (if nat_eq limit 0 then 100 else limit) w in
        elim pulled [
          | err x ↦ record {
            world = w';
            summary = record { drained = 0; rejected = 0; failures = [] };
            error = some (not_pulled x);
          }
          | ok rows ↦ after_pass (pass rows w')
        ]
