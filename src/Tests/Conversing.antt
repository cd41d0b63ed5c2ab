-- ===== src/Tests/Conversing.antt =====
-- A conversation with two tools, of which one waits for an approval.
use qi.Base.{
  ◌≡◌, refl, sym, ap, Text, codes, Bool, true, false, ◌==◌, Option, none, some, is_some, List, [],
  ◌∷◌, ◌++◌, All, Dict, lookup, contains, if◌then◌else◌, ok, err, ◌⊎◌, not, map, valid_utf8, insert,
}
use qi.Approval.{Pending, executed}
use qi.Failover.State.{ProviderState, validate_state}
use qi.Planner.{
  ToolCall, ToolResult, Message, PendingCall, StoredSession, CatalogTool, sanitize_tool_name,
  tool_def, build_tool_defs,
}
use qi.Planner.Ident.{parse_session_id}
use qi.Planner.Names.{build_tool_defs_faithful}
use qi.Planner.Session.{
  canonical_json, check_calls, check_results, check_pendings, check_complete,
  validate_stored_session, last_message,
}
use qi.Planner.Loop.{Host, PlannerState, PendingResult, tool_named}
use qi.Planner.Run.{proposal, prompt_message, answers, with_tools}
use qi.Planner.Resume.{resume, resumed_state, results_by_call, pending_by_call}
use qi.Planner.Resume.Paired.{Aligned, IsAnswer, resume_lem}
use qi.Planner.Store.{Steps, load, save}
use qi.Planner.Store.Saved.{CodecLaws, load-save, save_atomic}

abbrev trim : Text → Text
trim s = s

-- Texts stand for JSON values that are their own encoding.
abbrev canonical : Text → Option Text
canonical = canonical_json (λ s. some (s, [])) (λ rest. true) (λ v. some v)

abbrev valid_provider : ProviderState → Bool
valid_provider s = not (is_some (validate_state trim (λ t. t) s))

abbrev catalog : List CatalogTool
catalog =
    record { name = codes "task.add"; description = []; schema = codes "{}" }
    ∷ record { name = codes "task.list"; description = []; schema = codes "{}" }
    ∷ []

abbrev names : Dict Text
names = (codes "task_list", codes "task.list") ∷ (codes "task_add", codes "task.add") ∷ []

abbrev adding : ToolCall
adding = record { id = codes "c1"; name = codes "task_add"; input = codes "1" }

abbrev listing : ToolCall
listing = record { id = codes "c2"; name = codes "task_list"; input = codes "2" }

-- The result that qid gives for a call that waits.
abbrev read_pending : Text → Option PendingResult
read_pending raw =
    if raw == codes "P"
    then some (record { status = codes "pending"; approval_id = codes "a1"; reason = [] })
    else none

abbrev id_of_session : Text
id_of_session = codes "00000000000000000000000000000000000000000000000000000000000000ff"

abbrev planner : PlannerState
planner = record { model = []; max_tokens = 2048; max_iterations = 8; session_id = id_of_session }

abbrev approval : Pending
approval = record {
  id = codes "a1";
  caller = codes "ai-planner:" ++ id_of_session;
  call_id = codes "c1";
  tool_name = codes "task.add";
  params = codes "1";
  status = executed;
  reason = [];
  created_at = 1;
  decided_at = some 2;
  executed_at = some 3;
  result = codes "done";
  error = [];
}

abbrev state : ProviderState
state = record {
  version = 1;
  entries = record { provider = codes "ollama"; model = []; config_id = id_of_session } ∷ [];
  active = 0;
}

abbrev host : Host (Unit {0})
host = record {
  catalog_of = λ w. (w, ok catalog);
  tool_call = λ caller id name input w.
      (w, ok (if name == codes "task.add" then codes "P" else codes "[]"));
  get_approval = λ id w. (w, ok approval);
  deny_approval = λ id reason w. (w, none);
  respond = λ r w. (w, err (codes "offline"));
  snapshot = λ w. some (ok state);
  store = λ s w. (w, none);
}

abbrev question : List Message
question = prompt_message (codes "add") ∷ []

abbrev waiting : PendingCall
waiting = record {
  call_id = codes "c1";
  approval_id = codes "a1";
  tool_name = codes "task.add";
  reason = [];
}

abbrev listed : ToolResult
listed = record { call_id = codes "c2"; content = codes "[]"; is_error = false }

abbrev session : StoredSession
session = record {
  version = 1;
  session_id = id_of_session;
  model = [];
  provider = state;
  messages = question ++ proposal [] (adding ∷ listing ∷ []) ∷ [];
  results = listed ∷ [];
  pending = waiting ∷ [];
}

build_tool_defs_faithful_example :
    (map tool_def catalog ≡ map tool_def catalog)
    × All (λ t. tool_named names (tool_def t).name ≡ t.name) catalog
unfolding build_tool_defs sanitize_tool_name lookup insert ◌==◌
build_tool_defs_faithful_example =
    build_tool_defs_faithful catalog (map tool_def catalog) names refl

abbrev done : ToolResult
done = record { call_id = codes "c1"; content = codes "done"; is_error = false }

abbrev resumed_messages : List Message
resumed_messages = session.messages ++ answers (done ∷ listed ∷ []) ∷ []

resume_lem_example :
    (validate_stored_session trim canonical valid_provider session ≡ none)
    × (last : Message) × (rs : List ToolResult) × (w' : Unit {0}) × (last_message session.messages
        ≡ some last)
    × Aligned
        (IsAnswer host canonical
          (resumed_state planner session)
          read_pending
          trim
          valid_provider
          (results_by_call [] session.results)
          (pending_by_call [] session.pending))
        last.tool_calls
        rs
    × (with_tools host read_pending trim canonical
          (resumed_state planner session)
          resumed_messages
          tt
        ≡ with_tools host read_pending trim canonical
            (resumed_state planner session)
            (session.messages ++ answers rs ∷ [])
            w')
unfolding resume validate_stored_session parse_session_id sanitize_tool_name ◌==◌ lookup insert
    contains valid_utf8 validate_state check_calls check_results check_pendings check_complete
resume_lem_example =
    resume_lem host read_pending trim canonical valid_provider planner session tt
      (with_tools host read_pending trim canonical (resumed_state planner session) resumed_messages
        tt)
      refl

-- A codec that keeps the id alone, and gives the first call of `session` an indented input.
abbrev spaced : ToolCall
spaced = record adding { input = codes " 1" }

abbrev as_read : StoredSession → StoredSession
as_read s = record session {
  session_id = s.session_id;
  messages = question ++ proposal [] (spaced ∷ listing ∷ []) ∷ [];
}

abbrev encode : StoredSession → Option Text
encode s = some s.session_id

abbrev decode : Text → Option (StoredSession × Text)
decode b = some (record (as_read session) { session_id = b }, [])

abbrev at_eof : Text → Bool
at_eof rest = rest == []

spaced-CodecLaws : CodecLaws encode decode at_eof as_read
unfolding ◌==◌
spaced-CodecLaws = record {
  decodes =
      λ s b out. ([], ap (λ o. elim o [ none ↦ decode [] | some t ↦ decode t ]) (sym out), refl);
}

still_valid : validate_stored_session trim canonical valid_provider (as_read session) ≡ none
unfolding validate_stored_session parse_session_id sanitize_tool_name ◌==◌ lookup insert contains
    valid_utf8 validate_state check_calls check_results check_pendings check_complete
still_valid = refl

abbrev all_steps : Steps
all_steps = record {
  made = true;
  chmodded = true;
  written = true;
  synced = true;
  closed = true;
  renamed = true;
  directory_synced = true;
}

load-save_example :
    load trim canonical valid_provider decode at_eof id_of_session
      (save trim canonical valid_provider encode all_steps session []).0
    ≡ ok (as_read session)
unfolding save validate_stored_session parse_session_id sanitize_tool_name ◌==◌ lookup insert
    contains valid_utf8 validate_state check_calls check_results check_pendings check_complete
load-save_example =
    load-save trim canonical valid_provider encode decode at_eof as_read spaced-CodecLaws all_steps
      session [] still_valid refl refl

save_atomic_example :
    (load trim canonical valid_provider decode at_eof id_of_session
        (save trim canonical valid_provider encode
          (record all_steps { directory_synced = false })
          session
          []).0
      ≡ load trim canonical valid_provider decode at_eof id_of_session [])
    ⊎ ((id_of_session ≡ session.session_id)
        × (load trim canonical valid_provider decode at_eof id_of_session
              (save trim canonical valid_provider encode
                (record all_steps { directory_synced = false })
                session
                []).0
            ≡ ok (as_read session)))
save_atomic_example =
    save_atomic trim canonical valid_provider encode decode at_eof as_read spaced-CodecLaws
      (record all_steps { directory_synced = false }) session [] id_of_session still_valid refl
