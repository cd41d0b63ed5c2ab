-- ===== src/Tests/Serving.antt =====
-- A server with one mutating tool and a queue over a log in memory.
use qi.Base.{[], ◌∷◌, Text, codes, ◌==◌, none, some, ◌≡◌, refl, false, true, ok, err, lookup}
use qi.Policy.{decide, caller_cli}
use qi.Approval.Queue.{approve}
use qi.Approval.Queue.Calls.{run}
use qi.Tools.Execute.{Reply, execute}
use qi.Daemon.{Codec, CallParams, Server, Request}
use qi.Daemon.Methods.{tools_call, approve_id}
use qi.Daemon.Gate.{tools_call_gated}
use qi.Daemon.Approving.{approve_executes}
use qi.Tests.Approvals.{Log, memory, waiting, entry, waiting-there, calls}
use qi.Tests.Catalog.{add_task, writer}

abbrev call : CallParams
call = record {
  name = codes "task.add";
  arguments = codes "1";
  caller = codes "voice";
  call_id = [];
}

abbrev request : Request
request = record {
  jsonrpc = codes "2.0";
  method = codes "tools.call";
  params = codes "p";
  id = codes "7";
}

abbrev codec : Codec
codec = record {
  decode_request = λ line. some request;
  decode_call = λ raw. some call;
  decode_id = λ raw. some raw;
  decode_denial = λ raw. some (raw, []);
  decode_status = λ raw. some raw;
  encode_tools = λ ts. some (codes "tools");
  encode_pending = λ id reason. some id;
  encode_entry = λ p. some p.id;
  encode_entries = λ ps. some (codes "entries");
  marshals = λ r. true;
}

abbrev server : Server Log Text
server = record {
  registry = record {
    tools = (codes "task.add", add_task) ∷ [];
    handlers = (codes "task.add", writer) ∷ [];
    dispatcher = none;
  };
  queue = some waiting;
  world = [];
}

abbrev describe : Reply → Text
describe r = codes "error"

tool_there : lookup (codes "task.add") server.registry.tools ≡ some add_task
unfolding lookup ◌==◌
tool_there = refl

other_caller : (call.caller == caller_cli) ≡ false
unfolding ◌==◌
other_caller = refl

approve_executes_example :
    (approve_id memory codec decide describe 5 6
      (codes "a")
      (run memory waiting calls)
      server).0.world
    ≡ elim (approve memory 5 (codes "a") (run memory waiting calls)).1 [
      | ok r ↦ (execute server.registry entry.tool_name entry.params server.world).1
      | err e ↦ server.world
    ]
approve_executes_example =
    approve_executes memory codec decide describe 5 6 (codes "a") waiting calls entry server
      waiting-there

tools_call_gated_example :
    ((tools_call memory codec decide describe 1 (codes "b" ∷ []) (codes "p") server).0.world
      ≡ server.world)
    × ((tools_call memory codec decide describe 1 (codes "b" ∷ []) (codes "p") server).0.registry
        ≡ server.registry)
tools_call_gated_example =
    tools_call_gated memory codec describe 1 (codes "b" ∷ []) (codes "p") call add_task server refl
      tool_there refl other_caller
