-- ===== src/Daemon.antt =====
-- internal/daemon/wire.go and internal/daemon/server.go: the frames, the errors and their codes,
-- and the state of the server.
pub mod Methods
pub mod Serve
pub mod Gate
pub mod Approving
use qi.Base.{◌∷◌, Text, codes, Bool, ◌||◌, ◌==◌, Option, List, [], Result, ok, err}
use qi.Approval.{QueueError, unknown_id, Pending}
use qi.Approval.Queue.{Queue}
use qi.Tools.{Tool}
use qi.Tools.Registry.{Registry}
use qi.Tools.Execute.{Reply, result}

pub record Request : Type 0 where
  pub jsonrpc : Text
  pub method : Text
  pub params : Text
  pub id : Text

abbrev pub jsonrpc_version : Text
jsonrpc_version = codes "2.0"

unfoldable pub is_notification : Request → Bool
is_notification r = r.id == [] || r.id == codes "null"

-- The numbers are -32700, -32600, -32601, -32602, -32001, -32002, -32003, -32004 and -32005.
pub data ErrorCode : Type 0 where
  parse_error invalid_request method_not_found invalid_params : ErrorCode
  tool_not_found tool_not_implemented handler_error code_policy_denied approval_unknown : ErrorCode

pub data Response : Type 0 where
  success_response : Text → Text → Response
  error_response : Text → ErrorCode → Response

-- An absent id is answered as null.
unfoldable pub response_id : Text → Text
response_id [] = codes "null"
response_id (c ∷ id) = c ∷ id

-- The error of a method.
pub data MethodError : Type 0 where
  bad_params not_encoded : MethodError
  call_failed : Reply → MethodError
  policy_denied : Text → MethodError
  queue_failed : QueueError → MethodError

abbrev queue_code : QueueError → ErrorCode
queue_code (unknown_id id) = approval_unknown
queue_code _ = handler_error

abbrev reply_code : Reply → ErrorCode
reply_code (Reply.not_found name) = tool_not_found
reply_code (Reply.not_implemented source) = tool_not_implemented
reply_code _ = handler_error

-- A tool's own error is taken to wrap none of the errors that the switch asks for.
unfoldable pub error_from_method : MethodError → ErrorCode
error_from_method (call_failed r) = reply_code r
error_from_method (queue_failed e) = queue_code e
error_from_method (policy_denied reason) = code_policy_denied
error_from_method bad_params = invalid_params
error_from_method not_encoded = handler_error

-- What Execute returned, as a value or an error.
unfoldable pub of_reply : Reply → Result MethodError Text
of_reply (Reply.result v) = ok v
of_reply r = err (call_failed r)

pub record CallParams : Type 0 where
  pub name : Text
  pub arguments : Text
  pub caller : Text
  pub call_id : Text

-- encoding/json on the parameters and results of the methods; nothing stands for an error.
pub record Codec : Type 0 where
  pub decode_request : Text → Option Request
  pub decode_call : Text → Option CallParams
  pub decode_id : Text → Option Text
  pub decode_denial : Text → Option (Text × Text)
  pub decode_status : Text → Option Text
  pub encode_tools : List Tool → Option Text
  pub encode_pending : Text → Text → Option Text
  pub encode_entry : Pending → Option Text
  pub encode_entries : List Pending → Option Text
  -- Whether json.Marshal of a response succeeds: its id and its result are raw JSON.
  pub marshals : Response → Bool

-- The server with the tools and the queue that it points to, and the world outside.
pub record Server (A W : Type 0) : Type 0 where
  pub registry : Registry W
  pub queue : Option (Queue A)
  pub world : W
