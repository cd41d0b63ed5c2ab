-- ===== src/Planner/Session.antt =====
-- internal/ai/session.go: validateStoredSession and canonicalJSON. `trim` is strings.TrimSpace;
-- `canonical` is `canonical_json` on some encoding/json, and `valid_provider` is ProviderState.Validate,
-- `validate_state` of Failover/State. A map that is ranged over is ranged over in one order.
pub mod Fresh
pub mod Passing
use qi.Base.{
  ℕ, zero, suc, ◌+◌, ◌-◌, ◌*◌, Text, Bool, true, false, ◌&&◌, ◌||◌, not, ◌==◌, nat_eq, ltb, leb,
  Option, none, some, is_some, List, [], ◌∷◌, length, Dict, lookup, insert, contains, Result, ok,
  err, valid_utf8, if◌then◌else◌,
}
use qi.Failover.State.{ProviderState}
use qi.Planner.{
  Role, assistant, ToolCall, ToolResult, Message, PendingCall, StoredSession, sanitize_tool_name,
}
use qi.Planner.Ident.{parse_session_id}

abbrev pub session_version : ℕ
session_version = 1

pub data SessionError : Type 0 where
  unsupported_version : ℕ → SessionError
  bad_session_id bad_provider empty_conversation not_at_tool_calls bad_call_id : SessionError
  duplicate_call empty_tool_name bad_input unknown_call twice blank_pending : Text → SessionError
  duplicate_approval wrong_tool missing_call : Text → SessionError

-- The code points of a valid UTF-8 text, with the bytes that are due of the current one.
unfoldable pub runes_from : ℕ → ℕ → Text → List ℕ
runes_from due acc [] = []
runes_from zero acc (b ∷ s) =
    if ltb b 0x80
    then b ∷ runes_from 0 0 s
    else if ltb b 0xE0
    then runes_from 1 (b - 0xC0) s
    else if ltb b 0xF0
    then runes_from 2 (b - 0xE0) s
    else runes_from 3 (b - 0xF0) s
runes_from (suc zero) acc (b ∷ s) = (64 * acc + (b - 0x80)) ∷ runes_from 0 0 s
runes_from (suc (suc due)) acc (b ∷ s) = runes_from (suc due) (64 * acc + (b - 0x80)) s

-- unicode.IsSpace
unfoldable pub is_space : ℕ → Bool
is_space r =
    (leb 9 r && leb r 13)
    || nat_eq r 32
    || nat_eq r 0x85
    || nat_eq r 0xA0
    || nat_eq r 0x1680
    || (leb 0x2000 r && leb r 0x200A)
    || nat_eq r 0x2028
    || nat_eq r 0x2029
    || nat_eq r 0x202F
    || nat_eq r 0x205F
    || nat_eq r 0x3000

-- unicode.IsControl
unfoldable pub is_control : ℕ → Bool
is_control r = ltb r 32 || (leb 0x7F r && ltb r 0xA0)

unfoldable pub any_space_or_control : List ℕ → Bool
unfolding is_space is_control
any_space_or_control [] = false
any_space_or_control (r ∷ rs) = (is_space r || is_control r) || any_space_or_control rs

unfoldable pub valid_call_id : Text → Bool
unfolding runes_from any_space_or_control
valid_call_id id =
    if id == [] || ltb 256 (length id) || not (valid_utf8 id)
    then false
    else not (any_space_or_control (runes_from 0 0 id))

unfoldable pub last_message : List Message → Option Message
last_message [] = none
last_message (m ∷ []) = some m
last_message (m ∷ n ∷ ms) = last_message (n ∷ ms)

unfoldable pub is_assistant : Role → Bool
is_assistant assistant = true
is_assistant _ = false

-- `decode` is a decoder's first value with the bytes after it, `at_eof` whether it finds no other value
-- there, and `marshal` is json.Marshal.
abbrev pub canonical_json :
    {V : Type 0}
    → (Text → Option (V × Text))
    → (Text → Bool)
    → (V → Option Text)
    → Text
    → Option Text
canonical_json decode at_eof marshal input = elim (decode input) [
  | none ↦ none
  | some (value, rest) ↦ if at_eof rest then marshal value else none
]

module _ (trim : Text → Text) (canonical : Text → Option Text) where
  -- The loop over the calls of the last turn, with the map so far.
  unfoldable pub check_calls : Dict ToolCall → List ToolCall → Result SessionError (Dict ToolCall)
  unfolding valid_call_id
  check_calls calls [] = ok calls
  check_calls calls (c ∷ cs) =
      let rest = check_calls (insert c.id c calls) cs in
      if not (valid_call_id c.id)
      then err bad_call_id
      else if is_some (lookup c.id calls)
      then err (duplicate_call c.id)
      else if trim c.name == []
      then err (empty_tool_name c.id)
      else if is_some (canonical c.input)
      then rest
      else err (bad_input c.id)

-- The loop over the results; `parts` is the map `partition`, of which the keys matter.
unfoldable pub check_results :
    Dict ToolCall → List Text → List ToolResult → Result SessionError (List Text)
unfolding valid_call_id
check_results calls parts [] = ok parts
check_results calls parts (r ∷ rs) =
    let rest = check_results calls (r.call_id ∷ parts) rs in
    if not (valid_call_id r.call_id)
    then err bad_call_id
    else if not (is_some (lookup r.call_id calls))
    then err (unknown_call r.call_id)
    else if contains r.call_id parts
    then err (twice r.call_id)
    else rest

module _ (trim : Text → Text) where
  unfoldable pub check_pendings :
      Dict ToolCall → List Text → List Text → List PendingCall → Result SessionError (List Text)
  unfolding valid_call_id
  check_pendings calls parts approvals [] = ok parts
  check_pendings calls parts approvals (p ∷ ps) =
      let rest = check_pendings calls (p.call_id ∷ parts) (p.approval_id ∷ approvals) ps in
      if not (valid_call_id p.call_id) then err bad_call_id else elim (lookup p.call_id calls) [
        | none ↦ err (unknown_call p.call_id)
        | some c ↦
            if contains p.call_id parts
            then err (twice p.call_id)
            else if trim p.approval_id == [] || trim p.tool_name == []
            then err (blank_pending p.call_id)
            else if contains p.approval_id approvals
            then err (duplicate_approval p.approval_id)
            else if sanitize_tool_name p.tool_name == c.name
            then rest
            else err (wrong_tool p.tool_name)
      ]

-- The loop over the keys of `calls`.
unfoldable pub check_complete : List Text → Dict ToolCall → Option SessionError
check_complete parts [] = none
check_complete parts ((id, c) ∷ calls) =
    let rest = check_complete parts calls in
    if contains id parts then rest else some (missing_call id)

module _ (trim : Text → Text) (canonical : Text → Option Text)
    (valid_provider : ProviderState → Bool) where
  -- From the calls of the last turn on.
  unfoldable pub check_partition :
      List ToolCall → List ToolResult → List PendingCall → Option SessionError
  check_partition cs results pending = elim (check_calls trim canonical [] cs) [
    | err x ↦ some x
    | ok calls ↦ elim (check_results calls [] results) [
      | err x ↦ some x
      | ok parts ↦ elim (check_pendings trim calls parts [] pending) [
        | err x ↦ some x
        | ok all ↦ check_complete all calls
      ]
    ]
  ]

  unfoldable pub check_conversation : StoredSession → Option SessionError
  unfolding last_message is_assistant check_partition
  check_conversation s = elim (last_message s.messages) [
    | none ↦ some empty_conversation
    | some last ↦
        if not (is_assistant last.role) || nat_eq (length last.tool_calls) 0
        then some not_at_tool_calls
        else check_partition last.tool_calls s.results s.pending
  ]

  unfoldable pub validate_stored_session : StoredSession → Option SessionError
  unfolding check_conversation parse_session_id
  validate_stored_session s =
      if not (nat_eq s.version session_version)
      then some (unsupported_version s.version)
      else if not (is_some (parse_session_id s.session_id))
      then some bad_session_id
      else if not (valid_provider s.provider)
      then some bad_provider
      else check_conversation s
