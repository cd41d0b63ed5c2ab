-- ===== src/Planner/Store.antt =====
-- internal/ai/session_store.go: Save, Load and Delete on the directory of sessions, a map from file
-- names to what stands there. What the operating system answers to the steps of a Save is an argument;
-- the temporary file has a name that no session has, and is not kept in the map. `encode` is
-- json.MarshalIndent, `decode` the first value that the decoder reads, with the bytes after it, and
-- `at_eof` whether the decoder finds no other value there.
pub mod Saved
use qi.Base.{
  ℕ, ◌*◌, Text, codes, Bool, true, false, not, ◌==◌, ltb, Option, none, some, ◌++◌, length, Dict,
  lookup, insert, erase, Result, ok, err, if◌then◌else◌,
}
use qi.Failover.State.{ProviderState}
use qi.Planner.{StoredSession}
use qi.Planner.Session.{SessionError, validate_stored_session}

abbrev pub max_session_bytes : ℕ
max_session_bytes = 8 * 1048576

pub data Entry : Type 0 where
  regular : Text → Entry
  -- A symbolic link, a directory or a device.
  irregular : Entry

pub data StoreError : Type 0 where
  invalid : SessionError → StoreError
  not_encoded snapshot_exceeds not_regular no_such_session not_parsed trailing_data : StoreError
  wrong_id no_temporary not_chmodded not_written not_synced not_closed not_replaced : StoreError
  directory_not_synced not_removed : StoreError

-- Which of the steps of a Save succeed.
pub record Steps : Type 0 where
  pub made : Bool
  pub chmodded : Bool
  pub written : Bool
  pub synced : Bool
  pub closed : Bool
  pub renamed : Bool
  pub directory_synced : Bool

abbrev pub session_file_name : Text → Text
session_file_name id = id ++ codes ".json"

-- From createTemp on.
unfoldable pub replace_file : Steps → Text → Text → Dict Entry → Dict Entry × Option StoreError
replace_file t name bytes files =
    if not t.made
    then (files, some no_temporary)
    else if not t.chmodded
    then (files, some not_chmodded)
    else if not t.written
    then (files, some not_written)
    else if not t.synced
    then (files, some not_synced)
    else if not t.closed
    then (files, some not_closed)
    else if not t.renamed
    then (files, some not_replaced)
    else (
      insert name (regular bytes) files,
      if t.directory_synced then none else some directory_not_synced,
    )

-- rejectExistingNonRegular
unfoldable pub is_rejected : Text → Dict Entry → Bool
is_rejected name files = elim (lookup name files) [
  | some irregular ↦ true
  | some (regular b) ↦ false
  | none ↦ false
]

unfoldable pub delete : Bool → Bool → Text → Dict Entry → Dict Entry × Option StoreError
delete removed synced id files = elim (lookup (session_file_name id) files) [
  | none ↦ (files, none)
  | some irregular ↦ (files, some not_regular)
  | some (regular b) ↦
      if removed
      then (erase (session_file_name id) files, if synced then none else some directory_not_synced)
      else (files, some not_removed)
]

module _ (trim : Text → Text) (canonical : Text → Option Text)
    (valid_provider : ProviderState → Bool) where
  unfoldable pub save :
      (StoredSession → Option Text)
      → Steps
      → StoredSession
      → Dict Entry
      → Dict Entry × Option StoreError
  unfolding is_rejected replace_file
  save encode t s files = elim (validate_stored_session trim canonical valid_provider s) [
    | some x ↦ (files, some (invalid x))
    | none ↦ elim (encode s) [
      | none ↦ (files, some not_encoded)
      | some bytes ↦
          if ltb max_session_bytes (length bytes)
          then (files, some snapshot_exceeds)
          else if is_rejected (session_file_name s.session_id) files
          then (files, some not_regular)
          else replace_file t (session_file_name s.session_id) bytes files
    ]
  ]

  -- From the decoded session on.
  unfoldable pub check_loaded : Text → StoredSession → Result StoreError StoredSession
  check_loaded id s = elim (validate_stored_session trim canonical valid_provider s) [
    | some x ↦ err (invalid x)
    | none ↦ if s.session_id == id then ok s else err wrong_id
  ]

  unfoldable pub decode_session :
      (Text → Option (StoredSession × Text))
      → (Text → Bool)
      → Text
      → Text
      → Result StoreError StoredSession
  unfolding check_loaded
  decode_session decode at_eof id bytes =
      if ltb max_session_bytes (length bytes) then err snapshot_exceeds else elim (decode bytes) [
        | none ↦ err not_parsed
        | some (s, rest) ↦ if at_eof rest then check_loaded id s else err trailing_data
      ]

  unfoldable pub load :
      (Text → Option (StoredSession × Text))
      → (Text → Bool)
      → Text
      → Dict Entry
      → Result StoreError StoredSession
  unfolding decode_session
  load decode at_eof id files = elim (lookup (session_file_name id) files) [
    | none ↦ err no_such_session
    | some irregular ↦ err not_regular
    | some (regular bytes) ↦ decode_session decode at_eof id bytes
  ]
