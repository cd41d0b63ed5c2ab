-- ===== src/Planner/Store/Saved.antt =====
-- What a Save leaves for the next Load.
use qi.Base.{
  is_some, Text, codes, Bool, true, false, ◌==◌, eq_refl, eq_iff, eq_sound, ltb, Option, none, some,
  [], ◌∷◌, ◌++◌, length, length-append, is_some, Dict, lookup, insert, lookup-insert, ok, ◌≡◌, ◌⊎◌,
  ◌∙◌, sym, ap, refl, inl, inr, arith, Bool-cases, Option-cases,
}
use qi.Failover.State.{ProviderState}
use qi.Planner.{StoredSession}
use qi.Planner.Session.{validate_stored_session}
use qi.Planner.Store.{
  Entry, regular, StoreError, Steps, session_file_name, replace_file, is_rejected, save, load,
  check_loaded, decode_session, max_session_bytes,
}

-- What is used of encoding/json: what was encoded is decoded to `as_read` of the session, with no
-- other value after it. There json.MarshalIndent has indented the inputs of the calls, which are raw
-- JSON, and null stands for one that is nil.
pub record CodecLaws (encode : StoredSession → Option Text)
    (decode : Text → Option (StoredSession × Text)) (at_eof : Text → Bool)
    (as_read : StoredSession → StoredSession) : Type 0 where
  pub decodes :
      (s : StoredSession) (b : Text)
      → encode s ≡ some b
      → (rest : Text) × (decode b ≡ some (as_read s, rest)) × (at_eof rest ≡ true)

cancel_right : (i j t : Text) → i ++ t ≡ j ++ t → i ≡ j
cancel_right [] [] t h = refl
cancel_right [] (y ∷ j) t h = absurd (omega (arith, ap length h, length-append j t))
cancel_right (x ∷ i) [] t h = absurd (omega (arith, ap length h, length-append i t))
cancel_right (x ∷ i) (y ∷ j) t h =
    let heads : (x ≡ y) = cc in
    let tails : (i ++ t ≡ j ++ t) = cc in let ih = cancel_right i j t tails in cc

replace_file-cases :
    (t : Steps) (name b : Text) (files : Dict Entry)
    → (((replace_file t name b files).0 ≡ files) × (is_some (replace_file t name b files).1 ≡ true))
      ⊎ ((replace_file t name b files).0 ≡ insert name (regular b) files)
unfolding replace_file
replace_file-cases t name b files = ground arith

module _ (trim : Text → Text) (canonical : Text → Option Text)
    (valid_provider : ProviderState → Bool) (encode : StoredSession → Option Text)
    (decode : Text → Option (StoredSession × Text)) (at_eof : Text → Bool)
    (as_read : StoredSession → StoredSession) (laws : CodecLaws encode decode at_eof as_read) where
  abbrev saved : StoredSession → Steps → Dict Entry → Dict Entry × Option StoreError
  saved s t files = save trim canonical valid_provider encode t s files

  -- A file that was replaced has the encoding of a valid session, within the limit.
  save-cases :
      (t : Steps) (s : StoredSession) (files : Dict Entry)
      → (((saved s t files).0 ≡ files) × (is_some (saved s t files).1 ≡ true))
        ⊎ ((b : Text) × (encode s ≡ some b)
            × (validate_stored_session trim canonical valid_provider s ≡ none)
            × (ltb max_session_bytes (length b) ≡ false)
            × ((saved s t files).0 ≡ insert (session_file_name s.session_id) (regular b) files))
  unfolding save
  save-cases t s files =
      elim (Option-cases (validate_stored_session trim canonical valid_provider s)) [
        | inr (x, e) ↦ inl (ground arith, ground arith)
        | inl valid ↦ elim (Option-cases (encode s)) [
          | inl e ↦ inl (ground arith, ground arith)
          | inr (b, out) ↦ elim (Bool-cases (ltb max_session_bytes (length b))) [
            | inl long ↦ inl (ground arith, ground arith)
            | inr small ↦ elim (Bool-cases (is_rejected (session_file_name s.session_id) files)) [
              | inl other ↦ inl (ground arith, ground arith)
              | inr free ↦ elim (replace_file-cases t (session_file_name s.session_id) b files) [
                | inl (same, failed) ↦ inl (ground arith, ground arith)
                | inr written ↦ inr (b, out, valid, small, ground arith)
              ]
            ]
          ]
        ]
      ]

  load_regular :
      (id b : Text) (files : Dict Entry)
      → lookup (session_file_name id) files ≡ some (regular b)
      → load trim canonical valid_provider decode at_eof id files
        ≡ decode_session trim canonical valid_provider decode at_eof id b
  unfolding load
  load_regular id b files there = ground arith

  decode_session_valid :
      (id b : Text) (s : StoredSession) (rest : Text)
      → ltb max_session_bytes (length b) ≡ false
      → decode b ≡ some (s, rest)
      → at_eof rest ≡ true
      → validate_stored_session trim canonical valid_provider s ≡ none
      → s.session_id ≡ id
      → decode_session trim canonical valid_provider decode at_eof id b ≡ ok s
  unfolding decode_session check_loaded
  decode_session_valid id b s rest small decoded ended valid same =
      ground (arith, eq_iff s.session_id id)

  load_written :
      (s : StoredSession) (b : Text) (files : Dict Entry)
      → encode s ≡ some b
      → validate_stored_session trim canonical valid_provider (as_read s) ≡ none
      → (as_read s).session_id ≡ s.session_id
      → ltb max_session_bytes (length b) ≡ false
      → load trim canonical valid_provider decode at_eof s.session_id
          (insert (session_file_name s.session_id) (regular b) files)
        ≡ ok (as_read s)
  load_written s b files out valid kept small =
      let (rest, decoded, ended) = laws.decodes s b out in
      let name : Text = session_file_name s.session_id in
      load_regular s.session_id b (insert name (regular b) files)
        (lookup-insert name name (regular b) files ∙ (rw (eq_refl name) refl))
      ∙ decode_session_valid s.session_id b (as_read s) rest small decoded ended valid kept

  load_other :
      (id : Text) (name b : Text) (files : Dict Entry)
      → (name == session_file_name id) ≡ false
      → load trim canonical valid_provider decode at_eof id (insert name (regular b) files)
        ≡ load trim canonical valid_provider decode at_eof id files
  unfolding load
  load_other id name b files ne =
      let same : (lookup (session_file_name id) (insert name (regular b) files)
          ≡ lookup (session_file_name id) files) =
        lookup-insert name (session_file_name id) (regular b) files ∙ rw ne refl in
      ground (arith, same)

  -- For a session that is still valid as encoding/json decodes it, under the same id: when Save
  -- returns nil, Load of the id returns the session as it is decoded.
  pub load-save :
      (t : Steps) (s : StoredSession) (files : Dict Entry)
      → validate_stored_session trim canonical valid_provider (as_read s) ≡ none
      → (as_read s).session_id ≡ s.session_id
      → (saved s t files).1 ≡ none
      → load trim canonical valid_provider decode at_eof s.session_id (saved s t files).0
        ≡ ok (as_read s)
  load-save t s files still kept done = elim (save-cases t s files) [
    | inl (same, failed) ↦ ground (arith, failed, done)
    | inr (b, out, valid, small, written) ↦ rw written (load_written s b files out still kept small)
  ]

  -- For a session that is still valid as encoding/json decodes it, under the same id: whatever steps
  -- of its Save fail, Load of any id then answers as before the Save, or the id is that of the
  -- session and Load returns the session as it is decoded.
  pub save_atomic :
      (t : Steps) (s : StoredSession) (files : Dict Entry) (id : Text)
      → validate_stored_session trim canonical valid_provider (as_read s) ≡ none
      → (as_read s).session_id ≡ s.session_id
      → (load trim canonical valid_provider decode at_eof id (saved s t files).0
          ≡ load trim canonical valid_provider decode at_eof id files)
        ⊎ ((id ≡ s.session_id)
            × (load trim canonical valid_provider decode at_eof id (saved s t files).0
                ≡ ok (as_read s)))
  save_atomic t s files id still kept = elim (save-cases t s files) [
    | inl (same, failed) ↦ inl (rw same refl)
    | inr (b, out, valid, small, written) ↦
        elim (Bool-cases (session_file_name s.session_id == session_file_name id)) [
          | inr other ↦
              inl (rw written (load_other id (session_file_name s.session_id) b files other))
          | inl e ↦
              let same : (s.session_id ≡ id) =
                cancel_right s.session_id id (codes ".json")
                  (eq_sound (session_file_name s.session_id) (session_file_name id) e) in
              inr (sym same, rw (written, sym same) (load_written s b files out still kept small))
        ]
  ]
