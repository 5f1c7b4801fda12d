-- ===== src/Rpc/Codec/Update.antt =====
-- A patch on its way from the client to the row.
use Prim.Native.String.{count}
use pixeldive.Prelude.{
  string_eq, ℕ, String, ◌≡◌, refl, ap, ◌∙◌, Bool, false, not, ◌&&◌, Option, none, some, [], ◌∷◌,
  arith, ltb, if◌then◌else◌, is_empty, get_or_else,
}
use text.Mathlib.TextEquality.{eq_iff}
use pixeldive.Prelude.Dict.{Dict, get}
use pixeldive.Errors.{Result, ok, err, Error, ◌>>=◌}
use pixeldive.Sessions.Model.{Session, SessionUpdate, SessionStatus}
use pixeldive.Sessions.Rows.{apply_update, patched_metadata, apply_metadata, update_all}
use pixeldive.Rpc.Codec.{
  StructCodec, UpdateSessionRequest, struct_to_dict, patch_metadata, update_patch, optional,
  valid_name, status_of, status_text,
}
use pixeldive.Sdk.Mapping.{PatchPayload, sent_metadata, update_session_request}

-- A Struct holds the dictionary that was parsed into it, and has fields exactly if that is not empty.
pub record IsStructCodec {Struct Json : Type 0} (structs : StructCodec Struct Json) : Type 0 where
  pub none_there : structs.has_fields structs.no_fields ≡ false
  pub fields :
      (bag : Dict String Json) → structs.has_fields (structs.parse_dict bag) ≡ not (is_empty bag)
  pub same : (bag : Dict String Json) → structs.to_dict (structs.parse_dict bag) ≡ bag

-- The metadata that a patch asks for: to clear it wins over all else; to merge writes the new values
-- over the old ones; otherwise a dictionary with a key in it replaces the old one.
unfoldable pub asked_metadata :
    {Json : Type 0} → Dict String Json → PatchPayload Json → Bool → Dict String Json
unfolding update_all
asked_metadata existing payload merge =
    let incoming = get_or_else [] payload.metadata in
    if payload.clear_metadata
    then []
    else (if merge
        then update_all existing incoming
        else (if is_empty incoming then existing else incoming))

abbrev asked_row :
    {Json : Type 0}
    → Session Json
    → PatchPayload Json
    → Bool
    → ℕ
    → Option String
    → Option SessionStatus
    → Session Json
asked_row row payload merge now name status = record row {
  session_name = get_or_else row.session_name name;
  status = get_or_else row.status status;
  extra_metadata = asked_metadata row.extra_metadata payload merge;
  updated_at = now;
}

abbrev statuses : Dict String SessionStatus
statuses =
    ("CREATED", SessionStatus.created)
    ∷ ("IN_PROGRESS", SessionStatus.in_progress)
    ∷ ("COMPLETED", SessionStatus.completed)
    ∷ ("FAILED", SessionStatus.failed)
    ∷ []

-- A name that is there has 1 to 255 characters.
abbrev asked_name : Option String → Result (Option String)
asked_name none = ok none
asked_name (some name) =
    if ltb 0 (count name) && ltb (count name) 256
    then ok (some name)
    else err Error.validation_error

-- A status that is there is one of the four.
abbrev asked_status : Option String → Result (Option SessionStatus)
asked_status none = ok none
asked_status (some text) = elim (get statuses text) [
  | none ↦ err Error.validation_error
  | some status ↦ ok (some status)
]

optional-valid_name : (name : Option String) → optional valid_name name ≡ asked_name name
unfolding valid_name
optional-valid_name none = refl
optional-valid_name (some name) = ground arith

optional-status_of : (text : Option String) → optional status_of text ≡ asked_status text
unfolding status_of status_text get
optional-status_of none = refl
optional-status_of (some text) = ground (
  arith,
  eq_iff "CREATED" text,
  eq_iff text "CREATED",
  eq_iff "IN_PROGRESS" text,
  eq_iff text "IN_PROGRESS",
  eq_iff "COMPLETED" text,
  eq_iff text "COMPLETED",
  eq_iff "FAILED" text,
  eq_iff text "FAILED",
)

-- The row with the name, status and metadata that the patch asks for.
abbrev pub asked :
    {Json : Type 0} → Session Json → PatchPayload Json → Bool → ℕ → Result (Session Json)
asked row payload merge now = asked_name payload.session_name >>= λ name.
    asked_status payload.status >>= λ status. ok (asked_row row payload merge now name status)

abbrev patch_of :
    {Json : Type 0}
    → Option String
    → Option SessionStatus
    → Option (Dict String Json)
    → Bool
    → SessionUpdate Json
patch_of n s extra merged = record {
  session_name = n;
  status = s;
  extra_metadata = extra;
  merge_metadata = merged;
}

module _ {Struct Json : Type 0} (structs : StructCodec Struct Json)
    (laws : IsStructCodec structs) where
  sent_metadata_lem :
      (m : Option (Dict String Json))
      → struct_to_dict structs (sent_metadata structs m) ≡ get_or_else [] m
  unfolding struct_to_dict
  sent_metadata_lem none = rw laws.none_there refl
  sent_metadata_lem (some []) = rw (laws.fields []) refl
  sent_metadata_lem (some (entry ∷ bag)) =
      rw (laws.fields (entry ∷ bag), laws.same (entry ∷ bag)) refl

  module _ (session_id : String) (payload : PatchPayload Json) (merge : Bool) where
    abbrev request : UpdateSessionRequest Struct
    request =
        unfold update_session_request in update_session_request structs session_id payload merge

    metadata_lem :
        (existing : Dict String Json)
        → patched_metadata existing
            (patch_metadata structs request).0
            (patch_metadata structs request).1
          ≡ asked_metadata existing payload merge
    unfolding patch_metadata asked_metadata apply_metadata update_session_request
    metadata_lem existing = rw (sent_metadata_lem payload.metadata) (ground arith)

    applied :
        (name : Result (Option String)) (status : Result (Option SessionStatus))
        (extra : Option (Dict String Json)) (merged : Bool) (row : Session Json) (now : ℕ)
        → patched_metadata row.extra_metadata extra merged
          ≡ asked_metadata row.extra_metadata payload merge
        → ((name >>= λ n. status >>= λ s. ok (patch_of n s extra merged)) >>= λ patch.
            ok (apply_update row patch now))
          ≡ (name >>= λ n. status >>= λ s. ok (asked_row row payload merge now n s))
    unfolding apply_update
    applied (ok n) (ok s) extra merged row now h =
        ap
          (λ m. ok (record row {
            session_name = get_or_else row.session_name n;
            status = get_or_else row.status s;
            extra_metadata = m;
            updated_at = now;
          }))
          h
    applied (ok n) (err e) extra merged row now h = refl
    applied (err e) status extra merged row now h = refl

    -- For every patch of the client's `update_session`, and a Struct that keeps what is put into it:
    -- the server refuses a name that is not of 1 to 255 characters and a status other
    -- than CREATED, IN_PROGRESS, COMPLETED and FAILED; otherwise the row gets the name and the status that are given. Its metadata is emptied on
    -- `clear_metadata`; with `merge_metadata` the given values are written over the old ones; without
    -- it a metadata dictionary with a key replaces the old one, and an empty one changes nothing.
    pub update_session_request-update_patch :
        (row : Session Json) (now : ℕ)
        → (update_patch structs (update_session_request structs session_id payload merge)
            >>= λ patch. ok (apply_update row patch now))
          ≡ asked row payload merge now
    unfolding update_patch update_session_request
    update_session_request-update_patch row now =
        applied (optional valid_name payload.session_name) (optional status_of payload.status)
          (patch_metadata structs request).0 (patch_metadata structs request).1 row now
          (metadata_lem row.extra_metadata)
        ∙ rw (optional-valid_name payload.session_name, optional-status_of payload.status) refl
