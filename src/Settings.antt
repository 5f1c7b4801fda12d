-- ===== src/Settings.antt =====
-- The checks of app/config.py, production_limits.py and tls_files.py, and the parsers of API_KEYS in
-- app/sessions/auth.py. A path is a text. What `str.strip`, `str.lower`, `str.split`, `str.partition`
-- and json do is a parameter.
pub mod Tests
pub mod Keys
pub mod Tls
pub mod Laws
use pixeldive.Prelude.{
  string_eq, ℕ, String, Bool, ◌&&◌, ◌||◌, Option, none, some, List, [], ◌∷◌, leb, if◌then◌else◌,
  ◌=?◌, contains,
}
use pixeldive.Prelude.Dict.{Dict, get, put}
use pixeldive.Errors.{Result, ok, err, Error, ◌>>=◌, ◌>>◌}
use pixeldive.Blobs.Filenames.{or_default}
use pixeldive.Blobs.Store.{is_some}

-- `split_commas` is `split(",")`, `strip_brackets` is `strip("[]")`. `partition` gives the token, and
-- the owner where there is a colon. `json_object` has no answer where `json.loads` raises; the answer
-- is none where the value is no object, and else its pairs in order, with `str` of each.
pub record KeyText : Type 0 where
  pub strip : String → String
  pub lower : String → String
  pub strip_brackets : String → String
  pub split_commas : String → List String
  pub partition : String → String × Option String
  pub opens_json : String → Bool
  pub json_object : String → Option (Option (List (String × String)))

-- A token that is there already is refused.
unfoldable pub add_pairs : Dict String String → List (String × String) → Result (Dict String String)
add_pairs mapping [] = ok mapping
add_pairs mapping ((token, owner) ∷ pairs) =
    if is_some (get mapping token)
    then err Error.value_error
    else add_pairs (put mapping token owner) pairs

module _ (texts : KeyText) where
  abbrev pub json_keys : Option (Option (List (String × String))) → Result (Dict String String)
  json_keys none = err Error.value_error
  json_keys (some none) = err Error.value_error
  json_keys (some (some pairs)) = add_pairs [] pairs

  unfoldable pub parse_json_keys : String → Result (Dict String String)
  unfolding add_pairs
  parse_json_keys text = json_keys (texts.json_object text)

  abbrev pub token_owner : String × Option String → String × String
  token_owner (token, none) = (texts.strip token, texts.strip token)
  token_owner (token, some owner) =
      (texts.strip token, or_default (texts.strip owner) (texts.strip token))

  -- The entries that count: neither blank nor without a token.
  unfoldable pub entries : List String → List (String × String)
  entries [] = []
  entries (part ∷ parts) =
      let entry = token_owner (texts.partition (texts.strip part)) in
      let rest = entries parts in
      if (texts.strip part =? "") || (entry.0 =? "") then rest else entry ∷ rest

  unfoldable pub parse_pair_keys : String → Result (Dict String String)
  unfolding entries add_pairs
  parse_pair_keys text = add_pairs [] (entries (texts.split_commas text))

  unfoldable pub parse_api_keys : String → Result (Dict String String)
  unfolding parse_json_keys parse_pair_keys
  parse_api_keys raw =
      let text = texts.strip raw in
      if text =? ""
      then ok []
      else (if texts.opens_json text then parse_json_keys text else parse_pair_keys text)

-- The fields that the checks read.
pub record Settings : Type 0 where
  pub storage_backend : String
  pub quota_backend : String
  pub api_keys : String
  pub auth_required : Bool
  pub allow_anonymous : Bool
  pub http_host : String
  pub grpc_host : String
  pub http_insecure : Bool
  pub grpc_insecure : Bool
  pub tls_cert_file : Option String
  pub tls_key_file : Option String
  pub tls_client_ca_file : Option String
  pub http_tls_cert_file : Option String
  pub http_tls_key_file : Option String
  pub http_tls_client_ca_file : Option String
  pub grpc_tls_cert_file : Option String
  pub grpc_tls_key_file : Option String
  pub grpc_tls_client_ca_file : Option String
  pub rate_limit_per_minute : ℕ
  pub tenant_max_upload_bytes : ℕ
  pub session_max_upload_bytes : ℕ
  pub environment : String
  pub auto_create_tables : Bool
  pub orphan_sweep_interval_seconds : ℕ
  pub database_url : String
  pub quota_redis_url : String

unfoldable pub backend_name : String → Result String
unfolding contains
backend_name value =
    if contains value ("local" ∷ "s3" ∷ []) then ok value else err Error.value_error

unfoldable pub empty_tls_path : Option String → Option String
empty_tls_path none = none
empty_tls_path (some value) = if value =? "" then none else some value

module _ (texts : KeyText) where
  unfoldable pub quota_backend_name : String → Result String
  unfolding contains
  quota_backend_name value =
      let choice = texts.lower (texts.strip value) in
      if contains choice ("" ∷ "memory" ∷ "postgres" ∷ "redis" ∷ [])
      then ok choice
      else err Error.value_error

  unfoldable pub is_loopback : String → Bool
  unfolding contains
  is_loopback host =
      contains (texts.lower (texts.strip_brackets host)) ("127.0.0.1" ∷ "::1" ∷ "localhost" ∷ [])

  abbrev pub check_host : String → Result (Unit {0})
  check_host host = if is_loopback host then ok tt else err Error.value_error

  unfoldable pub bind_and_keys : Settings → Result (Unit {0})
  unfolding parse_api_keys is_loopback
  bind_and_keys s = parse_api_keys texts s.api_keys >>= λ keys.
      if s.auth_required || s.allow_anonymous
      then ok tt
      else (check_host s.http_host >> check_host s.grpc_host)

unfoldable pub require_production_quotas : Settings → Result (Unit {0})
require_production_quotas s =
    if leb 1 s.rate_limit_per_minute
      && (leb 1 s.tenant_max_upload_bytes && leb 1 s.session_max_upload_bytes)
    then ok tt
    else err Error.runtime_error

pub record TlsFiles : Type 0 where
  pub cert_file : String
  pub key_file : String
  pub client_ca_file : Option String

abbrev pub or_shared : Option String → Option String → Option String
or_shared none shared = shared
or_shared (some own) shared = some own

abbrev pub pair_or : Bool → Option String → Option String → Option String → Result (Option TlsFiles)
pair_or insecure (some cert) (some key) ca =
    ok (some (record { cert_file = cert; key_file = key; client_ca_file = ca }))
pair_or insecure (some cert) none ca = if insecure then ok none else err Error.runtime_error
pair_or insecure none key ca = if insecure then ok none else err Error.runtime_error

unfoldable pub resolve_tls_files :
    Bool
    → Option String
    → Option String
    → Option String
    → Option String
    → Option String
    → Option String
    → Result (Option TlsFiles)
resolve_tls_files insecure cert_file key_file client_ca_file shared_cert shared_key shared_ca =
    pair_or insecure (or_shared cert_file shared_cert) (or_shared key_file shared_key)
      (or_shared client_ca_file shared_ca)

unfoldable pub http_tls_files : Settings → Result (Option TlsFiles)
unfolding resolve_tls_files
http_tls_files s =
    resolve_tls_files s.http_insecure s.http_tls_cert_file s.http_tls_key_file
      s.http_tls_client_ca_file s.tls_cert_file s.tls_key_file s.tls_client_ca_file

unfoldable pub grpc_tls_files : Settings → Result (Option TlsFiles)
unfolding resolve_tls_files
grpc_tls_files s =
    resolve_tls_files s.grpc_insecure s.grpc_tls_cert_file s.grpc_tls_key_file
      s.grpc_tls_client_ca_file s.tls_cert_file s.tls_key_file s.tls_client_ca_file
