-- ===== src/Settings/Tests.antt =====
-- Settings that pass the checks.
use pixeldive.Prelude.{
  string_eq, String, ◌≡◌, refl, ◌↔◌, true, false, none, some, [], ◌∷◌, contains,
}
use pixeldive.Prelude.Dict.{Dict, get, put}
use pixeldive.Errors.{ok, err, Error}
use pixeldive.Settings.{
  KeyText, Settings, parse_api_keys, parse_pair_keys, entries, add_pairs, bind_and_keys,
  is_loopback, http_tls_files, grpc_tls_files,
}
use pixeldive.Settings.Laws.{bind_and_keys_lem, Allowed}
use pixeldive.Settings.Keys.{parse_api_keys_lem, spelled, keys_of}
use pixeldive.Settings.Tls.{Secured, tls_files-Secured}

-- Texts without blanks, and one list of keys.
abbrev pub texts : KeyText
texts = record {
  strip = λ s. s;
  lower = λ s. s;
  strip_brackets = λ s. s;
  split_commas = λ s. "a" ∷ "b" ∷ [];
  partition = λ s. (s, some "owner");
  opens_json = λ s. false;
  json_object = λ s. none;
}

abbrev pub settings : Settings
settings = record {
  storage_backend = "local";
  quota_backend = "";
  api_keys = "";
  auth_required = false;
  allow_anonymous = false;
  http_host = "localhost";
  grpc_host = "127.0.0.1";
  http_insecure = false;
  grpc_insecure = true;
  tls_cert_file = some "cert";
  tls_key_file = some "key";
  tls_client_ca_file = none;
  http_tls_cert_file = none;
  http_tls_key_file = none;
  http_tls_client_ca_file = none;
  grpc_tls_cert_file = none;
  grpc_tls_key_file = none;
  grpc_tls_client_ca_file = none;
  rate_limit_per_minute = 0;
  tenant_max_upload_bytes = 0;
  session_max_upload_bytes = 0;
  environment = "development";
  auto_create_tables = false;
  orphan_sweep_interval_seconds = 0;
  database_url = "";
  quota_redis_url = "";
}

abbrev two_keys : Dict String String
two_keys = ("a", "owner") ∷ ("b", "owner") ∷ []

two_keys_parsed : parse_api_keys texts "a:owner,b:owner" ≡ ok two_keys
unfolding parse_api_keys parse_pair_keys entries add_pairs get put
two_keys_parsed = refl

-- A token that stands twice is refused.
twice_refused :
    parse_api_keys (record texts { split_commas = λ s. "a" ∷ "a" ∷ [] }) "a:x,a:y"
    ≡ err Error.value_error
unfolding parse_api_keys parse_pair_keys entries add_pairs get put
twice_refused = refl

parse_api_keys_lem_example :
    parse_api_keys texts "a:owner,b:owner" ≡ keys_of (spelled texts "a:owner,b:owner")
parse_api_keys_lem_example = parse_api_keys_lem texts "a:owner,b:owner"

accepted : bind_and_keys texts settings ≡ ok tt
unfolding bind_and_keys parse_api_keys is_loopback contains
accepted = refl

-- Not without authentication on all addresses.
open_host : bind_and_keys texts (record settings { http_host = "0.0.0.0" }) ≡ err Error.value_error
unfolding bind_and_keys parse_api_keys is_loopback contains
open_host = refl

bind_and_keys_lem_example : bind_and_keys texts settings ≡ ok tt ↔ Allowed texts settings
bind_and_keys_lem_example = bind_and_keys_lem texts settings

tls_files-Secured_example :
    Secured settings.http_insecure settings.http_tls_cert_file settings.http_tls_key_file
      settings.http_tls_client_ca_file settings.tls_cert_file settings.tls_key_file
      settings.tls_client_ca_file
      (http_tls_files settings)
    × Secured settings.grpc_insecure settings.grpc_tls_cert_file settings.grpc_tls_key_file
        settings.grpc_tls_client_ca_file settings.tls_cert_file settings.tls_key_file
        settings.tls_client_ca_file
        (grpc_tls_files settings)
tls_files-Secured_example = tls_files-Secured settings
