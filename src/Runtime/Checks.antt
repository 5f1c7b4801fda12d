-- ===== src/Runtime/Checks.antt =====
-- The checks of app/runtime.py that stand before anything is opened, and the choice of a quota store
-- in app/sessions/quotas.py.
use pixeldive.Prelude.{
  string_eq, nat_eq, ◌≤◌, String, ◌≡◌, ◌⊎◌, Bool, true, false, some, [], ◌∷◌, contains,
}
use pixeldive.Errors.{◌>>=◌, ◌>>◌, Error, Result, ok, require, reject}
use pixeldive.Settings.{
  KeyText, parse_api_keys, Settings, require_production_quotas, TlsFiles, http_tls_files,
  grpc_tls_files,
}
use pixeldive.Prelude.Dict.{Dict}

unfoldable pub is_production : KeyText → Settings → Bool
unfolding contains
is_production texts s =
    contains (texts.lower (texts.strip s.environment)) ("prod" ∷ "production" ∷ [])

unfoldable pub require_production_transports : Settings → Result (Unit {0})
unfolding http_tls_files grpc_tls_files
require_production_transports s = do
  require s.auth_required Error.runtime_error
  reject s.http_insecure Error.runtime_error
  reject s.grpc_insecure Error.runtime_error
  http ← http_tls_files s
  grpc ← grpc_tls_files s
  ok tt

-- `not settings.api_key_map()`
abbrev pub no_keys : Dict String String → Bool
no_keys [] = true
no_keys (k ∷ keys) = false

unfoldable pub require_keys : KeyText → Settings → Result (Unit {0})
unfolding parse_api_keys
require_keys texts s = do
  keys ← parse_api_keys texts s.api_keys
  reject (no_keys keys) Error.runtime_error

-- `if is_production(settings)`
unfoldable pub production_checks : Settings → Result (Unit {0})
unfolding require_production_transports require_production_quotas
production_checks s = do require_production_transports s; require_production_quotas s

abbrev pub when : Bool → Result (Unit {0}) → Result (Unit {0})
when true r = r
when false r = ok tt

unfoldable pub validate_auth_settings : KeyText → Settings → Result (Unit {0})
unfolding is_production production_checks require_keys
validate_auth_settings texts s = do
  when (is_production texts s) (production_checks s)
  when s.auth_required (require_keys texts s)

abbrev pub Production : KeyText → Settings → Type 0
Production texts s =
    (texts.lower (texts.strip s.environment) ≡ "prod")
    ⊎ (texts.lower (texts.strip s.environment) ≡ "production")

-- What settings that pass promise.
pub record Admitted (texts : KeyText) (s : Settings) : Type 0 where
  pub with_keys :
      s.auth_required ≡ true
      → (keys : Dict String String) × (parse_api_keys texts s.api_keys ≡ ok keys) × ¬ (keys ≡ [])
  pub production_auth : Production texts s → s.auth_required ≡ true
  pub production_http : Production texts s → (f : TlsFiles) × (http_tls_files s ≡ ok (some f))
  pub production_grpc : Production texts s → (f : TlsFiles) × (grpc_tls_files s ≡ ok (some f))
  pub production_quotas :
      Production texts s
      → (1 ≤ s.rate_limit_per_minute)
        × (1 ≤ s.tenant_max_upload_bytes)
        × (1 ≤ s.session_max_upload_bytes)
