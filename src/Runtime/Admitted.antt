-- ===== src/Runtime/Admitted.antt =====
-- What settings that pass the checks before the start promise.
use pixeldive.Prelude.{
  string_eq, nat_eq, ◌≤◌, String, ◌≡◌, refl, inl, inr, Bool, true, false, Option, none, some, [],
  ◌∷◌, arith, contains,
}
use pixeldive.Errors.{◌>>=◌, ◌>>◌, Error, Result, ok, err, reject, require}
use pixeldive.Prelude.Dict.{Dict}
use pixeldive.Settings.{
  KeyText, parse_api_keys, Settings, TlsFiles, http_tls_files, grpc_tls_files,
  require_production_quotas,
}
use pixeldive.Runtime.Checks.{
  require_production_transports, no_keys, require_keys, production_checks, validate_auth_settings,
  Admitted, Production, is_production, when,
}
use pixeldive.Settings.Tls.{tls_files-Secured}

-- Where plain text is refused, a server that has no TLS files is an error.
files_of :
    (auth http_plain grpc_plain : Bool) (http grpc : Result (Option TlsFiles))
    → (http ≡ ok none → http_plain ≡ true)
    → (grpc ≡ ok none → grpc_plain ≡ true)
    → (do
      require auth Error.runtime_error
      reject http_plain Error.runtime_error
      reject grpc_plain Error.runtime_error
      h ← http
      g ← grpc
      ok (tt {0}))
      ≡ ok tt
    → (auth ≡ true)
      × ((f : TlsFiles) × (http ≡ ok (some f)))
      × ((f : TlsFiles) × (grpc ≡ ok (some f)))
files_of false hp gp http grpc a b e = cc
files_of true true gp http grpc a b e = cc
files_of true false true http grpc a b e = cc
files_of true false false (err x) grpc a b e = cc
files_of true false false (ok h) (err x) a b e = cc
files_of true false false (ok none) (ok g) a b e = absurd (cc (a refl))
files_of true false false (ok (some f)) (ok none) a b e = absurd (cc (b refl))
files_of true false false (ok (some f)) (ok (some g)) a b e = (refl, (f, refl), (g, refl))

transports_lem :
    (s : Settings)
    → require_production_transports s ≡ ok tt
    → (s.auth_required ≡ true)
      × ((f : TlsFiles) × (http_tls_files s ≡ ok (some f)))
      × ((f : TlsFiles) × (grpc_tls_files s ≡ ok (some f)))
unfolding require_production_transports
transports_lem s h =
    let secured = tls_files-Secured s in
    files_of s.auth_required s.http_insecure s.grpc_insecure (http_tls_files s) (grpc_tls_files s)
      secured.0.plain secured.1.plain h

keys_lem :
    (texts : KeyText) (s : Settings)
    → require_keys texts s ≡ ok tt
    → (keys : Dict String String) × (parse_api_keys texts s.api_keys ≡ ok keys) × ¬ (keys ≡ [])
unfolding require_keys
keys_lem texts s h = keys_of (parse_api_keys texts s.api_keys) h
  where
    keys_of :
        (r : Result (Dict String String))
        → (r >>= λ keys. reject (no_keys keys) Error.runtime_error) ≡ ok tt
        → (keys : Dict String String) × (r ≡ ok keys) × ¬ (keys ≡ [])
    keys_of (err e) h = cc
    keys_of (ok []) h = cc
    keys_of (ok (k ∷ keys)) h = (k ∷ keys, refl, λ e. cc)

-- Two checks, each under a test.
both_checks :
    (a b : Bool) (first second : Result (Unit {0}))
    → (when a first >> when b second) ≡ ok tt
    → (a ≡ true → first ≡ ok tt) × (b ≡ true → second ≡ ok tt)
both_checks true true (ok u) (ok v) h = (λ e. refl, λ e. refl)
both_checks true true (ok u) (err x) h = cc
both_checks true true (err x) second h = cc
both_checks true false (ok u) second h = (λ e. refl, λ e. cc)
both_checks true false (err x) second h = cc
both_checks false true first (ok u) h = (λ e. cc, λ e. refl)
both_checks false true first (err x) h = cc
both_checks false false first second h = (λ e. cc, λ e. cc)

production_lem :
    (s : Settings)
    → production_checks s ≡ ok tt
    → (require_production_transports s ≡ ok tt) × (require_production_quotas s ≡ ok tt)
unfolding production_checks
production_lem s h =
    let (a, b) =
      both_checks true true (require_production_transports s) (require_production_quotas s) h in
    (a refl, b refl)

quotas_lem :
    (s : Settings)
    → require_production_quotas s ≡ ok tt
    → (1 ≤ s.rate_limit_per_minute)
      × (1 ≤ s.tenant_max_upload_bytes)
      × (1 ≤ s.session_max_upload_bytes)
unfolding require_production_quotas
quotas_lem s h = ground (arith, h)

Production-is_production :
    (texts : KeyText) (s : Settings) → Production texts s → is_production texts s ≡ true
unfolding is_production contains
Production-is_production texts s (inl h) = rw h refl
Production-is_production texts s (inr h) = rw h refl

-- Settings that pass are admitted.
pub validate_auth_settings-Admitted :
    (texts : KeyText) (s : Settings) → validate_auth_settings texts s ≡ ok tt → Admitted texts s
unfolding validate_auth_settings
validate_auth_settings-Admitted texts s h =
    let (production, keys) =
      both_checks (is_production texts s) s.auth_required (production_checks s)
        (require_keys texts s) h in
    let of_name = Production-is_production texts s in
    record {
      with_keys = λ e. keys_lem texts s (keys e);
      production_auth = λ e. (transports_lem s (production_lem s (production (of_name e))).0).0;
      production_http = λ e. (transports_lem s (production_lem s (production (of_name e))).0).1;
      production_grpc = λ e. (transports_lem s (production_lem s (production (of_name e))).0).2;
      production_quotas = λ e. quotas_lem s (production_lem s (production (of_name e))).1;
    }
