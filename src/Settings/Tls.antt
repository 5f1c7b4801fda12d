-- ===== src/Settings/Tls.antt =====
-- The TLS files that a server gets from its settings.
use pixeldive.Prelude.{
  string_eq, String, ◌≡◌, refl, sym, ap, ◌∙◌, ◌⊎◌, inl, inr, Bool, true, false, Option, none, some,
  if◌then◌else◌,
}
use pixeldive.Errors.{Result, ok, err, Error}
use pixeldive.Settings.{
  Settings, TlsFiles, pair_or, or_shared, resolve_tls_files, http_tls_files, grpc_tls_files,
}

-- A server's own file if it is set, or else the shared one.
abbrev pub Chosen : Option String → Option String → String → Type 0
Chosen own shared file = (own ≡ some file) ⊎ ((own ≡ none) × (shared ≡ some file))

-- A server has TLS files exactly where it has a certificate and a key; without them, it serves plain
-- text where that is allowed, and else nothing. The client CA is its own if set, or else the shared
-- one, which may be unset, too.
pub record Secured (insecure : Bool) (cert key ca shared_cert shared_key shared_ca : Option String)
    (r : Result (Option TlsFiles)) : Type 0 where
  pub plain : r ≡ ok none → insecure ≡ true
  pub refused : (e : Error) → r ≡ err e → (insecure ≡ false) × (e ≡ Error.runtime_error)
  pub cert_chosen : (f : TlsFiles) → r ≡ ok (some f) → Chosen cert shared_cert f.cert_file
  pub key_chosen : (f : TlsFiles) → r ≡ ok (some f) → Chosen key shared_key f.key_file
  pub own_ca :
      (f : TlsFiles) (c : String) → r ≡ ok (some f) → ca ≡ some c → f.client_ca_file ≡ some c
  pub other_ca : (f : TlsFiles) → r ≡ ok (some f) → ca ≡ none → f.client_ca_file ≡ shared_ca
  pub offered :
      (c k : String)
      → Chosen cert shared_cert c
      → Chosen key shared_key k
      → (f : TlsFiles) × (r ≡ ok (some f))

or_shared-Chosen :
    (own shared : Option String) (file : String)
    → or_shared own shared ≡ some file
    → Chosen own shared file
or_shared-Chosen none shared file h = inr (refl, h)
or_shared-Chosen (some own) shared file h = inl h

Chosen-or_shared :
    (own shared : Option String) (file : String)
    → Chosen own shared file
    → or_shared own shared ≡ some file
Chosen-or_shared none shared file (inl h) = absurd (cc h)
Chosen-or_shared none shared file (inr h) = h.1
Chosen-or_shared (some own) shared file (inl h) = h
Chosen-or_shared (some own) shared file (inr h) = absurd (cc h.0)

or_shared-none : (own shared : Option String) → own ≡ none → or_shared own shared ≡ shared
or_shared-none none shared h = refl
or_shared-none (some own) shared h = absurd (cc h)

or_shared-some :
    (own shared : Option String) (file : String) → own ≡ some file → or_shared own shared ≡ own
or_shared-some none shared file h = absurd (cc h)
or_shared-some (some own) shared file h = refl

abbrev Files : Option String → Option String → Option String → TlsFiles → Type 0
Files cert key ca f = (cert ≡ some f.cert_file) × (key ≡ some f.key_file) × (f.client_ca_file ≡ ca)

-- What a certificate and a key come to.
record Paired (insecure : Bool) (cert key ca : Option String) (r : Result (Option TlsFiles))
    : Type 0 where
  plain : r ≡ ok none → insecure ≡ true
  refused : (e : Error) → r ≡ err e → (insecure ≡ false) × (e ≡ Error.runtime_error)
  files : (f : TlsFiles) → r ≡ ok (some f) → Files cert key ca f
  offered : (c k : String) → cert ≡ some c → key ≡ some k → (f : TlsFiles) × (r ≡ ok (some f))

abbrev pair : String → String → Option String → TlsFiles
pair cert key ca = record { cert_file = cert; key_file = key; client_ca_file = ca }

incomplete :
    (insecure : Bool) (cert key ca : Option String)
    → (cert ≡ none) ⊎ (key ≡ none)
    → Paired insecure cert key ca (if insecure then ok none else err Error.runtime_error)
incomplete true cert key ca missing = record {
  plain = λ h. refl;
  refused = λ e h. absurd (cc h);
  files = λ f h. absurd (cc h);
  offered = λ c k a b. elim missing [ inl m ↦ absurd (cc (a, m)) | inr m ↦ absurd (cc (b, m)) ];
}
incomplete false cert key ca missing = record {
  plain = λ h. absurd (cc h);
  refused = λ e h. (refl, cc h);
  files = λ f h. absurd (cc h);
  offered = λ c k a b. elim missing [ inl m ↦ absurd (cc (a, m)) | inr m ↦ absurd (cc (b, m)) ];
}

pair_or-Paired :
    (insecure : Bool) (cert key ca : Option String)
    → Paired insecure cert key ca (pair_or insecure cert key ca)
pair_or-Paired insecure (some cert) (some key) ca = record {
  plain = λ h. absurd (cc h);
  refused = λ e h. absurd (cc h);
  files = λ f h.
      let same : pair cert key ca ≡ f = cc h in
      (
        ap (λ x. some x.cert_file) same,
        ap (λ x. some x.key_file) same,
        ap (λ x. x.client_ca_file) (sym same),
      );
  offered = λ c k a b. (pair cert key ca, refl);
}
pair_or-Paired insecure (some cert) none ca = incomplete insecure (some cert) none ca (inr refl)
pair_or-Paired insecure none key ca = incomplete insecure none key ca (inl refl)

resolve-Secured :
    (insecure : Bool) (cert key ca shared_cert shared_key shared_ca : Option String)
    → Secured insecure cert key ca shared_cert shared_key shared_ca
        (resolve_tls_files insecure cert key ca shared_cert shared_key shared_ca)
unfolding resolve_tls_files
resolve-Secured insecure cert key ca shared_cert shared_key shared_ca =
    let p =
      pair_or-Paired insecure (or_shared cert shared_cert) (or_shared key shared_key)
        (or_shared ca shared_ca) in
    record {
      plain = p.plain;
      refused = p.refused;
      cert_chosen = λ f h. or_shared-Chosen cert shared_cert f.cert_file (p.files f h).0;
      key_chosen = λ f h. or_shared-Chosen key shared_key f.key_file (p.files f h).1;
      own_ca = λ f c h own. (p.files f h).2 ∙ or_shared-some ca shared_ca c own ∙ own;
      other_ca = λ f h unset. (p.files f h).2 ∙ or_shared-none ca shared_ca unset;
      offered = λ c k a b.
          p.offered c k (Chosen-or_shared cert shared_cert c a)
            (Chosen-or_shared key shared_key k b);
    }

-- For each of the two servers: it has TLS files exactly where it has a certificate and a key, each
-- its own if set, or else the shared one, and so for the client CA, which may be unset; without them
-- it serves plain text where it is marked insecure, and else there is a runtime error.
pub tls_files-Secured :
    (s : Settings)
    → Secured s.http_insecure s.http_tls_cert_file s.http_tls_key_file s.http_tls_client_ca_file
        s.tls_cert_file s.tls_key_file s.tls_client_ca_file
        (http_tls_files s)
      × Secured s.grpc_insecure s.grpc_tls_cert_file s.grpc_tls_key_file s.grpc_tls_client_ca_file
          s.tls_cert_file s.tls_key_file s.tls_client_ca_file
          (grpc_tls_files s)
unfolding http_tls_files grpc_tls_files
tls_files-Secured s = (
  resolve-Secured s.http_insecure s.http_tls_cert_file s.http_tls_key_file s.http_tls_client_ca_file
      s.tls_cert_file s.tls_key_file s.tls_client_ca_file,
  resolve-Secured s.grpc_insecure s.grpc_tls_cert_file s.grpc_tls_key_file s.grpc_tls_client_ca_file
      s.tls_cert_file s.tls_key_file s.tls_client_ca_file,
)
