-- ===== src/Settings/Laws.antt =====
-- What settings that pass the checks promise.
use pixeldive.Prelude.{
  string_eq, String, ◌≡◌, refl, ◌↔◌, ◌⊎◌, inl, inr, Bool, true, false, ◌||◌, arith, if◌then◌else◌,
  Bool-cases, contains,
}
use text.Mathlib.TextEquality.{eq_iff}
use pixeldive.Prelude.Dict.{Dict}
use pixeldive.Errors.{Result, ok, err, ◌>>=◌, ◌>>◌}
use pixeldive.Settings.{KeyText, parse_api_keys, Settings, bind_and_keys, is_loopback, check_host}

module _ (texts : KeyText) where
  -- A loopback address.
  abbrev pub Local : String → Type 0
  Local host =
      (texts.lower (texts.strip_brackets host) ≡ "127.0.0.1")
      ⊎ (texts.lower (texts.strip_brackets host) ≡ "::1")
      ⊎ (texts.lower (texts.strip_brackets host) ≡ "localhost")

  is_loopback-Local :
      (host : String)
      → (is_loopback texts host ≡ true → Local host) × (Local host → is_loopback texts host ≡ true)
  unfolding is_loopback contains
  is_loopback-Local host =
      let name = texts.lower (texts.strip_brackets host) in
      (
        λ h. ground (arith, h, eq_iff "127.0.0.1" name, eq_iff "::1" name, eq_iff "localhost" name),
        λ h. ground (arith, h, eq_iff "127.0.0.1" name, eq_iff "::1" name, eq_iff "localhost" name),
      )

  -- What `bind_and_keys` asks for.
  abbrev pub Allowed : Settings → Type 0
  Allowed s =
      ((keys : Dict String String) × (parse_api_keys texts s.api_keys ≡ ok keys))
      × ((s.auth_required ≡ true)
          ⊎ (s.allow_anonymous ≡ true)
          ⊎ (Local s.http_host × Local s.grpc_host))

  hosts_checked :
      (s : Settings)
      → ((check_host texts s.http_host >> check_host texts s.grpc_host) ≡ ok tt
          → Local s.http_host × Local s.grpc_host)
        × (Local s.http_host × Local s.grpc_host
            → (check_host texts s.http_host >> check_host texts s.grpc_host) ≡ ok tt)
  hosts_checked s = (
    λ h. elim (Bool-cases (is_loopback texts s.http_host)) [
      | inl http ↦ elim (Bool-cases (is_loopback texts s.grpc_host)) [
        | inl grpc ↦
            ((is_loopback-Local s.http_host).0 http, (is_loopback-Local s.grpc_host).0 grpc)
        | inr other ↦ absurd (cc (rw (http, other) at h))
      ]
      | inr other ↦ absurd (cc (rw other at h))
    ],
    λ h. rw ((is_loopback-Local s.http_host).1 h.0, (is_loopback-Local s.grpc_host).1 h.1) refl,
  )

  checked_keys :
      (r : Result (Dict String String)) (auth anonymous : Bool) (hosts : Result (Unit {0}))
      → (r >>= λ k. if auth || anonymous then ok tt else hosts) ≡ ok tt
      → ((k : Dict String String) × (r ≡ ok k))
        × ((auth ≡ true) ⊎ (anonymous ≡ true) ⊎ (hosts ≡ ok tt))
  checked_keys (err e) auth anonymous hosts h = absurd (cc h)
  checked_keys (ok k) true anonymous hosts h = ((k, refl), inl refl)
  checked_keys (ok k) false true hosts h = ((k, refl), inr (inl refl))
  checked_keys (ok k) false false hosts h = ((k, refl), inr (inr h))

  passed_keys :
      (r : Result (Dict String String)) (k : Dict String String) (auth anonymous : Bool)
      (hosts : Result (Unit {0}))
      → r ≡ ok k
      → (auth ≡ true) ⊎ (anonymous ≡ true) ⊎ (hosts ≡ ok tt)
      → (r >>= λ k. if auth || anonymous then ok tt else hosts) ≡ ok tt
  passed_keys (err e) k auth anonymous hosts e' c = absurd (cc e')
  passed_keys (ok k') k true anonymous hosts e c = refl
  passed_keys (ok k') k false true hosts e c = refl
  passed_keys (ok k') k false false hosts e (inl c) = absurd (cc c)
  passed_keys (ok k') k false false hosts e (inr (inl c)) = absurd (cc c)
  passed_keys (ok k') k false false hosts e (inr (inr c)) = c

  -- Settings are accepted exactly where API_KEYS can be read, and besides one of these holds:
  -- authentication is required; ALLOW_ANONYMOUS is set; or both hosts, without brackets and in lower
  -- case, are 127.0.0.1, ::1 or localhost.
  pub bind_and_keys_lem : (s : Settings) → bind_and_keys texts s ≡ ok tt ↔ Allowed s
  unfolding bind_and_keys
  bind_and_keys_lem s =
      let keys = parse_api_keys texts s.api_keys in
      let hosts = check_host texts s.http_host >> check_host texts s.grpc_host in
      (
        λ h.
            let (read, allowed) = checked_keys keys s.auth_required s.allow_anonymous hosts h in
            (
              read,
              elim allowed [
                | inl auth ↦ inl auth
                | inr (inl anonymous) ↦ inr (inl anonymous)
                | inr (inr local) ↦ inr (inr ((hosts_checked s).0 local))
              ],
            ),
        λ h. passed_keys keys h.0.0 s.auth_required s.allow_anonymous hosts h.0.1 (elim h.1 [
          | inl auth ↦ inl auth
          | inr (inl anonymous) ↦ inr (inl anonymous)
          | inr (inr local) ↦ inr (inr ((hosts_checked s).1 local))
        ]),
      )
