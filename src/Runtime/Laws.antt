-- ===== src/Runtime/Laws.antt =====
-- What a process that serves has checked, and what it has closed when it ends.
use pixeldive.Prelude.{
  string_eq, nat_eq, ◌≡◌, refl, sym, ap, ◌∙◌, Bool, true, false, Option, none, some, arith, leb,
}
use mathlib.Core.Path.{subst}
use pixeldive.Errors.{ok, err, Error, Result}
use pixeldive.Runtime.{
  Call, awaits_sweeper, closes_storage, disposes_engine, Process, shut_down, call,
  serve_until_stopped, stop_sweeper, close_storage, bind, Listener, tls, try_finally, answer_after,
  start_sweeper, prepare_tables, open_all, creates_engine, launched, run,
}
use pixeldive.Exec.{◌>>◌, Exec, continue}
use pixeldive.Settings.{Settings, TlsFiles, http_tls_files, grpc_tls_files, KeyText}
use pixeldive.Runtime.Checks.{Production, Admitted, validate_auth_settings}
use pixeldive.Runtime.Admitted.{validate_auth_settings-Admitted}

-- The state after `serve_until_stopped` and the `finally` block.
pub record IsClosed (fails : Call → Option Error) (p : Process) : Type 0 where
  pub stopped : p.stopped ≡ true
  pub swept : fails awaits_sweeper ≡ none → p.sweeping ≡ false
  pub stored : fails awaits_sweeper ≡ none → fails closes_storage ≡ none → p.storage_open ≡ false
  pub disposed :
      fails awaits_sweeper ≡ none
      → fails closes_storage ≡ none
      → fails disposes_engine ≡ none
      → p.engine_open ≡ false

module _ (fails : Call → Option Error) where
  shut_down-IsClosed : (p : Process) → IsClosed fails (shut_down fails p).1
  unfolding shut_down stop_sweeper close_storage
  shut_down-IsClosed p = record {
    stopped = ground arith;
    swept = λ h. ground (arith, h);
    stored = λ h k. ground (arith, h, k);
    disposed = λ h k l. ground (arith, h, k, l);
  }

  shut_down_served : (p : Process) → (shut_down fails p).1.served ≡ p.served
  unfolding shut_down stop_sweeper close_storage
  shut_down_served p = ground arith

  serve_served : (p : Process) → (serve_until_stopped fails p).1.served ≡ some (p.grpc, p.http)
  unfolding serve_until_stopped
  serve_served p = ground arith

  bind_served : (s : Settings) (p : Process) → (bind fails s p).1.served ≡ p.served
  unfolding bind
  bind_served s p = ground arith

  bind_grpc :
      (s : Settings) (f : TlsFiles) (p : Process)
      → (bind fails s p).0 ≡ ok tt
      → grpc_tls_files s ≡ ok (some f)
      → (bind fails s p).1.grpc ≡ tls
  unfolding bind
  bind_grpc s f p h files = ground (arith, h, files)

  bind_http :
      (s : Settings) (f : TlsFiles) (p : Process)
      → (bind fails s p).0 ≡ ok tt
      → http_tls_files s ≡ ok (some f)
      → (bind fails s p).1.http ≡ tls
  unfolding bind
  bind_http s f p h files = ground (arith, h, files)

  -- What a process that began to serve has checked and closed.
  pub record IsServed (texts : KeyText) (s : Settings) (p : Process) (l : Listener × Listener)
      : Type 0 where
    pub admitted : Admitted texts s
    pub grpc_tls : Production texts s → l.0 ≡ tls
    pub http_tls : Production texts s → l.1 ≡ tls
    pub closed : IsClosed fails p

  abbrev Final : KeyText → Settings → Process → Type 0
  Final texts s p = (l : Listener × Listener) → p.served ≡ some l → IsServed texts s p l

  answer_after_state :
      {A S : Type 0} (r : Result A) (out : Result (Unit {0}) × S) → (answer_after r out).1 ≡ out.1
  answer_after_state r (ok u, s) = refl
  answer_after_state r (err e, s) = refl

  abbrev served_out : Process → Result (Unit {0}) × Process
  served_out p = try_finally (serve_until_stopped fails) (shut_down fails) p

  try_state : (p : Process) → (served_out p).1 ≡ (shut_down fails (serve_until_stopped fails p).1).1
  try_state p =
      answer_after_state (serve_until_stopped fails p).0
        (shut_down fails (serve_until_stopped fails p).1)

  try_served : (p : Process) → (served_out p).1.served ≡ some (p.grpc, p.http)
  try_served p =
      ap (λ q. q.served) (try_state p)
      ∙ shut_down_served (serve_until_stopped fails p).1
      ∙ serve_served p

  prepared_served : (b : Bool) (p : Process) → (prepare_tables fails b p).1.served ≡ p.served
  prepared_served true p = ground arith
  prepared_served false p = ground arith

  served_after :
      {A B : Type 0} (f : A → Exec Process B) (out : Result A × Process)
      (l : Option (Listener × Listener))
      → out.1.served ≡ l
      → ((a : A) (q : Process) → q.served ≡ l → (f a q).1.served ≡ l)
      → (continue f out).1.served ≡ l
  served_after f (ok a, q) l e next = next a q e
  served_after f (err x, q) l e next = e

  created_served :
      (p : Process)
      → (call fails creates_engine (λ q. record q { engine_open = true }) p).1.served ≡ p.served
  created_served p = ground arith

  open_all_served : (s : Settings) (p : Process) → (open_all fails s p).1.served ≡ p.served
  unfolding open_all start_sweeper
  open_all_served s p =
      let tables = prepare_tables fails s.auto_create_tables in
      let sweeper = start_sweeper fails s in
      served_after (λ _. tables >> (bind fails s >> sweeper))
        (call fails creates_engine (λ q. record q { engine_open = true }) p) p.served
        (created_served p)
        (λ _ q e.
          served_after (λ _. bind fails s >> sweeper) (tables q) p.served
            (prepared_served s.auto_create_tables q ∙ e)
            (λ _ r d.
              served_after (λ _. sweeper) (bind fails s r) p.served (bind_served s r ∙ d)
                (λ _ t c. c)))

  -- What holds of an answered chain holds of its last step.
  by_last :
      {A B : Type 0} (P : Process → Type 0) (f : A → Exec Process B) (out : Result A × Process)
      {b : B}
      → ((a : A) (q : Process) → (f a q).0 ≡ ok b → P (f a q).1)
      → (continue f out).0 ≡ ok b
      → P (continue f out).1
  by_last P f (ok a, q) last h = last a q h
  by_last P f (err x, q) last h = cc

  swept_after :
      (P : Process → Type 0) (s : Settings) (out : Result (Unit {0}) × Process)
      → ((q : Process) (b : Bool) → P q → P (record q { sweeping = b }))
      → (out.0 ≡ ok tt → P out.1)
      → (continue (λ _. start_sweeper fails s) out).0 ≡ ok tt
      → P (continue (λ _. start_sweeper fails s) out).1
  unfolding start_sweeper
  swept_after P s (ok u, q) keeps known h =
      keeps q (leb 1 s.orphan_sweep_interval_seconds) (known refl)
  swept_after P s (err x, q) keeps known h = cc

  open_all_by_bind :
      (P : Process → Type 0) (s : Settings) (p : Process)
      → ((q : Process) (b : Bool) → P q → P (record q { sweeping = b }))
      → ((q : Process) → (bind fails s q).0 ≡ ok tt → P (bind fails s q).1)
      → (open_all fails s p).0 ≡ ok tt
      → P (open_all fails s p).1
  unfolding open_all
  open_all_by_bind P s p keeps bound =
      let tables = prepare_tables fails s.auto_create_tables in
      let sweeper = start_sweeper fails s in
      by_last P (λ _. tables >> (bind fails s >> sweeper))
        (call fails creates_engine (λ q. record q { engine_open = true }) p)
        (λ _ q.
          by_last P (λ _. bind fails s >> sweeper) (tables q)
            (λ _ r. swept_after P s (bind fails s r) keeps (bound r)))

  tried :
      (texts : KeyText) (s : Settings) (p : Process)
      → Admitted texts s
      → (Production texts s → p.grpc ≡ tls)
      → (Production texts s → p.http ≡ tls)
      → Final texts s (served_out p).1
  tried texts s p a g h l e =
      let same : (p.grpc, p.http) ≡ l = cc (sym (try_served p) ∙ e) in
      record {
        admitted = a;
        grpc_tls = λ x. ap (λ y. y.0) (sym same) ∙ g x;
        http_tls = λ x. ap (λ y. y.1) (sym same) ∙ h x;
        closed =
            subst (λ q. IsClosed fails q) (sym (try_state p))
              (shut_down-IsClosed (serve_until_stopped fails p).1);
      }

  opened :
      (texts : KeyText) (s : Settings) (out : Result (Unit {0}) × Process)
      → out.1.served ≡ none
      → Admitted texts s
      → (out.0 ≡ ok tt → Production texts s → out.1.grpc ≡ tls)
      → (out.0 ≡ ok tt → Production texts s → out.1.http ≡ tls)
      → Final texts s (continue (λ _. served_out) out).1
  opened texts s (ok u, q) e a g h l k = tried texts s q a (g refl) (h refl) l k
  opened texts s (err x, q) e a g h l k = cc

  checked :
      (texts : KeyText) (s : Settings) (r : Result (Unit {0}))
      → (r ≡ ok tt → Final texts s (continue (λ _. served_out) (open_all fails s launched)).1)
      → Final texts s (continue (λ _. open_all fails s >> served_out) (r, launched)).1
  checked texts s (ok u) known l k = known refl l k
  checked texts s (err x) known l k = cc

  -- For all settings and for every choice of calls that raise: a process that began to serve had
  -- settings with at least one API key if authentication is required; and in production,
  -- authentication, positive quotas, and TLS on both listeners. When it ends, the stop event is set;
  -- the sweeper is stopped unless its task raises; the storage is closed unless that or closing it
  -- raises; and the engine is disposed of unless one of these or disposing of it raises.
  pub run_lem :
      (texts : KeyText) (s : Settings) (l : Listener × Listener)
      → (run fails texts s launched).1.served ≡ some l
      → IsServed texts s (run fails texts s launched).1 l
  unfolding run
  run_lem texts s = checked texts s (validate_auth_settings texts s) (λ v.
      let a = validate_auth_settings-Admitted texts s v in
      opened texts s (open_all fails s launched) (open_all_served s launched) a
        (λ e x.
          open_all_by_bind (λ q. q.grpc ≡ tls) s launched (λ q b k. k)
            (λ q d. bind_grpc s (a.production_grpc x).0 q d (a.production_grpc x).1) e)
        (λ e x.
          open_all_by_bind (λ q. q.http ≡ tls) s launched (λ q b k. k)
            (λ q d. bind_http s (a.production_http x).0 q d (a.production_http x).1) e))
