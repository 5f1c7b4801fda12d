-- ===== src/Runtime.antt =====
-- app/runtime.py and the shutdown of app/lifecycle.py: what the process holds open, from the checks of
-- the settings to the end of the servers. A call of a library may raise: `fails` says which ones do.
pub mod Checks
pub mod Admitted
pub mod Laws
mod Tests
use pixeldive.Prelude.{string_eq, nat_eq, Bool, true, false, Option, none, some, leb, if◌then◌else◌}
use pixeldive.Errors.{Error, Result, ok, err, require, reject}
use pixeldive.Exec.{◌>>=◌, ◌>>◌, Exec, lift, modify}
use pixeldive.Settings.{KeyText, Settings, TlsFiles, http_tls_files, grpc_tls_files}
use pixeldive.Runtime.Checks.{validate_auth_settings}

-- The calls that may raise.
pub data Call : Type 0 where
  creates_engine inits_db upgrades_head builds_storage starts_grpc builds_http : Call
  stops_grpc awaits_http awaits_grpc awaits_sweeper closes_storage disposes_engine : Call

-- A server: its listener may be bound with TLS.
pub data Listener : Type 0 where
  down plain tls : Listener

-- What is open. `served` has the listeners with which the process began to serve.
pub record Process : Type 0 where
  pub engine_open : Bool
  pub storage_open : Bool
  pub grpc : Listener
  pub http : Listener
  pub sweeping : Bool
  pub stopped : Bool
  pub served : Option (Listener × Listener)

abbrev pub launched : Process
launched = record {
  engine_open = false;
  storage_open = false;
  grpc = down;
  http = down;
  sweeping = false;
  stopped = false;
  served = none;
}

-- `try: m` with `finally: cleanup`: an error of the cleanup takes the place of the answer.
module _ {S A : Type 0} where
  abbrev pub answer_after : Result A → Result (Unit {0}) × S → Result A × S
  answer_after r (ok u, s) = (r, s)
  answer_after r (err e, s) = (err e, s)

  abbrev pub try_finally : Exec S A → Exec S (Unit {0}) → Exec S A
  try_finally m cleanup s = answer_after (m s).0 (cleanup (m s).1)

abbrev pub listener_of : Option TlsFiles → Listener
listener_of none = plain
listener_of (some files) = tls

module _ (fails : Call → Option Error) where
  -- The call, and what it changes where it does not raise.
  abbrev pub call : Call → (Process → Process) → Exec Process (Unit {0})
  call c f p = elim (fails c) [ none ↦ (ok tt, f p) | some e ↦ (err e, p) ]

  -- `build_storage`, `start_grpc_server` and `build_http_server`.
  unfoldable pub bind : Settings → Exec Process (Unit {0})
  unfolding grpc_tls_files http_tls_files
  bind s = do
    call builds_storage (λ p. record p { storage_open = true })
    grpc_files ← lift (grpc_tls_files s)
    call starts_grpc (λ p. record p { grpc = listener_of grpc_files })
    http_files ← lift (http_tls_files s)
    call builds_http (λ p. record p { http = listener_of http_files })

  unfoldable pub start_sweeper : Settings → Exec Process (Unit {0})
  start_sweeper s = modify (λ p. record p { sweeping = leb 1 s.orphan_sweep_interval_seconds })

  -- Whichever of the two servers and the stop event comes first, both servers are stopped.
  unfoldable pub serve_until_stopped : Exec Process (Unit {0})
  serve_until_stopped = do
    modify (λ p. record p { served = some (p.grpc, p.http) })
    modify (λ p. record p { stopped = true })
    call stops_grpc (λ p. record p { grpc = down })
    modify (λ p. record p { http = down })
    call awaits_http (λ p. p)
    call awaits_grpc (λ p. p)

  unfoldable pub stop_sweeper : Exec Process (Unit {0})
  stop_sweeper p =
      if p.sweeping then call awaits_sweeper (λ p. record p { sweeping = false }) p else (ok tt, p)

  unfoldable pub close_storage : Exec Process (Unit {0})
  close_storage = call closes_storage (λ p. record p { storage_open = false })

  -- The `finally` of `run`.
  unfoldable pub shut_down : Exec Process (Unit {0})
  unfolding stop_sweeper close_storage
  shut_down = do
    modify (λ p. record p { stopped = true })
    stop_sweeper
    close_storage
    call disposes_engine (λ p. record p { engine_open = false })

  -- `init_db`, or the migrations.
  abbrev pub prepare_tables : Bool → Exec Process (Unit {0})
  prepare_tables true = call inits_db (λ p. p)
  prepare_tables false = call upgrades_head (λ p. p)

  -- What `run` does before its `try` block.
  unfoldable pub open_all : Settings → Exec Process (Unit {0})
  unfolding bind start_sweeper
  open_all s = do
    call creates_engine (λ p. record p { engine_open = true })
    prepare_tables s.auto_create_tables
    bind s
    start_sweeper s

  unfoldable pub run : KeyText → Settings → Exec Process (Unit {0})
  unfolding validate_auth_settings open_all serve_until_stopped shut_down
  run texts s = do
    lift (validate_auth_settings texts s)
    open_all s
    try_finally serve_until_stopped shut_down
