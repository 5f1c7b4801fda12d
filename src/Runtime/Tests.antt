-- ===== src/Runtime/Tests.antt =====
-- A production process whose storage does not close.
use pixeldive.Prelude.{string_eq, nat_eq, ◌≡◌, refl, true, false, Option, none, some}
use pixeldive.Errors.{Error, Result}
use pixeldive.Settings.{Settings}
use pixeldive.Settings.Tests.{texts, settings}
use pixeldive.Runtime.{Call, closes_storage, tls, Process, launched, run}
use pixeldive.Runtime.Laws.{IsServed, run_lem}
use pixeldive.Prelude.Dict.{get, put}

abbrev production : Settings
production = record settings {
  environment = "production";
  api_keys = "a:owner,b:owner";
  auth_required = true;
  http_insecure = false;
  grpc_insecure = false;
  rate_limit_per_minute = 60;
  tenant_max_upload_bytes = 1000;
  session_max_upload_bytes = 100;
  orphan_sweep_interval_seconds = 30;
}

abbrev storage_stuck : Call → Option Error
storage_stuck closes_storage = some Error.backend_error
storage_stuck _ = none

abbrev ended : Result (Unit {0}) × Process
ended = run storage_stuck texts production launched

it_served : ended.1.served ≡ some (tls, tls)
unfolding run get put
it_served = refl

engine_stays_open : ended.1.engine_open ≡ true
unfolding run get put
engine_stays_open = refl

run_lem_example : IsServed storage_stuck texts production ended.1 (tls, tls)
run_lem_example = run_lem storage_stuck texts production (tls, tls) it_served
