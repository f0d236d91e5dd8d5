-- ===== src/Examples/Samples.antt =====
-- Sample tunnels, processes and environments.
use tunneld.Prelude.{◌^◌, ◌<>◌, String, ℤ, pos, true, false, none, some, List, [], ◌∷◌}
use tunneld.Errors.{Err}
use tunneld.Proto
use tunneld.Proto.{ssh}
use tunneld.Tunnel.{Spec, ssh_spec, running}
use tunneld.Daemon.Process.{Process, StartEnv, started, desired_running, new_process}
use tunneld.Daemon.Supervisor.{KeyWrite}
use tunneld.Daemon.Supervisor.Failure.{Floats}
use tunneld.Daemon.Supervisor.Operations.{SaveEnv}

abbrev pub second : ℤ
second = pos (10 ^ 9)

abbrev pub one_second : Proto.Duration
one_second = record { seconds = pos 1; nanos = pos 0 }

abbrev pub policy : Proto.RestartPolicySpec
policy = record {
  policy = "always";
  delay = some one_second;
  max_attempts = pos 3;
  backoff = some (record { multiplier = 2; max_delay = some one_second });
}

abbrev pub health : Proto.HealthCheckSpec
health = record {
  type = "tcp";
  address = "";
  interval = some one_second;
  timeout = some one_second;
  startup_timeout = some one_second;
}

-- A tunnel with one forward, on a local port.
abbrev pub message : String → List String → ℤ → Proto.TunnelSpec
message name deps port = record {
  name = name;
  depends_on = deps;
  type = ssh (record {
    user = "me";
    host = "bastion";
    port = pos 22;
    identity_key_file = "";
    local_forwards =
        record {
          listen_address = "127.0.0.1";
          listen_port = port;
          target_host = "db";
          target_port = pos 5432;
        }
        ∷ [];
    options = [];
    identity_key_ref = "";
  });
  health = some health;
  restart = some policy;
  startup_timeout = some one_second;
  shutdown_timeout = some one_second;
}

abbrev pub spec : String → List String → ℤ → Spec
spec name deps port = ssh_spec (message name deps port)

-- A system on which everything works, and hands out port 40001.
abbrev pub working : StartEnv
working = record {
  make_log_dir = none;
  open_log = none;
  ports = some (pos 40001) ∷ [];
  files = record { join = λ dir name. name; stat = λ path. none; open_file = λ path. none };
  stdout = none;
  stderr = none;
  launch = none;
}

-- One on which no command starts.
abbrev pub broken : StartEnv
broken = record working { launch = some (Err.io "no such file") }

abbrev pub saving : SaveEnv
saving = record { make_dir = none; marshal = λ t. none; write = none }

abbrev pub idle : Process
idle = new_process (spec "db" [] (pos 0)) "/keys"

-- A process whose first command runs.
abbrev pub busy : Process
busy = record idle {
  status = running;
  cmd = started 0;
  cancel = some 0;
  wait_ch = some [];
  expected_state = desired_running;
  runs = record { id = 0; alive = true; cancelled = false } ∷ [];
}

abbrev pub floats : Floats
floats = record { is_positive = λ m. true; two = 2; scale = λ d m n. d }

-- Keys are written, under paths that need no cleaning.
abbrev pub on_disk : KeyWrite
on_disk = record { join = λ dir name. dir <> "/" <> name; made = none; written = none }
