-- ===== src/Cmd.antt =====
-- The commands of cmd/tunneld and cmd/tunnelctl, without their flags and their connections.
-- What a command prints is a list of lines, and how it ends is its exit code.
pub mod Daemon
pub mod Client
use tunneld.Prelude.{ℕ, String, ℤ, Option, List, [], ◌∷◌}
use tunneld.Errors.{Err}
use tunneld.Proto.{TunnelSpec}

pub data Line : Type 0 where
  text : String → Line
  -- a text and the error behind it
  error_line : String → Err → Line
  -- a text about a tunnel or a key of that name
  about : String → String → Line
  -- "%d. %s (%s)\n" and "   Depends on: %v\n" of plan
  entry : ℕ → String → String → Line
  depends_on : List String → Line
  -- "Failed to … tunnel %q: %v" of load
  failed : String → String → Err → Line
  -- the heading of the table of status, and a row: name, type, status, ports, error, dependencies
  columns : List String → Line
  row : String → String → String → String → Option Err → List String → Line
  -- protojson of a spec
  spec_json : TunnelSpec → Line
  -- "  %s:%d → :%d%s\n" of wait
  forward : String → ℤ → ℤ → String → Line

pub record Ended : Type 0 where
  pub lines : List Line
  pub code : ℕ

-- A message, and exit code 1: os.Exit(1) or log.Fatalf.
abbrev pub exit_with : String → Err → Ended
exit_with message e = record { lines = error_line message e ∷ []; code = 1 }

-- A command that ends by itself.
abbrev pub done : List Line → Ended
done lines = record { lines = lines; code = 0 }
