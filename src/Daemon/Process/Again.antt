-- ===== src/Daemon/Process/Again.antt =====
-- What a stop keeps of a process of internal/daemon/process.go, and when a later start succeeds.
use tunneld.Prelude.{
  ℕ, ◌≡◌, refl, true, Option, none, some, length, arith, Bool-cases, Option-cases, inl, inr,
}
use tunneld.Errors.{Err, Result-cases}
use tunneld.Proto.{TunnelSpec}
use tunneld.Tunnel
use tunneld.Tunnel.Ports.{resolve_ports}
use tunneld.Tunnel.Command.{build_command}
use tunneld.Daemon.Process.{
  Process, Waited, arrived, timed_out, Launched, no_command, not_started, started, signal, await,
  await_exit, has_value, stop, exit, is_idle, StartEnv, ◌<|>◌, launch_command, build, prepare,
  start, desired_running,
}

-- The parts of a process that a restart depends on.
abbrev pub Kept : Process → Process → Type 0
Kept p q =
    (q.spec ≡ p.spec)
    × (q.key_dir ≡ p.key_dir)
    × (q.restart_attempts ≡ p.restart_attempts)
    × (is_idle p.status ≡ true → is_idle q.status ≡ true)

pub Kept-trans : (p q r : Process) → Kept p q → Kept q r → Kept p r
Kept-trans p q r (a, b, c, d) (a', b', c', d') =
    (ground (arith, a, a'), ground (arith, b, b'), ground (arith, c, c'), λ i. d' (d i))

pub exit-Kept : (id : ℕ) (e : Option Err) (p : Process) → Kept p (exit id e p)
unfolding exit
exit-Kept id none p = (refl, refl, refl, λ i. refl)
exit-Kept id (some e) p = (refl, refl, refl, λ i. refl)

await_exit-Kept : (w : Waited) (id : ℕ) (p : Process) → Kept p (await_exit w id p).0
unfolding await_exit
await_exit-Kept (arrived e) id p = exit-Kept id e p
await_exit-Kept (timed_out k) id p = (refl, refl, refl, λ i. i)

await-Kept : (w : Waited) (l : Launched) (p : Process) → Kept p (await w l p).0
unfolding await
await-Kept w no_command p = (refl, refl, refl, λ i. i)
await-Kept w not_started p = (refl, refl, refl, λ i. i)
await-Kept w (started id) p = elim (Bool-cases (has_value p.wait_ch)) [
  | inl e ↦ ground (arith, e)
  | inr e ↦ ground (arith, e, await_exit-Kept w id p)
]

pub stop-Kept : (w : Waited) (p : Process) → Kept p (stop w p).0
unfolding stop signal
stop-Kept w p = await-Kept w p.cmd (signal p)

launch_command-again :
    (env : StartEnv) (p q : Process) → (launch_command env p).1 ≡ (launch_command env q).1
unfolding launch_command
launch_command-again env p q =
    ground (arith, Option-cases (env.stdout <|> (env.stderr <|> env.launch)))

build-again :
    (env : StartEnv) (spec : TunnelSpec) (p q : Process)
    → q.key_dir ≡ p.key_dir
    → (build env spec p).1 ≡ (build env spec q).1
unfolding build
build-again env spec p q k = elim (Result-cases (Tunnel.from_proto spec)) [
  | inr (x, e) ↦ ground (arith, e)
  | inl (s, e) ↦ elim (Option-cases (build_command env.files p.key_dir (Tunnel.to_proto s).type)) [
    | inl f ↦ ground (arith, e, f, k)
    | inr (r, f) ↦ elim (Result-cases r) [
      | inl (c, g) ↦ ground (arith, e, f, g, k, launch_command-again env p q)
      | inr (x, g) ↦ ground (arith, e, f, g, k)
    ]
  ]
]

prepare-again :
    (env : StartEnv) (p q : Process)
    → q.spec ≡ p.spec
    → q.key_dir ≡ p.key_dir
    → (prepare env p).1 ≡ (prepare env q).1
unfolding prepare
prepare-again env p q s k = elim (Result-cases (resolve_ports (Tunnel.to_proto p.spec) env.ports)) [
  | inr (x, e) ↦ ground (arith, e, s)
  | inl ((spec, ms, rest), e) ↦
      let b =
        build-again env spec (record p { port_mappings = ms }) (record q { port_mappings = ms })
          k in
      ground (arith, e, s, b)
]

-- A start of an idle process answers what one of another idle process with the same spec and key
-- directory answers.
pub start-again :
    (env : StartEnv) (p q : Process)
    → q.spec ≡ p.spec
    → q.key_dir ≡ p.key_dir
    → is_idle p.status ≡ true
    → is_idle q.status ≡ true
    → (start env q).1 ≡ (start env p).1
unfolding start
start-again env p q s k i j = elim (Option-cases (env.make_log_dir <|> env.open_log)) [
  | inr (x, f) ↦ ground (arith, i, j, f)
  | inl f ↦
      let p₁ = record p { expected_state = desired_running; cancel = some (length p.runs) } in
      let q₁ = record q { expected_state = desired_running; cancel = some (length q.runs) } in
      let b = prepare-again env p₁ q₁ s k in ground (arith, i, j, f, b)
]
