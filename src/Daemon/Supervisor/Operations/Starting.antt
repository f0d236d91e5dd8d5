-- ===== src/Daemon/Supervisor/Operations/Starting.antt =====
-- StartTunnel and StopTunnel on a tunnel that is there.
use tunneld.Prelude.{
  ℕ, ◌≡◌, String, true, false, ◌&&◌, none, some, arith, Bool-cases, Option-cases, get_elem?, set,
  get_elem?-set-same, lookup, inl, inr,
}
use tunneld.Errors.{already_running}
use tunneld.Daemon.Process.{Process, StartEnv, start, is_process_alive}
use tunneld.Daemon.Process.Life.{start_lem}
use tunneld.Daemon.Supervisor.{Supervisor, find, start_and_notify}
use tunneld.Daemon.Supervisor.Operations.{is_up, start_tunnel}

module _ {Graph : Type 0} where
  -- A write through the pointer of a name is what the name finds.
  pub find-store :
      (s s' : Supervisor Graph) (name : String) (i : ℕ) (p q : Process)
      → s'.processes ≡ s.processes
      → s'.heap ≡ set s.heap i q
      → find s name ≡ some (i, p)
      → find s' name ≡ some (i, q)
  unfolding find
  find-store s s' name i p q a b h = elim (Option-cases (lookup name s.processes)) [
    | inl e ↦ absurd (ground (arith, e, h))
    | inr (j, e) ↦ elim (Option-cases (get_elem? s.heap j)) [
      | inl f ↦ absurd (ground (arith, e, f, h))
      | inr (r, f) ↦ ground (arith, a, b, e, f, h, get_elem?-set-same s.heap j q f)
    ]
  ]

  -- StartTunnel twice: when the first call succeeds, the tunnel is up and alive after it, and a
  -- second call changes nothing and succeeds, whatever the system answers.
  pub start_tunnel_idempotent :
      (env again : StartEnv) (name : String) (s : Supervisor Graph) {s' : Supervisor Graph}
      → start_tunnel env name s ≡ (s', none)
      → (i : ℕ) × (p : Process) × (find s' name ≡ some (i, p))
        × (is_up p.status ≡ true)
        × (is_process_alive p ≡ true)
        × (start_tunnel again name s' ≡ (s', none))
  unfolding start_tunnel start_and_notify
  start_tunnel_idempotent env again name s {s'} h = elim (Option-cases (find s name)) [
    | inl e ↦ absurd (ground (arith, e, h))
    | inr ((i, p), e) ↦ elim (Bool-cases (is_up p.status && is_process_alive p)) [
      | inl u ↦ (
        i,
        p,
        ground (arith, e, u, h),
        ground (arith, u),
        ground (arith, u),
        ground (arith, e, u, h),
      )
      | inr u ↦ elim (Option-cases (start env p).1) [
        | inr (x, f) ↦ absurd (ground (arith, e, u, f, h))
        | inl f ↦
            let p' = (start env p).0 in
            let eq : start env p ≡ (p', none) = ground (arith, f) in
            let l = start_lem env p eq in
            let g =
              find-store s s' name i p p' (ground (arith, e, u, f, h)) (ground (arith, e, u, f, h))
                e in
            (i, p', g, ground (arith, l), ground (arith, l), ground (arith, g, l))
      ]
    ]
  ]

  -- A tunnel that is up but whose command has ended is not restarted: the call fails with
  -- "process already running".
  pub start_tunnel_dead :
      (env : StartEnv) (name : String) (s : Supervisor Graph) (i : ℕ) (p : Process)
      → find s name ≡ some (i, p)
      → is_up p.status ≡ true
      → is_process_alive p ≡ false
      → (start_tunnel env name s).1 ≡ some already_running
  unfolding start_tunnel start_and_notify start
  start_tunnel_dead env name s i p e u a = ground (arith, e, u, a)
