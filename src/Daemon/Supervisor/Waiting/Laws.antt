-- ===== src/Daemon/Supervisor/Waiting/Laws.antt =====
-- How WaitHealthy ends.
use tunneld.Prelude.{
  ℕ, ◌≡◌, refl, sym, Bool-cases, String, Bool, true, false, Option, none, some, List, [], ◌∷◌, ◌++◌,
  Memᴰ, arith, Option-cases, is_some, ◌⊎◌, inl, inr,
}
use tunneld.Tunnel
use tunneld.Daemon.Process.{Process}
use tunneld.Daemon.Supervisor.{Supervisor, find}
use tunneld.Daemon.Supervisor.Failure.{restarts}
use tunneld.Tunnel.{Status, stopped, starting, running, degraded, failed}
use tunneld.Daemon.Supervisor.Waiting.{
  Poll, cancelled, ticked, poll_rest, poll, poll_all, is_running, wait_healthy,
}

-- The poll that ends a wait without an error saw the tunnel running.
poll_ok :
    (restarting : Bool) (x : Poll) (status : Status)
    → poll restarting x ≡ some (status, none)
    → (status ≡ running) × ((late : Bool) × (x ≡ ticked running late))
unfolding poll poll_rest
poll_ok restarting (cancelled st e) status h = absurd (ground (arith, h))
poll_ok restarting (ticked running late) status h = (ground (arith, h), (late, refl))
poll_ok true (ticked stopped true) status h = absurd (ground (arith, h))
poll_ok true (ticked stopped false) status h = absurd (ground (arith, h))
poll_ok false (ticked stopped true) status h = absurd (ground (arith, h))
poll_ok false (ticked stopped false) status h = absurd (ground (arith, h))
poll_ok true (ticked starting true) status h = absurd (ground (arith, h))
poll_ok true (ticked starting false) status h = absurd (ground (arith, h))
poll_ok false (ticked starting true) status h = absurd (ground (arith, h))
poll_ok false (ticked starting false) status h = absurd (ground (arith, h))
poll_ok true (ticked degraded true) status h = absurd (ground (arith, h))
poll_ok true (ticked degraded false) status h = absurd (ground (arith, h))
poll_ok false (ticked degraded true) status h = absurd (ground (arith, h))
poll_ok false (ticked degraded false) status h = absurd (ground (arith, h))
poll_ok true (ticked failed true) status h = absurd (ground (arith, h))
poll_ok true (ticked failed false) status h = absurd (ground (arith, h))
poll_ok false (ticked failed true) status h = absurd (ground (arith, h))
poll_ok false (ticked failed false) status h = absurd (ground (arith, h))

-- The loop ends without an error only at a poll that saw the tunnel running.
poll_all_ok :
    (restarting : Bool) (polls : List Poll) (status : Status)
    → poll_all restarting polls ≡ some (status, none)
    → (status ≡ running) × ((late : Bool) × Memᴰ (ticked running late) polls)
unfolding poll_all
poll_all_ok restarting [] status h = absurd (ground (arith, h))
poll_all_ok restarting (x ∷ xs) status h = elim (Option-cases (poll restarting x)) [
  | inl e ↦
      let (r, (late, m)) = poll_all_ok restarting xs status (ground (arith, e, h)) in
      (r, (late, Memᴰ.tail m))
  | inr (a, e) ↦
      let (r, (late, f)) = poll_ok restarting x status (ground (arith, e, h)) in
      (r, (late, Memᴰ.head (sym f)))
]

-- A tick behind the deadline ends the loop.
poll_late :
    (restarting : Bool) (status : Status) → is_some (poll restarting (ticked status true)) ≡ true
unfolding poll poll_rest
poll_late true stopped = refl
poll_late false stopped = refl
poll_late true starting = refl
poll_late false starting = refl
poll_late true running = refl
poll_late false running = refl
poll_late true degraded = refl
poll_late false degraded = refl
poll_late true failed = refl
poll_late false failed = refl

poll_all_ends :
    (restarting : Bool) (before after : List Poll) (status : Status)
    → is_some (poll_all restarting (before ++ ticked status true ∷ after)) ≡ true
unfolding poll_all
poll_all_ends restarting [] after status =
    ground (arith, poll_late restarting status, Option-cases (poll restarting (ticked status true)))
poll_all_ends restarting (x ∷ xs) after status =
    ground (arith, poll_all_ends restarting xs after status, Option-cases (poll restarting x))

is_running-eq : (st : Status) → is_running st ≡ true → st ≡ running
is_running-eq stopped h = absurd (ground (arith, h))
is_running-eq starting h = absurd (ground (arith, h))
is_running-eq running h = refl
is_running-eq degraded h = absurd (ground (arith, h))
is_running-eq failed h = absurd (ground (arith, h))

-- A wait that ends without an error ends with the status running, which the tunnel had at the
-- call or at one of the polls.
pub wait_healthy_ok :
    {Graph : Type 0} (s : Supervisor Graph) (name : String) (polls : List Poll)
    {status : Option Status}
    → wait_healthy s name polls ≡ some (status, none)
    → (status ≡ some running)
      × (i : ℕ) × (p : Process) × (find s name ≡ some (i, p))
      × ((p.status ≡ running) ⊎ ((late : Bool) × Memᴰ (ticked running late) polls))
unfolding wait_healthy
wait_healthy_ok s name polls {status} h = elim (Option-cases (find s name)) [
  | inl e ↦ absurd (ground (arith, e, h))
  | inr ((i, p), e) ↦ elim (Bool-cases (is_running p.status)) [
    | inl r ↦ (ground (arith, e, r, h), i, p, e, inl (is_running-eq p.status r))
    | inr r ↦
        let go = is_some (restarts (Tunnel.restart_policy p.spec)) in
        elim (Option-cases (poll_all go polls)) [
          | inl f ↦ absurd (ground (arith, e, r, f, h))
          | inr ((st, x), f) ↦
              let (a, b) = poll_all_ok go polls st (ground (arith, e, r, f, h)) in
              (ground (arith, e, r, f, h, a), i, p, e, inr b)
        ]
  ]
]

-- A wait ends at the latest at the first tick behind its deadline.
pub wait_healthy_ends :
    {Graph : Type 0} (s : Supervisor Graph) (name : String) (before after : List Poll)
    (status : Status)
    → is_some (wait_healthy s name (before ++ ticked status true ∷ after)) ≡ true
unfolding wait_healthy
wait_healthy_ends s name before after status = elim (Option-cases (find s name)) [
  | inl e ↦ ground (arith, e)
  | inr ((i, p), e) ↦
      let go = is_some (restarts (Tunnel.restart_policy p.spec)) in
      ground (
        arith,
        e,
        poll_all_ends go before after status,
        Option-cases (poll_all go (before ++ ticked status true ∷ after)),
      )
]
