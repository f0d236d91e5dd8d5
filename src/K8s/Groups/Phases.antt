-- ===== src/K8s/Groups/Phases.antt =====
-- The phase of a group, from those of its members.
use tunneld.Prelude.{◌≡◌, Bool, true, false, ◌||◌, List, [], ◌∷◌, arith, if◌then◌else◌}
use tunneld.K8s.Types.{
  TunnelPhase, unset, pending, healthy, degraded, failed, stopped, TunnelGroupMemberStatus,
}
use tunneld.K8s.Groups.{Flags, mark, flags_from, aggregate_phase}

abbrev pub is_failed : TunnelPhase → Bool
is_failed failed = true
is_failed _ = false

abbrev pub is_degraded : TunnelPhase → Bool
is_degraded degraded = true
is_degraded _ = false

-- Pending or not reported yet.
abbrev pub is_pending : TunnelPhase → Bool
is_pending pending = true
is_pending unset = true
is_pending _ = false

-- Some member has a phase that the test accepts.
unfoldable pub some_member : (TunnelPhase → Bool) → List TunnelGroupMemberStatus → Bool
some_member test [] = false
some_member test (m ∷ ms) = test m.phase || some_member test ms

mark_lem :
    (p : TunnelPhase) (f : Flags)
    → ((mark p f).has_failed ≡ (f.has_failed || is_failed p))
      × ((mark p f).has_degraded ≡ (f.has_degraded || is_degraded p))
      × ((mark p f).has_pending ≡ (f.has_pending || is_pending p))
unfolding mark
mark_lem unset f = ground arith
mark_lem pending f = ground arith
mark_lem healthy f = ground arith
mark_lem degraded f = ground arith
mark_lem failed f = ground arith
mark_lem stopped f = ground arith

flags_from_lem :
    (f : Flags) (ms : List TunnelGroupMemberStatus)
    → ((flags_from f ms).has_failed ≡ (f.has_failed || some_member is_failed ms))
      × ((flags_from f ms).has_degraded ≡ (f.has_degraded || some_member is_degraded ms))
      × ((flags_from f ms).has_pending ≡ (f.has_pending || some_member is_pending ms))
unfolding flags_from some_member
flags_from_lem f [] = ground arith
flags_from_lem f (m ∷ ms) = ground (arith, mark_lem m.phase f, flags_from_lem (mark m.phase f) ms)

-- A group with members is failed if some member is, else degraded if one is, else pending if
-- one is pending or has not reported, and healthy otherwise.
pub aggregate_phase_lem :
    (m : TunnelGroupMemberStatus) (ms : List TunnelGroupMemberStatus)
    → aggregate_phase (m ∷ ms) ≡ (
        if some_member is_failed (m ∷ ms)
        then failed
        else if some_member is_degraded (m ∷ ms)
        then degraded
        else if some_member is_pending (m ∷ ms)
        then pending
        else healthy)
unfolding aggregate_phase
aggregate_phase_lem m ms = ground (
  arith,
  flags_from_lem (record { has_pending = false; has_degraded = false; has_failed = false })
      (m ∷ ms),
)
