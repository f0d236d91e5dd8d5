-- ===== src/Api/Peers/Laws.antt =====
-- The process ids that GetPeerPID answers.
use tunneld.Prelude.{
  if◌then◌else◌, ◌≡◌, refl, String, ℤ, true, none, some, GoMap, insert, delete, lookup-insert,
  lookup-delete, arith, eq_iff, ◌==◌, Option,
}
use tunneld.Errors.{Err, ok}
use tunneld.Api.Peers.{Accepted, note_peer, accept, close, get_peer_pid}

-- A connection whose credentials are known.
abbrev pub Knows : Accepted → ℤ → Type 0
Knows c pid = (c.is_unix ≡ true) × (c.raw ≡ none) × (c.credentials ≡ ok pid)

-- After Accept of a connection with known credentials, its address has the process id, and the
-- other addresses have what they had. Two connections with one address, as clients without a
-- name have, share the entry: both then have the id of the later one, and none once one is closed.
pub peers_share :
    (first : Accepted) (later : Accepted) (a b : ℤ) (closed : Option Err) (pids : GoMap ℤ)
    → Knows first a
    → Knows later b
    → later.remote ≡ first.remote
    → (one : GoMap ℤ) × (two : GoMap ℤ) × (three : GoMap ℤ) × (accept (ok first) pids
        ≡ (one, ok first.remote))
      × (accept (ok later) one ≡ (two, ok later.remote))
      × (close closed first.remote two ≡ (three, closed))
      × (get_peer_pid (some first.remote) one ≡ some a)
      × (get_peer_pid (some first.remote) two ≡ some b)
      × (get_peer_pid (some later.remote) three ≡ none)
      × ((other : String)
          → get_peer_pid (some other) three
            ≡ (if first.remote == other then none else get_peer_pid (some other) pids))
unfolding accept note_peer close get_peer_pid
peers_share first later a b closed pids (u, r, c) (u', r', c') same =
    let k = first.remote in
    let one = insert k a pids in
    let two = insert k b one in
    (
      one,
      two,
      delete k two,
      ground (arith, u, r, c),
      ground (arith, u', r', c', same),
      refl,
      ground (arith, lookup-insert k k a pids, eq_iff k k),
      ground (arith, lookup-insert k k b one, eq_iff k k),
      ground (arith, same, lookup-delete k k two, eq_iff k k),
      λ other. ground (
        arith,
        lookup-delete k other two,
        lookup-insert k other b one,
        lookup-insert k other a pids,
      ),
    )
