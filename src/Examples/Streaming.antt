-- ===== src/Examples/Streaming.antt =====
-- A log that is read, clients that connect, and a key that is added.
use tunneld.Prelude.{
  ℕ, ◌≡◌, refl, String, ℤ, pos, Bool, true, false, Option, none, some, List, [], ◌∷◌, ◌++◌, map,
  All, GoMap, lookup, elem, is_empty, if◌then◌else◌, ◌==◌,
}
use tunneld.Errors.{ok}
use tunneld.Daemon.Supervisor.{Supervisor, get_process}
use tunneld.Api.{response}
use tunneld.Api.Keys.{add_key, list_keys, delete_key}
use tunneld.Api.Keys.Laws.{add_list_delete}
use tunneld.Api.Streams.{finished, complete, at_eof, Round, opened, logs}
use tunneld.Api.Streams.Laws.{logs_lem}
use tunneld.Api.Peers.{Accepted, accept, close, get_peer_pid}
use tunneld.Api.Peers.Laws.{peers_share}
use tunneld.Examples.Graph.{Digraph}
use tunneld.Examples.Adding.{fresh}
use tunneld.Examples.Samples.{on_disk}
use tunneld.Examples.Running.{holding, crashed}

abbrev whole : Round
whole = record { line = "up\n"; read_end = complete; sent = none; context = none }

abbrev rest : Round
rest = record { line = "down"; read_end = at_eof; sent = none; context = none }

logs_lem_example :
    (logs opened "db" false (whole ∷ rest ∷ []) (holding crashed)
      ≡ ("up\n" ∷ "down" ∷ [], some finished))
    × ((logs opened "db" true (rest ∷ rest ∷ []) (holding crashed)).1 ≡ none)
unfolding get_process lookup
logs_lem_example =
    logs_lem "db" (holding crashed) crashed (whole ∷ []) (rest ∷ rest ∷ []) rest refl
      ((refl, refl, refl, refl), tt) (refl, refl) ((refl, refl), ((refl, refl), tt))

abbrev first : Accepted
first = record { remote = "@"; is_unix = true; raw = none; credentials = ok (pos 100) }

abbrev later : Accepted
later = record { remote = "@"; is_unix = true; raw = none; credentials = ok (pos 200) }

peers_share_example :
    (one : GoMap ℤ) × (two : GoMap ℤ) × (three : GoMap ℤ) × (accept (ok first) [] ≡ (one, ok "@"))
    × (accept (ok later) one ≡ (two, ok "@"))
    × (close none "@" two ≡ (three, none))
    × (get_peer_pid (some "@") one ≡ some (pos 100))
    × (get_peer_pid (some "@") two ≡ some (pos 200))
    × (get_peer_pid (some "@") three ≡ none)
    × ((other : String)
        → get_peer_pid (some other) three
          ≡ (if "@" == other then none else get_peer_pid (some other) []))
peers_share_example =
    peers_share first later (pos 100) (pos 200) none [] (refl, refl, refl) (refl, refl, refl) refl

abbrev keyed : Supervisor Digraph
keyed = record fresh { key_files = ("/keys/id", 7 ∷ []) ∷ [] }

key_added : add_key on_disk "id" (7 ∷ []) fresh ≡ (keyed, response tt)
unfolding add_key tunneld.Daemon.Supervisor.save_key tunneld.Prelude.insert
key_added = refl

-- The entries of /keys, where one file is.
abbrev entry : String → String → Option String
entry dir path = if path == "/keys/id" then some "id" else none

add_list_delete_example :
    (is_empty {A = ℕ} (7 ∷ []) ≡ false)
    × (lookup "/keys/id" keyed.key_files ≡ some (7 ∷ []))
    × ((n : String)
        → entry "/keys" "/keys/id" ≡ some n
        → (ns : List String) × (list_keys entry none keyed ≡ response ns) × (elem n ns ≡ true))
    × (s'' : Supervisor Digraph) × (delete_key on_disk.join none "id" keyed ≡ (s'', response tt))
    × ((path : String)
        → lookup path s''.key_files
          ≡ (if "/keys/id" == path then none else lookup path fresh.key_files))
add_list_delete_example = add_list_delete on_disk entry "id" (7 ∷ []) fresh key_added
