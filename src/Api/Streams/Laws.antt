-- ===== src/Api/Streams/Laws.antt =====
-- What Logs sends, and when it ends.
use tunneld.Prelude.{
  ◌≡◌, refl, String, true, false, none, some, List, [], ◌∷◌, ◌++◌, map, arith, All, ◌==◌,
  if◌then◌else◌, Bool-cases,
}
use tunneld.Errors.{ok}
use tunneld.Daemon.Process.{Process}
use tunneld.Daemon.Supervisor.{Supervisor, get_process}
use tunneld.Api.Streams.{finished, complete, at_eof, Round, logs_loop, opened, logs}

-- A round that read a whole line, which went out to a client that is there.
abbrev pub IsWhole : Round → Type 0
IsWhole r = (r.line == "" ≡ false) × (r.read_end ≡ complete) × (r.sent ≡ none) × (r.context ≡ none)

-- A round at the end of the file, in which nothing went wrong with Send.
abbrev pub IsAtEof : Round → Type 0
IsAtEof r = (r.read_end ≡ at_eof) × (r.sent ≡ none)

logs_loop-whole :
    (rounds : List Round) (last : Round)
    → All IsWhole rounds
    → IsAtEof last
    → logs_loop false (rounds ++ last ∷ []) ≡ (
      map (λ r. r.line) rounds ++ (if last.line == "" then [] else last.line ∷ []),
      some finished,
    )
unfolding logs_loop
logs_loop-whole [] last h (e, s) = ground (arith, e, s, Bool-cases (last.line == ""))
logs_loop-whole (r ∷ rs) last ((l, e, s, c), h) k =
    let rest = logs_loop-whole rs last h k in ground (arith, l, e, s, c, rest)

logs_loop-eof : (rounds : List Round) → All IsAtEof rounds → (logs_loop true rounds).1 ≡ none
unfolding logs_loop
logs_loop-eof [] h = refl
logs_loop-eof (r ∷ rs) ((e, s), h) =
    let rest = logs_loop-eof rs h in ground (arith, e, s, rest, Bool-cases (r.line == ""))

module _ {Graph : Type 0} where
  -- Logs of a known tunnel without "follow" sends every line of the file, and the text behind the
  -- last one if there is any, and then ends without an error. With "follow" it does not end while
  -- the reads are at the end of the file, whatever has become of the client's context.
  pub logs_lem :
      (name : String) (s : Supervisor Graph) (p : Process) (rounds idle : List Round) (last : Round)
      → get_process s name ≡ ok p
      → All IsWhole rounds
      → IsAtEof last
      → All IsAtEof idle
      → (logs opened name false (rounds ++ last ∷ []) s ≡ (
        map (λ r. r.line) rounds ++ (if last.line == "" then [] else last.line ∷ []),
        some finished,
      ))
        × ((logs opened name true idle s).1 ≡ none)
  unfolding logs
  logs_lem name s p rounds idle last e h k i =
      (ground (arith, e, logs_loop-whole rounds last h k), ground (arith, e, logs_loop-eof idle i))
