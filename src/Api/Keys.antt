-- ===== src/Api/Keys.antt =====
-- internal/api/key_server.go, over the files of keyDir.
pub mod Laws
use tunneld.Prelude.{
  ℕ, String, Bool, true, false, Option, none, some, List, [], ◌∷◌, GoMap, lookup, delete, is_empty,
  if◌then◌else◌, ◌==◌,
}
use tunneld.Errors.{Err, io, wrapped}
use tunneld.Daemon.Supervisor.{Supervisor, KeyWrite, save_key}
use tunneld.Api.{invalid_argument, internal, not_found, Reply, response, failure}

-- The loop over the entries: the names of the files, in their order.
unfoldable pub entries : (String → Option String) → GoMap (List ℕ) → List String
entries entry [] = []
entries entry ((path, content) ∷ rest) = elim (entry path) [
  | none ↦ entries entry rest
  | some name ↦ name ∷ entries entry rest
]

module _ {Graph : Type 0} where
  unfoldable pub saved : Supervisor Graph × Option Err → Supervisor Graph × Reply (Unit {0})
  saved (s, none) = (s, response tt)
  saved (s, some e) = (s, failure internal (wrapped "failed to save key" e))

  -- AddKey
  unfoldable pub add_key :
      KeyWrite → String → List ℕ → Supervisor Graph → Supervisor Graph × Reply (Unit {0})
  unfolding saved
  add_key write name content s =
      if name == ""
      then (s, failure invalid_argument (io "key name is required"))
      else if is_empty content
      then (s, failure invalid_argument (io "key content is required"))
      else saved (save_key write name content s)

  -- ListKeys. `entry` says under which name os.ReadDir of a directory lists the file of a path, if
  -- it does; the other argument is an error of os.ReadDir, and whether os.IsNotExist is true of it.
  unfoldable pub list_keys :
      (String → String → Option String)
      → Option (Bool × Err)
      → Supervisor Graph
      → Reply (List String)
  unfolding entries
  list_keys entry none s = response (entries (entry s.key_dir) s.key_files)
  list_keys entry (some (true, e)) s = response []
  list_keys entry (some (false, e)) s = failure internal (wrapped "failed to read key directory" e)

  -- DeleteKey, with filepath.Join. `removal` is an error of os.Remove other than a missing file.
  unfoldable pub delete_key :
      (String → String → String)
      → Option Err
      → String
      → Supervisor Graph
      → Supervisor Graph × Reply (Unit {0})
  delete_key join removal name s =
      if name == ""
      then (s, failure invalid_argument (io "key name is required"))
      else elim (lookup (join s.key_dir name) s.key_files) [
        | none ↦ (s, failure not_found (wrapped name (io "not found")))
        | some content ↦ elim removal [
          | some e ↦ (s, failure internal (wrapped "failed to delete key" e))
          | none ↦ (record s { key_files = delete (join s.key_dir name) s.key_files }, response tt)
        ]
      ]
