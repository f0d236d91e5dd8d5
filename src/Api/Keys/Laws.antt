-- ===== src/Api/Keys/Laws.antt =====
-- A key that is added is listed, and can be deleted again.
use tunneld.Prelude.{
  ◌≡◌, refl, ℕ, String, true, false, Option, none, some, List, [], ◌∷◌, arith, GoMap, lookup,
  insert, delete, lookup-insert, lookup-delete, elem, eq_iff, ◌==◌, is_empty, if◌then◌else◌,
  Bool-cases, Option-cases, inl, inr, ap,
}
use tunneld.Daemon.Supervisor.{Supervisor, KeyWrite, save_key}
use tunneld.Api.{response}
use tunneld.Api.Keys.{entries, add_key, list_keys, delete_key, saved}

-- A file that stands in the directory is among the names.
elem-entries :
    (entry : String → Option String) (m : GoMap (List ℕ)) (path name : String) (content : List ℕ)
    → entry path ≡ some name
    → lookup path m ≡ some content
    → elem name (entries entry m) ≡ true
unfolding lookup elem entries
elem-entries entry [] path name content e h = absurd (ground (arith, h))
elem-entries entry ((k, x) ∷ m) path name content e h = elim (Bool-cases (k == path)) [
  | inl q ↦ ground (arith, ap entry ((eq_iff k path).0 q), e, eq_iff name name)
  | inr q ↦
      let rest = elem-entries entry m path name content e (ground (arith, q, h)) in
      elim (Option-cases (entry k)) [
        | inl f ↦ ground (arith, f, rest)
        | inr (n, f) ↦ ground (arith, f, rest)
      ]
]

module _ {Graph : Type 0} where
  add_key-ok :
      (write : KeyWrite) (name : String) (content : List ℕ) (s : Supervisor Graph)
      {s' : Supervisor Graph}
      → add_key write name content s ≡ (s', response tt)
      → (name == "" ≡ false)
        × (is_empty content ≡ false)
        × (s' ≡ record s { key_files = insert (write.join s.key_dir name) content s.key_files })
  unfolding add_key saved save_key
  add_key-ok write name content s h = elim (Bool-cases (name == "")) [
    | inl a ↦ absurd (ground (arith, a, h))
    | inr a ↦ elim (Bool-cases (is_empty content)) [
      | inl b ↦ absurd (ground (arith, a, b, h))
      | inr b ↦ ground (arith, a, b, h, Option-cases write.made, Option-cases write.written)
    ]
  ]

  -- A key that AddKey accepted has a content, which is the one of the file at the joined path.
  -- ListKeys names it if that path stands in keyDir, by its name there. DeleteKey of the name then
  -- succeeds, removes the file of that path, and leaves every file of another path as it was before
  -- the addition.
  pub add_list_delete :
      (write : KeyWrite) (entry : String → String → Option String) (name : String)
      (content : List ℕ) (s : Supervisor Graph) {s' : Supervisor Graph}
      → add_key write name content s ≡ (s', response tt)
      → (is_empty content ≡ false)
        × (lookup (write.join s.key_dir name) s'.key_files ≡ some content)
        × ((n : String)
            → entry s.key_dir (write.join s.key_dir name) ≡ some n
            → (ns : List String) × (list_keys entry none s' ≡ response ns) × (elem n ns ≡ true))
        × (s'' : Supervisor Graph) × (delete_key write.join none name s' ≡ (s'', response tt))
        × ((path : String)
            → lookup path s''.key_files
              ≡ (if write.join s.key_dir name == path then none else lookup path s.key_files))
  unfolding list_keys delete_key
  add_list_delete write entry name content s {s'} h =
      let (named, filled, stored) = add_key-ok write name content s h in
      let at = write.join s.key_dir name in
      let dir : s'.key_dir ≡ s.key_dir = ground (arith, stored) in
      let files : s'.key_files ≡ insert at content s.key_files = ground (arith, stored) in
      let kept : lookup at s'.key_files ≡ some content =
        ground (arith, files, lookup-insert at at content s.key_files, eq_iff at at) in
      (
        filled,
        kept,
        λ n e. (
          entries (entry s'.key_dir) s'.key_files,
          refl,
          elem-entries (entry s'.key_dir) s'.key_files at n content (rw dir e) kept,
        ),
        record s' { key_files = delete at s'.key_files },
        ground (arith, named, dir, kept),
        λ path. ground (
          arith,
          files,
          lookup-delete at path s'.key_files,
          lookup-insert at path content s.key_files,
        ),
      )
