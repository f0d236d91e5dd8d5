-- ===== src/Cmd/Client/Slurp.antt =====
-- cmd/tunnelctl/cmd/slurp.go: a key file of the client's machine goes along with the request, and
-- the spec refers to it by name. os.UserHomeDir, os.ReadFile, filepath.Join and filepath.Base are
-- parameters.
pub mod Laws
use Prim.Native.String.{slice, len}
use text.Mathlib.Text.{starts_with}
use tunneld.Prelude.{
  ℕ, String, Bool, true, false, not, List, [], ◌∷◌, GoMap, if◌then◌else◌, ◌==◌, ◌≡◌, refl, arith,
  ◌⊎◌, inl, inr, Bool-cases, some, lookup, eq_iff, Option,
}
use tunneld.Errors.{Err, Result, ok, err, ◌>>=◌, map_err, wrapped, Result-cases}
use tunneld.Proto.{TunnelSpec, SpecType, unset, ssh, kubectl}

pub record LocalFiles : Type 0 where
  pub home : String
  pub join : String → String → String
  pub base : String → String
  pub read_file : String → Result (List ℕ)

-- The path with the home directory in place of "~".
abbrev pub expanded : LocalFiles → String → String
expanded fs path = if starts_with path "~" then fs.join fs.home (slice path 1 (len path)) else path

-- readLocalKey
unfoldable pub read_local_key : LocalFiles → String → Result (List ℕ × String)
read_local_key fs path = do
  content ← map_err (wrapped "failed to read local key") (fs.read_file (expanded fs path))
  ok (content, fs.base (expanded fs path))

slurp_type : LocalFiles → SpecType → Result (SpecType × GoMap (List ℕ))
unfolding read_local_key
slurp_type fs unset = ok (unset, [])
slurp_type fs (ssh s) =
    if s.identity_key_file == ""
    then ok (ssh s, [])
    else (read_local_key fs s.identity_key_file >>= λ key.
        ok (
          ssh (record s { identity_key_file = ""; identity_key_ref = key.1 }),
          (key.1, key.0) ∷ [],
        ))
slurp_type fs (kubectl k) =
    if k.kubeconfig_file == ""
    then ok (kubectl k, [])
    else (read_local_key fs k.kubeconfig_file >>= λ key.
        ok (
          kubectl (record k { kubeconfig_file = ""; kubeconfig_ref = key.1 }),
          (key.1, key.0) ∷ [],
        ))

-- slurpKeys. The message that it changes is the one it returns here.
unfoldable pub slurp_keys : LocalFiles → TunnelSpec → Result (TunnelSpec × GoMap (List ℕ))
unfolding slurp_type
slurp_keys fs p = slurp_type fs p.type >>= λ r. ok (record p { type = r.0 }, r.1)

-- The key file that a type names, and the key.
abbrev pub key_file : SpecType → String
key_file unset = ""
key_file (ssh s) = s.identity_key_file
key_file (kubectl k) = k.kubeconfig_file

abbrev pub key_name : SpecType → String
key_name unset = ""
key_name (ssh s) = s.identity_key_ref
key_name (kubectl k) = k.kubeconfig_ref
