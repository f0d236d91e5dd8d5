-- ===== src/Errors.antt =====
-- The errors of the program: a constructor for each message that the sources build with
-- `fmt.Errorf`, with its arguments. `io` is an error of the operating system or of a library.
use tunneld.Prelude.{String, ◌≡◌, refl, ◌⊎◌, inl, inr}

pub data Err : Type 0 where
  io : String → Err
  wrapped : String → Err → Err
  -- internal/config
  path_not_set : Err
  not_in_config : String → Err
  ssh_required kubectl_required : Err
  unknown_type : String → Err
  type_required : String → Err
  -- internal/tunnel
  unknown_tunnel_type : Err
  key_not_found key_not_readable : String → Err → Err
  port_alloc : Err → Err
  -- internal/dependency
  missing_tunnel : String → String → Err
  cycle_detected : Err
  tunnel_not_found : String → Err
  -- internal/daemon
  port_conflict : String → String → String → Err
  already_exists : String → Err
  already_running : Err
  invalid_dependencies update_config start_failed : Err → Err
  tunnel_failed wait_timeout : Err
  -- a panic of the Go run time: a nil pointer, or an index out of range
  nil_pointer index_out_of_range : Err
  -- k8s
  one_of_required : Err

pub data Result {ℓ} (A : Type ℓ) : Type ℓ where
  ok : A → Result A
  err : Err → Result A

infixl 5 ◌>>=◌
abbrev pub ◌>>=◌ {ℓ κ} : {A : Type ℓ} {B : Type κ} → Result A → (A → Result B) → Result B
ok a >>= f = f a
err e >>= f = err e

-- fmt.Errorf("…: %v", err) around a failed step
abbrev pub map_err {ℓ} : {A : Type ℓ} → (Err → Err) → Result A → Result A
map_err f (ok a) = ok a
map_err f (err e) = err (f e)

-- A step that is followed by another and succeeds had a value, from which the rest succeeds.
pub >>=-eq-ok {ℓ κ} :
    {First : Type ℓ} {Rest : Type κ} (step : Result First) (rest : First → Result Rest) {end : Rest}
    → (step >>= rest) ≡ ok end
    → (x : First) × (step ≡ ok x) × (rest x ≡ ok end)
>>=-eq-ok (err e) rest h = cc
>>=-eq-ok (ok x) rest h = (x, refl, h)

pub Result-cases {ℓ} :
    {A : Type ℓ} (r : Result A) → ((a : A) × (r ≡ ok a)) ⊎ ((e : Err) × (r ≡ err e))
Result-cases (ok a) = inl (a, refl)
Result-cases (err e) = inr (e, refl)
