-- ===== src/Api/Tunnels/Laws.antt =====
-- What the handlers of grpc_server.go answer.
use mathlib.Core.Path.{subst}
use tunneld.Prelude.{
  ◌≡◌, ◌≢◌, refl, ℕ, ℤ, pos, negsuc, ◌≤◌, String, true, false, List, [], ◌∷◌, Memᴰ, arith,
  Bool-cases, ◌⊎◌, inl, inr, ◌==◌, eq_iff, leb, ltb, ne→==-false,
}
use tunneld.Errors.{tunnel_not_found}
use tunneld.Daemon.Supervisor.{Supervisor, TunnelInfo, list_tunnels}
use tunneld.Api.{not_found, response, failure}
use tunneld.Api.Tunnels.{
  TunnelStatus, status_of, select, status, frame_of, watch_frame, watch_interval,
}

-- An interval between frames is from 200 ms to a minute, whatever the request asks for.
pub watch_interval_bounds :
    (ms : ℤ) → (n : ℕ) × (watch_interval ms ≡ pos n) × (200 ≤ n) × (n ≤ 60000)
unfolding watch_interval
watch_interval_bounds (negsuc n) = (2000, refl, ground arith, ground arith)
watch_interval_bounds (pos n) = elim (Bool-cases (leb n 0)) [
  | inl a ↦ (2000, ground (arith, a), ground arith, ground arith)
  | inr a ↦ elim (Bool-cases (ltb n 200)) [
    | inl b ↦ (200, ground (arith, a, b), ground arith, ground arith)
    | inr b ↦ elim (Bool-cases (ltb 60000 n)) [
      | inl c ↦ (60000, ground (arith, a, b, c), ground arith, ground arith)
      | inr c ↦ (n, ground (arith, a, b, c), ground (arith, b), ground (arith, c))
    ]
  ]
]

select_skip :
    (name : String) (info : TunnelInfo) (infos : List TunnelInfo)
    → name == "" ≡ false
    → info.name == name ≡ false
    → select name (info ∷ infos) ≡ select name infos
unfolding select
select_skip name info infos a b = ground (arith, a, b)

select_take :
    (name : String) (info : TunnelInfo) (infos : List TunnelInfo)
    → info.name == name ≡ true
    → select name (info ∷ infos) ≡ status_of info ∷ select name infos
unfolding select
select_take name info infos a = ground (arith, a)

select_named :
    (name : String) (infos : List TunnelInfo) (t : TunnelStatus)
    → name ≢ ""
    → Memᴰ t (select name infos)
    → t.name ≡ name
unfolding select status_of
select_named name [] t ne h = elim h [ ]
select_named name (info ∷ infos) t ne h = elim (Bool-cases (info.name == name)) [
  | inr e ↦
      select_named name infos t ne
        (subst (λ l. Memᴰ t l) (select_skip name info infos (ne→==-false name "" ne) e) h)
  | inl e ↦ elim (subst (λ l. Memᴰ t l) (select_take name info infos e) h) [
    | Memᴰ.head x ↦ ground (arith, x, e, eq_iff info.name name)
    | Memᴰ.tail x ↦ select_named name infos t ne x
  ]
]

List-cases : {A : Type 0} (xs : List A) → (xs ≡ []) ⊎ ((x : A) × (ys : List A) × (xs ≡ x ∷ ys))
List-cases [] = inl refl
List-cases (x ∷ xs) = inr (x, xs, refl)

module _ {Graph : Type 0} where
  -- Status for a name gives only tunnels of that name, and at least one; the code NotFound is
  -- the answer exactly when there is none.
  pub status_lem :
      (name : String) (s : Supervisor Graph)
      → name ≢ ""
      → ((status name s ≡ failure not_found (tunnel_not_found name))
          × (select name (list_tunnels s) ≡ []))
        ⊎ ((t : TunnelStatus) × (ts : List TunnelStatus) × (status name s ≡ response (t ∷ ts))
            × ((u : TunnelStatus) → Memᴰ u (t ∷ ts) → u.name ≡ name))
  unfolding status
  status_lem name s ne = elim (List-cases (select name (list_tunnels s))) [
    | inl e ↦ inl (ground (arith, e, ne→==-false name "" ne), e)
    | inr (t, ts, e) ↦
        inr (t, ts, ground (arith, e), λ u h. select_named name (list_tunnels s) u ne (rw e h))
  ]

  -- A frame for all tunnels is never an error: Status answers NotFound only for a name.
  pub watch_frame_all :
      (s : Supervisor Graph)
      → (ts : List TunnelStatus) × (watch_frame "" s ≡ response ts) × (status "" s ≡ response ts)
  unfolding watch_frame frame_of status
  watch_frame_all s = (select "" (list_tunnels s), ground arith, ground arith)
