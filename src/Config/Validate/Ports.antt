-- ===== src/Config/Validate/Ports.antt =====
-- Validate accepts exactly the configurations whose enabled tunnels convert and whose local
-- ports are pairwise distinct.
use tunneld.Prelude.{
  String, ◌≡◌, refl, ◌↔◌, ◌≢◌, String-cases, ne→==-false, inl, inr, true, false, none, List, [],
  ◌∷◌, ◌++◌, arith, eq_iff, elem, GoMap, lookup, insert, lookup-insert, if◌then◌else◌, Bool-cases,
  Option-cases,
}
use tunneld.Errors.{ok, Result-cases}
use tunneld.Config.{TunnelConfig, Config}
use tunneld.Config.Convert.{to_proto, to_spec}
use tunneld.Tunnel.{Spec}
use tunneld.Config.Validate.{claim, keys_of, check_types, check_ports, validate}

-- No text occurs twice.
abbrev pub AllDistinct : List String → Type 0
AllDistinct [] = Unit
AllDistinct (k ∷ ks) = (elem k ks ≡ false) × AllDistinct ks

-- None of the texts has an owner yet.
abbrev pub Unclaimed : GoMap String → List String → Type 0
Unclaimed seen [] = Unit
Unclaimed seen (k ∷ ks) = (lookup k seen ≡ none) × Unclaimed seen ks

Unclaimed-insert :
    (k n : String) (seen : GoMap String) (ks : List String)
    → Unclaimed (insert k n seen) ks
    → (elem k ks ≡ false) × Unclaimed seen ks
unfolding elem
Unclaimed-insert k n seen [] h = (refl, tt)
Unclaimed-insert k n seen (j ∷ ks) (e, h) =
    let (fresh, rest) = Unclaimed-insert k n seen ks h in
    ground (arith, lookup-insert k j n seen, eq_iff k j, eq_iff j k)

insert-Unclaimed :
    (k n : String) (seen : GoMap String) (ks : List String)
    → elem k ks ≡ false
    → Unclaimed seen ks
    → Unclaimed (insert k n seen) ks
unfolding elem
insert-Unclaimed k n seen [] f h = tt
insert-Unclaimed k n seen (j ∷ ks) f (e, h) =
    let rest = λ (f' : elem k ks ≡ false). insert-Unclaimed k n seen ks f' h in
    (
      ground (arith, lookup-insert k j n seen, eq_iff k j, eq_iff j k),
      rest (ground (arith, eq_iff k j, eq_iff j k)),
    )

-- The owners after a successful claim: those before, and the new keys.
pub claim-ok :
    (n : String) (ks more : List String) (seen : GoMap String) {seen' : GoMap String}
    → claim n ks seen ≡ ok seen'
    → AllDistinct more
    → Unclaimed seen' more
    → AllDistinct (ks ++ more) × Unclaimed seen (ks ++ more)
unfolding claim
claim-ok n [] more seen h d u = (d, ground arith)
claim-ok n (k ∷ ks) more seen h d u = elim (Option-cases (lookup k seen)) [
  | inl e ↦
      let (d', u') = claim-ok n ks more (insert k n seen) (rw (e, claim) at h) d u in
      let (f, u'') = Unclaimed-insert k n seen (ks ++ more) u' in ((f, d'), (e, u''))
  | inr (o, e) ↦ absurd (ground arith)
]

pub claim-total :
    (n : String) (ks more : List String) (seen : GoMap String)
    → AllDistinct (ks ++ more)
    → Unclaimed seen (ks ++ more)
    → (seen' : GoMap String) × (claim n ks seen ≡ ok seen')
      × AllDistinct more
      × Unclaimed seen' more
unfolding claim
claim-total n [] more seen d u = (seen, refl, d, u)
claim-total n (k ∷ ks) more seen (f, d) (e, u) =
    rw (e, claim)
      (claim-total n ks more (insert k n seen) d (insert-Unclaimed k n seen (ks ++ more) f u))

-- The keys that the enabled tunnels claim, in the order of the map.
unfoldable pub claimed : GoMap TunnelConfig → List String
claimed [] = []
claimed ((n, t) ∷ rest) = if t.enabled then keys_of (to_proto t n) ++ claimed rest else claimed rest

distinct_of_ok :
    (m : GoMap TunnelConfig) (seen : GoMap String)
    → check_ports m seen ≡ none
    → AllDistinct (claimed m) × Unclaimed seen (claimed m)
unfolding check_ports claimed
distinct_of_ok [] seen h = (tt, tt)
distinct_of_ok ((n, t) ∷ rest) seen h = elim (Bool-cases t.enabled) [
  | inr off ↦ rw off (distinct_of_ok rest seen (rw off at h))
  | inl on ↦ elim (Result-cases (claim n (keys_of (to_proto t n)) seen)) [
    | inl (seen', e) ↦
        let (d, u) = distinct_of_ok rest seen' (rw (on, e) at h) in
        simp on (claim-ok n (keys_of (to_proto t n)) (claimed rest) seen e d u)
    | inr (x, e) ↦ absurd (ground arith)
  ]
]

ok_of_distinct :
    (m : GoMap TunnelConfig) (seen : GoMap String)
    → AllDistinct (claimed m)
    → Unclaimed seen (claimed m)
    → check_ports m seen ≡ none
unfolding check_ports claimed
ok_of_distinct [] seen d u = refl
ok_of_distinct ((n, t) ∷ rest) seen d u = elim (Bool-cases t.enabled) [
  | inr off ↦ rw off (ok_of_distinct rest seen (rw off at d) (rw off at u))
  | inl on ↦
      let (seen', e, d', u') =
        claim-total n (keys_of (to_proto t n)) (claimed rest) seen (simp on at d) (simp on at u) in
      rw (on, e) (ok_of_distinct rest seen' d' u')
]

-- Every enabled tunnel has a type, and converts.
abbrev pub Converts : GoMap TunnelConfig → Type 0
Converts [] = Unit
Converts ((n, t) ∷ rest) =
    (t.enabled ≡ true → (t.type ≢ "") × ((s : Spec) × (to_spec t n ≡ ok s))) × Converts rest

Converts-of_ok : (m : GoMap TunnelConfig) → check_types m ≡ none → Converts m
unfolding check_types
Converts-of_ok [] h = tt
Converts-of_ok ((n, t) ∷ rest) h = elim (Bool-cases t.enabled) [
  | inr off ↦ (λ on. absurd (ground arith), Converts-of_ok rest (rw off at h))
  | inl on ↦ elim (String-cases t.type "") [
    | inl empty ↦ absurd (ground (arith, eq_iff t.type ""))
    | inr typed ↦ elim (Result-cases (to_spec t n)) [
      | inl (s, e) ↦ (
        λ on'. (λ x. ground (arith, eq_iff t.type ""), (s, e)),
        Converts-of_ok rest (rw (on, typed, e) at h),
      )
      | inr (x, e) ↦ absurd (ground arith)
    ]
  ]
]

ok_of_Converts : (m : GoMap TunnelConfig) → Converts m → check_types m ≡ none
unfolding check_types
ok_of_Converts [] c = refl
ok_of_Converts ((n, t) ∷ rest) (c, cs) = elim (Bool-cases t.enabled) [
  | inr off ↦ rw off (ok_of_Converts rest cs)
  | inl on ↦
      let (typed, (s, e)) = c on in rw (on, ne→==-false t.type "" typed, e) (ok_of_Converts rest cs)
]

pub no_owner : (ks : List String) → Unclaimed [] ks
unfolding lookup
no_owner [] = tt
no_owner (k ∷ ks) = (refl, no_owner ks)

-- Validate accepts a configuration exactly when every enabled tunnel has a type and converts, and
-- no address with a port other than 0 is claimed twice among the enabled tunnels.
pub validate_iff :
    (c : Config) → (validate c ≡ none) ↔ (Converts c.tunnels × AllDistinct (claimed c.tunnels))
unfolding validate
validate_iff c = (
  λ h. elim (Option-cases (check_types c.tunnels)) [
    | inl e ↦ (Converts-of_ok c.tunnels e, (distinct_of_ok c.tunnels [] (rw (e, validate) at h)).0)
    | inr (x, e) ↦ absurd (ground arith)
  ],
  λ (cs, d).
      rw (validate, ok_of_Converts c.tunnels cs)
        (ok_of_distinct c.tunnels [] d (no_owner (claimed c.tunnels))),
)
