-- ===== src/Hub/Registry/View.antt =====
-- What the registry promises its callers, whatever its tables look like: which registration a
-- credential stands for. Each operation does to this view what its request asks for.
use anvil_ring.Base.{
  ℕ, ◌≡◌, refl, ◌∙◌, true, false, Option, none, some, List, [], ◌∷◌, Bytes, Map, get, insert,
  bytes_key, get-insert, get-insert_self, bytes_eq, bytes_eq_iff, if◌then◌else◌, arith, Bool-cases,
  Option-cases, inl, inr,
}
use anvil_ring.Hub.State.{Registry, Tether}
use anvil_ring.Hub.Registry.{
  register, revoke, attach, detach, forget, evict, deactivate, install, may_attach, owns,
}
use anvil_ring.Hub.Registry.Consistent.{Consistent, evict_tables}
use anvil_ring.Hub.Registry.Authority.{get-forget, get-forget-none}

-- The view: the registration, active or not, that a digest stands for.
abbrev pub View : Type 0
View = Bytes → Option Tether

abbrev pub named_in : Map Bytes Tether → Option Bytes → Option Tether
named_in by_id none = none
named_in by_id (some id) = get id by_id

abbrev pub view : Registry → View
view r h = named_in r.by_id (get h r.by_credential)

abbrev pub drop_id : Bytes → Option Tether → Option Tether
drop_id id none = none
drop_id id (some t) = if bytes_eq t.id id then none else some t

abbrev pub turn_off : Bytes → Option Tether → Option Tether
turn_off id none = none
turn_off id (some t) = if bytes_eq t.id id then some (record t { active = false }) else some t

-- The requests to a registry, and what each does to the view.
pub data Request : Type 0 where
  registers : Bytes → Bytes → Bytes → Request
  revokes : Bytes → Request
  attaches : Bytes → Bytes → ℕ → Request
  detaches : Bytes → ℕ → Request

abbrev pub registration : Bytes → Bytes → Bytes → Tether
registration id label hash = record {
  id = id;
  label = label;
  credential_hash = hash;
  active = true;
  expires_at = none;
}

module _ (digest : Bytes → Bytes) where
  unfoldable pub specify : Request → View → View
  specify (registers id label credential) v h =
      if bytes_eq (digest credential) h
      then some (registration id label (digest credential))
      else drop_id id (v h)
  specify (revokes id) v h = turn_off id (v h)
  specify (attaches id credential now) v h = v h
  specify (detaches id g) v h = v h

  abbrev pub attached : Registry → Option (Registry × ℕ) → Registry
  attached r none = r
  attached r (some (r', g)) = r'

  unfoldable pub apply : Request → Registry → Registry
  apply (registers id label credential) r = register digest id label credential r
  apply (revokes id) r = (revoke id r).0
  apply (attaches id credential now) r = attached r (attach digest id credential now r)
  apply (detaches id g) r = detach id g r

  unfoldable pub specify_all : List Request → View → View
  unfolding specify
  specify_all [] v = v
  specify_all (q ∷ qs) v = specify_all qs (specify q v)

  unfoldable pub apply_all : List Request → Registry → Registry
  unfolding apply
  apply_all [] r = r
  apply_all (q ∷ qs) r = apply_all qs (apply q r)

  -- The tables of a registration and of a revocation, before the session is evicted.
  abbrev pub registered_tables : Bytes → Bytes → Bytes → Registry → Registry
  registered_tables id label credential r = record r {
    by_id = insert id (registration id label (digest credential)) r.by_id;
    by_credential = insert (digest credential) id (forget (get id r.by_id) r.by_credential);
  }

  abbrev pub revoked_tables : Bytes → Registry → Registry
  revoked_tables id r = record r { by_id = (deactivate id (get id r.by_id) r.by_id).0 }

  view-evict : (id h : Bytes) (r : Registry) → view (evict id r) h ≡ view r h
  view-evict id h r = let (e, f, g, k) = evict_tables id r in rw (e, f) refl

  -- The holder of a digest, once a registration has taken the place of its id.
  kept_view :
      (id h j : Bytes) (t : Tether) (r : Registry)
      → Consistent r
      → get h r.by_credential ≡ some j
      → named_in (insert id t r.by_id) (if bytes_eq id j then none else some j)
        ≡ drop_id id (get j r.by_id)
  kept_view id h j t r c e = elim (Option-cases (get j r.by_id)) [
    | inl f ↦ absurd ground (arith, c.credentials h j e, f)
    | inr (u, f) ↦
        ground (
          arith,
          f,
          c.ids j u f,
          get-insert id j t r.by_id,
          bytes_eq_iff id j,
          bytes_eq_iff u.id id,
        )
  ]

  tables_view :
      (id h hash : Bytes) (t : Tether) (r : Registry)
      → Consistent r
      → named_in
          (insert id t r.by_id)
          (get h (insert hash id (forget (get id r.by_id) r.by_credential)))
        ≡ (if bytes_eq hash h then some t else drop_id id (view r h))
  tables_view id h hash t r c = elim (Bool-cases (bytes_eq hash h)) [
    | inl same ↦ rw (get-insert, same, get-insert_self) refl
    | inr differs ↦ elim (Option-cases (get h r.by_credential)) [
      | inl e ↦ rw (get-insert, differs, get-forget-none id r h e, e) refl
      | inr (j, e) ↦ rw (get-insert, differs, get-forget id r h j c e, e) (kept_view id h j t r c e)
    ]
  ]

  register-view :
      (id label credential h : Bytes) (r : Registry)
      → Consistent r
      → view (register digest id label credential r) h
        ≡ specify (registers id label credential) (view r) h
  unfolding register evict specify
  register-view id label credential h r c =
      view-evict id h (registered_tables id label credential r)
      ∙ tables_view id h (digest credential) (registration id label (digest credential)) r c

  deactivate_view :
      (id j : Bytes) (r : Registry) (u : Tether)
      → get j r.by_id ≡ some u
      → u.id ≡ j
      → get j (deactivate id (get id r.by_id) r.by_id).0 ≡ turn_off id (some u)
  unfolding deactivate
  deactivate_view id j r u e f = elim (Option-cases (get id r.by_id)) [
    | inl g ↦ ground (arith, e, f, g, bytes_eq_iff u.id id)
    | inr (t, g) ↦ ground (
      arith,
      e,
      f,
      g,
      get-insert id j (record t { active = false }) r.by_id,
      bytes_eq_iff id j,
      bytes_eq_iff u.id id,
    )
  ]

  revoke-view :
      (id h : Bytes) (r : Registry)
      → Consistent r
      → view (revoke id r).0 h ≡ specify (revokes id) (view r) h
  unfolding revoke specify
  revoke-view id h r c =
      view-evict id h (revoked_tables id r) ∙ elim (Option-cases (get h r.by_credential)) [
        | inl e ↦ rw e refl
        | inr (j, e) ↦ elim (Option-cases (get j r.by_id)) [
          | inl f ↦ absurd ground (arith, c.credentials h j e, f)
          | inr (u, f) ↦ rw (e, f) (deactivate_view id j r u f (c.ids j u f))
        ]
      ]

  detach-view : (id h : Bytes) (g : ℕ) (r : Registry) → view (detach id g r) h ≡ view r h
  unfolding detach
  detach-view id h g r = elim (Bool-cases (owns g (get id r.live))) [
    | inl t ↦ rw t refl
    | inr t ↦ rw t refl
  ]

  attached-view :
      (id credential h : Bytes) (now : ℕ) (r : Registry)
      → view (attached r (attach digest id credential now r)) h ≡ view r h
  unfolding attach install
  attached-view id credential h now r =
      elim (Bool-cases (may_attach digest id credential now r (get id r.by_id))) [
        | inl t ↦ rw t (view-evict id h r)
        | inr t ↦ rw t refl
      ]

  pub apply-view :
      (q : Request) (h : Bytes) (r : Registry)
      → Consistent r
      → view (apply q r) h ≡ specify q (view r) h
  unfolding apply specify
  apply-view (registers id label credential) h r c = register-view id label credential h r c
  apply-view (revokes id) h r c = revoke-view id h r c
  apply-view (attaches id credential now) h r c = attached-view id credential h now r
  apply-view (detaches id g) h r c = detach-view id h g r
