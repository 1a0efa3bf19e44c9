-- ===== src/Hub/Registry/Refines.antt =====
-- The registry implements its view, over any requests.
use anvil_ring.Base.{
  ℕ, ◌+◌, ◌*◌, ◌^◌, ◌≤◌, ◌<◌, ◌≡◌, refl, sym, ap, ap₂, subst, ◌∙◌, Option, none, some, List, [],
  ◌∷◌, Bytes, get, bytes_key, length, arith, Bool-cases, Option-cases, inl, inr, max, fun_ext,
}
use anvil_ring.Hub.State.{Registry, Tether, Lease, second}
use anvil_ring.Hub.Registry.{
  new, register, revoke, attach, detach, authorize, lease_for, lease_of, remaining, evict, install,
  may_attach,
}
use anvil_ring.Hub.Registry.Consistent.{
  Consistent, new-Consistent, register-Consistent, attach-Consistent, revoke-Consistent,
  detach-Consistent, evict_tables,
}
use anvil_ring.Hub.Registry.View.{
  View, view, Request, registers, revokes, attaches, detaches, apply, apply_all, specify,
  specify_all, attached, apply-view, registered_tables, revoked_tables,
}

module _ (digest : Bytes → Bytes) where
  attach-next :
      (id credential : Bytes) (now : ℕ) (r : Registry) (o : Option (Registry × ℕ))
      → attach digest id credential now r ≡ o
      → (attached digest r o).next_generation ≤ r.next_generation + 1
  unfolding attach install
  attach-next id credential now r none e = omega arith
  attach-next id credential now r (some (r', g)) e =
      let (a, b, next, d) = evict_tables id r in
      elim (Bool-cases (may_attach digest id credential now r (get id r.by_id))) [
        | inl t ↦ ground (arith, e, t, next)
        | inr t ↦ absurd ground (arith, e, t)
      ]

  apply-next :
      (q : Request) (r : Registry) → (apply digest q r).next_generation ≤ r.next_generation + 1
  unfolding apply register revoke detach evict
  apply-next (registers id label credential) r =
      subst (λ n. n ≤ r.next_generation + 1)
        (sym (evict_tables id (registered_tables digest id label credential r)).2) (omega arith)
  apply-next (revokes id) r =
      subst (λ n. n ≤ r.next_generation + 1) (sym (evict_tables id (revoked_tables digest id r)).2)
        (omega arith)
  apply-next (attaches id credential now) r =
      attach-next id credential now r (attach digest id credential now r) refl
  apply-next (detaches id g) r = ground arith

  attached-Consistent :
      (id credential : Bytes) (now : ℕ) (r : Registry) (o : Option (Registry × ℕ))
      → attach digest id credential now r ≡ o
      → r.next_generation + 1 < 2 ^ 64
      → Consistent r
      → Consistent (attached digest r o)
  attached-Consistent id credential now r none e l c = c
  attached-Consistent id credential now r (some (r', g)) e l c =
      attach-Consistent digest id credential now r r' g c l e

  apply-Consistent :
      (q : Request) (r : Registry)
      → r.next_generation + 1 < 2 ^ 64
      → Consistent r
      → Consistent (apply digest q r)
  unfolding apply
  apply-Consistent (registers id label credential) r l c =
      register-Consistent digest id label credential r c
  apply-Consistent (revokes id) r l c = revoke-Consistent id r c
  apply-Consistent (attaches id credential now) r l c =
      attached-Consistent id credential now r (attach digest id credential now r) refl l c
  apply-Consistent (detaches id g) r l c = detach-Consistent id g r c

  -- Requests in any number short of the generations' range keep the tables consistent.
  run-Consistent :
      (qs : List Request) (r : Registry)
      → r.next_generation + length qs < 2 ^ 64
      → Consistent r
      → Consistent (apply_all digest qs r)
  unfolding apply_all
  run-Consistent [] r l c = c
  run-Consistent (q ∷ qs) r l c =
      run-Consistent qs (apply digest q r) (omega (arith, apply-next q r, l))
        (apply-Consistent q r (omega arith) c)

  run-view :
      (qs : List Request) (r : Registry) (v : View) (h : Bytes)
      → r.next_generation + length qs < 2 ^ 64
      → Consistent r
      → ((k : Bytes) → view r k ≡ v k)
      → view (apply_all digest qs r) h ≡ specify_all digest qs v h
  unfolding apply_all specify_all
  run-view [] r v h l c e = e h
  run-view (q ∷ qs) r v h l c e =
      run-view qs (apply digest q r) (specify digest q v) h (omega (arith, apply-next q r, l))
        (apply-Consistent q r (omega arith) c)
        (λ k. apply-view digest q k r c ∙ ap (λ u. specify digest q u k) (fun_ext e))

  -- The lease that a registration gives.
  pub lease_on : ℕ → ℕ → Option Tether → Option Lease
  lease_on bound now none = none
  lease_on bound now (some t) = lease_for bound t.id (remaining t now)

  authorize-view :
      (credential : Bytes) (now : ℕ) (r : Registry)
      → Consistent r
      → authorize digest credential now r ≡ lease_on r.lease now (view r (digest credential))
  unfolding authorize lease_on lease_of
  authorize-view credential now r c =
      elim (Option-cases (get (digest credential) r.by_credential)) [
        | inl e ↦ rw e refl
        | inr (j, e) ↦ elim (Option-cases (get j r.by_id)) [
          | inl f ↦ absurd ground (arith, c.credentials (digest credential) j e, f)
          | inr (u, f) ↦ rw (e, f, c.ids j u f) refl
        ]
      ]

  attach-lease :
      (id credential : Bytes) (now : ℕ) (r : Registry) (o : Option (Registry × ℕ))
      → attach digest id credential now r ≡ o
      → (attached digest r o).lease ≡ r.lease
  unfolding attach install
  attach-lease id credential now r none e = refl
  attach-lease id credential now r (some (r', g)) e =
      let (a, b, next, d) = evict_tables id r in
      elim (Bool-cases (may_attach digest id credential now r (get id r.by_id))) [
        | inl t ↦ ground (arith, e, t, d)
        | inr t ↦ absurd ground (arith, e, t)
      ]

  apply-lease : (q : Request) (r : Registry) → (apply digest q r).lease ≡ r.lease
  unfolding apply register revoke detach evict
  apply-lease (registers id label credential) r =
      (evict_tables id (registered_tables digest id label credential r)).3
  apply-lease (revokes id) r = (evict_tables id (revoked_tables digest id r)).3
  apply-lease (attaches id credential now) r =
      attach-lease id credential now r (attach digest id credential now r) refl
  apply-lease (detaches id g) r = ground arith

  run-lease : (qs : List Request) (r : Registry) → (apply_all digest qs r).lease ≡ r.lease
  unfolding apply_all
  run-lease [] r = refl
  run-lease (q ∷ qs) r = run-lease qs (apply digest q r) ∙ apply-lease q r

  empty-view : (lease : ℕ) (h : Bytes) → view (new lease) h ≡ none
  unfolding get
  empty-view lease h = refl

  -- From the start of a hub on, through any requests in any order, fewer than the generations have
  -- room for, the tables stay consistent.
  pub reachable-Consistent :
      (qs : List Request) (lease : ℕ)
      → length qs + 1 < 2 ^ 64
      → Consistent (apply_all digest qs (new lease))
  reachable-Consistent qs lease l =
      run-Consistent qs (new lease) (omega arith) (new-Consistent lease)

  -- The registry implements its view: from the start of a hub on, through any requests in any
  -- order, fewer than the generations have room for, a credential has the lease that the view, which
  -- knows no tables and no sessions, gives to the credential's digest.
  pub apply_all-refines :
      (qs : List Request) (lease : ℕ) (credential : Bytes) (now : ℕ)
      → length qs + 1 < 2 ^ 64
      → authorize digest credential now (apply_all digest qs (new lease))
        ≡ lease_on
            (max lease (5 * second))
            now
            (specify_all digest qs (λ h. none) (digest credential))
  apply_all-refines qs lease credential now l =
      authorize-view credential now (apply_all digest qs (new lease))
        (reachable-Consistent qs lease l)
      ∙ ap₂ (λ b v. lease_on b now v) (run-lease qs (new lease))
          (run-view qs (new lease) (λ h. none) (digest credential) (omega arith)
            (new-Consistent lease) (empty-view lease))
