-- ===== src/Tasks/Registration/Catalog.antt =====
-- The capability catalog across a registration, upsert_executor of runtime_protocol/store.py.
use banodoco_workspace_runti.Base.{
  ℕ, ◌==◌, ◌≡◌, refl, sym, ap, subst, Bool, true, false, Option, none, some, List, [], ◌∷◌, arith,
  All, first, upsert, ltb, Option-cases, inl, inr, ok, validation, Each-ok, Each-step, Each-require,
}
use banodoco_workspace_runti.Tasks.Rows.{Capability, CapabilityStatus, ready}
use banodoco_workspace_runti.Tasks.Realm.{Realm, World}
use banodoco_workspace_runti.Tasks.Executors.{
  capability_at, validate_runtime_epoch, register_capability,
}
use banodoco_workspace_runti.Tasks.Registration.{
  Advertisement, Registration, normalized_facts, register_described, register_named,
  upsert_executor,
}

abbrev is_some {ℓ} : {A : Type ℓ} → Option A → Bool
is_some none = false
is_some (some a) = true

-- The catalog has an entry for the capability.
abbrev pub Catalogued : Realm → ℕ → Type 0
Catalogued db id = is_some (capability_at db id) ≡ true

kept_entry :
    (j : ℕ) (row : Capability) (cs : List Capability)
    → is_some (first (λ (c : Capability). c.id == j) cs) ≡ true
    → is_some (
        first
          (λ (c : Capability). c.id == j)
          (upsert (λ (c : Capability). c.id == row.id) (λ c. row) row cs))
      ≡ true
unfolding first upsert
kept_entry j row [] h = cc
kept_entry j row (c ∷ cs) h = ground (arith, kept_entry j row cs)

own_entry :
    (row : Capability) (cs : List Capability)
    → is_some (
        first
          (λ (c : Capability). c.id == row.id)
          (upsert (λ (c : Capability). c.id == row.id) (λ c. row) row cs))
      ≡ true
unfolding first upsert
own_entry row [] = ground arith
own_entry row (c ∷ cs) = ground (arith, own_entry row cs)

module _ (id digest : ℕ) (keys : List ℕ) (status : CapabilityStatus) (reason : Option ℕ)
    (scratch output : ℕ) (db : Realm) where
  register-Catalogued :
      Catalogued (register_capability id digest keys status reason scratch output db) id
  unfolding register_capability capability_at
  register-Catalogued = own_entry _ db.capabilities

  register_keeps :
      (j : ℕ)
      → Catalogued db j
      → Catalogued (register_capability id digest keys status reason scratch output db) j
  unfolding register_capability capability_at
  register_keeps j h = kept_entry j _ db.capabilities h

module _ (w : World) where
  named_keeps :
      (j : ℕ) (rest : List Advertisement) (db : Realm)
      → Catalogued db j
      → Catalogued (register_named w rest db) j
  unfolding register_named
  named_keeps j [] db h = h
  named_keeps j (x ∷ rest) db h =
      elim (Option-cases (capability_at db x.descriptor.capability_id)) [
        | inl e ↦
            rw (e, register_named) (named_keeps j rest _ (register_keeps _ _ _ _ _ _ _ db j h))
        | inr (c, e) ↦ rw (e, register_named) (named_keeps j rest db h)
      ]

  -- What the first advertisement leaves to the rest.
  abbrev after : Advertisement → Realm → Option Capability → Realm
  after x db none =
      register_capability x.descriptor.capability_id
        (w.capability_id_digest x.descriptor.capability_id) [] ready none 0 0 db
  after x db (some c) = db

  register_named-step :
      (x : Advertisement) (rest : List Advertisement) (db : Realm) (o : Option Capability)
      → capability_at db x.descriptor.capability_id ≡ o
      → register_named w rest (after x db o) ≡ register_named w (x ∷ rest) db
  unfolding register_named
  register_named-step x rest db none e =
      ap
        (λ o. elim o [
          | none ↦ register_named w rest (after x db none)
          | some c ↦ register_named w rest db
        ])
        (sym e)
  register_named-step x rest db (some d) e =
      ap
        (λ o. elim o [
          | none ↦ register_named w rest (after x db none)
          | some c ↦ register_named w rest db
        ])
        (sym e)

  after-Catalogued :
      (x : Advertisement) (db : Realm) (o : Option Capability)
      → capability_at db x.descriptor.capability_id ≡ o
      → Catalogued (after x db o) x.descriptor.capability_id
  after-Catalogued x db none e = register-Catalogued x.descriptor.capability_id _ _ _ _ _ _ db
  after-Catalogued x db (some c) e = ap is_some e

  named-Catalogued :
      (rest : List Advertisement) (db : Realm)
      → All
          (λ (x : Advertisement). Catalogued (register_named w rest db) x.descriptor.capability_id)
          rest
  named-Catalogued [] db = tt
  named-Catalogued (x ∷ rest) db =
      let id = x.descriptor.capability_id in
      let next = after x db (capability_at db id) in
      subst (λ c. All (λ (y : Advertisement). Catalogued c y.descriptor.capability_id) (x ∷ rest))
        (register_named-step x rest db (capability_at db id) refl)
        (
          named_keeps id rest next (after-Catalogued x db (capability_at db id) refl),
          named-Catalogued rest next,
        )

-- After a registration that was accepted, the catalog has an entry for every capability that the
-- executor advertised.
pub upsert_executor-Catalogued :
    (w : World) (now default : ℕ) (r : Registration) (a b : Realm)
    → upsert_executor w now default r a ≡ ok b
    → All (λ (x : Advertisement). Catalogued b x.descriptor.capability_id) r.capabilities
unfolding upsert_executor capability_at
upsert_executor-Catalogued w now default r a b h =
    let P : Realm → Type 0 =
      λ c. All (λ (x : Advertisement). Catalogued c x.descriptor.capability_id) r.capabilities in
    Each-ok P (upsert_executor w now default r a)
      (Each-require P (ltb 0 r.max_concurrency) validation _ λ _.
        Each-step P (validate_runtime_epoch a r.runtime_epoch (some r.executor_id) false) _ λ e _.
          Each-step P (normalized_facts r.verified_facts) _
            λ f _. named-Catalogued w r.capabilities (register_described r.capabilities a))
      h
