-- ===== src/Nexus/Persistence/Health.antt =====
-- What the operations say of the health of each child.
use mayastor.Common.{
  ℕ, ◌≡◌, refl, Bool, Option, none, some, List, [], ◌∷◌, ◌==◌, if◌then◌else◌, inl, inr, arith,
  Bool-cases, some_inj,
}
use mayastor.Nexus.Persistence.{
  ChildInfo, NexusInfo, Crates, PersistOp, create, shut_down, add_child, remove, update,
  update_cond, set_shared, changed, set_health, put_child, remove_child, uuid,
}

-- The saved health of a child, by the first entry of its UUID.
unfoldable pub health : ℕ → List ChildInfo → Option Bool
health u [] = none
health u (c ∷ children) =
    let rest = health u children in if c.uuid == u then some c.healthy else rest

abbrev pub updated : Bool → Option Bool → Option Bool
updated healthy none = none
updated healthy (some old) = some healthy

set_health-health :
    (v u : ℕ) (healthy : Bool) (children : List ChildInfo)
    → health u (set_health v healthy children)
      ≡ (if v == u then updated healthy (health u children) else health u children)
unfolding health set_health
set_health-health v u healthy [] = ground arith
set_health-health v u healthy (c ∷ children) =
    let e = set_health-health v u healthy children in ground (arith, e)

put_child-health :
    (new : ChildInfo) (u : ℕ) (children : List ChildInfo)
    → health u (put_child new children)
      ≡ (if new.uuid == u then some new.healthy else health u children)
unfolding health put_child
put_child-health new u [] = refl
put_child-health new u (c ∷ children) =
    let e = put_child-health new u children in
    elim (Bool-cases (c.uuid == new.uuid)) [
      | inl z ↦ rw z (ground (arith, z))
      | inr z ↦ rw z (ground (arith, z, e))
    ]

remove_child-health :
    (v u : ℕ) (children : List ChildInfo)
    → health u (remove_child v children) ≡ (if v == u then none else health u children)
unfolding health remove_child
remove_child-health v u [] = ground arith
remove_child-health v u (c ∷ children) =
    let e = remove_child-health v u children in
    elim (Bool-cases (c.uuid == v)) [
      | inl z ↦ rw z (ground (arith, z, e))
      | inr z ↦ rw z (ground (arith, z, e))
    ]

module _ (K : Crates) where
  open K use {Uri}

  -- The child that an operation is about, and what it makes of the child's saved health.
  abbrev pub subject : PersistOp K → Option Uri
  subject create = none
  subject shut_down = none
  subject (set_shared shared) = none
  subject (add_child uri healthy) = some uri
  subject (remove uri) = some uri
  subject (update uri healthy) = some uri
  subject (update_cond uri healthy predicate) = some uri

  abbrev pub meant : PersistOp K → Option Bool → Option Bool
  meant (add_child uri healthy) old = some healthy
  meant (remove uri) old = none
  meant (update uri healthy) old = updated healthy old
  meant (update_cond uri healthy predicate) old = updated healthy old
  meant _ old = old

  children_lem :
      (i j : NexusInfo) (children : List ChildInfo) (u : ℕ) {x : Option Bool}
      → some (record i { children = children }) ≡ some j
      → health u children ≡ x
      → (health u j.children ≡ x)
        × (j.clean_shutdown ≡ i.clean_shutdown)
        × (j.do_self_shutdown ≡ i.do_self_shutdown)
        × (j.shared ≡ i.shared)
  children_lem i j children u e h = rw (← some_inj e) (h, refl, refl, refl)

  uuid_of :
      {uri uri' : Uri} {v : ℕ} → some uri' ≡ some uri → uuid K uri ≡ some v → uuid K uri' ≡ some v
  uuid_of s e = rw (some_inj s) e

  -- An operation on a child whose URI has a UUID gives that child the health that it is meant to have, and keeps the
  -- health of every other child and the markers of the nexus.
  pub changed-health :
      (op : PersistOp K) (i j : NexusInfo) (uri : K.Uri) (v u : ℕ)
      → subject op ≡ some uri
      → uuid K uri ≡ some v
      → changed K op i ≡ some j
      → (health u j.children
          ≡ (if v == u then meant op (health u i.children) else health u i.children))
        × (j.clean_shutdown ≡ i.clean_shutdown)
        × (j.do_self_shutdown ≡ i.do_self_shutdown)
        × (j.shared ≡ i.shared)
  unfolding changed
  changed-health create i j uri v u s e c = absurd (ground arith)
  changed-health shut_down i j uri v u s e c = absurd (ground arith)
  changed-health (set_shared shared) i j uri v u s e c = absurd (ground arith)
  changed-health (add_child uri' healthy) i j uri v u s e c =
      let new : ChildInfo = record { uuid = v; healthy = healthy } in
      children_lem i j (put_child new i.children) u (rw (changed, uuid_of s e) at c)
        (put_child-health new u i.children)
  changed-health (remove uri') i j uri v u s e c =
      children_lem i j (remove_child v i.children) u (rw (changed, uuid_of s e) at c)
        (remove_child-health v u i.children)
  changed-health (update uri' healthy) i j uri v u s e c =
      children_lem i j (set_health v healthy i.children) u (rw (changed, uuid_of s e) at c)
        (set_health-health v u healthy i.children)
  changed-health (update_cond uri' healthy predicate) i j uri v u s e c =
      children_lem i j (set_health v healthy i.children) u (rw (changed, uuid_of s e) at c)
        (set_health-health v u healthy i.children)
