-- ===== src/Nexus/Persistence/Outcomes.antt =====
-- How a call of `persist` leaves the nexus: what is saved, frozen or shut down.
use mayastor.Common.{
  ℕ, suc, ◌≡◌, refl, ap, Bool, true, false, not, Option, none, some, List, ◌&&◌, ◌⊎◌, inl, inr,
  arith, Bool-cases, Option-cases,
}
use mayastor.Nexus.Store.{Bytes, Turn, Saving, saved, refused, pending, save, save_txn}
use mayastor.Nexus.Store.Saved.{save_saves, save_txn_saves}
use mayastor.Nexus.Persistence.{
  ChildInfo, NexusInfo, Crates, normal, freeze, nexus_create, Persisted, done, waits, panics,
  fails_with, Persistent, PersistOp, create, shut_down, add_child, remove, update, update_cond,
  set_shared, changed, is_shut_down, after_save, found, refused_txn, after_txn, created, changed_to,
  txn_to, persisted, persist, child_infos, only_unhealthy, is_empty,
}

module _ (K : Crates) where
  open K use {Uri, encode}

  abbrev pub is_cond : PersistOp K → Bool
  is_cond (update_cond uri healthy predicate) = true
  is_cond _ = false

  -- What holds of the nexus behind a call with a store and an I/O device, from `p` frozen.
  abbrev pub Ends : PersistOp K → Persistent → Persistent × Persisted → Type 0
  Ends op p (q, done) =
      (q.io_mode ≡ normal)
      × ((q.store ≡ some (encode q.info))
          ⊎ ((is_cond op ≡ true) × ((q.store ≡ none) ⊎ ((q.store ≡ p.store) × (q.info ≡ p.info)))))
  Ends op p (q, fails_with e) =
      (q.io_mode ≡ freeze)
      × ((q.shutdowns ≡ suc p.shutdowns)
          ⊎ ((q.shutdowns ≡ p.shutdowns)
              × ((op ≡ shut_down) ⊎ ((op ≡ create) × (e ≡ nexus_create)))))
  Ends op p (q, waits) = (q.io_mode ≡ freeze) × (q.shutdowns ≡ p.shutdowns)
  Ends op p (q, panics) = q.shutdowns ≡ p.shutdowns

  shut_down_of : (op : PersistOp K) → is_shut_down K op ≡ true → op ≡ shut_down
  shut_down_of shut_down e = refl
  shut_down_of create e = absurd (ground arith)
  shut_down_of (add_child uri healthy) e = absurd (ground arith)
  shut_down_of (remove uri) e = absurd (ground arith)
  shut_down_of (update uri healthy) e = absurd (ground arith)
  shut_down_of (update_cond uri healthy predicate) e = absurd (ground arith)
  shut_down_of (set_shared shared) e = absurd (ground arith)

  after_save-Ends :
      (op : PersistOp K) (p q : Persistent) (r : Option Bytes × Saving)
      → p.io_mode ≡ freeze
      → q.io_mode ≡ freeze
      → q.shutdowns ≡ p.shutdowns
      → (r.1 ≡ saved → r.0 ≡ some (encode q.info))
      → Ends op p (after_save K true op q r)
  unfolding after_save
  after_save-Ends op p q (store, saved) f g s e = (refl, inl (e refl))
  after_save-Ends op p q (store, refused) f g s e = elim (Bool-cases (is_shut_down K op)) [
    | inl z ↦ rw z (g, inr (s, inl (shut_down_of op z)))
    | inr z ↦ rw z (g, inl (ap suc s))
  ]
  after_save-Ends op p q (store, pending) f g s e = (g, s)

  refused-Ends :
      (op : PersistOp K) (p q : Persistent) (o : Option Persistent)
      → ((r : Persistent) → o ≡ some r → (r.io_mode ≡ freeze) × (r.shutdowns ≡ p.shutdowns))
      → q.shutdowns ≡ p.shutdowns
      → Ends op p (refused_txn K o q)
  unfolding refused_txn
  refused-Ends op p q none f s = s
  refused-Ends op p q (some r) f s = let (m, n) = f r refl in (m, inl (ap suc n))

  found_keeps :
      (p q : Persistent) (current : Option Bytes)
      → q.io_mode ≡ freeze
      → q.shutdowns ≡ p.shutdowns
      → (r : Persistent) → found K q current ≡ some r
      → (r.io_mode ≡ freeze) × (r.shutdowns ≡ p.shutdowns)
  unfolding found
  found_keeps p q none g s r e = ground (arith, e, g, s)
  found_keeps p q (some current) g s r e = elim (Option-cases (K.decode current)) [
    | inl z ↦ let v : none ≡ some r = rw (found, z) at e in absurd (ground arith)
    | inr (val, z) ↦ let v = rw (found, z) at e in ground (arith, v, g, s)
  ]

  after_txn-Ends :
      (op : PersistOp K) (p q : Persistent) (r : Option Bytes × Saving × Option Bytes)
      → is_cond op ≡ true
      → q.io_mode ≡ freeze
      → q.shutdowns ≡ p.shutdowns
      → (r.1 ≡ saved → (r.0 ≡ some (encode q.info)) ⊎ (r.0 ≡ none))
      → Ends op p (after_txn K true q r)
  unfolding after_txn
  after_txn-Ends op p q (store, saved, current) c g s e =
      (refl, elim (e refl) [ inl z ↦ inl z | inr z ↦ inr (c, inl z) ])
  after_txn-Ends op p q (store, refused, current) c g s e =
      refused-Ends op p (record q { store = store }) (found K (record q { store = store }) current)
        (found_keeps p (record q { store = store }) current g s) s
  after_txn-Ends op p q (store, pending, current) c g s e = (g, s)

  changed_to-Ends :
      (retries : ℕ) (turns : List Turn) (op : PersistOp K) (p : Persistent) (o : Option NexusInfo)
      → p.io_mode ≡ freeze
      → Ends op p (changed_to K true retries turns op p o)
  unfolding changed_to
  changed_to-Ends retries turns op p none f = refl
  changed_to-Ends retries turns op p (some i) f =
      after_save-Ends op p (record p { info = i }) (save retries turns p.store (encode i)) f f refl
        (save_saves retries turns p.store (encode i))

  txn_to-Ends :
      (retries : ℕ) (turns : List Turn) (op : PersistOp K) (p : Persistent) (o : Option NexusInfo)
      → is_cond op ≡ true
      → p.io_mode ≡ freeze
      → Ends op p (txn_to K true retries turns p o)
  unfolding txn_to
  txn_to-Ends retries turns op p none c f = refl
  txn_to-Ends retries turns op p (some i) c f =
      after_txn-Ends op p (record p { info = i })
        (save_txn retries turns p.store (encode i) (encode p.info)) c f refl
        (save_txn_saves retries turns p.store (encode i) (encode p.info))

  created-Ends :
      (retries : ℕ) (turns : List Turn) (p : Persistent) (o : Option (List ChildInfo))
      → p.io_mode ≡ freeze
      → Ends create p (created K true retries turns p o)
  unfolding created
  created-Ends retries turns p none f = refl
  created-Ends retries turns p (some children) f = elim (Bool-cases (only_unhealthy children)) [
    | inl z ↦ rw z (f, inr (refl, inr (refl, refl)))
    | inr z ↦
        let i : NexusInfo = record (p.info) {
          children = children;
          clean_shutdown = false;
          shared = some false;
        } in
        rw z (
          after_save-Ends create p (record p { info = i }) (save retries turns p.store (encode i)) f
            f refl (save_saves retries turns p.store (encode i)))
  ]

  persisted-Ends :
      (retries : ℕ) (turns : List Turn) (children : List (Uri × Bool)) (op : PersistOp K)
      (p : Persistent)
      → p.io_mode ≡ freeze
      → Ends op p (persisted K true retries turns children op p)
  unfolding persisted
  persisted-Ends retries turns children create p f =
      elim (Bool-cases
        (is_empty p.info.children && not p.info.clean_shutdown && not p.info.do_self_shutdown)) [
          | inl z ↦ rw z (created-Ends retries turns p (child_infos K children) f)
          | inr z ↦ rw z refl
        ]
  persisted-Ends retries turns children (update_cond uri healthy predicate) p f =
      elim (Bool-cases (predicate p.info)) [
        | inl z ↦ rw z (
            txn_to-Ends retries turns (update_cond uri healthy predicate) p
              (changed K (update_cond uri healthy predicate) p.info) refl f)
        | inr z ↦ rw z (refl, inr (refl, inr (refl, refl)))
      ]
  persisted-Ends retries turns children shut_down p f =
      changed_to-Ends retries turns shut_down p (changed K shut_down p.info) f
  persisted-Ends retries turns children (add_child uri healthy) p f =
      changed_to-Ends retries turns (add_child uri healthy) p
        (changed K (add_child uri healthy) p.info) f
  persisted-Ends retries turns children (remove uri) p f =
      changed_to-Ends retries turns (remove uri) p (changed K (remove uri) p.info) f
  persisted-Ends retries turns children (update uri healthy) p f =
      changed_to-Ends retries turns (update uri healthy) p (changed K (update uri healthy) p.info) f
  persisted-Ends retries turns children (set_shared shared) p f =
      changed_to-Ends retries turns (set_shared shared) p (changed K (set_shared shared) p.info) f

  -- With a store and an I/O device: a call that is done has the I/O going again, and the store holds
  -- the information, save that a conditional update may have changed neither, or found no key. A call
  -- that fails leaves the I/O frozen and has asked for a shutdown of the nexus, unless it was one, or
  -- the only child of a new nexus is unhealthy. A call that still tries to save keeps the I/O frozen.
  pub persist-Ends :
      (retries : ℕ) (turns : List Turn) (children : List (Uri × Bool)) (op : PersistOp K)
      (p : Persistent)
      → Ends op p (persist K true true retries turns children op p)
  unfolding persist
  persist-Ends retries turns children op p =
      persisted-Ends retries turns children op (record p { io_mode = freeze }) refl
