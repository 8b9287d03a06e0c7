-- ===== src/Nexus/Persistence.antt =====
-- The saved information of a nexus: io-engine/src/bdev/nexus/nexus_persistence.rs, and
-- `NexusChild::uuid` of nexus_child.rs. Strings that are only compared are numbers.
pub mod Outcomes
pub mod Health
mod Tests
use mayastor.Common.{
  ℕ, suc, ◌≡◌, ◌+◌, Bool, true, false, not, Option, none, some, List, [], ◌∷◌, ◌++◌, ◌==◌, ◌&&◌,
  ◌||◌, if◌then◌else◌,
}
use mayastor.Common.Panic.{◌>>=◌}
use mayastor.Nexus.Store.{Bytes, Turn, Saving, saved, refused, pending, save, save_txn}

pub record ChildInfo : Type 0 where
  pub uuid : ℕ
  pub healthy : Bool

pub record NexusInfo : Type 0 where
  pub clean_shutdown : Bool
  pub do_self_shutdown : Bool
  pub children : List ChildInfo
  pub shared : Option Bool

-- The crates url and serde_json: the query pairs of a URI, and the bytes of a `NexusInfo`.
pub record Crates : Type 1 where
  pub Uri : Type 0
  pub query_pairs : Uri → Option (List (ℕ × ℕ))
  pub uuid_key : ℕ
  pub encode : NexusInfo → Bytes
  pub decode : Bytes → Option NexusInfo
  pub decode-encode : (i : NexusInfo) → decode (encode i) ≡ some i

-- `NexusInfo::shared`.
abbrev pub is_shared : NexusInfo → Bool
is_shared i = elim i.shared [ none ↦ true | some shared ↦ shared ]

pub data IoMode : Type 0 where
  normal freeze : IoMode

pub data PersistError : Type 0 where
  nexus_create save_state_failed : PersistError

-- How `persist` comes out; `waits` where it still tries to save.
pub data Persisted : Type 0 where
  done waits panics : Persisted
  fails_with : PersistError → Persisted

-- What `persist` changes; `shutdowns` counts the calls of `try_self_shutdown`.
pub record Persistent : Type 0 where
  pub info : NexusInfo
  pub store : Option Bytes
  pub io_mode : IoMode
  pub shutdowns : ℕ

abbrev find_pair : ℕ → List (ℕ × ℕ) → Option ℕ
find_pair key [] = none
find_pair key ((k, v) ∷ pairs) = let rest = find_pair key pairs in if k == key then some v else rest

-- The loop of `Update` and `UpdateCond`.
unfoldable pub set_health : ℕ → Bool → List ChildInfo → List ChildInfo
set_health uuid healthy [] = []
set_health uuid healthy (c ∷ children) =
    let rest = set_health uuid healthy children in
    (if c.uuid == uuid then record c { healthy = healthy } else c) ∷ rest

-- `AddChild`: in place of the first child of this UUID, or at the end.
unfoldable pub put_child : ChildInfo → List ChildInfo → List ChildInfo
put_child new [] = new ∷ []
put_child new (c ∷ children) =
    let rest = put_child new children in if c.uuid == new.uuid then new ∷ children else c ∷ rest

-- `RemoveChild`.
unfoldable pub remove_child : ℕ → List ChildInfo → List ChildInfo
remove_child uuid [] = []
remove_child uuid (c ∷ children) =
    let rest = remove_child uuid children in if c.uuid == uuid then rest else c ∷ rest

abbrev is_empty : List ChildInfo → Bool
is_empty [] = true
is_empty (c ∷ children) = false

-- The only child is not healthy.
abbrev only_unhealthy : List ChildInfo → Bool
only_unhealthy [] = false
only_unhealthy (c ∷ []) = not c.healthy
only_unhealthy (c ∷ d ∷ children) = false

module _ (K : Crates) where
  open K use {Uri, query_pairs, uuid_key, encode, decode}

  pub data PersistOp : Type 0 where
    create shut_down : PersistOp
    add_child : K.Uri → Bool → PersistOp
    remove : K.Uri → PersistOp
    update : K.Uri → Bool → PersistOp
    update_cond : K.Uri → Bool → (NexusInfo → Bool) → PersistOp
    set_shared : Bool → PersistOp

  -- `NexusChild::uuid` and the `expect` behind it; `none` is a panic.
  unfoldable pub uuid : Uri → Option ℕ
  uuid uri = query_pairs uri >>= find_pair uuid_key

  -- The information of the children of the nexus.
  child_infos : List (Uri × Bool) → Option (List ChildInfo)
  child_infos [] = some []
  child_infos ((uri, healthy) ∷ children) = do
    u ← uuid uri
    rest ← child_infos children
    some (record { uuid = u; healthy = healthy } ∷ rest)

  -- What the operations other than `Create` make of the information.
  unfoldable pub changed : PersistOp → NexusInfo → Option NexusInfo
  changed create i = some i
  changed shut_down i = some (record i { clean_shutdown = true })
  changed (add_child uri healthy) i = do
    u ← uuid uri
    some (record i { children = put_child (record { uuid = u; healthy = healthy }) i.children })
  changed (remove uri) i = do u ← uuid uri; some (record i { children = remove_child u i.children })
  changed (update uri healthy) i = do
    u ← uuid uri
    some (record i { children = set_health u healthy i.children })
  changed (update_cond uri healthy predicate) i = do
    u ← uuid uri
    some (record i { children = set_health u healthy i.children })
  changed (set_shared shared) i = some (record i { shared = some shared })

  abbrev pub mode_set : Bool → IoMode → Persistent → Persistent
  mode_set has_io_device mode p = if has_io_device then record p { io_mode = mode } else p

  abbrev pub is_shut_down : PersistOp → Bool
  is_shut_down shut_down = true
  is_shut_down _ = false

  abbrev pub asks_shutdown : Persistent → Persistent
  asks_shutdown p = record p { shutdowns = suc p.shutdowns }

  -- Behind `save`: the I/O goes on, or the nexus is to shut down unless it does already.
  after_save : Bool → PersistOp → Persistent → Option Bytes × Saving → Persistent × Persisted
  after_save device op p (store, saved) =
      (mode_set device normal (record p { store = store }), done)
  after_save device op p (store, refused) = (
    (if is_shut_down op
        then record p { store = store }
        else asks_shutdown (record p { store = store })),
    fails_with save_state_failed,
  )
  after_save device op p (store, pending) = (record p { store = store }, waits)

  -- What `save_txn` found: it goes into the information, and `unwrap` panics at what is none.
  found : Persistent → Option Bytes → Option Persistent
  found p none = some p
  found p (some current) = do
    val ← decode current
    some (record p { info = record (p.info) { do_self_shutdown = val.do_self_shutdown } })

  refused_txn : Option Persistent → Persistent → Persistent × Persisted
  refused_txn none p = (p, panics)
  refused_txn (some q) p = (asks_shutdown q, fails_with save_state_failed)

  -- Behind `save_txn`.
  after_txn : Bool → Persistent → Option Bytes × Saving × Option Bytes → Persistent × Persisted
  unfolding found refused_txn
  after_txn device p (store, saved, current) =
      (mode_set device normal (record p { store = store }), done)
  after_txn device p (store, refused, current) =
      refused_txn (found (record p { store = store }) current) (record p { store = store })
  after_txn device p (store, pending, current) = (record p { store = store }, waits)

  -- The information of a nexus that is created, and the check of its only child.
  created : Bool → ℕ → List Turn → Persistent → Option (List ChildInfo) → Persistent × Persisted
  unfolding after_save
  created device retries turns p none = (p, panics)
  created device retries turns p (some children) =
      let q = record p { info = record (p.info) { children = children } } in
      let i = record (q.info) { clean_shutdown = false; shared = some false } in
      if only_unhealthy children
      then (q, fails_with nexus_create)
      else after_save device create (record q { info = i }) (save retries turns q.store (encode i))

  changed_to :
      Bool → ℕ → List Turn → PersistOp → Persistent → Option NexusInfo → Persistent × Persisted
  unfolding after_save
  changed_to device retries turns op p none = (p, panics)
  changed_to device retries turns op p (some i) =
      after_save device op (record p { info = i }) (save retries turns p.store (encode i))

  txn_to : Bool → ℕ → List Turn → Persistent → Option NexusInfo → Persistent × Persisted
  unfolding after_txn
  txn_to device retries turns p none = (p, panics)
  txn_to device retries turns p (some i) =
      after_txn device (record p { info = i })
        (save_txn retries turns p.store (encode i) (encode p.info))

  -- `persist` with a store, from the freeze of the I/O on.
  persisted :
      Bool → ℕ → List Turn → List (Uri × Bool) → PersistOp → Persistent → Persistent × Persisted
  unfolding created changed_to txn_to child_infos
  persisted device retries turns children create p =
      if is_empty p.info.children && not p.info.clean_shutdown && not p.info.do_self_shutdown
      then created device retries turns p (child_infos children)
      else (p, panics)
  persisted device retries turns children (update_cond uri healthy predicate) p =
      if predicate p.info
      then txn_to device retries turns p (changed (update_cond uri healthy predicate) p.info)
      else (mode_set device normal p, done)
  persisted device retries turns children op p =
      changed_to device retries turns op p (changed op p.info)

  -- `persist`: whether a store is enabled, whether the nexus has an I/O device, the tries, what comes
  -- of the requests, and the children of the nexus, with the operation.
  unfoldable pub persist :
      Bool
      → Bool
      → ℕ
      → List Turn
      → List (Uri × Bool)
      → PersistOp
      → Persistent
      → Persistent × Persisted
  unfolding persisted
  persist enabled device retries turns children op p =
      if enabled
      then persisted device retries turns children op (mode_set device freeze p)
      else (p, done)
