-- ===== src/Nexus/Store.antt =====
-- The saving of a value in the persistent store: `save` and `save_txn` of
-- io-engine/src/bdev/nexus/nexus_persistence.rs, and `put_kv_cas` of store/etcd.rs. The store holds the
-- bytes of one key. The server and the other writers take turns with the requests.
pub mod Saved
pub mod Foreign
mod Tests
use mayastor.Common.{
  ℕ, ◌+◌, ◌-◌, ◌%◌, Bool, true, false, Option, none, some, List, [], ◌∷◌, ◌==◌, ◌&&◌, if◌then◌else◌,
}

abbrev pub Bytes : Type 0
Bytes = List ℕ

abbrev pub same_bytes : Bytes → Bytes → Bool
same_bytes [] [] = true
same_bytes [] (y ∷ ys) = false
same_bytes (x ∷ xs) [] = false
same_bytes (x ∷ xs) (y ∷ ys) = let rest = same_bytes xs ys in x == y && rest

-- What comes of the next request: an answer, an error for a request that was carried out all the
-- same, or an error for one that was not. Or another writer puts a value before it.
pub data Turn : Type 0 where
  answers loses fails : Turn
  intrudes : Bytes → Turn

-- How a save comes out; `pending` where the turns are used up and the save still tries.
pub data Saving : Type 0 where
  saved refused pending : Saving

-- `retry -= 1` on a u16.
abbrev pub less_one : ℕ → ℕ
less_one retry = (retry + 65535) % 65536

-- The server's transaction of `put_kv_cas`, and what the function makes of its response: none where
-- it takes the value to be put.
unfoldable pub put_kv_cas : Option Bytes → Bytes → Bytes → Option Bytes × Option Bytes
put_kv_cas none value expected = (none, none)
put_kv_cas (some current) value expected =
    if same_bytes current expected then (some value, none) else (some current, some current)

-- `save`: the tries of `PersistentStore::put` until one is answered or `retry` is used up.
unfoldable pub save : ℕ → List Turn → Option Bytes → Bytes → Option Bytes × Saving
save retry [] store value = (store, pending)
save retry (intrudes other ∷ turns) store value = save retry turns (some other) value
save retry (answers ∷ turns) store value = (some value, saved)
save retry (loses ∷ turns) store value =
    let rest = save (less_one retry) turns (some value) value in
    if less_one retry == 0 then (some value, refused) else rest
save retry (fails ∷ turns) store value =
    let rest = save (less_one retry) turns store value in
    if less_one retry == 0 then (store, refused) else rest

-- The case of an answer in `save_txn`; the value that was found goes back with a refusal.
unfoldable pub txn_answer :
    Bytes → Option Bytes × Option Bytes → Option Bytes × Saving × Option Bytes
txn_answer value (store, none) = (store, saved, none)
txn_answer value (store, some current) =
    if same_bytes current value then (store, saved, none) else (store, refused, some current)

-- `save_txn`.
unfoldable pub save_txn :
    ℕ → List Turn → Option Bytes → Bytes → Bytes → Option Bytes × Saving × Option Bytes
unfolding put_kv_cas txn_answer
save_txn retry [] store value expected = (store, pending, none)
save_txn retry (intrudes other ∷ turns) store value expected =
    save_txn retry turns (some other) value expected
save_txn retry (answers ∷ turns) store value expected =
    txn_answer value (put_kv_cas store value expected)
save_txn retry (loses ∷ turns) store value expected =
    let after = (put_kv_cas store value expected).0 in
    let rest = save_txn (less_one retry) turns after value expected in
    if less_one retry == 0 then (after, refused, none) else rest
save_txn retry (fails ∷ turns) store value expected =
    let rest = save_txn (less_one retry) turns store value expected in
    if less_one retry == 0 then (store, refused, none) else rest
