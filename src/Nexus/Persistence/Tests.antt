-- ===== src/Nexus/Persistence/Tests.antt =====
-- A nexus with two children, one of which fails.
use mayastor.Common.{
  ℕ, ◌≡◌, refl, Bool, true, false, Option, none, some, List, [], ◌∷◌, ◌==◌, if◌then◌else◌,
}
use mayastor.Nexus.Store.{Bytes, answers, fails, save_txn, put_kv_cas, txn_answer}
use mayastor.Nexus.Persistence.{
  ChildInfo, NexusInfo, Crates, normal, done, Persistent, PersistOp, update_cond, changed, persist,
  uuid, set_health,
}
use mayastor.Nexus.Persistence.Outcomes.{Ends, persist-Ends}
use mayastor.Nexus.Persistence.Health.{health, meant, changed-health}

abbrev bit : Bool → ℕ
bit false = 0
bit true = 1

abbrev flag : Option Bool → ℕ
flag none = 2
flag (some b) = bit b

abbrev bytes : List ChildInfo → Bytes
bytes [] = []
bytes (c ∷ children) = c.uuid ∷ bit c.healthy ∷ bytes children

abbrev unbit : ℕ → Bool
unbit n = if n == 1 then true else false

abbrev unflag : ℕ → Option Bool
unflag n = if n == 2 then none else some (unbit n)

abbrev infos : Bytes → List ChildInfo
infos [] = []
infos (u ∷ []) = []
infos (u ∷ b ∷ rest) = record { uuid = u; healthy = unbit b } ∷ infos rest

abbrev encoded : NexusInfo → Bytes
encoded i = bit i.clean_shutdown ∷ bit i.do_self_shutdown ∷ flag i.shared ∷ bytes i.children

abbrev decoded : Bytes → Option NexusInfo
decoded (a ∷ b ∷ c ∷ rest) = some (record {
  clean_shutdown = unbit a;
  do_self_shutdown = unbit b;
  shared = unflag c;
  children = infos rest;
})
decoded _ = none

unbit-bit : (b : Bool) → unbit (bit b) ≡ b
unbit-bit false = refl
unbit-bit true = refl

unflag-flag : (o : Option Bool) → unflag (flag o) ≡ o
unflag-flag none = refl
unflag-flag (some false) = refl
unflag-flag (some true) = refl

infos-bytes : (children : List ChildInfo) → infos (bytes children) ≡ children
infos-bytes [] = refl
infos-bytes (c ∷ children) = rw (unbit-bit c.healthy, infos-bytes children) refl

decoded-encoded : (i : NexusInfo) → decoded (encoded i) ≡ some i
decoded-encoded i =
    rw
      (
        unbit-bit i.clean_shutdown,
        unbit-bit i.do_self_shutdown,
        unflag-flag i.shared,
        infos-bytes i.children,
      )
      refl

-- A URI that is its own UUID.
abbrev crates : Crates
crates = record {
  Uri = ℕ;
  query_pairs = λ uri. some ((7, uri) ∷ []);
  uuid_key = 7;
  encode = encoded;
  decode = decoded;
  decode-encode = decoded-encoded;
}

abbrev pair : NexusInfo
pair = record {
  clean_shutdown = false;
  do_self_shutdown = false;
  shared = some true;
  children = record { uuid = 4; healthy = true } ∷ record { uuid = 5; healthy = true } ∷ [];
}

abbrev faulted : NexusInfo
faulted = record pair {
  children = record { uuid = 4; healthy = true } ∷ record { uuid = 5; healthy = false } ∷ [];
}

abbrev running : Persistent
running = record { info = pair; store = some (encoded pair); io_mode = normal; shutdowns = 0 }

abbrev faults : PersistOp crates
faults = update_cond 5 false (λ i. true)

persist_runs : persist crates true true 3 (fails ∷ answers ∷ []) [] faults running ≡ (
  record { info = faulted; store = some (encoded faulted); io_mode = normal; shutdowns = 0 },
  done,
)
unfolding persist changed uuid set_health save_txn put_kv_cas txn_answer
persist_runs = refl

persist-Ends_example :
    Ends crates faults running (persist crates true true 3 (fails ∷ answers ∷ []) [] faults running)
persist-Ends_example = persist-Ends crates 3 (fails ∷ answers ∷ []) [] faults running

changed-health_example :
    (health 5 faulted.children
      ≡ (if 5 == 5 then meant crates faults (health 5 pair.children) else health 5 pair.children))
    × (faulted.clean_shutdown ≡ pair.clean_shutdown)
    × (faulted.do_self_shutdown ≡ pair.do_self_shutdown)
    × (faulted.shared ≡ pair.shared)
unfolding changed uuid set_health
changed-health_example = changed-health crates faults pair faulted 5 5 5 refl refl refl
