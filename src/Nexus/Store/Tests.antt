-- ===== src/Nexus/Store/Tests.antt =====
-- Values of a few bytes, saved with two tries.
use mayastor.Common.{◌≡◌, ◌≢◌, ◌⊎◌, refl, none, some, [], ◌∷◌, arith}
use mayastor.Nexus.Store.{
  Bytes, answers, loses, fails, saved, pending, save, save_txn, put_kv_cas, txn_answer,
}
use mayastor.Nexus.Store.Saved.{save_settles, save_txn_saves}
use mayastor.Nexus.Store.Foreign.{HoldsForeign, save_txn_spares, save_txn_missing}

abbrev old : Bytes
old = 1 ∷ []

abbrev new : Bytes
new = 1 ∷ 2 ∷ []

abbrev flagged : Bytes
flagged = 9 ∷ []

second_try : save 2 (fails ∷ answers ∷ []) (some old) new ≡ (some new, saved)
unfolding save
second_try = refl

lost_answer : save_txn 2 (loses ∷ answers ∷ []) (some old) new old ≡ (some new, saved, none)
unfolding save_txn put_kv_cas txn_answer
lost_answer = refl

save_settles_example :
    ((save 2 (fails ∷ loses ∷ []) (some old) new).1 ≢ pending)
    × ((save_txn 2 (fails ∷ loses ∷ []) (some old) new old).1 ≢ pending)
save_settles_example =
    save_settles 2 (fails ∷ loses ∷ []) (some old) (some old) new old (omega arith) (omega arith)
      (omega arith)

save_txn_saves_example :
    ((save_txn 2 (loses ∷ answers ∷ []) (some old) new old).0 ≡ some new)
    ⊎ ((save_txn 2 (loses ∷ answers ∷ []) (some old) new old).0 ≡ none)
unfolding save_txn put_kv_cas txn_answer
save_txn_saves_example = save_txn_saves 2 (loses ∷ answers ∷ []) (some old) new old refl

save_txn_spares_example :
    HoldsForeign new old (save_txn 2 (loses ∷ answers ∷ []) (some flagged) new old).0
    × ((save_txn 2 (loses ∷ answers ∷ []) (some flagged) new old).1 ≢ saved)
save_txn_spares_example =
    save_txn_spares 2 (loses ∷ answers ∷ []) (some flagged) new old
      (record { unexpected = refl; unwanted = refl }) tt

save_txn_missing_example :
    ((save_txn 2 (fails ∷ []) none new old).0 ≡ none)
    × ((save_txn 2 (answers ∷ fails ∷ []) none new old).1 ≡ saved)
save_txn_missing_example = save_txn_missing 2 (fails ∷ []) new old tt
