-- ===== src/Nexus/Store/Foreign.antt =====
-- A transaction against what another writer has left in the store.
use mayastor.Common.{
  ℕ, ◌≡◌, ◌≢◌, refl, sym, false, Option, none, some, List, [], ◌∷◌, ◌==◌, inl, inr, arith,
  Bool-cases,
}
use mayastor.Nexus.Store.{
  Bytes, same_bytes, Turn, answers, loses, fails, intrudes, Saving, saved, less_one, put_kv_cas,
  txn_answer, save_txn,
}

-- A value that is neither the expected one nor the new one.
pub record IsForeign (value expected current : Bytes) : Type 0 where
  pub unexpected : same_bytes current expected ≡ false
  pub unwanted : same_bytes current value ≡ false

abbrev pub HoldsForeign : Bytes → Bytes → Option Bytes → Type 0
HoldsForeign value expected none = ⊥
HoldsForeign value expected (some current) = IsForeign value expected current

-- The other writers put foreign values only.
abbrev pub AllForeign : Bytes → Bytes → List Turn → Type 0
AllForeign value expected [] = Unit
AllForeign value expected (intrudes other ∷ turns) =
    IsForeign value expected other × AllForeign value expected turns
AllForeign value expected (answers ∷ turns) = AllForeign value expected turns
AllForeign value expected (loses ∷ turns) = AllForeign value expected turns
AllForeign value expected (fails ∷ turns) = AllForeign value expected turns

abbrev Spares : Bytes → Bytes → Option Bytes × Saving × Option Bytes → Type 0
Spares value expected r = HoldsForeign value expected r.0 × (r.1 ≢ saved)

cas_spares :
    (store : Option Bytes) (value expected : Bytes)
    → HoldsForeign value expected store
    → (put_kv_cas store value expected).0 ≡ store
unfolding put_kv_cas
cas_spares none value expected f = absurd f
cas_spares (some current) value expected f = rw f.unexpected refl

cas_foreign :
    (current value expected : Bytes)
    → IsForeign value expected current
    → put_kv_cas (some current) value expected ≡ (some current, some current)
unfolding put_kv_cas
cas_foreign current value expected f = rw f.unexpected refl

found-Spares :
    (value expected current : Bytes)
    → IsForeign value expected current
    → Spares value expected (txn_answer value (some current, some current))
unfolding txn_answer
found-Spares value expected current f = rw f.unwanted (f, λ q. absurd (ground arith))

Spares-of :
    (value expected : Bytes) {p r : Option Bytes × Option Bytes}
    → p ≡ r
    → Spares value expected (txn_answer value p)
    → Spares value expected (txn_answer value r)
Spares-of value expected e s = rw e at s

answer-Spares :
    (store : Option Bytes) (value expected : Bytes)
    → HoldsForeign value expected store
    → Spares value expected (txn_answer value (put_kv_cas store value expected))
answer-Spares none value expected f = absurd f
answer-Spares (some current) value expected f =
    Spares-of value expected (sym (cas_foreign current value expected f))
      (found-Spares value expected current f)

-- While the store holds what others have put there, and that is neither the expected value nor the
-- new one, a transaction never replaces it and is never reported as done.
pub save_txn_spares :
    (retry : ℕ) (turns : List Turn) (store : Option Bytes) (value expected : Bytes)
    → HoldsForeign value expected store
    → AllForeign value expected turns
    → HoldsForeign value expected (save_txn retry turns store value expected).0
      × ((save_txn retry turns store value expected).1 ≢ saved)
unfolding save_txn
save_txn_spares retry [] store value expected f a = (f, λ e. absurd (ground arith))
save_txn_spares retry (intrudes other ∷ turns) store value expected f a =
    save_txn_spares retry turns (some other) value expected a.0 a.1
save_txn_spares retry (answers ∷ turns) store value expected f a =
    answer-Spares store value expected f
save_txn_spares retry (loses ∷ turns) store value expected f a =
    let c = cas_spares store value expected f in
    elim (Bool-cases (less_one retry == 0)) [
      | inl z ↦ rw (z, c) (f, λ e. absurd (ground arith))
      | inr z ↦ rw (z, c) (save_txn_spares (less_one retry) turns store value expected f a)
    ]
save_txn_spares retry (fails ∷ turns) store value expected f a =
    elim (Bool-cases (less_one retry == 0)) [
      | inl z ↦ rw z (f, λ e. absurd (ground arith))
      | inr z ↦ rw z (save_txn_spares (less_one retry) turns store value expected f a)
    ]

-- No other writer puts a value.
abbrev pub IsAlone : List Turn → Type 0
IsAlone [] = Unit
IsAlone (intrudes other ∷ turns) = ⊥
IsAlone (answers ∷ turns) = IsAlone turns
IsAlone (loses ∷ turns) = IsAlone turns
IsAlone (fails ∷ turns) = IsAlone turns

-- Where the key is missing and no other writer puts it, a transaction puts nothing, and it refuses
-- only for want of an answer: the first answer has it reported as done.
pub save_txn_missing :
    (retry : ℕ) (turns : List Turn) (value expected : Bytes)
    → IsAlone turns
    → ((save_txn retry turns none value expected).0 ≡ none)
      × ((save_txn retry (answers ∷ turns) none value expected).1 ≡ saved)
unfolding save_txn put_kv_cas txn_answer
save_txn_missing retry [] value expected a = (refl, refl)
save_txn_missing retry (intrudes other ∷ turns) value expected a = absurd a
save_txn_missing retry (answers ∷ turns) value expected a = (refl, refl)
save_txn_missing retry (loses ∷ turns) value expected a = elim (Bool-cases (less_one retry == 0)) [
  | inl z ↦ (rw z refl, refl)
  | inr z ↦ (rw z (save_txn_missing (less_one retry) turns value expected a).0, refl)
]
save_txn_missing retry (fails ∷ turns) value expected a = elim (Bool-cases (less_one retry == 0)) [
  | inl z ↦ (rw z refl, refl)
  | inr z ↦ (rw z (save_txn_missing (less_one retry) turns value expected a).0, refl)
]
