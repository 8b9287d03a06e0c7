-- ===== src/Nexus/Store/Saved.antt =====
-- When a save is reported as done, the store holds the value; and what a transaction never replaces.
use mayastor.Common.{
  suc, ℕ, ◌-◌, ◌≡◌, ◌≢◌, ◌<◌, ◌≤◌, refl, ap, true, Option, none, some, List, [], ◌∷◌, ◌==◌, ◌⊎◌,
  inl, inr, arith, Bool-cases,
}
use mayastor.Nexus.Store.{
  Bytes, same_bytes, Turn, answers, loses, fails, intrudes, saved, refused, pending, less_one,
  put_kv_cas, save, txn_answer, save_txn,
}

pub same_bytes-eq : (x y : Bytes) → same_bytes x y ≡ true → x ≡ y
same_bytes-eq [] [] e = refl
same_bytes-eq [] (y ∷ ys) e = absurd (ground arith)
same_bytes-eq (x ∷ xs) [] e = absurd (ground arith)
same_bytes-eq (x ∷ xs) (y ∷ ys) e =
    let head : x ≡ y = ground (arith, e) in
    let tail : same_bytes xs ys ≡ true = ground (arith, e) in
    rw (head, same_bytes-eq xs ys tail) refl

answer_settles :
    (value : Bytes) (r : Option Bytes × Option Bytes) → (txn_answer value r).1 ≢ pending
unfolding txn_answer
answer_settles value (store, none) e = absurd (ground arith)
answer_settles value (store, some current) e = ground (arith, e)

-- A save that is reported as done has left the value in the store.
pub save_saves :
    (retry : ℕ) (turns : List Turn) (store : Option Bytes) (value : Bytes)
    → (save retry turns store value).1 ≡ saved
    → (save retry turns store value).0 ≡ some value
unfolding save
save_saves retry [] store value e = absurd (ground arith)
save_saves retry (intrudes other ∷ turns) store value e =
    save_saves retry turns (some other) value e
save_saves retry (answers ∷ turns) store value e = refl
save_saves retry (loses ∷ turns) store value e = elim (Bool-cases (less_one retry == 0)) [
  | inl z ↦ rw z refl
  | inr z ↦ rw z (save_saves (less_one retry) turns (some value) value (rw (save, z) at e))
]
save_saves retry (fails ∷ turns) store value e = elim (Bool-cases (less_one retry == 0)) [
  | inl z ↦ let v : refused ≡ saved = rw (save, z) at e in absurd (ground arith)
  | inr z ↦ rw z (save_saves (less_one retry) turns store value (rw (save, z) at e))
]

-- The requests among the turns.
abbrev pub requests : List Turn → ℕ
requests [] = 0
requests (intrudes other ∷ turns) = requests turns
requests (answers ∷ turns) = suc (requests turns)
requests (loses ∷ turns) = suc (requests turns)
requests (fails ∷ turns) = suc (requests turns)

less_one_lem : (retry : ℕ) → 0 < retry → retry < 65536 → less_one retry ≡ retry - 1
less_one_lem retry p u = omega arith

refused-pending : refused ≢ pending
refused-pending e = absurd (ground arith)

-- With 1 to 65535 tries, a save comes out as done or refused by as many requests as there are tries,
-- whatever becomes of each and whoever else writes; and so does a transaction.
pub save_settles :
    (retry : ℕ) (turns : List Turn) (store other : Option Bytes) (value expected : Bytes)
    → 0 < retry
    → retry < 65536
    → retry ≤ requests turns
    → ((save retry turns store value).1 ≢ pending)
      × ((save_txn retry turns other value expected).1 ≢ pending)
unfolding save save_txn
save_settles retry [] store other value expected p u h = absurd (omega arith)
save_settles retry (intrudes new ∷ turns) store other value expected p u h =
    save_settles retry turns (some new) (some new) value expected p u h
save_settles retry (answers ∷ turns) store other value expected p u h =
    (λ e. absurd (ground arith), λ e. answer_settles value (put_kv_cas other value expected) e)
save_settles retry (loses ∷ turns) store other value expected p u h =
    let l = less_one_lem retry p u in
    elim (Bool-cases (less_one retry == 0)) [
      | inl z ↦ rw z (λ e. refused-pending e, λ e. refused-pending e)
      | inr z ↦ rw z (
          save_settles (less_one retry) turns (some value) (put_kv_cas other value expected).0 value
            expected (ground arith) (omega (arith, l, u)) (omega (arith, l, h)))
    ]
save_settles retry (fails ∷ turns) store other value expected p u h =
    let l = less_one_lem retry p u in
    elim (Bool-cases (less_one retry == 0)) [
      | inl z ↦ rw z (λ e. refused-pending e, λ e. refused-pending e)
      | inr z ↦ rw z (
          save_settles (less_one retry) turns store other value expected (ground arith)
            (omega (arith, l, u)) (omega (arith, l, h)))
    ]

answer_saves :
    (store : Option Bytes) (value expected : Bytes)
    → (txn_answer value (put_kv_cas store value expected)).1 ≡ saved
    → ((txn_answer value (put_kv_cas store value expected)).0 ≡ some value)
      ⊎ ((txn_answer value (put_kv_cas store value expected)).0 ≡ none)
unfolding put_kv_cas txn_answer
answer_saves none value expected e = inr refl
answer_saves (some current) value expected e = elim (Bool-cases (same_bytes current expected)) [
  | inl q ↦ inl (rw q refl)
  | inr q ↦ elim (Bool-cases (same_bytes current value)) [
    | inl y ↦ inl (rw (q, y) (ap some (same_bytes-eq current value y)))
    | inr y ↦
        let v : refused ≡ saved = rw (txn_answer, put_kv_cas, q, y) at e in absurd (ground arith)
  ]
]

-- A transaction that is reported as done has left the value in the store, or the key is missing.
pub save_txn_saves :
    (retry : ℕ) (turns : List Turn) (store : Option Bytes) (value expected : Bytes)
    → (save_txn retry turns store value expected).1 ≡ saved
    → ((save_txn retry turns store value expected).0 ≡ some value)
      ⊎ ((save_txn retry turns store value expected).0 ≡ none)
unfolding save_txn
save_txn_saves retry [] store value expected e = absurd (ground arith)
save_txn_saves retry (intrudes other ∷ turns) store value expected e =
    save_txn_saves retry turns (some other) value expected e
save_txn_saves retry (answers ∷ turns) store value expected e = answer_saves store value expected e
save_txn_saves retry (loses ∷ turns) store value expected e =
    elim (Bool-cases (less_one retry == 0)) [
      | inl z ↦ let v : refused ≡ saved = rw (save_txn, z) at e in absurd (ground arith)
      | inr z ↦ rw z (
          save_txn_saves (less_one retry) turns (put_kv_cas store value expected).0 value expected
            (rw (save_txn, z) at e))
    ]
save_txn_saves retry (fails ∷ turns) store value expected e =
    elim (Bool-cases (less_one retry == 0)) [
      | inl z ↦ let v : refused ≡ saved = rw (save_txn, z) at e in absurd (ground arith)
      | inr z ↦
          rw z (save_txn_saves (less_one retry) turns store value expected (rw (save_txn, z) at e))
    ]
