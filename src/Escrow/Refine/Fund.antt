-- ===== src/Escrow/Refine/Fund.antt =====
-- `FundEscrow` of services/escrow/internal/service/service.go under the contract of Effects.
use aizorix_freelancer.Base.{
  String, [], ◌∷◌, ◌++◌, ◌≡◌, refl, ◌==◌, ◌⊎◌, arith, inl, inr, Option-cases, Bool-cases,
  if◌then◌else◌,
}
use aizorix_freelancer.Base.Int.{ℤ, pos, ◌<ℤ◌}
use aizorix_freelancer.Base.Table.{find}
use aizorix_freelancer.Base.Tx.{Result, ok, err, Tx, pure, attempt, Result-cases}
use aizorix_freelancer.Escrow.Tables.{Escrow, EscrowStatus, FundKey, Db, Error, duplicate_fund}
use aizorix_freelancer.Escrow.Store.{
  has_id, has_contract, is_fund_key, upsert_escrow_for_contract, lock_escrow,
  record_fund_idempotency,
}
use aizorix_freelancer.Escrow.Service.{credit, Funding, credited, replayed, fund_tx}
use aizorix_freelancer.Escrow.Effects.{opened, claimed, deposited, Effects, unchanged, step}
use aizorix_freelancer.Escrow.Inversion.{credit-eq-ok}

upsert-Effects :
    (new_id contract_id currency : String) (db db' : Db) (e : Escrow)
    → upsert_escrow_for_contract new_id contract_id currency db ≡ ok (e, db')
    → Effects db db'
unfolding upsert_escrow_for_contract
upsert-Effects new_id contract_id currency db db' e h =
    elim (Option-cases (find (has_contract contract_id) db.accounts)) [
      | inr (e₀, s) ↦ let same : db' ≡ db = ground arith in rw same unchanged
      | inl n ↦ elim (Option-cases (find (has_id new_id) db.accounts)) [
        | inr (e₀, s) ↦ ground arith
        | inl m ↦
            let new : Escrow = record {
              id = new_id;
              contract_id = contract_id;
              currency = currency;
              held_cents = pos 0;
              released_cents = pos 0;
              refunded_cents = pos 0;
              status = EscrowStatus.held;
            } in
            let same : db' ≡ record db { accounts = db.accounts ++ new ∷ [] } = ground arith in
            rw same (step unchanged (opened new n m (refl, refl, refl)))
      ]
    ]

lock-same : (id : String) (db db' : Db) (e : Escrow) → lock_escrow id db ≡ ok (e, db') → db' ≡ db
unfolding lock_escrow
lock-same id db db' e h = ground arith

abbrev pub claim : String → String → String → Tx Db Error (Result Error (Unit {0}))
claim key contract_id id =
    if key == "" then pure (ok tt) else attempt (record_fund_idempotency contract_id key id)

claim-Effects :
    (key contract_id id : String) (db db' : Db) (u : Unit {0})
    → claim key contract_id id db ≡ ok (ok u, db')
    → Effects db db'
unfolding record_fund_idempotency
claim-Effects key contract_id id db db' u h =
    let row : FundKey = record {
      contract_id = contract_id;
      idempotency_key = key;
      escrow_id = id;
    } in
    elim (Bool-cases (key == "")) [
      | inl free ↦ let same : db' ≡ db = ground arith in rw same unchanged
      | inr keyed ↦ elim (Option-cases (find (is_fund_key contract_id key) db.fund_keys)) [
        | inr (k, s) ↦ ground arith
        | inl n ↦
            let same : db' ≡ record db { fund_keys = db.fund_keys ++ row ∷ [] } = ground arith in
            rw same (step unchanged (claimed row n))
      ]
    ]

credit-Effects :
    (group contract_id : String) (amount : ℤ) (e : Escrow) (db db' : Db) (r : Funding)
    → pos 0 <ℤ amount
    → credit group contract_id amount e db ≡ ok (r, db')
    → Effects db db'
credit-Effects group contract_id amount e db db' r p h =
    let (e₀, s, v, _, same) = credit-eq-ok group contract_id amount e db db' r h in
    rw same (step unchanged (deposited e.id group contract_id amount e₀ _ s p v))

pub Effects-trans : {a b c : Db} → Effects a b → Effects b c → Effects a c
Effects-trans p unchanged = p
Effects-trans p (step q e) = step (Effects-trans p q) e

-- A funding that returns has opened or found the account, locked it and tried to claim the key.
pub fund_tx-eq-ok :
    (group new_id contract_id : String) (amount : ℤ) (currency key : String) (db db' : Db)
    (r : Funding)
    → fund_tx group new_id contract_id amount currency key db ≡ ok (r, db')
    → (e₁ : Escrow) × (d₁ : Db) × (upsert_escrow_for_contract new_id contract_id
          (if currency == "" then "USD" else currency)
          db
        ≡ ok (e₁, d₁))
      × (((d₃ : Db) × (claim key contract_id e₁.id d₁ ≡ ok (ok tt, d₃))
            × (credit group contract_id amount e₁ d₃ ≡ ok (r, db')))
          ⊎ ((d₃ : Db) × (claim key contract_id e₁.id d₁ ≡ ok (err duplicate_fund, d₃))
              × (r ≡ replayed e₁.id)))
unfolding fund_tx
fund_tx-eq-ok group new_id contract_id amount currency key db db' r h =
    elim (Result-cases (
      upsert_escrow_for_contract new_id contract_id (if currency == "" then "USD" else currency)
        db)) [
          | inl failed ↦ ground arith
          | inr ((e₁, d₁), up) ↦ elim (Result-cases (lock_escrow e₁.id d₁)) [
            | inl failed ↦ ground arith
            | inr ((e₂, d₂), lock) ↦
                let locking = lock-same e₁.id d₁ d₂ e₂ lock in
                elim (Result-cases (claim key contract_id e₁.id d₂)) [
                  | inl failed ↦ ground arith
                  | inr ((err duplicate_fund, d₃), c) ↦
                      (e₁, d₁, up, inr (d₃, rw (← locking) c, ground arith))
                  | inr ((err x, d₃), c) ↦ ground arith
                  | inr ((ok tt, d₃), c) ↦ (e₁, d₁, up, inl (d₃, rw (← locking) c, ground arith))
                ]
          ]
        ]

pub fund_tx-Effects :
    (group new_id contract_id : String) (amount : ℤ) (currency key : String) (db db' : Db)
    (e : Escrow)
    → pos 0 <ℤ amount
    → fund_tx group new_id contract_id amount currency key db ≡ ok (credited e, db')
    → Effects db db'
fund_tx-Effects group new_id contract_id amount currency key db db' e p h =
    let (e₁, d₁, up, rest) =
      fund_tx-eq-ok group new_id contract_id amount currency key db db' (credited e) h in
    let opening = upsert-Effects new_id contract_id _ db d₁ e₁ up in
    elim rest [
      | inl (d₃, claiming, crediting) ↦
          Effects-trans
            (Effects-trans opening (claim-Effects key contract_id e₁.id d₁ d₃ tt claiming))
            (credit-Effects group contract_id amount e₁ d₃ db' (credited e) p crediting)
      | inr (d₃, _, same) ↦ absurd (ground (arith, same))
    ]
