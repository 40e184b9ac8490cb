-- ===== src/Escrow/Promises/FundOnce.antt =====
-- `FundEscrow` of services/escrow/internal/service/service.go: a key of a contract is credited once.
use aizorix_freelancer.Base.{
  String, false, List, [], ◌∷◌, ◌≡◌, ◌≢◌, refl, ◌==◌, arith, ◌++◌, inl, inr, Bool-cases,
  Option-cases, eq_refl, ap,
}
use aizorix_freelancer.Base.Int.{ℤ, pos, leb_ℤ}
use aizorix_freelancer.Base.Table.{find, find-append}
use aizorix_freelancer.Base.Tx.{Result, ok, err, Result-cases}
use aizorix_freelancer.Escrow.Tables.{Escrow, FundKey, Db, Error, duplicate_fund}
use aizorix_freelancer.Escrow.Store.{
  is_fund_key, upsert_escrow_for_contract, record_fund_idempotency,
}
use aizorix_freelancer.Escrow.Service.{
  Funding, credited, replayed, end_funding, fund_tx, fund_escrow,
}
use aizorix_freelancer.Escrow.Effects.{Effects}
use aizorix_freelancer.Escrow.Inversion.{credit-eq-ok}
use aizorix_freelancer.Escrow.Refine.Fund.{claim, fund_tx-eq-ok}
use aizorix_freelancer.Escrow.Once.{Has, Effect-fund_key, Effects-keep}
use aizorix_freelancer.Escrow.Valid.Covered.{IsValid}
use aizorix_freelancer.Escrow.Valid.Invariant.{Effects-IsValid}
use aizorix_freelancer.Escrow.Requests.{
  Request, serve, serve-Effects, get_escrow-same, fund_escrow-Effects,
}

-- A key that is taken keeps the funding from crediting.
upsert-fund_keys :
    (new_id c currency : String) (db db' : Db) (e : Escrow)
    → upsert_escrow_for_contract new_id c currency db ≡ ok (e, db')
    → db'.fund_keys ≡ db.fund_keys
unfolding upsert_escrow_for_contract
upsert-fund_keys new_id c currency db db' e h = ground arith

claim_taken :
    (key c id : String) (db db' : Db)
    → (key == "") ≡ false
    → Has (is_fund_key c key) db.fund_keys
    → claim key c id db ≢ ok (ok tt, db')
unfolding record_fund_idempotency
claim_taken key c id db db' k h q = ground arith

claim_free :
    (key c id : String) (db db' : Db)
    → claim key c id db ≡ ok (err duplicate_fund, db')
    → Has (is_fund_key c key) db.fund_keys
unfolding record_fund_idempotency
claim_free key c id db db' q = elim (Bool-cases (key == "")) [
  | inl e ↦ ground arith
  | inr e ↦ ground arith
]

claim_takes :
    (key c id : String) (db db' : Db)
    → (key == "") ≡ false
    → claim key c id db ≡ ok (ok tt, db')
    → Has (is_fund_key c key) db'.fund_keys
unfolding record_fund_idempotency
claim_takes key c id db db' k q =
    let row : FundKey = record { contract_id = c; idempotency_key = key; escrow_id = id } in
    elim (Option-cases (find (is_fund_key c key) db.fund_keys)) [
      | inr (r, s) ↦ ground arith
      | inl n ↦
          let keys : db'.fund_keys ≡ db.fund_keys ++ row ∷ [] = ground arith in
          rw (keys, find-append (is_fund_key c key) row db.fund_keys n)
            (ground (arith, eq_refl c, eq_refl key))
    ]

not_credited :
    (r : Result Error (Funding × Db)) (db : Db)
    → ((e : Escrow) (db' : Db) → r ≢ ok (credited e, db'))
    → (end_funding r db).1 ≡ db
not_credited (ok (credited e, db')) db h = absurd (h e db' refl)
not_credited (ok (replayed id, db')) db h = get_escrow-same id db
not_credited (err x) db h = refl

fund_tx_not_credited :
    (group new_id c : String) (amount : ℤ) (currency key : String) (db db' : Db) (e : Escrow)
    → (key == "") ≡ false
    → Has (is_fund_key c key) db.fund_keys
    → fund_tx group new_id c amount currency key db ≢ ok (credited e, db')
fund_tx_not_credited group new_id c amount currency key db db' e k h q =
    let (e₁, d₁, up, rest) =
      fund_tx-eq-ok group new_id c amount currency key db db' (credited e) q in
    let keys = upsert-fund_keys new_id c _ db d₁ e₁ up in
    elim rest [
      | inl (d₃, claiming, _) ↦ claim_taken key c e₁.id d₁ d₃ k (rw keys h) claiming
      | inr (d₃, _, same) ↦ ground (arith, same)
    ]

fund_of_taken :
    (group new_id c : String) (amount : ℤ) (currency key : String) (db : Db)
    → (key == "") ≡ false
    → Has (is_fund_key c key) db.fund_keys
    → (fund_escrow group new_id c amount currency key db).1 ≡ db
unfolding fund_escrow
fund_of_taken group new_id c amount currency key db k h = elim (Bool-cases (leb_ℤ amount (pos 0))) [
  | inl low ↦ rw low
  | inr positive ↦ rw positive (
      not_credited (fund_tx group new_id c amount currency key db) db
        (λ e db' q. fund_tx_not_credited group new_id c amount currency key db db' e k h q))
]

-- After a funding that returned, its key is taken.
fund_takes_key :
    (group new_id c : String) (amount : ℤ) (currency key : String) (db db' : Db) (e : Escrow)
    → (key == "") ≡ false
    → fund_escrow group new_id c amount currency key db ≡ (ok e, db')
    → Has (is_fund_key c key) db'.fund_keys
unfolding fund_escrow
fund_takes_key group new_id c amount currency key db db' e k h =
    elim (Bool-cases (leb_ℤ amount (pos 0))) [
      | inl low ↦ ground arith
      | inr positive ↦ elim (Result-cases (fund_tx group new_id c amount currency key db)) [
        | inl (x, q) ↦ ground arith
        | inr ((r, d), q) ↦
            let (e₁, d₁, up, rest) = fund_tx-eq-ok group new_id c amount currency key db d r q in
            let keys = upsert-fund_keys new_id c _ db d₁ e₁ up in
            elim rest [
              | inl (d₃, claiming, crediting) ↦
                  let (e₀, s, v, credits, moves) =
                    credit-eq-ok group c amount e₁ d₃ d r crediting in
                  let same : db' ≡ d = ground (arith, credits) in
                  let kept : db'.fund_keys ≡ d₃.fund_keys = rw (same, moves) refl in
                  rw kept (claim_takes key c e₁.id d₁ d₃ k claiming)
              | inr (d₃, claiming, replays) ↦
                  let same : db' ≡ db = ground (arith, replays, get_escrow-same e₁.id db) in
                  rw (same, ← keys) (claim_free key c e₁.id d₁ d₃ claiming)
            ]
      ]
    ]

-- A funding under a key that is not empty has happened once: when it has returned, on valid tables,
-- no later funding of the contract under that key changes the tables, whatever its amount and
-- currency, and whatever requests are served in between.
pub fund_escrow_once :
    (group again new_id other c : String) (amount more : ℤ) (currency currency' key : String)
    (db db' : Db) (e : Escrow) (rs : List Request)
    → IsValid db
    → (key == "") ≡ false
    → fund_escrow group new_id c amount currency key db ≡ (ok e, db')
    → (fund_escrow again other c more currency' key (serve rs db')).1 ≡ serve rs db'
fund_escrow_once group again new_id other c amount more currency currency' key db db' e rs v k h =
    let effects : Effects db db' =
      rw (ap (λ r. r.1) h) at (fund_escrow-Effects group new_id c amount currency key db) in
    fund_of_taken again other c more currency' key (serve rs db') k (
      Effects-keep (λ d. Has (is_fund_key c key) d.fund_keys)
        (λ d d' ef p. Effect-fund_key c key ef p) (serve-Effects rs db' (Effects-IsValid effects v))
        (fund_takes_key group new_id c amount currency key db db' e k h))
