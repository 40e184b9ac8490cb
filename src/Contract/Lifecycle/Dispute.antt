-- ===== src/Contract/Lifecycle/Dispute.antt =====
-- `RaiseDispute` of services/contract/internal/service/service.go: what it does to the tables.
use aizorix_freelancer.Base.{
  String, Bool, some, [], ◌∷◌, ◌++◌, ◌≡◌, refl, arith, inl, inr, ap, sym, ◌∙◌, Option-cases, eq_iff,
}
use mathlib.Core.Path.{subst}
use aizorix_freelancer.Base.Outbox.{Value}
use aizorix_freelancer.Base.Table.{find, update, test-find}
use aizorix_freelancer.Base.Tx.{ok}
use aizorix_freelancer.Contract.Tables.{Contract, disputed, Dispute, Db}
use aizorix_freelancer.Contract.Store.{has_id, set_status}
use aizorix_freelancer.Contract.Service.{raise_dispute, transition_event}
use aizorix_freelancer.Contract.History.{changed}
use aizorix_freelancer.Contract.Milestones.{unmoved}
use aizorix_freelancer.Contract.Refine.{Done, Done_of}

pub raise_dispute-eq-ok :
    (is_user : String → Bool) (x : Dispute) (id : String) (db db' : Db)
    → raise_dispute is_user x db ≡ ok (id, db')
    → (c : Contract) × (find (has_id x.contract_id) db.contracts ≡ some c)
      × (db'.contracts ≡ update (has_id x.contract_id) (set_status disputed) db.contracts)
      × (db'.contract_events
          ≡ db.contract_events
            ++ transition_event x.contract_id
                (some c.status)
                disputed
                "dispute"
                x.raised_by
                (("dispute_id", Value.text id) ∷ ("reason", Value.text x.reason) ∷ [])
              ∷ [])
      × (db'.milestones ≡ db.milestones)
unfolding raise_dispute
raise_dispute-eq-ok is_user x id db db' h =
    elim (Option-cases (find (has_id x.contract_id) db.contracts)) [
      | inl n ↦ ground arith
      | inr (c, s) ↦ (c, s, ground arith, ground arith, ground arith)
    ]

pub raise_dispute-Done :
    (is_user : String → Bool) (x : Dispute) (id : String) (db db' : Db)
    → raise_dispute is_user x db ≡ ok (id, db')
    → Done db db'
raise_dispute-Done is_user x id db db' h =
    let (c, s, cs, evs, ms) = raise_dispute-eq-ok is_user x id db db' h in
    let same : c.id ≡ x.contract_id =
      (eq_iff c.id x.contract_id).0 (test-find (has_id x.contract_id) c db.contracts s) in
    let s' : find (has_id c.id) db.contracts ≡ some c =
      subst (λ k. find (has_id k) db.contracts ≡ some c) (sym same) s in
    Done_of db db'
      (changed c (set_status disputed)
        (transition_event x.contract_id (some c.status) disputed "dispute" x.raised_by
          (("dispute_id", Value.text id) ∷ ("reason", Value.text x.reason) ∷ []))
        s' (λ y. refl) (sym same) refl refl (λ q. ground (arith, q)))
      unmoved (cs ∙ ap (λ k. update (has_id k) (set_status disputed) db.contracts) (sym same)) evs
      ms
