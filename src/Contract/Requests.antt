-- ===== src/Contract/Requests.antt =====
-- The contract service as a state machine: each request runs one method on the tables.
use aizorix_freelancer.Base.{ℕ, String, some, List, [], ◌∷◌, ◌≡◌, refl, inl, inr, ap, ◌≢◌, Bool}
use aizorix_freelancer.Base.Table.{find, UniqueBy}
use aizorix_freelancer.Base.Tx.{Result, ok, err, Tx, transact, transact-cases}
use aizorix_freelancer.Contract.Tables.{
  Contract, pending_funding, Milestone, Dispute, Db, CreateInput, Proposal, LookupError, Error,
  invalid_state,
}
use aizorix_freelancer.Contract.Store.{has_id, has_milestone_id}
use aizorix_freelancer.Contract.Service.{
  create_from_proposal, activate_contract, fund_milestone, submit_milestone, approve_milestone,
  raise_dispute,
}
use aizorix_freelancer.Contract.History.{
  kept, IsLogged, Logged-IsLogged, Logged-left, contract_key, replay,
}
use aizorix_freelancer.Contract.Milestones.{
  unmoved, AllStamped, Moves-AllStamped, Along, here, Moves-Along,
}
use aizorix_freelancer.Contract.Refine.{
  Done, fund_milestone-Done, submit_milestone-Done, approve_milestone-Done,
}
use aizorix_freelancer.Contract.Lifecycle.Create.{create_from_proposal-Done}
use aizorix_freelancer.Contract.Lifecycle.Activate.{
  activate_contract-Done, activate_contract-left, activate_contract-refused,
}
use aizorix_freelancer.Contract.Lifecycle.Dispute.{raise_dispute-Done}

-- A call of a method, with what it draws and what the proposal service answers.
pub data Request : Type 0 where
  create : (String → Result LookupError Proposal) → (ℕ → String) → String → CreateInput → Request
  activate : ℕ → String → String → Request
  fund : ℕ → String → String → Request
  submit : ℕ → String → String → String → List String → Request
  approve : ℕ → String → String → Request
  dispute : (String → Bool) → Dispute → Request

-- The tables after a request, whether it succeeds or not.
unfoldable pub handle : Request → Db → Db
handle (create lookup draw new_id c) db =
    (transact (create_from_proposal lookup draw new_id c) db).1
handle (activate now id actor) db = (transact (activate_contract now id actor) db).1
handle (fund now id caller) db = (transact (fund_milestone now id caller) db).1
handle (submit now id actor note keys) db =
    (transact (submit_milestone now id actor note keys) db).1
handle (approve now id actor) db = (transact (approve_milestone now id actor) db).1
handle (dispute is_user x) db = (transact (raise_dispute is_user x) db).1

unfoldable pub serve : List Request → Db → Db
unfolding handle
serve [] db = db
serve (r ∷ rs) db = serve rs (handle r db)

abbrev pub empty : Db
empty = record {
  contracts = [];
  hourly_contracts = [];
  milestones = [];
  contract_events = [];
  deliverables = [];
  disputes = [];
  outbox = [];
}

abbrev nothing_done : (db : Db) → Done db db
nothing_done db = record { logged = kept; moves = unmoved }

transact-Done :
    {A : Type 0} (m : Tx Db Error A) (db : Db)
    → ((db' : Db) (a : A) → m db ≡ ok (a, db') → Done db db')
    → Done db (transact m db).1
transact-Done m db h = elim (transact-cases m db) [
  | inl (e, failed, t) ↦
      let same : (transact m db).1 ≡ db = ap (λ r. r.1) t in rw same (nothing_done db)
  | inr (a, db', run, t) ↦
      let same : (transact m db).1 ≡ db' = ap (λ r. r.1) t in rw same (h db' a run)
]

handle-Done : (r : Request) (db : Db) → UniqueBy contract_key db.contracts → Done db (handle r db)
unfolding handle
handle-Done (create lookup draw new_id c) db u =
    transact-Done (create_from_proposal lookup draw new_id c) db
      (λ db' row h. create_from_proposal-Done lookup draw new_id c db db' row h)
handle-Done (activate now id actor) db u =
    transact-Done (activate_contract now id actor) db
      (λ db' a h. activate_contract-Done now id actor db db' u h)
handle-Done (fund now id caller) db u =
    transact-Done (fund_milestone now id caller) db
      (λ db' a h. fund_milestone-Done now id caller db db' h)
handle-Done (submit now id actor note keys) db u =
    transact-Done (submit_milestone now id actor note keys) db
      (λ db' a h. submit_milestone-Done now id actor note keys db db' h)
handle-Done (approve now id actor) db u =
    transact-Done (approve_milestone now id actor) db
      (λ db' a h. approve_milestone-Done now id actor db db' h)
handle-Done (dispute is_user x) db u =
    transact-Done (raise_dispute is_user x) db (λ db' a h. raise_dispute-Done is_user x a db db' h)

-- Each request keeps a property of the tables that recorded changes keep.
serve-keeps :
    (P : Db → Type 0)
    → ((db : Db) → P db → UniqueBy contract_key db.contracts)
    → ((db db' : Db) → Done db db' → P db → P db')
    → (rs : List Request) (db : Db) → P db
    → P (serve rs db)
unfolding serve
serve-keeps P unique keep [] db p = p
serve-keeps P unique keep (r ∷ rs) db p =
    serve-keeps P unique keep rs (handle r db)
      (keep db (handle r db) (handle-Done r db (unique db p)) p)

abbrev pub Journaled : Db → Type 0
Journaled db = IsLogged db.contracts db.contract_events

pub empty-Journaled : Journaled empty
unfolding replay
empty-Journaled = record { unique = tt; history = λ id. refl }

pub serve-Journaled : (rs : List Request) (db : Db) → Journaled db → Journaled (serve rs db)
serve-Journaled rs db l =
    serve-keeps Journaled (λ db l. l.unique) (λ db db' d l. Logged-IsLogged d.logged l) rs db l

-- Whatever requests are served, the events of each contract, replayed in order, form a history
-- without a gap that ends in the contract's status.
pub serve-IsLogged :
    (rs : List Request) → let db = serve rs empty in IsLogged db.contracts db.contract_events
serve-IsLogged rs = serve-Journaled rs empty empty-Journaled

-- Whatever requests are served, each milestone has exactly the stamps of the stages it has passed.
pub serve-AllStamped : (rs : List Request) → AllStamped (serve rs empty).milestones
serve-AllStamped rs =
    (serve-keeps (λ db. Journaled db × AllStamped db.milestones) (λ db p. p.0.unique)
      (λ db db' d p. (Logged-IsLogged d.logged p.0, Moves-AllStamped d.moves p.1)) rs empty
      (empty-Journaled, tt)).1

-- From tables whose events record each contract, whatever requests are served, a milestone stays
-- and its status moves only forward along the edges from 'pending' over 'funded' and 'submitted'
-- to 'approved'.
pub serve-milestone_forward :
    (rs : List Request) (db : Db) (id : String) (x : Milestone)
    → Journaled db
    → find (has_milestone_id id) db.milestones ≡ some x
    → (y : Milestone) × (find (has_milestone_id id) (serve rs db).milestones ≡ some y)
      × Along x.status y.status
serve-milestone_forward rs db id x l s =
    (serve-keeps
      (λ d.
        Journaled d
        × ((y : Milestone) × (find (has_milestone_id id) d.milestones ≡ some y)
            × Along x.status y.status))
      (λ d p. p.0.unique)
      (λ d d' done p. (Logged-IsLogged done.logged p.0, Moves-Along x.status id done.moves p.1)) rs
      db (l, (x, s, here))).1

-- A contract is activated once: after an activation that succeeds on tables whose events record each
-- contract, whatever requests are served, every other one, by whatever actor, fails.
pub activate_contract_once :
    (now now' : ℕ) (id actor actor' : String) (db db' : Db) (rs : List Request)
    → Journaled db
    → activate_contract now id actor db ≡ ok (tt, db')
    → activate_contract now' id actor' (serve rs db') ≡ err invalid_state
activate_contract_once now now' id actor actor' db db' rs l h =
    let first = activate_contract-Done now id actor db db' l.unique h in
    let (journaled, (y, s, left)) =
      serve-keeps
        (λ d.
          Journaled d
          × ((y : Contract) × (find (has_id id) d.contracts ≡ some y)
              × (y.status ≢ pending_funding)))
        (λ d p. p.0.unique)
        (λ d d' done p.
          (Logged-IsLogged done.logged p.0, Logged-left id p.1.0 done.logged p.1.1 p.1.2))
        rs db'
        (Logged-IsLogged first.logged l, activate_contract-left now id actor db db' l.unique h) in
    activate_contract-refused now' id actor' (serve rs db') y journaled.unique s left
