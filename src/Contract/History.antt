-- ===== src/Contract/History.antt =====
-- Event sourcing: the rows of `contract_events` are a gapless history of each contract's status.
use aizorix_freelancer.Base.{
  String, Bool, true, false, Option, none, some, List, [], ◌∷◌, ◌++◌, ◌≡◌, refl, ◌==◌, arith, inl,
  inr, ap, sym, ◌∙◌, if◌then◌else◌, Option-cases, text-cases, ◌≢◌,
}
use mathlib.Core.Path.{subst}
use aizorix_freelancer.Base.Table.{
  find, update, find-append, find-append_some, UniqueBy, UniqueBy-append, UniqueBy-update,
  find_key-update,
}
use aizorix_freelancer.Contract.Tables.{
  Contract, ContractStatus, ContractEvent, same_status, pending_funding,
}
use aizorix_freelancer.Contract.Store.{has_id}

abbrev pub same_from : Option ContractStatus → Option ContractStatus → Bool
same_from none none = true
same_from (some s) (some t) = same_status s t
same_from _ _ = false

-- One event of the contract of an id, after a status that it has to name; `none` is a gap.
abbrev pub play :
    String → ContractEvent → Option (Option ContractStatus) → Option (Option ContractStatus)
play id ev none = none
play id ev (some status) =
    if ev.contract_id == id
    then (if same_from status ev.from_status then some (some ev.to_status) else none)
    else some status

unfoldable pub replay :
    String → List ContractEvent → Option (Option ContractStatus) → Option (Option ContractStatus)
replay id [] status = status
replay id (ev ∷ evs) status = replay id evs (play id ev status)

abbrev pub status_in : Option Contract → Option ContractStatus
status_in none = none
status_in (some c) = some c.status

-- The status of a contract, if there is one.
abbrev pub status_of : String → List Contract → Option ContractStatus
status_of id cs = status_in (find (has_id id) cs)

abbrev pub contract_key : Contract → String
contract_key c = c.id

pub record IsLogged (cs : List Contract) (evs : List ContractEvent) : Type 0 where
  pub unique : UniqueBy contract_key cs
  pub history : (id : String) → replay id evs (some none) ≡ some (status_of id cs)

-- A change of the contracts with the event that records it.
pub data Logged (cs : List Contract) (evs : List ContractEvent)
    : List Contract → List ContractEvent → Type 0 where
  kept : Logged cs evs cs evs
  created :
      (c : Contract) (ev : ContractEvent)
      → find (has_id c.id) cs ≡ none
      → ev.contract_id ≡ c.id
      → ev.from_status ≡ none
      → ev.to_status ≡ c.status
      → Logged cs evs (cs ++ c ∷ []) (evs ++ ev ∷ [])
  changed :
      (c : Contract) (f : Contract → Contract) (ev : ContractEvent)
      → find (has_id c.id) cs ≡ some c
      → ((x : Contract) → (f x).id ≡ x.id)
      → ev.contract_id ≡ c.id
      → ev.from_status ≡ some c.status
      → ev.to_status ≡ (f c).status
      → (f c).status ≢ pending_funding
      → Logged cs evs (update (has_id c.id) f cs) (evs ++ ev ∷ [])

replay-append :
    (id : String) (evs : List ContractEvent) (ev : ContractEvent)
    (s : Option (Option ContractStatus))
    → replay id (evs ++ ev ∷ []) s ≡ play id ev (replay id evs s)
unfolding replay
replay-append id [] ev s = refl
replay-append id (e ∷ evs) ev s = replay-append id evs ev (play id e s)

same_status_refl : (s : ContractStatus) → same_status s s ≡ true
same_status_refl ContractStatus.pending_funding = refl
same_status_refl _ = refl

play_other :
    (id : String) (ev : ContractEvent) (s : Option ContractStatus)
    → (ev.contract_id == id) ≡ false
    → play id ev (some s) ≡ some s
play_other id ev s e = rw e

status_of-append :
    (id : String) (c : Contract) (cs : List Contract)
    → find (has_id c.id) cs ≡ none
    → status_of id (cs ++ c ∷ []) ≡ (if c.id == id then some c.status else status_of id cs)
status_of-append id c cs n = elim (Option-cases (find (has_id id) cs)) [
  | inl none_yet ↦ ground (arith, find-append (has_id id) c cs none_yet)
  | inr (d, s) ↦ elim (text-cases c.id id) [
    | inl (same, t) ↦ absurd (ground (arith, s, n, same))
    | inr (ne, t) ↦ ground (arith, find-append_some (has_id id) c d cs s)
  ]
]

play_created :
    (id : String) (c : Contract) (ev : ContractEvent) (cs : List Contract)
    → find (has_id c.id) cs ≡ none
    → ev.contract_id ≡ c.id
    → ev.from_status ≡ none
    → ev.to_status ≡ c.status
    → play id ev (some (status_of id cs))
      ≡ some (if c.id == id then some c.status else status_of id cs)
play_created id c ev cs n i f t = elim (text-cases c.id id) [
  | inl (same, e) ↦
      let n' : find (has_id id) cs ≡ none = subst (λ k. find (has_id k) cs ≡ none) same n in
      rw (i, e, n', f, t) refl
  | inr (ne, e) ↦ rw (i, e) refl
]

play_changed :
    (id : String) (c : Contract) (f : Contract → Contract) (ev : ContractEvent) (cs : List Contract)
    → find (has_id c.id) cs ≡ some c
    → ev.contract_id ≡ c.id
    → ev.from_status ≡ some c.status
    → ev.to_status ≡ (f c).status
    → play id ev (some (status_of id cs))
      ≡ some (status_in (if c.id == id then some (f c) else find (has_id id) cs))
play_changed id c f ev cs s i b t = elim (text-cases c.id id) [
  | inl (same, e) ↦
      let s' : find (has_id id) cs ≡ some c = subst (λ k. find (has_id k) cs ≡ some c) same s in
      rw (i, e, s', b, same_status_refl c.status, t) refl
  | inr (ne, e) ↦ rw (i, e) refl
]

-- A recorded change keeps the history whole.
pub Logged-IsLogged :
    {cs cs' : List Contract} {evs evs' : List ContractEvent}
    → Logged cs evs cs' evs'
    → IsLogged cs evs
    → IsLogged cs' evs'
Logged-IsLogged kept l = l
Logged-IsLogged {cs} {evs = evs} (created c ev n i f t) l = record {
  unique = UniqueBy-append contract_key c cs l.unique n;
  history = λ id.
      replay-append id evs ev (some none)
      ∙ ap (play id ev) (l.history id)
      ∙ play_created id c ev cs n i f t
      ∙ ap some (sym (status_of-append id c cs n));
}
Logged-IsLogged {cs} {evs = evs} (changed c f ev s keep i b t later) l = record {
  unique = UniqueBy-update contract_key (has_id c.id) f cs keep l.unique;
  history = λ id.
      replay-append id evs ev (some none)
      ∙ ap (play id ev) (l.history id)
      ∙ play_changed id c f ev cs s i b t
      ∙ ap (λ o. some (status_in o)) (sym (find_key-update contract_key c.id id f c cs keep s));
}

-- A contract that has left 'pending_funding' does not return to it.
pub Logged-left :
    {cs cs' : List Contract} {evs evs' : List ContractEvent} (id : String) (x : Contract)
    → Logged cs evs cs' evs'
    → find (has_id id) cs ≡ some x
    → x.status ≢ pending_funding
    → (y : Contract) × (find (has_id id) cs' ≡ some y) × (y.status ≢ pending_funding)
Logged-left id x kept s p = (x, s, p)
Logged-left {cs} id x (created c ev n i f t) s p = (x, find-append_some (has_id id) c x cs s, p)
Logged-left {cs} id x (changed c f ev r keep i b t later) s p = elim (text-cases c.id id) [
  | inl (same, e) ↦ (f c, find_key-update contract_key c.id id f c cs keep r ∙ rw e refl, later)
  | inr (ne, e) ↦ (x, find_key-update contract_key c.id id f c cs keep r ∙ rw (e, s) refl, p)
]
