-- ===== src/Relay/Tests.antt =====
-- The relay on concrete rows.
use aizorix_freelancer.Base.{
  ℕ, ◌=ℕ=◌, String, true, false, none, List, [], ◌∷◌, ◌≡◌, refl, arith, if◌then◌else◌,
}
use aizorix_freelancer.Base.Rows.{All}
use aizorix_freelancer.Relay.Outbox.{Row, message}
use aizorix_freelancer.Relay.Drain.{doubtful, delivered, World}
use aizorix_freelancer.Relay.Rows.{IsLogged}
use aizorix_freelancer.Relay.Delivery.{
  AllSent, Step, enqueued, drained, take_steps, take_steps-AllSent,
}
use aizorix_freelancer.Relay.Progress.{pending, drain_all, drain_all_delivers}

abbrev show : ℕ → String
show n = if n =ℕ= 1 then "1" else "2"

abbrev row : ℕ → Row
row n = record {
  id = n;
  event_type = "escrow.funded";
  topic = "escrow.events";
  partition_key = "c";
  payload = "{}";
  headers = [];
  published_at = none;
}

-- The second row's delivery is in doubt, and so the first one is published again.
abbrev steps : List Step
steps =
    enqueued (row 1)
    ∷ enqueued (row 2)
    ∷ drained 10 (λ n. if n =ℕ= 2 then doubtful else delivered) (λ _. false) 100 true
    ∷ drained 11 (λ _. delivered) (λ _. false) 100 true
    ∷ []

take_steps-AllSent_example :
    let w = take_steps show "escrow" steps (record { rows = []; log = [] }) in
    AllSent show "escrow" w.rows w.log
take_steps-AllSent_example = take_steps-AllSent show "escrow" steps

abbrev two_rows : World
two_rows = record { rows = row 1 ∷ row 2 ∷ []; log = [] }

drain_all_delivers_example :
    let after = drain_all show "escrow" 0 (10 ∷ 11 ∷ []) two_rows in
    (pending after.rows ≡ 0) × All (λ x. IsLogged (message show "escrow" x) after.log) after.rows
drain_all_delivers_example =
    drain_all_delivers show "escrow" 0 (10 ∷ 11 ∷ []) two_rows
      (record {
        unique = (refl, (refl, tt));
        sent = (λ p. ground (arith, p), (λ p. ground (arith, p), tt));
      })
      (omega arith)
