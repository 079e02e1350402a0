-- ===== src/Relay/Backoff.antt =====
-- The pause of the relay's loop after failures to claim.
use hermes_ai_devops.Common.{ℕ, ◌≤◌, max, none, some, List, [], ◌∷◌, arith}
use hermes_ai_devops.Relay.{Config, Loop, Round, grow_backoff, run_round, run}

grow_backoff_bounds :
    (c : Config) (b : ℕ)
    → c.poll_interval ≤ b
    → b ≤ max c.poll_interval c.max_backoff
    → (c.poll_interval ≤ grow_backoff c b) × (grow_backoff c b ≤ max c.poll_interval c.max_backoff)
grow_backoff_bounds c b low high = ground arith

-- In every turn of the loop the pause lies between the poll interval and the greater of that and the
-- limit, whatever fails.
pub backoff_bounds :
    (c : Config) (l : Loop) (rounds : List Round)
    → c.poll_interval ≤ l.backoff
    → l.backoff ≤ max c.poll_interval c.max_backoff
    → (c.poll_interval ≤ (run c l rounds).backoff)
      × ((run c l rounds).backoff ≤ max c.poll_interval c.max_backoff)
unfolding run run_round
backoff_bounds c l [] low high = (low, high)
backoff_bounds c l (none ∷ rounds) low high =
    let (low', high') = grow_backoff_bounds c l.backoff low high in
    backoff_bounds c (run_round c l none) rounds low' high'
backoff_bounds c l (some answers ∷ rounds) low high =
    backoff_bounds c (run_round c l (some answers)) rounds (omega arith) (omega arith)
