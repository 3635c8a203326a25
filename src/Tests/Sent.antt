-- ===== src/Tests/Sent.antt =====
-- Examples on the engine.
use tx_submitter.Base.{◌≡◌, ◌<◌, ◌≤◌, refl, arith, true, some, List, [], get_elem?, length, ℕ, suc}
use tx_submitter.Base.Int.{ℤ, pos, int_eq, ◌≤ℤ◌}
use tx_submitter.Base.Text.{text_eq, codes}
use tx_submitter.State.{status_eq}
use tx_submitter.Errors.{Error, external}
use tx_submitter.Store.{update_status, read_status, write_status}
use tx_submitter.Store.Consistency.{IsConsistent, replay}
use tx_submitter.Retry.{current_fee, escalation_curve}
use tx_submitter.Retry.Schedule.{current_fee-le-max, escalation_curve_lem}
use tx_submitter.Submitter.{submit_process}
use tx_submitter.Submitter.Builder.{PaymentParams}
use tx_submitter.Submitter.Signing.{Engine}
use tx_submitter.Submitter.Polling.{poll_for_confirmation, max_polls, poll_loop, confirm}
use tx_submitter.Submitter.Outcomes.{
  first_answer, polled, conclude, Confirms, poll_for_confirmation_lem, poll_for_confirmation-ok,
}
use tx_submitter.World.Sends.{sends}
use tx_submitter.Submitter.Sends.{submit_process-sends}
use tx_submitter.Submitter.Locks.{NoneLocked, submit_process_releases}
use tx_submitter.Tests.{whole_floats, environment, payment, world, policy, engine}

world_IsConsistent : IsConsistent world.db
unfolding replay
world_IsConsistent = record { replayed = (refl, tt); referred = tt; distinct = (refl, tt) }

submit_process_releases_example :
    NoneLocked (submit_process whole_floats environment engine payment world).1.db
submit_process_releases_example =
    submit_process_releases whole_floats environment engine payment world (λ n. refl)
      (refl, (refl, tt))

submit_process-sends_example :
    sends (submit_process whole_floats environment engine payment world).1.trace ≤ 4
unfolding sends
submit_process-sends_example = submit_process-sends whole_floats environment engine payment world

poll_for_confirmation_example :
    (waits : ℕ) × (waits < suc max_polls)
    × (poll_for_confirmation environment (codes "t1") (codes "hash") world
        ≡ conclude environment
            (codes "hash")
            (codes "t1")
            (first_answer environment (codes "hash") max_polls 0)
            (polled environment (codes "hash") waits world))
poll_for_confirmation_example =
    poll_for_confirmation_lem environment (codes "hash") (codes "t1") world

poll_for_confirmation-ok_example :
    (waits : ℕ) × (first_answer environment (codes "hash") max_polls 0 ≡ some true)
    × Confirms environment
        (codes "hash")
        (codes "t1")
        (polled environment (codes "hash") waits world)
        (poll_for_confirmation environment (codes "t1") (codes "hash") world).1
unfolding poll_for_confirmation poll_loop confirm update_status read_status write_status text_eq
poll_for_confirmation-ok_example =
    poll_for_confirmation-ok environment (codes "hash") (codes "t1") world refl

abbrev bad_auth : Error
bad_auth = external (codes "tx_bad_auth")

abbrev no_attempts : Engine whole_floats
no_attempts = record engine { retry_policy = record policy { max_attempts = pos 0 } }

current_fee_example : current_fee whole_floats policy (pos 3) ≤ℤ pos 300
current_fee_example =
    current_fee-le-max whole_floats policy (λ x below. ground arith) (pos 3) (omega arith)

escalation_curve_example :
    (curve : List ℤ) × (escalation_curve whole_floats policy ≡ some curve)
    × (length curve ≡ 3)
    × (get_elem? curve 1 ≡ some (current_fee whole_floats policy (pos 1)))
escalation_curve_example = escalation_curve_lem whole_floats policy 3 1 refl (omega arith)

abbrev timeout : Error
timeout = external (codes "timeout")

abbrev payment_request : PaymentParams
payment_request = record {
  destination = codes "D";
  amount = codes "5";
  asset_code = codes "XLM";
  asset_issuer = [];
  channel_account = codes "C";
  channel_seq = pos 42;
  max_ledger = 1240;
  base_fee = pos 900;
}
