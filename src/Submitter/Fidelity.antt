-- ===== src/Submitter/Fidelity.antt =====
-- What `SubmitProcess` sends is the payment of the row that it is called for.
use tx_submitter.Base.{◌≡◌, List, ◌++◌, All}
use tx_submitter.State.{Transaction}
use tx_submitter.External.{Env}
use tx_submitter.World.{World, Event}
use tx_submitter.World.Adds.{Adds-run}
use tx_submitter.Retry.{Floats}
use tx_submitter.Submitter.{submit_process}
use tx_submitter.Submitter.Signing.{Engine}
use tx_submitter.Submitter.Contents.{
  KeepsContents, IsFor, Paying, Bumping, build_signed_payment-Paying, build_fee_bump-Bumping,
}
use tx_submitter.Submitter.Sending.{Vouches, submit_process-Adds}

module _ (F : Floats) (e : Env) (g : Engine F) (tx : Transaction) (k : KeepsContents e) where
  contents-Vouches :
      Vouches F e g tx (IsFor e g.builder tx) (Paying F e g tx k) (Bumping F e g tx k)
  contents-Vouches = record {
    pays = λ t h. h;
    bumps = λ f h. h;
    sleeps = λ d. tt;
    builds = build_signed_payment-Paying F e g tx k;
    builds_bump = build_fee_bump-Bumping F e g tx k;
  }

  -- Whatever the environment answers, all that one call adds is for its transaction.
  pub submit_process_faithful :
      (w : World)
      → (new : List Event) × ((submit_process F e g tx w).1.trace ≡ new ++ w.trace)
        × All (IsFor e g.builder tx) new
  submit_process_faithful = Adds-run (IsFor e g.builder tx) (submit_process F e g tx) (
      submit_process-Adds F e g tx (IsFor e g.builder tx) (Paying F e g tx k) (Bumping F e g tx k)
        contents-Vouches)
