-- ===== src/Submitter/Again.antt =====
-- Two calls of `SubmitProcess` for one payment, as two engines make them that have both listed it.
use tx_submitter.Base.{◌+◌, ◌≤◌, ◌≡◌, refl, true, arith}
use tx_submitter.State.{Status, Transaction}
use tx_submitter.Errors.{Result, ok, err, is_ok}
use tx_submitter.External.{Env}
use tx_submitter.World.{World}
use tx_submitter.World.Sends.{sends}
use tx_submitter.World.Keeps.{Keeps-run}
use tx_submitter.Retry.{Floats}
use tx_submitter.Submitter.{submit_process}
use tx_submitter.Submitter.Signing.{Engine}
use tx_submitter.Submitter.Lifecycle.{At}
use tx_submitter.Submitter.Delivery.{IsHealthy, IsPayable}
use tx_submitter.Submitter.Draining.{Idle, submit_process_turn, submit_process-Idle}
use tx_submitter.Submitter.Paying.{submit_process_pays}

pub returned_nil : (r : Result (Unit {0})) → is_ok r ≡ true → r ≡ ok tt
returned_nil (ok tt) h = refl
returned_nil (err x) h = ground arith

module _ (F : Floats) (e : Env) (first second : Engine F) (h : IsHealthy F e first)
    (h' : IsHealthy F e second) where
  -- Where nothing outside fails, keys that parse also sign, and Horizon reports what it accepts as
  -- successful within the polls: if the tables are consistent, no account is locked, one is active,
  -- the keys of the accounts parse, and `SubmitProcess` is called for a row, whatever its status,
  -- and then again for a row with the same id, by the same engine or another, and both are payments
  -- that the SDK takes and builds and Horizon accepts, then both calls return nil, at least two
  -- transactions or fee bumps are sent, and the row is confirmed after the first call and after the
  -- second: what is confirmed is paid again.
  pub submit_process_twice :
      (tx again : Transaction) (s : Status) (w : World)
      → again.id ≡ tx.id
      → IsPayable F e first tx
      → IsPayable F e second again
      → Idle F e first w.db
      → At tx.id s w.db
      → let w' = (submit_process F e first tx w).1 in
        ((submit_process F e first tx w).0 ≡ ok tt)
        × At tx.id Status.confirmed w'.db
        × ((submit_process F e second again w').0 ≡ ok tt)
        × At tx.id Status.confirmed (submit_process F e second again w').1.db
        × (2 + sends w.trace ≤ sends (submit_process F e second again w').1.trace)
  submit_process_twice tx again s w same pays pays' idle there =
      let w' = (submit_process F e first tx w).1 in
      let (good, done) = submit_process_turn F e first h tx.id s tx w refl pays idle there in
      let (good', done') =
        submit_process_turn F e second h' tx.id Status.confirmed again w' same pays'
          (Keeps-run (Idle F e first) _ (submit_process-Idle F e first h.up tx) w idle) done in
      let nil = returned_nil (submit_process F e first tx w).0 good in
      let nil' = returned_nil (submit_process F e second again w').0 good' in
      (
        nil,
        done,
        nil',
        done',
        omega (
          arith,
          submit_process_pays F e first tx w nil,
          submit_process_pays F e second again w' nil',
        ),
      )
