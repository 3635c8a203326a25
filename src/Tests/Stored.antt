-- ===== src/Tests/Stored.antt =====
-- Examples on the store and the pool.
use tx_submitter.Base.{◌≡◌, ◌≢◌, refl, arith, ◌&&◌, true, false, none, some, [], ◌∷◌, find_where}
use tx_submitter.Base.Int.{pos, add64, ◌≤ℤ◌}
use tx_submitter.Base.Text.{text_eq, codes}
use tx_submitter.State.{Status, status_eq, is_terminal, Transaction, ChannelAccount}
use tx_submitter.Store.{has_id, new_row, update_status, read_status, write_status}
use tx_submitter.Store.Accounts.{
  acquire_channel_account, release_channel_account, is_available, least_used,
}
use tx_submitter.Store.Updates.{status_written, update_status_ok}
use tx_submitter.Store.Leases.{acquired, acquire_least}
use tx_submitter.Pool.{acquire, release}
use tx_submitter.Pool.Exclusive.{acquires, releases, perform, perform_all, acquire_exclusive}
use tx_submitter.Tests.{environment, order, channel, next_channel, world}

update_status_ok_example :
    (t : Transaction) × (find_where (has_id (codes "t1")) world.db.transactions ≡ some t)
    × ((is_terminal Status.failed && is_terminal t.status) ≡ false)
    × ((update_status environment (codes "t1") Status.failed [] none world).1.db
        ≡ status_written environment (codes "t1") Status.failed [] none world t.status)
unfolding update_status read_status write_status text_eq
update_status_ok_example =
    update_status_ok environment (codes "t1") Status.failed [] none world refl

abbrev ordered : Transaction
ordered = new_row environment order [] 0

abbrev leased : ChannelAccount
leased = record channel { current_seq = pos 42 }

acquire_least_example :
    (ca : ChannelAccount) × (is_available ca ≡ true)
    × (ca.current_seq ≤ℤ next_channel.current_seq)
    × (leased ≡ record ca { current_seq = add64 ca.current_seq (pos 1) })
    × ((acquire_channel_account environment world).1.db ≡ acquired environment world ca)
unfolding acquire_channel_account least_used text_eq add64
acquire_least_example = acquire_least environment world leased 1 next_channel refl refl refl

-- The other caller gets the other account, also after a release of that one.
acquire_exclusive_example : codes "C2" ≢ codes "C"
unfolding acquire acquire_channel_account least_used text_eq add64 perform_all perform release
    release_channel_account
acquire_exclusive_example =
    acquire_exclusive environment world leased (record next_channel { current_seq = pos 43 })
      (acquires ∷ releases (codes "C2") ∷ []) refl ((λ same. ground arith), tt) refl
