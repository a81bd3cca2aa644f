-- ===== src/Master/Ledger/Verify.antt =====
-- What a Master Node does once a transaction is verified (`checkVerification`).
use decentralized_cloud.Base.{◌≡◌, arith}
use decentralized_cloud.Base.Outcome.{ok}
use decentralized_cloud.Transaction.{Transaction, is_verified, can_send}
use decentralized_cloud.Master.State.{Env, Node}
use decentralized_cloud.Master.Ledger.{answer_client, queue_for_block, check_verification}

-- A check that went through leaves nothing to do: checked again, the transaction is neither sent to the
-- client nor queued a second time, and nothing else leaves the node.
pub check_verification-settled :
    (env : Env) (tx tx' : Transaction) (n n' : Node)
    → check_verification env (tx, n) ≡ ok (tx', n')
    → check_verification env (tx', n') ≡ ok (tx', n')
unfolding check_verification answer_client queue_for_block is_verified can_send
check_verification-settled env tx tx' n n' e = ground arith
