-- ===== src/Tests/Network.antt =====
-- Three nodes, a payment at the first one, and its deliveries.
use bachi_coin.Prelude.{◌+◌, ◌≤◌, ◌≡◌, refl, [], ◌∷◌, ◌++◌, if◌then◌else◌, length, ◌==◌}
use bachi_coin.Exec.{ok}
use bachi_coin.Admission.{validate_mempool_transaction}
use bachi_coin.Mempool.{submit_tx}
use bachi_coin.Network.{Net, Rules, others, submit, receive, validate_peer_transaction}
use bachi_coin.Network.Gossip.{Delivery, deliver, idle, more, here, next, submitted, delivered}
use bachi_coin.Network.Sound.{AllWell, Reach-AllWell}
use bachi_coin.Network.Settles.{weight, Deliveries-le}
use bachi_coin.Network.Delivered.{handed, submit-delivers}
use bachi_coin.Tests.Pool.{formats, payment_at, empty_pool, empty_pool-IsWellFormed}

abbrev rules : Rules
rules = record {
  formats = formats;
  validator = validate_mempool_transaction formats;
  canonical_nonce = λ node addr. 0;
}

abbrev quiet : Net
quiet = record { pools = (7, empty_pool) ∷ (8, empty_pool) ∷ (9, empty_pool) ∷ []; tasks = [] }

quiet-AllWell : AllWell quiet
quiet-AllWell = (empty_pool-IsWellFormed, (empty_pool-IsWellFormed, (empty_pool-IsWellFormed, tt)))

abbrev sent : Net
sent = submit rules 1000 7 (payment_at 0) quiet

-- The other two nodes are handed the payment.
sent_tasks : sent.tasks ≡ (8, payment_at 0) ∷ (9, payment_at 0) ∷ []
unfolding submit submit_tx validate_mempool_transaction
sent_tasks = refl

accepts :
    (submit_tx (validate_mempool_transaction formats) 1000 (λ addr. 0) (payment_at 0) empty_pool).0
    ≡ ok 400
unfolding submit_tx validate_mempool_transaction
accepts = refl

submit-delivers_example : sent.tasks ≡ (
    if length (validate_peer_transaction formats (payment_at 0)) == 0
    then [] ++ handed (payment_at 0) (others 7 quiet.pools)
    else [])
submit-delivers_example =
    submit-delivers rules 1000 7 (payment_at 0) empty_pool quiet 400 refl accepts

-- The last task runs first.
abbrev taken : Net
taken = receive rules 1001 9 (payment_at 0) (record sent { tasks = (8, payment_at 0) ∷ [] })

first-Delivery : Delivery rules sent taken
first-Delivery = deliver 1001 9 (payment_at 0) ((8, payment_at 0) ∷ []) [] sent_tasks

Reach-AllWell_example : AllWell taken
Reach-AllWell_example =
    Reach-AllWell rules
      (next (next here (submitted 1000 7 (payment_at 0))) (delivered first-Delivery)) quiet-AllWell

sent-AllWell : AllWell sent
sent-AllWell = Reach-AllWell rules (next here (submitted 1000 7 (payment_at 0))) quiet-AllWell

Deliveries-le_example : 1 + weight taken ≤ weight sent
Deliveries-le_example = Deliveries-le rules (more idle first-Delivery) sent-AllWell
