-- ===== src/Broker/Init.antt =====
-- `broker_init` of broker/broker.c.
use bmb.Base.{ℕ}
use bmb.Base.Text.{CString}
use bmb.Run.{Cmd, ◌>>◌}
use bmb.World.{Ptr, World}
use bmb.Queue.{mem_alloc}
use bmb.Pool.{QueuePool, queue_pool_init}
use bmb.Pool.Load.{queue_pool_load}

-- `at` and `pool_at` are what `malloc` gives for the broker and for its pool.
unfoldable pub broker_init : Ptr → Ptr → (CString → ℕ → Ptr) → Cmd World QueuePool
broker_init at pool_at fresh = do
  mem_alloc at
  mem_alloc pool_at
  queue_pool_load fresh queue_pool_init
