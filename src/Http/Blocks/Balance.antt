-- ===== src/Http/Blocks/Balance.antt =====
-- What a thread of server/s_thread.c leaves of the memory that it has used.
use bmb.Run.Returns
use bmb.Run.Returns.{Returns}
