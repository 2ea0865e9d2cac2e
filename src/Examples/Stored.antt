-- ===== src/Examples/Stored.antt =====
-- The theorems on the requests to the disk at a concrete directory.
use bmb.Base.{◌≡◌, refl, none, arith}
use bmb.Base.Text.{codes, str_eq_refl}
use bmb.Run.{ok}
use bmb.Disk.Table.{find}
use bmb.Persist.{persist_dispatch, read_node, text_data, succeeded, before_eof}
use bmb.Persist.Store.{file_of}
use bmb.Persist.Requests.{request, calm, read_node-before_eof}
use bmb.Examples.{name, dirs, dirs-HasQueue}

read_node-before_eof_example :
    persist_dispatch (request read_node name 1 none) (calm dirs)
    ≡ ok (succeeded (text_data (codes "hi"))) (calm dirs)
read_node-before_eof_example =
    read_node-before_eof dirs-HasQueue (omega arith) 1 (codes "hi") b'h' (codes "i") (omega arith)
      (omega arith) (unfold find in rw (str_eq_refl (file_of 1))) (unfold before_eof in refl)
