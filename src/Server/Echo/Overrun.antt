-- ===== src/Server/Echo/Overrun.antt =====
-- `start_MegaVM_server` on a client whose bytes fill the buffer and hold no string.
use infiniband.Common.{List}
use infiniband.Ib.Events
