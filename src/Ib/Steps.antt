-- ===== src/Ib/Steps.antt =====
-- Steps that the main threads of the two modules have in common, over the calls of one of them.
use infiniband.Common.{
  ℕ, zero, suc, ◌≡◌, not, Bool, Option, none, some, List, [], ◌∷◌, ◌==◌, ◌&&◌, if◌then◌else◌,
}
use infiniband.Ib.Types.{
  Ptr, null, is_err, af_inet, dma, idle, WrOpcode, IbContext, MegaVmStats, RdmaInfo, Sge, RecvWr,
  SendWr, rping_sq_depth,
}
use infiniband.Ib.Calls.{
  Sockaddr, Call, Env, Region, ib_dereg_mr, ib_post_recv, ib_post_send, dma_map_single,
  dma_unmap_single, Callback,
}
use infiniband.Ib.Machine.{Cmd, ◌>>=◌, ◌>>◌, skip, context, when, entry, deref, call}

-- fill_sockaddr
abbrev pub fill_sockaddr : IbContext → Sockaddr
fill_sockaddr c =
    if c.addr_type == af_inet
    then record { sin_family = af_inet; sin_addr = c.addr; sin_port = c.port }
    else record { sin_family = 0; sin_addr = []; sin_port = 0 }

-- strlen of the bytes of a buffer; `none` if it runs past their end.
unfoldable pub strlen : List ℕ → Option ℕ
strlen [] = none
strlen (zero ∷ bs) = some 0
strlen (suc b ∷ bs) = elim (strlen bs) [ none ↦ none | some n ↦ some (suc n) ]

-- The bytes have a NUL.
abbrev pub HasString : List ℕ → Type 0
HasString bs = (n : ℕ) × (strlen bs ≡ some n)

module _ (env : Env) (handler : Callback → Cmd (Unit {0})) where
  -- A call whose result is dropped.
  abbrev pub run : Call → Cmd (Unit {0})
  run c = call env handler c >>= λ _. skip

  -- `if (mr && !IS_ERR(mr)) ib_dereg_mr(mr);`
  abbrev pub dereg_valid : Ptr → Cmd (Unit {0})
  dereg_valid mr = when (not (mr == null) && not (is_err mr)) (run (ib_dereg_mr mr))

  -- `if (mr) ib_dereg_mr(mr);`
  abbrev pub dereg : Ptr → Cmd (Unit {0})
  dereg mr = when (not (mr == null)) (run (ib_dereg_mr mr))

  -- `dma_map_single(pd->device->dma_device, …)`
  abbrev pub map_region : Region → ℕ → Cmd ℕ
  map_region r n = do c ← context; deref c.pd; call env handler (dma_map_single r n)

  abbrev pub unmap : ℕ → ℕ → Cmd (Unit {0})
  unmap a n = do c ← context; deref c.pd; run (dma_unmap_single a n)

  -- `ib_post_send(qp, &sq_wr, &bad_wr)`, which reads the request's one scatter entry.
  abbrev pub post_send : SendWr → Cmd ℕ
  post_send wr = do c ← context; call env handler (ib_post_send c.qp wr (entry c wr.sg_list))

  -- `ib_post_recv(qp, &rq_wr, &bad_wr)`
  abbrev pub post_recv : Cmd ℕ
  post_recv = do c ← context; call env handler (ib_post_recv c.qp c.rq_wr (entry c c.rq_wr.sg_list))

abbrev pub no_stats : MegaVmStats
no_stats = record {
  send_bytes = 0;
  send_msgs = 0;
  recv_bytes = 0;
  recv_msgs = 0;
  write_bytes = 0;
  write_msgs = 0;
  read_bytes = 0;
  read_msgs = 0;
}

abbrev pub no_info : RdmaInfo
no_info = record { buf = 0; rkey = 0; size = 0 }

abbrev no_sge : Sge
no_sge = record { addr = 0; length = 0; lkey = 0 }

abbrev no_recv_wr : RecvWr
no_recv_wr = record { sg_list = none; num_sge = 0 }

abbrev no_send_wr : SendWr
no_send_wr = record {
  opcode = WrOpcode.wr_rdma_write;
  signaled = Bool.false;
  sg_list = none;
  num_sge = 0;
  rkey = 0;
  remote_addr = 0;
  next = null;
}

-- The context that kzalloc hands out, all zero, with the fields that both modules set at once:
-- `state = IDLE`, `size = 64`, `txdepth = RPING_SQ_DEPTH`, `mem = DMA`, `addr_type = AF_INET`.
abbrev pub blank : IbContext
blank = record {
  server = 0;
  cq = null;
  pd = null;
  qp = null;
  mem = dma;
  dma_mr = null;
  rq_wr = no_recv_wr;
  recv_sge = no_sge;
  recv_buf = no_info;
  recv_dma_addr = 0;
  recv_mapping = 0;
  recv_mr = null;
  sq_wr = no_send_wr;
  send_sge = no_sge;
  send_buf = no_info;
  send_dma_addr = 0;
  send_mapping = 0;
  send_mr = null;
  rdma_sq_wr = no_send_wr;
  rdma_sge = no_sge;
  rdma_buf = null;
  rdma_data = [];
  rdma_dma_addr = 0;
  rdma_mapping = 0;
  rdma_mr = null;
  start_buf = null;
  start_data = [];
  start_dma_addr = 0;
  start_mapping = 0;
  start_mr = null;
  remote_rkey = 0;
  remote_addr = 0;
  remote_len = 0;
  state = idle;
  stats = no_stats;
  port = 0;
  addr = [];
  addr_type = af_inet;
  count = 0;
  size = 64;
  txdepth = rping_sq_depth;
  cm_id = null;
  child_cm_id = null;
}
