-- ===== src/Ib/Events.antt =====
-- The event handlers, whose code the two modules have alike: `megaVM_cma_event_handler` and
-- `megaVM_cq_event_handler` of client/megaVM_client.c and server/megaVM_server.c. They differ in
-- what a received message does and in what they print, which is a parameter.
use infiniband.Common.{
  ℕ, ◌+◌, ◌%◌, ◌^◌, Bool, true, false, not, ◌&&◌, Option, none, some, List, [], ◌∷◌, ◌==◌,
  if◌then◌else◌,
}
use infiniband.Ib.Types.{
  Ptr, null, sizeof_rdma_info, MegaVmStats, eq_state, addr_resolved, route_resolved,
  connect_request, connected, rdma_read_complete, rdma_write_complete, error,
}
use infiniband.Ib.Calls.{
  CmEvent, Wc, WcStatus, WcOpcode, Env, rdma_resolve_route, ib_req_notify_cq, ib_post_recv,
}
use infiniband.Ib.Steps.{strlen}
use infiniband.Ib.Machine.{
  Cmd, pure, ◌>>=◌, ◌>>◌, skip, fail, context, modify, set_state, wake_up, when, load_sge, entry,
  raw_call,
}

-- `megaVM_cma_event_handler` on the event `e` of the identifier `cma_id`.
unfoldable pub cma_event_handler : Env → Ptr → CmEvent → Cmd (Unit {0})
cma_event_handler env cma_id CmEvent.addr_resolved = do
  set_state addr_resolved
  ret ← raw_call env (rdma_resolve_route cma_id 2000)
  when (not (ret == 0)) wake_up
cma_event_handler env cma_id CmEvent.route_resolved = set_state route_resolved >> wake_up
cma_event_handler env cma_id CmEvent.connect_request = do
  set_state connect_request
  modify λ c. record c { child_cm_id = cma_id }
  wake_up
cma_event_handler env cma_id CmEvent.established = do
  c ← context
  when (c.server == 0) (set_state connected)
  wake_up
cma_event_handler env cma_id CmEvent.addr_error = set_state error >> wake_up
cma_event_handler env cma_id CmEvent.route_error = set_state error >> wake_up
cma_event_handler env cma_id CmEvent.connect_error = set_state error >> wake_up
cma_event_handler env cma_id CmEvent.unreachable = set_state error >> wake_up
cma_event_handler env cma_id CmEvent.rejected = set_state error >> wake_up
cma_event_handler env cma_id CmEvent.disconnected = set_state error >> wake_up
cma_event_handler env cma_id CmEvent.device_removal = skip
cma_event_handler env cma_id CmEvent.other_event = wake_up

-- unsigned long long addition
abbrev add64 : ℕ → ℕ → ℕ
add64 a b = (a + b) % 2 ^ 64

unfoldable pub count_send : ℕ → MegaVmStats → MegaVmStats
count_send n st = record st { send_bytes = add64 st.send_bytes n; send_msgs = add64 st.send_msgs 1 }

unfoldable pub count_write : ℕ → MegaVmStats → MegaVmStats
count_write n st = record st {
  write_bytes = add64 st.write_bytes n;
  write_msgs = add64 st.write_msgs 1;
}

unfoldable pub count_read : ℕ → MegaVmStats → MegaVmStats
count_read n st = record st { read_bytes = add64 st.read_bytes n; read_msgs = add64 st.read_msgs 1 }

unfoldable pub count_recv : MegaVmStats → MegaVmStats
count_recv st = record st {
  recv_bytes = add64 st.recv_bytes sizeof_rdma_info;
  recv_msgs = add64 st.recv_msgs 1;
}

-- Where the two modules differ: what they do with a received message, with the value of `ret` after it,
-- and whether the completion of a read prints the buffer.
pub record Treatment : Type 0 where
  pub message : Wc → Cmd ℕ
  pub prints : Bool

-- `printk("rdma read completion: %s\n\n", cb->rdma_buf)`. A null pointer is printed as "(null)".
unfoldable pub print_sink : Bool → Cmd (Unit {0})
print_sink prints = do
  c ← context
  when (prints && not (c.rdma_buf == null))
      (elim (strlen c.rdma_data) [ none ↦ fail | some n ↦ skip ])

-- The body of `case IB_WC_RECV`; the result says whether the handler goes on.
unfoldable pub on_recv : Env → Treatment → Wc → Cmd Bool
unfolding count_recv
on_recv env on wc = do
  modify λ c. record c { stats = count_recv c.stats }
  ret ← on.message wc
  if not (ret == 0) then pure false else do
    c ← context
    posted ← raw_call env (ib_post_recv c.qp c.rq_wr (entry c c.rq_wr.sg_list))
    if not (posted == 0) then pure false else do wake_up; pure true

-- The `switch (wc.opcode)`; `false` is `goto error`.
unfoldable pub on_opcode : Env → Treatment → WcOpcode → Wc → Cmd Bool
unfolding on_recv count_send count_write count_read print_sink
on_opcode env on WcOpcode.wc_send wc = do
  modify λ c. record c { stats = count_send c.send_sge.length c.stats }
  pure true
on_opcode env on WcOpcode.wc_rdma_write wc = do
  c ← context
  sge ← load_sge c.rdma_sq_wr.sg_list
  modify λ c'. record c' { stats = count_write sge.length c'.stats; state = rdma_write_complete }
  wake_up
  pure true
on_opcode env on WcOpcode.wc_rdma_read wc = do
  print_sink on.prints
  c ← context
  sge ← load_sge c.rdma_sq_wr.sg_list
  modify λ c'. record c' { stats = count_read sge.length c'.stats; state = rdma_read_complete }
  wake_up
  pure true
on_opcode env on WcOpcode.wc_recv wc = on_recv env on wc
on_opcode env on WcOpcode.wc_other wc = pure false

-- One turn of the polling loop, by the status of the completion.
unfoldable pub on_status : Env → Treatment → WcStatus → Wc → Cmd Bool
unfolding on_opcode
on_status env on WcStatus.success wc = on_opcode env on wc.opcode wc
on_status env on WcStatus.flush_err wc = pure true
on_status env on WcStatus.failure wc = pure false

-- Bytes put at the start of a block; `none` if they run over its end.
unfoldable pub store_bytes : List ℕ → List ℕ → Option (List ℕ)
store_bytes [] block = some block
store_bytes (b ∷ bs) [] = none
store_bytes (b ∷ bs) (x ∷ block) = elim (store_bytes bs block) [
  | none ↦ none
  | some rest ↦ some (b ∷ rest)
]

-- The buffer as a read has left it; beyond its end the device overwrites what it should not.
abbrev pub put_block : Option (List ℕ) → Cmd (Unit {0})
put_block none = fail
put_block (some block) = modify λ c. record c { rdma_data = block }

-- What the device has written by the time that `wc` is polled.
unfoldable pub landed : WcOpcode → WcStatus → Wc → Cmd (Unit {0})
landed WcOpcode.wc_recv WcStatus.success wc = modify λ c. record c { recv_buf = wc.message }
landed WcOpcode.wc_rdma_read WcStatus.success wc = do
  c ← context
  put_block (store_bytes wc.bytes c.rdma_data)
landed _ _ wc = skip

-- The loop `while ((ret = ib_poll_cq(cb->cq, 1, &wc)) == 1)`, and the test of `ret` behind it.
unfoldable pub poll_loop : Env → Treatment → ℕ → List Wc → Cmd Bool
unfolding on_status landed
poll_loop env on last [] = pure (last == 0)
poll_loop env on last (wc ∷ wcs) = do
  landed wc.opcode wc.status wc
  go_on ← on_status env on wc.status wc
  if go_on then poll_loop env on last wcs else pure false

-- `megaVM_cq_event_handler` on the completion queue that it was created with.
unfoldable pub cq_event_handler : Env → Treatment → List Wc → ℕ → Cmd (Unit {0})
unfolding poll_loop
cq_event_handler env on wcs last = do
  c ← context
  if eq_state c.state error then skip else do
    ret ← raw_call env (ib_req_notify_cq c.cq)
    good ← poll_loop env on last wcs
    if good then skip else (set_state error >> wake_up)
