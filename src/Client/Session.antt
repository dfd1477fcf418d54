-- ===== src/Client/Session.antt =====
-- The life of a client in client/megaVM_client.c: resolve, set up, connect, advertise, tear down.
use infiniband.Common.{ℕ, not, ◌==◌, if◌then◌else◌}
use infiniband.Ib.Types.{Ptr, IbContext, null, minus, eq_state, route_resolved, connected, error}
use infiniband.Ib.Calls.{
  Env, rdma_create_id, rdma_resolve_addr, rdma_connect, rdma_disconnect, rdma_destroy_id, kzalloc,
  kfree,
}
use infiniband.Ib.Machine.{Cmd, pure, ◌>>=◌, ◌>>◌, skip, context, modify, wait_until}
use infiniband.Ib.Steps
use infiniband.Ib.Steps.{fill_sockaddr, strlen, blank}
use infiniband.Client.Events.{handler}
use infiniband.Client.Setup.{ask, run, setup_qp, setup_buffers, free_buffers, free_qp}
use infiniband.Client.Ping.{test_client}

-- megaVM_connect_client
unfoldable pub connect_client : Env → Cmd ℕ
connect_client env = do
  c ← context
  ret ← ask env (
      rdma_connect c.cm_id
        (record { responder_resources = 1; initiator_depth = 1; retry_count = 10 }))
  if not (ret == 0) then pure ret else do
    _ ← wait_until env (handler env) connected
    c' ← context
    if eq_state c'.state error then pure (minus 1) else pure 0

-- megaVM_bind_client; -EINTR is -4.
unfoldable pub bind_client : Env → Cmd ℕ
bind_client env = do
  c ← context
  ret ← ask env (rdma_resolve_addr c.cm_id (fill_sockaddr c) 2000)
  if not (ret == 0) then pure ret else do
    _ ← wait_until env (handler env) route_resolved
    c' ← context
    if not (eq_state c'.state route_resolved) then pure (minus 4) else pure 0

-- The labels `err1` and `err2` of `megaVM_run_client`.
abbrev pub err2 : Env → Cmd (Unit {0})
err2 env = free_buffers env >> free_qp env

-- Behind the setup: post the first receive, connect, and advertise.
unfoldable pub converse : Env → Cmd (Unit {0})
converse env = do
  ret ← Steps.post_recv env (handler env)
  if not (ret == 0) then err2 env else do
    linked ← connect_client env
    if not (linked == 0)
        then err2 env
        else do test_client env; c ← context; run env (rdma_disconnect c.cm_id); err2 env

-- megaVM_run_client
unfoldable pub run_client : Env → Cmd (Unit {0})
run_client env = do
  ret ← bind_client env
  if not (ret == 0) then skip else do
    c ← context
    made ← setup_qp env c.cm_id
    if not (made == 0)
        then skip
        else do ready ← setup_buffers env; if not (ready == 0) then free_qp env else converse env

-- What `megaVM_doit` makes of the zeroed context.
abbrev pub initial : Env → IbContext
initial env = record blank {
  server = 0;
  addr = env.in4_pton "12.12.12.1";
  port = env.htons 9999;
  count = 1;
}

-- `megaVM_doit` with its identifier.
unfoldable pub with_id : Env → Ptr → Cmd ℕ
with_id env block = do
  run_client env
  c ← context
  run env (rdma_destroy_id c.cm_id)
  run env (kfree block)
  pure 0

-- megaVM_doit
unfoldable pub doit : Env → Cmd ℕ
doit env = do
  block ← ask env kzalloc
  if block == null then pure (minus 1) else do
    modify λ _. initial env
    id ← ask env rdma_create_id
    modify λ c. record c { cm_id = id }
    if id == null then (do run env (kfree block); pure (minus 1)) else with_id env block

-- megaVM_init
unfoldable pub mega_vm_init : Env → Cmd ℕ
mega_vm_init env = do _ ← doit env; pure 0
