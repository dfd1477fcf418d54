-- ===== src/Server/Session.antt =====
-- The life of a server in server/megaVM_server.c: bind, listen, set up, accept, serve, tear down.
use infiniband.Common.{ℕ, not, ◌==◌, if◌then◌else◌}
use infiniband.Ib.Types.{null, minus, eq_state, connect_request, connected, error}
use infiniband.Ib.Calls.{
  Env, rdma_create_id, rdma_bind_addr, rdma_listen, rdma_accept, rdma_disconnect, rdma_destroy_id,
  kzalloc, kfree,
}
use infiniband.Ib.Machine.{Cmd, pure, ◌>>=◌, ◌>>◌, skip, context, modify, when}
use infiniband.Ib.Steps
use infiniband.Ib.Steps.{fill_sockaddr, strlen, blank}
use infiniband.Server.Events.{handler}
use infiniband.Server.Setup.{ask, run, setup_pd_and_qp, setup_buffers, free_buffers, free_qp}
use infiniband.Server.Transfer.{wait, start_server}

unfoldable pub accept_connections : Env → Cmd ℕ
accept_connections env = do
  c ← context
  ret ← ask env (
      rdma_accept c.child_cm_id
        (record { responder_resources = 1; initiator_depth = 1; retry_count = 0 }))
  if not (ret == 0) then pure ret else do
    wait env connected
    c' ← context
    if eq_state c'.state error then pure (minus 1) else pure 0

unfoldable pub bind_server : Env → Cmd ℕ
bind_server env = do
  c ← context
  ret ← ask env (rdma_bind_addr c.cm_id (fill_sockaddr c))
  if not (ret == 0) then pure ret else do
    listening ← ask env (rdma_listen c.cm_id 3)
    if not (listening == 0) then pure listening else do
      wait env connect_request
      c' ← context
      if not (eq_state c'.state connect_request) then pure (minus 1) else pure 0

-- The labels `err0`, `err1` and `err2` of `megaVM_StartServer`.
abbrev pub err0 : Env → Cmd (Unit {0})
err0 env = do c ← context; run env (rdma_destroy_id c.child_cm_id)

abbrev pub err1 : Env → Cmd (Unit {0})
err1 env = free_qp env >> err0 env

abbrev pub err2 : Env → Cmd (Unit {0})
err2 env = free_buffers env >> err1 env

-- Behind the setup: post the first receive, accept, and serve.
unfoldable pub serve : Env → Cmd (Unit {0})
serve env = do
  ret ← Steps.post_recv env (handler env)
  if not (ret == 0) then err2 env else do
    accepted ← accept_connections env
    if not (accepted == 0)
        then err2 env
        else do start_server env; c ← context; run env (rdma_disconnect c.child_cm_id); err2 env

-- megaVM_StartServer
unfoldable pub run_server : Env → Cmd (Unit {0})
run_server env = do
  ret ← bind_server env
  if not (ret == 0) then skip else do
    c ← context
    made ← setup_pd_and_qp env c.child_cm_id
    if not (made == 0)
        then err0 env
        else do ready ← setup_buffers env; if not (ready == 0) then err1 env else serve env

-- initialisation
unfoldable pub initialisation : Env → Cmd ℕ
initialisation env = do
  block ← ask env kzalloc
  if block == null then pure (minus 1) else do
    modify λ _. record blank { server = 1; port = env.htons 9999; addr = env.in4_pton "12.12.12.1" }
    id ← ask env rdma_create_id
    modify λ c. record c { cm_id = id }
    when (not (id == null)) (do run_server env; c ← context; run env (rdma_destroy_id c.cm_id))
    run env (kfree block)
    pure 0

-- megaVM_init, which has the type int and no return: its value is whatever is there.
unfoldable pub mega_vm_init : Env → Cmd ℕ
mega_vm_init env = do _ ← initialisation env; pure env.uninitialised
