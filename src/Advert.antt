-- ===== src/Advert.antt =====
-- From the client to the server: `megaVM_format_send` of client/megaVM_client.c against
-- `server_recv` and the completion handler of server/megaVM_server.c.
use infiniband.Common.{ℕ, ◌^◌, ◌≡◌, refl, ◌<◌, true, false, not, Option, [], ◌∷◌, ◌==◌, arith}
use infiniband.Ib.Types.{
  IsGood, RecvWr, Sge, Ptr, sizeof_rdma_info, le_state, eq_state, connected, rdma_read_adv, error,
}
use infiniband.Ib.Calls.{Env, Wc, WcStatus, WcOpcode, ib_post_recv}
use infiniband.Ib.Machine.{Sys, deref, raw_call}
use infiniband.Ib.Frame.{Returns}
use infiniband.Ib.Events
use infiniband.Ib.Events.{on_recv, on_opcode, on_status, landed, poll_loop}
use infiniband.Client.Ping.{format_send}
use infiniband.Server.Events.{cq_event_handler, recv_result, server_recv}
pub mod Echo

-- The completion of the receive that the client's send buffer arrives in.
abbrev pub advert : Sys → Wc
advert s = record {
  status = WcStatus.success;
  opcode = WcOpcode.wc_recv;
  byte_len = sizeof_rdma_info;
  message = s.ctx.send_buf;
  bytes = [];
}

-- The byte-order conversions of the two machines undo one another, and the server's receives can be
-- posted again.
pub record AreConnected (client server : Env) : Type 0 where
  pub word : (n : ℕ) → n < 2 ^ 32 → server.ntohl (client.htonl n) ≡ n
  pub double_word : (n : ℕ) → n < 2 ^ 64 → server.cpu_to_be64 (client.cpu_to_be64 n) ≡ n
  pub posted :
      (n : ℕ) (q : Ptr) (wr : RecvWr) (e : Option Sge)
      → (server.reply n (ib_post_recv q wr e)).answer ≡ 0

module _ (client server : Env) (conn : AreConnected client server) where
  -- What the client formats is what the server has decoded once its completion handler has run on the
  -- receive: the address, the key of the client's region and the size. The server's state is then
  -- RDMA_READ_ADV, and its main thread was woken. This is for a client whose region may be read, with
  -- an address of 64 bits and a key and size of 32, and a server in a state up to CONNECTED, where the
  -- conversions of the two machines undo one another and receives can be posted.
  pub format_send-cq_event_handler :
      (buf : ℕ) (s t : Sys)
      → IsGood s.ctx.dma_mr
      → buf < 2 ^ 64
      → client.rkey_of s.ctx.dma_mr < 2 ^ 32
      → s.ctx.size < 2 ^ 32
      → (t.ctx.server == 0) ≡ false
      → le_state t.ctx.state connected ≡ true
      → Returns
          (λ _ s'.
            Returns
              (λ _ t'.
                (t'.ctx.remote_addr ≡ buf)
                × (t'.ctx.remote_rkey ≡ client.rkey_of s.ctx.dma_mr)
                × (t'.ctx.remote_len ≡ s.ctx.size)
                × (t'.ctx.state ≡ rdma_read_adv)
                × (t.wakes < t'.wakes))
              (cq_event_handler server (advert s' ∷ []) 0 t))
          (format_send client buf s)
  unfolding format_send cq_event_handler Events.cq_event_handler poll_loop landed on_status
      on_opcode on_recv recv_result server_recv raw_call
  format_send-cq_event_handler buf s t good hb hr hs is_server early =
      let running : eq_state t.ctx.state error ≡ false = ground arith in
      rw (good, deref, running, is_server, early)
        (rw (conn.posted _ _ _ _, not)
          (conn.double_word buf hb, conn.word _ hr, conn.word _ hs, refl, ground arith))
