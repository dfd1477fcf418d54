-- ===== src/Advert/Echo.antt =====
-- From `megaVM_format_send` of the client to the end of `start_MegaVM_server`.
use mathlib.Core.Path.{subst}
use infiniband.Common.{
  ℕ, ◌+◌, ◌^◌, ◌≡◌, ap, ◌∙◌, sym, ◌<◌, ◌≤◌, length, arith, true, false, some, [], ◌∷◌, ◌==◌,
}
use infiniband.Ib.Types.{IsGood, null, le_state, connected, rdma_read_adv, rdma_sgl, wr_send}
use infiniband.Ib.Calls.{Env, cqe}
use infiniband.Ib.Machine.{Sys, Outcome, done, asleep, oops}
use infiniband.Ib.Frame.{Returns, Kept}
use infiniband.Ib.Rules.{Returns-mono}
use infiniband.Ib.Steps.{strlen}
use infiniband.Client.Ping.{format_send}
use infiniband.Server.Events.{cq_event_handler, handler}
use infiniband.Server.Wake.{server_handler-Returns}
use infiniband.Server.Transfer.{start_server}
use infiniband.Server.Echo.{IsPrompt, HasRegion, Echoed}
use infiniband.Server.Echo.Service.{start_server-Echoed}
use infiniband.Advert.{advert, AreConnected, format_send-cq_event_handler}

Returns-and :
    {A : Type 0} (P Q : A → Sys → Type 0) (o : Outcome A)
    → Returns P o
    → Returns Q o
    → Returns (λ x t. P x t × Q x t) o
Returns-and P Q (done x t) p q = (p, q)
Returns-and P Q (asleep t) p q = absurd p
Returns-and P Q oops p q = absurd p

-- A server that is set up, has accepted and awaits the advertisement.
pub record Awaits (t : Sys) : Type 0 where
  pub server : (t.ctx.server == 0) ≡ false
  pub early : le_state t.ctx.state connected ≡ true
  pub entry : t.ctx.rdma_sq_wr.sg_list ≡ some rdma_sgl
  pub memory : IsGood t.ctx.dma_mr
  pub go_ahead : t.ctx.sq_wr.opcode ≡ wr_send
  pub sink : (t.ctx.rdma_buf == null) ≡ false
  pub memory_size : length t.ctx.rdma_data ≡ 64

module _ (client server : Env) (conn : AreConnected client server) (buf : ℕ) (s : Sys) where
  -- What the handler leaves behind.
  abbrev Heard : Sys → Sys → Type 0
  Heard t t' =
      (t'.ctx.remote_addr ≡ buf)
      × (t'.ctx.remote_rkey ≡ client.rkey_of s.ctx.dma_mr)
      × (t'.ctx.remote_len ≡ s.ctx.size)
      × (t'.ctx.state ≡ rdma_read_adv)
      × (t.wakes < t'.wakes)

  Heard-HasRegion :
      (t t' : Sys)
      → Awaits t
      → Heard t t'
      → Kept server t t'
      → s.ctx.size ≤ 64
      → HasRegion buf (client.rkey_of s.ctx.dma_mr) s.ctx.size t'
  Heard-HasRegion t t' w (ha, hk, hl, hs, hw) k small =
      let e = k.context in
      record {
        entry = ap (λ c. c.rdma_sq_wr.sg_list) e ∙ w.entry;
        memory = subst IsGood (sym (ap (λ c. c.dma_mr) e)) w.memory;
        remote_addr = ha;
        remote_rkey = hk;
        remote_len = hl;
        go_ahead = ap (λ c. c.sq_wr.opcode) e ∙ w.go_ahead;
        sink = ap (λ c. c.rdma_buf == null) e ∙ w.sink;
        room = omega (arith, k.room, w.memory_size, small);
      }

  -- A client that holds a string of just the size of its buffer formats an advertisement of it. The
  -- completion handler of a server that is set up and has accepted hears it, and `start_MegaVM_server`
  -- then returns after ten reads and ten writes, in turn, each of just the client's buffer under the
  -- client's key, with the client's bytes at the start of its own buffer, which they fit. This is for machines whose conversions of
  -- byte order undo one another, an address of 64 bits and a key and size of 32, and a device of the
  -- server that completes every transfer while it is posted, the reads of the client's buffer with the client's
  -- bytes.
  pub format_send-start_server :
      (t : Sys) (n : ℕ)
      → IsPrompt server s.ctx.start_data buf (client.rkey_of s.ctx.dma_mr) s.ctx.size
      → strlen s.ctx.start_data ≡ some n
      → length s.ctx.start_data ≡ s.ctx.size
      → n + 1 ≡ s.ctx.size
      → IsGood s.ctx.dma_mr
      → buf < 2 ^ 64
      → client.rkey_of s.ctx.dma_mr < 2 ^ 32
      → s.ctx.size ≤ 64
      → Awaits t
      → Returns
          (λ _ s'.
            Returns
              (λ _ t'.
                Returns
                  (Echoed buf (client.rkey_of s.ctx.dma_mr) s.ctx.size s.ctx.start_data t')
                  (start_server server t'))
              (cq_event_handler server (advert s' ∷ []) 0 t))
          (format_send client buf s)
  unfolding handler
  format_send-start_server t n device text size whole good hb hk hs w =
      let key = client.rkey_of s.ctx.dma_mr in
      let echo = Echoed buf key s.ctx.size s.ctx.start_data in
      Returns-mono
        (λ _ s'. Returns (λ _ t'. Heard t t') (cq_event_handler server (advert s' ∷ []) 0 t)) _
        (format_send client buf s)
        (format_send-cq_event_handler client server conn buf s t good hb hk (omega (arith, hs))
          w.server w.early)
        λ _ s' heard.
          Returns-mono (λ _ t'. Heard t t' × Kept server t t')
            (λ _ t'. Returns (echo t') (start_server server t'))
            (cq_event_handler server (advert s' ∷ []) 0 t)
            (Returns-and (λ _ t'. Heard t t') (λ _ t'. Kept server t t') _ heard
              (Returns-mono _ (λ _ t'. Kept server t t') _
                (server_handler-Returns server (cqe (advert s' ∷ []) 0) t rdma_sgl w.entry (tt, tt))
                λ _ t' h. h.0))
            λ _ t' (h, k).
              start_server-Echoed server s.ctx.start_data buf key s.ctx.size device n text size
                whole (omega (arith, hs)) t' (Heard-HasRegion t t' w h k hs) h.3
