-- ===== src/Server/TenRounds.antt =====
-- The service of server/megaVM_server.c, from its start to its end: it comes to an end, and what it has
-- posted by then.
use infiniband.Common.{◌≡◌, refl, ap, false, List, ◌==◌}
use infiniband.Ib.Types.{Ptr, IbContext, IsGood, WrOpcode, null, rdma_read_adv}
use infiniband.Ib.Calls.{Env, ib_post_send}
use infiniband.Ib.Machine.{Sys, call, entry, and_then, skip}
use infiniband.Ib.Ledger.{Resource}
use infiniband.Ib.Frame.{Returns, Returns-bind}
use infiniband.Ib.Wake.{Returns-both, Leaves-bind}
use infiniband.Ib.Posts.{Posted, opcode_on, opcodes}
use infiniband.Server.Events.{handler}
use infiniband.Server.Transfer.{wait, rounds, start_server}
use infiniband.Server.Served.{IsServed}
use infiniband.Server.Serve.{Serving, rounds-Returns, wait-Serving, go_ahead-Serving}
use infiniband.Server.Posts.{round_trips, rounds-Posted, wait_posts_none, post-Posted}

module _ (env : Env) (child : Ptr) (w : IsServed env child) (r : IbContext) (rs : List Resource)
    (memory : IsGood r.dma_mr) (sink : (r.rdma_buf == null) ≡ false) where
  -- The server serves, with the transfers `l` posted.
  abbrev pub Served : List WrOpcode → Unit {0} → Sys → Type 0
  Served l u t = Serving env child w r rs u t × Posted l t

  go_ahead-Served :
      (l : List WrOpcode) (s : Sys)
      → Served l tt s
      → Returns (Served (opcode_on r.sq_wr.opcode l)) (
          and_then
            (call env
              (handler env)
              (ib_post_send s.ctx.qp s.ctx.sq_wr (entry s.ctx s.ctx.sq_wr.sg_list))
              s)
            (λ _. skip))
  go_ahead-Served l s (a, p) =
      let (q, (e, (set, at))) = a in
      Returns-both (Serving env child w r rs) (λ _ t. Posted (opcode_on r.sq_wr.opcode l) t) _
        (go_ahead-Serving env child w r rs sink a)
        (Leaves-bind (λ _ t. Posted (opcode_on r.sq_wr.opcode l) t)
          (λ _ t. Posted (opcode_on r.sq_wr.opcode l) t) _ (λ _. skip)
          (post-Posted env l r.sq_wr.opcode s.ctx.sq_wr s (ap (λ c. c.sq_wr.opcode) at.at.context)
            p)
          λ x t pt. pt)

  -- On a server under the conditions of `IsServed`, among them that reads and fresh blocks have a NUL among
  -- their bytes and that a signal ends a wait, with its region and its buffer there and the
  -- request's scatter entry set: `start_server` returns, whatever else it is answered, in whatever order
  -- and number the transfers complete, and whatever other handlers run meanwhile. By then it has posted
  -- ten reads and ten writes, in turn, and behind them no transfer but the go-ahead, where that is one. What is held is what was held
  -- before, and of the set-up fields no more than the request of the transfers and its entry have
  -- changed, the entry still being in its place.
  pub start_server-Served :
      (s : Sys)
      → Serving env child w r rs tt s
      → Returns
          (Served (opcode_on r.sq_wr.opcode (round_trips 10 (opcodes s.calls))))
          (start_server env s)
  unfolding start_server
  start_server-Served s a =
      let l = opcodes s.calls in
      let Q = Served (opcode_on r.sq_wr.opcode (round_trips 10 l)) in
      Returns-bind (Served l) Q (wait env rdma_read_adv s) _
        (Returns-both (Serving env child w r rs) (λ _ t. Posted l t) _
          (wait-Serving env child w r rs sink rdma_read_adv a)
          (wait_posts_none env l rdma_read_adv s refl))
        λ _ t (at, pt).
          Returns-bind (Served (round_trips 10 l)) Q (rounds 10 env t) _
            (Returns-both (Serving env child w r rs) (λ _ u. Posted (round_trips 10 l) u) _
              (rounds-Returns env child w r rs memory sink 10 at) (rounds-Posted env 10 l t pt))
            λ _ u au. go_ahead-Served (round_trips 10 l) u au
