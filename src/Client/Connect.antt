-- ===== src/Client/Connect.antt =====
-- Resolving, connecting and advertising: the steps of a client that leave the resources as they are.
use mathlib.Core.Path.{subst}
use infiniband.Common.{
  ℕ, ◌≡◌, refl, ap, ◌∙◌, sym, inl, inr, not, some, List, ◌==◌, arith, length, Bool-cases,
}
use infiniband.Ib.Types.{
  IsGood, IbContext, RdmaInfo, eq_state, connected, route_resolved, rdma_read_adv, rdma_write_adv,
  error, TestState,
}
use infiniband.Ib.Calls.{ConnParam, Env, rdma_resolve_addr, rdma_connect, ib_post_send}
use infiniband.Ib.Machine.{entry, Cmd, Sys, reply_at, deref, and_then, wait_until}
use infiniband.Ib.Ledger.{Resource}
use infiniband.Ib.Frame.{Returns, Returns-bind}
use infiniband.Ib.Rules.{At, wait-Returns}
use infiniband.Ib.Steps.{fill_sockaddr}
use infiniband.Client.Events.{handler}
use infiniband.Client.Ping.{write_ping, format_send, test_client}
use infiniband.Client.Text.{ping_text, write_ping-text}
use infiniband.Client.Session.{connect_client, bind_client}
use infiniband.Client.Ledger.{ask}
use infiniband.Ib.Follow.{At-modify}
use infiniband.Client.Buffers.{HasBuffers}
use infiniband.Ib.Mild.{IsMild}
use infiniband.Client.Quiet.{IsDriver, handler-Keeps}

module _ (env : Env) (d : IsDriver env) where
  module _ {A : Type 0} (Q : A → Sys → Type 0) {r : IbContext} {rs : List Resource} {s : Sys}
      (a : At env r rs s) where
    wait :
        (st : TestState) (k : ℕ → Cmd A)
        → ((x : ℕ) (t : Sys) → At env r rs t → Returns Q (k x t))
        → Returns Q (and_then (wait_until env (handler env) st s) k)
    wait = wait-Returns env (handler env) IsMild d.polite (handler-Keeps env) a Q

  module _ {r : IbContext} {rs : List Resource} {s : Sys} (a : At env r rs s) where
    -- Nothing has changed.
    abbrev pub Same : ℕ → Sys → Type 0
    Same ret t = At env r rs t

    pub connect_client-Returns : Returns Same (connect_client env s)
    unfolding connect_client
    connect_client-Returns = ask env d Same a (rdma_connect s.ctx.cm_id param) rs _ refl λ t at.
        elim (Bool-cases ((reply_at env (rdma_connect s.ctx.cm_id param) s).answer == 0)) [
          | inl e ↦
              rw (e, not)
                (wait Same at connected _ λ y u au. elim (Bool-cases (eq_state u.ctx.state error)) [
                  | inl e' ↦ rw e' au
                  | inr e' ↦ rw e' au
                ])
          | inr e ↦ rw (e, not) at
        ]
      where
        param : ConnParam
        param = record { responder_resources = 1; initiator_depth = 1; retry_count = 10 }

    pub bind_client-Returns : Returns Same (bind_client env s)
    unfolding bind_client
    bind_client-Returns =
        ask env d Same a (rdma_resolve_addr s.ctx.cm_id (fill_sockaddr s.ctx) 2000) rs _ refl
          λ t at.
            elim (Bool-cases (
              (reply_at env (rdma_resolve_addr s.ctx.cm_id (fill_sockaddr s.ctx) 2000) s).answer
              == 0)) [
                | inl e ↦
                    rw (e, not)
                      (wait Same at route_resolved _ λ y u au.
                        elim (Bool-cases (eq_state u.ctx.state route_resolved)) [
                          | inl e' ↦ rw (e', not) au
                          | inr e' ↦ rw (e', not) au
                        ])
                | inr e ↦ rw (e, not) at
              ]

    -- `format_send` fills in the message.
    abbrev Sending : Unit {0} → Sys → Type 0
    Sending u t = (info : RdmaInfo) × At env (record r { send_buf = info }) rs t

    format_send-Returns : (addr : ℕ) → IsGood r.dma_mr → Returns Sending (format_send env addr s)
    unfolding format_send
    format_send-Returns addr good =
        let good' : IsGood s.ctx.dma_mr = subst IsGood (sym (ap (λ c. c.dma_mr) a.context)) good in
        rw (good', deref)
          (
            _,
            At-modify env (λ c. record c { send_buf = info }) (λ c. record c { send_buf = info })
                (λ c. refl) a,
          )
      where
        info : RdmaInfo
        info = record {
          buf = env.cpu_to_be64 addr;
          rkey = env.htonl (env.rkey_of s.ctx.dma_mr);
          size = env.htonl s.ctx.size;
        }

  -- The ping is written, advertised and sent, and answered or not.
  abbrev pub Tested : IbContext → List Resource → Unit {0} → Sys → Type 0
  Tested r rs u t =
      (bs : List ℕ) × ((info : RdmaInfo) × At env (record r { start_data = bs; send_buf = info }) rs
          t)

  pub test_client-Returns :
      (r : IbContext) (rs : List Resource) {s : Sys}
      → HasBuffers r
      → length r.start_data ≡ 64
      → At env r rs s
      → Returns (Tested r rs) (test_client env s)
  unfolding test_client
  test_client-Returns r rs {s} b len a =
      let size : s.ctx.size ≡ 64 = ap (λ c. c.size) a.context ∙ b.size in
      let bytes : length s.ctx.start_data ≡ s.ctx.size =
        ap (λ c. length c.start_data) a.context ∙ len ∙ sym size in
      let text : write_ping s.ctx.size s.ctx.start_data ≡ some (ping_text s.ctx.size) =
        (write_ping-text s.ctx.size s.ctx.start_data bytes (omega arith)).0 in
      let bs = ping_text s.ctx.size in
      let Q = Tested r rs in
      rw text (
        Returns-bind
          (λ _ t. (info : RdmaInfo) × At env (record r { start_data = bs; send_buf = info }) rs t) Q
          (format_send env s.ctx.start_dma_addr _) _
          (format_send-Returns
            (At-modify env (λ c. record c { state = rdma_read_adv; start_data = bs })
              (λ c. record c { start_data = bs }) (λ c. refl) a)
            s.ctx.start_dma_addr b.memory)
          λ u t (info, at).
            ask env d Q at (ib_post_send t.ctx.qp t.ctx.sq_wr (entry t.ctx t.ctx.sq_wr.sg_list)) rs
              _ refl λ t1 a1. wait Q a1 rdma_write_adv _ λ x t2 a2. (bs, (info, a2)))
