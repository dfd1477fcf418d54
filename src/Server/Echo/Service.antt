-- ===== src/Server/Echo/Service.antt =====
-- `start_MegaVM_server`: its ten rounds, and the go-ahead behind them.
use mathlib.Core.Path.{subst}
use infiniband.Common.{
  ℕ, zero, suc, ◌+◌, ◌^◌, ◌<◌, ◌≡◌, refl, ap, ◌∙◌, sym, false, some, List, ◌∷◌, length,
}
use infiniband.Ib.Types.{eq_state, rdma_read_adv, rdma_read_complete, rdma_write_complete, error}
use infiniband.Ib.Calls.{Env}
use infiniband.Ib.Machine.{entry, context, Cmd, ◌>>=◌, skip, Sys, deliver, call, and_then}
use infiniband.Ib.Frame.{Returns, Returns-bind}
use infiniband.Ib.Steps
use infiniband.Ib.Steps.{no_info, strlen}
use infiniband.Server.Events.{handler}
use infiniband.Server.Transfer.{wait, rdma_read, rdma_write, rounds, start_server}
use infiniband.Server.Echo.{
  Transfer, transfers, IsPrompt, HasRegion, IsAt, Echoed, echoes, read_of, write_of,
}
use infiniband.Server.Echo.Posts.{wait_passes, rdma_read-IsAt, rdma_write-IsAt}

module _ (env : Env) (bs : List ℕ) (addr key len : ℕ) (device : IsPrompt env bs addr key len) where
  module _ (n : ℕ) (text : strlen bs ≡ some n) (size : length bs ≡ len) (whole : n + 1 ≡ len)
      (small : len < 2 ^ 32) where
    -- One round, and what comes behind it.
    round-Returns :
        (Q : Unit {0} → Sys → Type 0) (l : List Transfer) (s : Sys) (k : Unit {0} → Cmd (Unit {0}))
        → HasRegion addr key len s
        → eq_state s.ctx.state error ≡ false
        → transfers s.calls ≡ l
        → ((t : Sys)
            → IsAt addr key len bs rdma_write_complete
                (write_of addr key len ∷ read_of addr key len ∷ l)
                t
            → Returns Q (k tt t))
        → Returns Q (and_then (rdma_read env s) (λ _ t. and_then (rdma_write env t) k))
    round-Returns Q l s k r calm el next =
        Returns-bind
          (λ _ t.
            IsAt addr key len bs rdma_read_complete (read_of addr key len ∷ transfers s.calls) t)
          Q (rdma_read env s) _ (rdma_read-IsAt env bs addr key len device n text size s r calm)
          λ _ t at.
            Returns-bind
              (λ _ u.
                IsAt addr key len bs rdma_write_complete (write_of addr key len ∷ transfers t.calls)
                  u)
              Q (rdma_write env t) k
              (rdma_write-IsAt env bs addr key len device n text whole small t at.region at.bytes
                (rw at.state refl))
              λ _ u au. next u (record {
                region = au.region;
                state = au.state;
                bytes = au.bytes;
                posted = au.posted ∙ rw (at.posted, el) refl;
              })

    rounds-IsAt :
        (k : ℕ) (l : List Transfer) (s : Sys)
        → IsAt addr key len bs rdma_write_complete l s
        → Returns
            (λ _ t. IsAt addr key len bs rdma_write_complete (echoes addr key len k l) t)
            (rounds k env s)
    unfolding rounds
    rounds-IsAt zero l s at = at
    rounds-IsAt (suc k) l s at =
        round-Returns
          (λ _ t. IsAt addr key len bs rdma_write_complete (echoes addr key len (suc k) l) t) l s
          (λ _. rounds k env) at.region (rw at.state refl) at.posted
          (λ t. rounds-IsAt k (write_of addr key len ∷ read_of addr key len ∷ l) t)

    go_ahead_last :
        (s t : Sys)
        → IsAt addr key len bs rdma_write_complete (echoes addr key len 10 (transfers s.calls)) t
        → Returns
            (Echoed addr key len bs s)
            ((do c ← context; ret ← Steps.post_send env (handler env) c.sq_wr; skip) t)
    unfolding call deliver
    go_ahead_last s t at =
        let quiet =
          device.send (length t.calls) t.ctx.qp t.ctx.sq_wr (entry t.ctx t.ctx.sq_wr.sg_list)
            at.region.go_ahead in
        rw (quiet, deliver) (rw at.region.go_ahead at.posted, at.bytes, at.state)

    ten_rounds :
        (t : Sys) (l : List Transfer)
        → HasRegion addr key len t
        → eq_state t.ctx.state error ≡ false
        → transfers t.calls ≡ l
        → Returns
            (λ _ u. IsAt addr key len bs rdma_write_complete (echoes addr key len 10 l) u)
            (rounds 10 env t)
    unfolding rounds
    ten_rounds t l r calm el =
        round-Returns (λ _ u. IsAt addr key len bs rdma_write_complete (echoes addr key len 10 l) u)
          l t (λ _. rounds 9 env) r calm el
          (λ u. rounds-IsAt 9 (write_of addr key len ∷ read_of addr key len ∷ l) u)

    -- On a device that completes every transfer while it is posted, where the reads bring `bs`, a string
    -- that ends with the last of the `len` bytes advertised, and where they fit the buffer and the messages bring nothing: from
    -- RDMA_READ_ADV on, with the region prepared, `start_MegaVM_server` returns after ten reads and ten
    -- writes, in turn, each of just the region advertised, in RDMA_WRITE_COMPLETE and with `bs` at
    -- the start of its buffer.
    pub start_server-Echoed :
        (s : Sys)
        → HasRegion addr key len s
        → s.ctx.state ≡ rdma_read_adv
        → Returns (Echoed addr key len bs s) (start_server env s)
    unfolding start_server
    start_server-Echoed s r adv =
        let l = transfers s.calls in
        let Q = Echoed addr key len bs s in
        Returns-bind (λ _ t. t ≡ s) Q (wait env rdma_read_adv s) _
          (wait_passes env bs addr key len device rdma_read_adv (λ t. t ≡ s) s (rw adv refl) refl)
          λ _ t e.
            let same_calls : transfers t.calls ≡ l = ap (λ t. transfers t.calls) e in
            let region : HasRegion addr key len t = subst (HasRegion addr key len) (sym e) r in
            let state : t.ctx.state ≡ rdma_read_adv = ap (λ t. t.ctx.state) e ∙ adv in
            Returns-bind
              (λ _ u. IsAt addr key len bs rdma_write_complete (echoes addr key len 10 l) u) Q
              (rounds 10 env t) _ (ten_rounds t l region (rw state refl) same_calls)
              λ _ u au. go_ahead_last s u au
