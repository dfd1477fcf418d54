-- ===== src/Server/Echo/Posts.antt =====
-- One RDMA read and one RDMA write on a device that completes them while they are posted.
use infiniband.Common.{
  ℕ, ◌≤◌, ◌++◌, length, drop, ◌+◌, ◌%◌, ◌^◌, ◌<◌, ◌≡◌, refl, ap, ◌∙◌, true, false, some, List, [],
  ◌∷◌, arith,
}
use infiniband.Ib.Types.{
  le_state, eq_state, rdma_read_complete, rdma_write_complete, error, TestState,
}
use infiniband.Ib.Calls.{Call, Callback, Env, WcOpcode, cqe}
use infiniband.Ib.Machine.{
  reply_at, logged, skip, Sys, deref, deliver, call, wait_until, raw_call, and_then, when,
}
use infiniband.Ib.Frame.{Returns, Returns-bind}
use infiniband.Ib.Events
use infiniband.Ib.Events.{on_opcode, on_status, landed, poll_loop, print_sink, store_bytes}
use infiniband.Ib.Buffer.{store_bytes-eq, length-stored, strlen-append}
use infiniband.Ib.Steps.{strlen}
use infiniband.Server.Events.{handler, cq_event_handler}
use infiniband.Server.Transfer.{wait, rdma_read, rdma_write}
use infiniband.Server.Echo.{
  completed, Transfer, transfers, IsPrompt, HasRegion, Begins, IsAt, read_of, write_of,
}

module _ (env : Env) (bs : List ℕ) (addr key len : ℕ) (device : IsPrompt env bs addr key len) where
  -- A call during which the handler `k` runs.
  call_with :
      (c : Call) (k : Callback) (P : Sys → Type 0) (s : Sys)
      → (reply_at env c s).callbacks ≡ k ∷ []
      → Returns (λ _ t. P t) (handler env k (logged env c s))
      → Returns (λ _ t. P t) (call env (handler env) c s)
  unfolding call deliver
  call_with c k P s e h =
      rw (e, deliver)
        (Returns-bind (λ _ t. P t) (λ _ t. P t)
          (and_then (handler env k (logged env c s)) (λ _. skip)) _
          (Returns-bind (λ _ t. P t) (λ _ t. P t) (handler env k (logged env c s)) (λ _. skip) h
            (λ x t p. p))
          (λ x t p. p))

  pub wait_passes :
      (st : TestState) (P : Sys → Type 0) (u : Sys)
      → le_state st u.ctx.state ≡ true
      → P u
      → Returns (λ _ t. P t) (wait env st u)
  unfolding wait_until
  wait_passes st P u e p = rw (wait_until, e) p

  read_lands :
      (n : ℕ)
      → strlen bs ≡ some n
      → length bs ≡ len
      → (u : Sys) (l : List Transfer) → HasRegion addr key len u
      → eq_state u.ctx.state error ≡ false
      → transfers u.calls ≡ l
      → Returns
          (λ _ t. IsAt addr key len bs rdma_read_complete l t)
          (handler env (cqe (completed WcOpcode.wc_rdma_read bs ∷ []) 0) u)
  unfolding handler cq_event_handler Events.cq_event_handler poll_loop landed on_status on_opcode
      print_sink raw_call
  read_lands n text size u l r calm e =
      let fits : length bs ≤ length u.ctx.rdma_data = omega (arith, r.room) in
      let rest = drop (length bs) u.ctx.rdma_data in
      let string : strlen (bs ++ rest) ≡ some n = strlen-append bs rest n text in
      rw (calm, store_bytes-eq bs u.ctx.rdma_data fits, r.sink, string, r.entry)
        (record {
          region = record {
            sink = r.sink;
            room = omega (arith, r.room, length-stored bs u.ctx.rdma_data fits);
            entry = refl;
            memory = r.memory;
            remote_addr = r.remote_addr;
            remote_rkey = r.remote_rkey;
            remote_len = r.remote_len;
            go_ahead = r.go_ahead;
          };
          state = refl;
          bytes = (rest, refl);
          posted = e;
        })

  write_lands :
      (u : Sys) (l : List Transfer)
      → HasRegion addr key len u
      → Begins bs u
      → eq_state u.ctx.state error ≡ false
      → transfers u.calls ≡ l
      → Returns
          (λ _ t. IsAt addr key len bs rdma_write_complete l t)
          (handler env (cqe (completed WcOpcode.wc_rdma_write [] ∷ []) 0) u)
  unfolding handler cq_event_handler Events.cq_event_handler poll_loop landed on_status on_opcode
      raw_call
  write_lands u l r same calm e =
      rw (calm, r.entry)
        (record {
          region = record {
            sink = r.sink;
            room = r.room;
            entry = refl;
            memory = r.memory;
            remote_addr = r.remote_addr;
            remote_rkey = r.remote_rkey;
            remote_len = r.remote_len;
            go_ahead = r.go_ahead;
          };
          state = refl;
          bytes = same;
          posted = e;
        })

  pub rdma_read-IsAt :
      (n : ℕ)
      → strlen bs ≡ some n
      → length bs ≡ len
      → (s : Sys) → HasRegion addr key len s
      → eq_state s.ctx.state error ≡ false
      → Returns
          (λ _ t.
            IsAt addr key len bs rdma_read_complete (read_of addr key len ∷ transfers s.calls) t)
          (rdma_read env s)
  unfolding rdma_read
  rdma_read-IsAt n text size s r calm =
      let Q : Unit {0} → Sys → Type 0 = λ _ t.
        IsAt addr key len bs rdma_read_complete (read_of addr key len ∷ transfers s.calls) t in
      rw (r.entry, r.memory, deref)
        (Returns-bind
          (λ _ t.
            IsAt addr key len bs rdma_read_complete (read_of addr key len ∷ transfers s.calls) t)
          Q (call env (handler env) _ _) _
          (call_with _ _
            (IsAt addr key len bs rdma_read_complete (read_of addr key len ∷ transfers s.calls)) _
            (device.read _ _ _ _ refl r.remote_addr r.remote_rkey r.remote_len)
            (read_lands n text size _ _
              (record {
                entry = refl;
                memory = r.memory;
                remote_addr = r.remote_addr;
                remote_rkey = r.remote_rkey;
                remote_len = r.remote_len;
                go_ahead = r.go_ahead;
                sink = r.sink;
                room = r.room;
              })
              calm (rw (r.remote_addr, r.remote_rkey, r.remote_len) refl)))
          λ x t at.
            wait_passes rdma_read_complete
              (IsAt addr key len bs rdma_read_complete (read_of addr key len ∷ transfers s.calls)) _
              (rw at.state refl)
              (record {
                region = record {
                  entry = at.region.entry;
                  memory = at.region.memory;
                  remote_addr = at.region.remote_addr;
                  remote_rkey = at.region.remote_rkey;
                  remote_len = at.region.remote_len;
                  go_ahead = at.region.go_ahead;
                  sink = at.region.sink;
                  room = at.region.room;
                };
                state = at.state;
                bytes = at.bytes;
                posted = at.posted;
              }))

  module _ (n : ℕ) (text : strlen bs ≡ some n) (whole : n + 1 ≡ len) (small : len < 2 ^ 32) where
    pub rdma_write-IsAt :
        (s : Sys)
        → HasRegion addr key len s
        → Begins bs s
        → eq_state s.ctx.state error ≡ false
        → Returns
            (λ _ t.
              IsAt addr key len bs rdma_write_complete
                (write_of addr key len ∷ transfers s.calls)
                t)
            (rdma_write env s)
    unfolding rdma_write
    rdma_write-IsAt s r same calm =
        let here : strlen s.ctx.rdma_data ≡ some n =
          ap strlen same.1 ∙ strlen-append bs same.0 n text in
        let fits : (n + 1) % 2 ^ 32 ≡ len = omega arith in
        let Q : Unit {0} → Sys → Type 0 = λ _ t.
          IsAt addr key len bs rdma_write_complete (write_of addr key len ∷ transfers s.calls) t in
        rw (r.sink, here, r.entry, r.memory, deref, when)
          (Returns-bind
            (λ _ t.
              IsAt addr key len bs rdma_write_complete (write_of addr key len ∷ transfers s.calls)
                t)
            Q (call env (handler env) _ _) _
            (call_with _ _
              (IsAt addr key len bs rdma_write_complete (write_of addr key len ∷ transfers s.calls))
              _ (device.write _ _ _ _ refl)
              (write_lands _ _
                (record {
                  entry = refl;
                  memory = r.memory;
                  remote_addr = r.remote_addr;
                  remote_rkey = r.remote_rkey;
                  remote_len = r.remote_len;
                  go_ahead = r.go_ahead;
                  sink = r.sink;
                  room = r.room;
                })
                same calm (rw (r.remote_addr, r.remote_rkey, fits) refl)))
            λ x t at.
              wait_passes rdma_write_complete
                (IsAt addr key len bs rdma_write_complete
                  (write_of addr key len ∷ transfers s.calls))
                t (rw at.state refl) at)
