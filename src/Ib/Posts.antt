-- ===== src/Ib/Posts.antt =====
-- The RDMA transfers that a run posts: the handlers post none.
use infiniband.Common.{
  ℕ, ◌≡◌, Bool, true, false, not, ◌&&◌, ◌==◌, Option, none, some, List, [], ◌∷◌, if◌then◌else◌,
}
use infiniband.Ib.Types.{Ptr, TestState, WrOpcode, wr_send, SgeRef, le_state, eq_state, error}
use infiniband.Ib.Calls.{
  Call, CmEvent, Callback, Wc, WcOpcode, WcStatus, Env, rdma_resolve_route, ib_req_notify_cq,
  ib_post_recv, ib_post_send, wait_event_interruptible,
}
use infiniband.Ib.Machine.{
  Sys, Outcome, done, Cmd, and_then, raw_call, reply_at, logged, deliver, call, sleep, wait_until,
  skip, load_sge, wake_up, when, set_state, entry,
}
use infiniband.Ib.Wake.{Leaves, Leaves-bind, Leaves-if, Leaves-mono, print_sink-same, load_sge-same}
use infiniband.Ib.Events.{
  Treatment, cma_event_handler, cq_event_handler, on_recv, on_opcode, on_status, landed, poll_loop,
  print_sink, store_bytes, put_block,
}

-- A post before the transfers `l`; a message is no transfer.
abbrev pub opcode_on : WrOpcode → List WrOpcode → List WrOpcode
opcode_on wr_send l = l
opcode_on o l = o ∷ l

abbrev pub call_on : Call → List WrOpcode → List WrOpcode
call_on (ib_post_send q wr e) l = opcode_on wr.opcode l
call_on _ l = l

-- The opcodes of the transfers among the calls, newest first.
abbrev pub opcodes : List (Call × ℕ) → List WrOpcode
opcodes [] = []
opcodes ((c, a) ∷ l) = call_on c (opcodes l)

-- The transfers posted so far are `l`.
abbrev pub Posted : List WrOpcode → Sys → Type 0
Posted l t = opcodes t.calls ≡ l

abbrev pub LeavesPosted : {A : Type 0} → List WrOpcode → Outcome A → Type 0
LeavesPosted l = Leaves (λ _ t. Posted l t)

module _ (env : Env) (l : List WrOpcode) where
  after :
      {A B : Type 0} (o : Outcome A) (k : A → Cmd B)
      → LeavesPosted l o
      → ((a : A) (t : Sys) → Posted l t → LeavesPosted l (k a t))
      → LeavesPosted l (and_then o k)
  after = Leaves-bind (λ _ t. Posted l t) (λ _ t. Posted l t)

  choose :
      {A : Type 0} (b : Bool) (m n : Cmd A) (s : Sys)
      → LeavesPosted l (m s)
      → LeavesPosted l (n s)
      → LeavesPosted l ((if b then m else n) s)
  choose = Leaves-if (λ _ t. Posted l t)

  raw_call-Posted :
      (c : Call) (s : Sys) → call_on c (opcodes s.calls) ≡ l → LeavesPosted l (raw_call env c s)
  unfolding raw_call
  raw_call-Posted c s e = e

  load_sge-Posted : (r : Option SgeRef) (s : Sys) → Posted l s → LeavesPosted l (load_sge r s)
  load_sge-Posted r s e =
      Leaves-mono (λ _ t. t ≡ s) (λ _ t. Posted l t) _ (load_sge-same env r s) λ _ t same. rw same e

  print_sink-Posted : (b : Bool) (s : Sys) → Posted l s → LeavesPosted l (print_sink b s)
  print_sink-Posted b s e =
      Leaves-mono (λ _ t. t ≡ s) (λ _ t. Posted l t) _ (print_sink-same env b s)
        λ _ t same. rw same e

  pub cma_event_handler-Posted :
      (id : Ptr) (e : CmEvent) (s : Sys)
      → Posted l s
      → LeavesPosted l (cma_event_handler env id e s)
  unfolding cma_event_handler
  cma_event_handler-Posted id CmEvent.addr_resolved s p =
      after (raw_call env (rdma_resolve_route id 2000) _) _ (raw_call-Posted _ _ p)
        λ ret t pt. choose (not (ret == 0)) wake_up skip t pt pt
  cma_event_handler-Posted id CmEvent.established s p =
      after (when (s.ctx.server == 0) (set_state _) s) (λ _. wake_up)
        (choose (s.ctx.server == 0) (set_state _) skip s p p) λ _ t pt. pt
  cma_event_handler-Posted id CmEvent.route_resolved s p = p
  cma_event_handler-Posted id CmEvent.connect_request s p = p
  cma_event_handler-Posted id CmEvent.addr_error s p = p
  cma_event_handler-Posted id CmEvent.route_error s p = p
  cma_event_handler-Posted id CmEvent.connect_error s p = p
  cma_event_handler-Posted id CmEvent.unreachable s p = p
  cma_event_handler-Posted id CmEvent.rejected s p = p
  cma_event_handler-Posted id CmEvent.disconnected s p = p
  cma_event_handler-Posted id CmEvent.device_removal s p = p
  cma_event_handler-Posted id CmEvent.other_event s p = p

  module _ (on : Treatment)
      (quiet : (wc : Wc) (s : Sys) → Posted l s → LeavesPosted l (on.message wc s)) where
    on_recv-Posted : (wc : Wc) (s : Sys) → Posted l s → LeavesPosted l (on_recv env on wc s)
    unfolding on_recv
    on_recv-Posted wc s p = after (on.message wc _) _ (quiet wc _ p) λ ret t pt.
        choose (not (ret == 0)) _ _ t pt (
          after
            (raw_call env (ib_post_recv t.ctx.qp t.ctx.rq_wr (entry t.ctx t.ctx.rq_wr.sg_list)) t) _
            (raw_call-Posted _ t pt) λ posted u pu. choose (not (posted == 0)) _ _ u pu pu)

    on_opcode-Posted :
        (o : WcOpcode) (wc : Wc) (s : Sys) → Posted l s → LeavesPosted l (on_opcode env on o wc s)
    unfolding on_opcode
    on_opcode-Posted WcOpcode.wc_send wc s p = p
    on_opcode-Posted WcOpcode.wc_rdma_write wc s p =
        after (load_sge s.ctx.rdma_sq_wr.sg_list s) _ (load_sge-Posted _ s p) λ sge t pt. pt
    on_opcode-Posted WcOpcode.wc_rdma_read wc s p =
        after (print_sink on.prints s) _ (print_sink-Posted on.prints s p) λ _ t pt.
          after (load_sge t.ctx.rdma_sq_wr.sg_list t) _ (load_sge-Posted _ t pt) λ sge u pu. pu
    on_opcode-Posted WcOpcode.wc_recv wc s p = on_recv-Posted wc s p
    on_opcode-Posted WcOpcode.wc_other wc s p = p

    on_status-Posted :
        (st : WcStatus) (wc : Wc) (s : Sys) → Posted l s → LeavesPosted l (on_status env on st wc s)
    unfolding on_status
    on_status-Posted WcStatus.success wc s p = on_opcode-Posted wc.opcode wc s p
    on_status-Posted WcStatus.flush_err wc s p = p
    on_status-Posted WcStatus.failure wc s p = p

    put_block-Posted : (o : Option (List ℕ)) (s : Sys) → Posted l s → LeavesPosted l (put_block o s)
    put_block-Posted none s p = tt
    put_block-Posted (some block) s p = p

    landed-Posted :
        (o : WcOpcode) (st : WcStatus) (wc : Wc) (s : Sys)
        → Posted l s
        → LeavesPosted l (landed o st wc s)
    unfolding landed
    landed-Posted WcOpcode.wc_recv WcStatus.success wc s p = p
    landed-Posted WcOpcode.wc_rdma_read WcStatus.success wc s p =
        put_block-Posted (store_bytes wc.bytes s.ctx.rdma_data) s p
    landed-Posted _ _ wc s p = p

    poll_loop-Posted :
        (last : ℕ) (wcs : List Wc) (s : Sys)
        → Posted l s
        → LeavesPosted l (poll_loop env on last wcs s)
    unfolding poll_loop
    poll_loop-Posted last [] s p = p
    poll_loop-Posted last (wc ∷ wcs) s p =
        after (landed wc.opcode wc.status wc s) _ (landed-Posted wc.opcode wc.status wc s p)
          λ _ t pt.
            after (on_status env on wc.status wc t) _ (on_status-Posted wc.status wc t pt)
              λ go u pu. choose go _ _ u (poll_loop-Posted last wcs u pu) pu

    pub cq_event_handler-Posted :
        (wcs : List Wc) (last : ℕ) (s : Sys)
        → Posted l s
        → LeavesPosted l (cq_event_handler env on wcs last s)
    unfolding cq_event_handler
    cq_event_handler-Posted wcs last s p = choose (eq_state s.ctx.state error) _ _ s p (
        after (raw_call env (ib_req_notify_cq s.ctx.cq) s) _ (raw_call-Posted _ s p) λ ret t pt.
          after (poll_loop env on last wcs t) _ (poll_loop-Posted last wcs t pt)
            λ good u pu. choose good _ _ u pu pu)

  -- The main thread: what a call posts, and that a wait posts nothing.
  module _ (handler : Callback → Cmd (Unit {0}))
      (quiet : (k : Callback) (s : Sys) → Posted l s → LeavesPosted l (handler k s)) where
    deliver-Posted :
        (ks : List Callback) (s : Sys) → Posted l s → LeavesPosted l (deliver env handler ks s)
    unfolding deliver
    deliver-Posted [] s p = p
    deliver-Posted (k ∷ ks) s p =
        after (handler k s) _ (quiet k s p) λ _ t pt. deliver-Posted ks t pt

    pub call-Posted :
        (c : Call) (s : Sys)
        → call_on c (opcodes s.calls) ≡ l
        → LeavesPosted l (call env handler c s)
    unfolding call
    call-Posted c s e =
        after (deliver env handler (reply_at env c s).callbacks (logged env c s)) _
          (deliver-Posted (reply_at env c s).callbacks (logged env c s) e) λ _ t pt. pt

    one_of :
        (b : Bool) (o o' : Outcome ℕ)
        → LeavesPosted l o
        → LeavesPosted l o'
        → LeavesPosted l (if b then o else o')
    one_of true o o' h h' = h
    one_of false o o' h h' = h'

    sleep-Posted :
        (t : TestState) (signal : Bool) (ks : List Callback) (s : Sys)
        → Posted l s
        → LeavesPosted l (sleep env handler t signal ks s)
    unfolding sleep
    sleep-Posted t true [] s p = p
    sleep-Posted t false [] s p = tt
    sleep-Posted t signal (k ∷ ks) s p = after (handler k s) _ (quiet k s p) λ _ u pu.
        one_of (not (u.wakes == s.wakes) && le_state t u.ctx.state) (done 0 u)
          (sleep env handler t signal ks u) pu (sleep-Posted t signal ks u pu)

    pub wait-Posted :
        (t : TestState) (s : Sys) → Posted l s → LeavesPosted l (wait_until env handler t s)
    unfolding wait_until
    wait-Posted t s p = one_of (le_state t s.ctx.state) (done 0 s) _ p (
        sleep-Posted t (reply_at env (wait_event_interruptible t) s).signal
          (reply_at env (wait_event_interruptible t) s).callbacks
          (logged env (wait_event_interruptible t) s) p)
