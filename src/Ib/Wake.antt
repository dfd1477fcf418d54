-- ===== src/Ib/Wake.antt =====
-- No lost wake-up in the handlers of Ib/Events: who changes the state also wakes the main thread.
use infiniband.Common.{
  ℕ, ◌+◌, ◌≡◌, refl, ◌∙◌, ◌⊎◌, inl, inr, ◌<◌, ◌≤◌, Bool, true, false, not, ◌==◌, Option, none, some,
  List, [], ◌∷◌, arith, if◌then◌else◌, Bool-cases, Option-cases, ◌&&◌,
}
use infiniband.Ib.Types.{Ptr, null, addr_resolved, error, eq_state, SgeRef}
use infiniband.Ib.Calls.{
  Call, Callback, cma, cqe, CmEvent, Wc, WcOpcode, WcStatus, Env, rdma_resolve_route,
  ib_req_notify_cq, ib_post_recv,
}
use infiniband.Ib.Machine.{
  Sys, Outcome, done, asleep, oops, Cmd, and_then, raw_call, reply_at, ◌>>◌, skip, pure, load_sge,
  wake_up, when, set_state, entry,
}
use infiniband.Ib.Steps.{strlen}
use infiniband.Ib.Frame.{Returns}
use infiniband.Ib.Events.{
  Treatment, cma_event_handler, cq_event_handler, on_recv, on_opcode, on_status, landed, poll_loop,
  print_sink, store_bytes, put_block,
}

-- From `s` to `t` the state is as it was, or the waiting thread was woken.
abbrev pub Woke : Sys → Sys → Type 0
Woke s t = ((t.ctx.state ≡ s.ctx.state) × (s.wakes ≤ t.wakes)) ⊎ (s.wakes < t.wakes)

Woke-refl : (s : Sys) → Woke s s
Woke-refl s = inl (refl, ground arith)

Woke-trans : (s t u : Sys) → Woke s t → Woke t u → Woke s u
Woke-trans s t u (inl (e, h)) (inl (e', h')) = inl (e' ∙ e, ground arith)
Woke-trans s t u (inl (e, h)) (inr h') = inr (ground arith)
Woke-trans s t u (inr h) (inl (e', h')) = inr (ground arith)
Woke-trans s t u (inr h) (inr h') = inr (ground arith)

Woke-monotone : (s t : Sys) → Woke s t → s.wakes ≤ t.wakes
Woke-monotone s t (inl (e, h)) = h
Woke-monotone s t (inr h) = ground arith

-- Whatever a run that ends leaves.
abbrev pub Leaves : {A : Type 0} → (A → Sys → Type 0) → Outcome A → Type 0
Leaves Q (done a s) = Q a s
Leaves Q (asleep s) = Unit
Leaves Q oops = Unit

pub Leaves-bind :
    {A B : Type 0} (P : A → Sys → Type 0) (Q : B → Sys → Type 0) (o : Outcome A) (k : A → Cmd B)
    → Leaves P o
    → ((a : A) (s : Sys) → P a s → Leaves Q (k a s))
    → Leaves Q (and_then o k)
Leaves-bind P Q (done a s) k p next = next a s p
Leaves-bind P Q (asleep s) k p next = tt
Leaves-bind P Q oops k p next = tt

pub Leaves-mono :
    {A : Type 0} (P Q : A → Sys → Type 0) (o : Outcome A)
    → Leaves P o
    → ((a : A) (s : Sys) → P a s → Q a s)
    → Leaves Q o
Leaves-mono P Q (done a s) p next = next a s p
Leaves-mono P Q (asleep s) p next = tt
Leaves-mono P Q oops p next = tt

pub Leaves-if :
    {A : Type 0} (Q : A → Sys → Type 0) (b : Bool) (m n : Cmd A) (s : Sys)
    → Leaves Q (m s)
    → Leaves Q (n s)
    → Leaves Q ((if b then m else n) s)
Leaves-if Q true m n s hm hn = hm
Leaves-if Q false m n s hm hn = hn

-- A run that ends, and the same for what it leaves.
pub Returns-both :
    {A : Type 0} (P Q : A → Sys → Type 0) (o : Outcome A)
    → Returns P o
    → Leaves Q o
    → Returns (λ a t. P a t × Q a t) o
Returns-both P Q (done a s) p q = (p, q)
Returns-both P Q (asleep s) p q = absurd p
Returns-both P Q oops p q = absurd p

module _ (env : Env) where
  raw_call-Woke : (c : Call) (s : Sys) → Leaves (λ _ t. Woke s t) (raw_call env c s)
  unfolding raw_call
  raw_call-Woke c s = inl (refl, ground arith)

  raw_call-calm : (c : Call) (s : Sys) → Leaves (λ _ t. s.wakes ≤ t.wakes) (raw_call env c s)
  unfolding raw_call
  raw_call-calm c s = ground arith

  pub load_sge-same : (l : Option SgeRef) (s : Sys) → Leaves (λ _ t. t ≡ s) (load_sge l s)
  load_sge-same none s = tt
  load_sge-same (some r) s = refl

  pub print_sink-same : (b : Bool) (s : Sys) → Leaves (λ _ t. t ≡ s) (print_sink b s)
  unfolding print_sink
  print_sink-same b s =
      Leaves-if (λ _ t. t ≡ s) (b && not (s.ctx.rdma_buf == null)) _ skip s
        (elim (Option-cases (strlen s.ctx.rdma_data)) [ inl e ↦ rw e tt | inr (n, e) ↦ rw e refl ])
        refl

  -- A turn of the polling loop that goes on has woken the thread if it has changed the state.
  abbrev Turn : Sys → Bool → Sys → Type 0
  Turn s true t = Woke s t
  Turn s false t = s.wakes ≤ t.wakes

  Turn-after : (s t : Sys) (b : Bool) (u : Sys) → Woke s t → Turn t b u → Turn s b u
  Turn-after s t true u h k = Woke-trans s t u h k
  Turn-after s t false u h k = let m : s.wakes ≤ t.wakes = Woke-monotone s t h in ground arith

  module _ (on : Treatment)
      (calm : (wc : Wc) (s : Sys) → Leaves (λ _ t. s.wakes ≤ t.wakes) (on.message wc s)) where
    on_recv-Turn : (wc : Wc) (s : Sys) → Leaves (Turn s) (on_recv env on wc s)
    unfolding on_recv
    on_recv-Turn wc s =
        Leaves-bind (λ _ t. s.wakes ≤ t.wakes) (Turn s) (on.message wc _) _ (calm wc _)
          λ ret t h. Leaves-if (Turn s) (not (ret == 0)) _ _ t h (
            Leaves-bind (λ _ u. t.wakes ≤ u.wakes) (Turn s)
              (raw_call env (ib_post_recv t.ctx.qp t.ctx.rq_wr (entry t.ctx t.ctx.rq_wr.sg_list)) t)
              _ (raw_call-calm _ t)
              λ posted u h'.
                Leaves-if (Turn s) (not (posted == 0)) _ _ u (ground arith) (inr (ground arith)))

    on_opcode-Turn : (o : WcOpcode) (wc : Wc) (s : Sys) → Leaves (Turn s) (on_opcode env on o wc s)
    unfolding on_opcode
    on_opcode-Turn WcOpcode.wc_send wc s = inl (refl, ground arith)
    on_opcode-Turn WcOpcode.wc_rdma_write wc s =
        Leaves-bind (λ _ t. t ≡ s) (Turn s) (load_sge s.ctx.rdma_sq_wr.sg_list s) _
          (load_sge-same _ s) λ sge t e. inr (ground (arith, e))
    on_opcode-Turn WcOpcode.wc_rdma_read wc s =
        Leaves-bind (λ _ t. t ≡ s) (Turn s) (print_sink on.prints s) _ (print_sink-same _ s)
          λ _ t e.
            Leaves-bind (λ _ u. u ≡ t) (Turn s) (load_sge t.ctx.rdma_sq_wr.sg_list t) _
              (load_sge-same _ t) λ sge u e'. inr (ground (arith, e, e'))
    on_opcode-Turn WcOpcode.wc_recv wc s = on_recv-Turn wc s
    on_opcode-Turn WcOpcode.wc_other wc s = ground arith

    on_status-Turn :
        (st : WcStatus) (wc : Wc) (s : Sys) → Leaves (Turn s) (on_status env on st wc s)
    unfolding on_status
    on_status-Turn WcStatus.success wc s = on_opcode-Turn wc.opcode wc s
    on_status-Turn WcStatus.flush_err wc s = Woke-refl s
    on_status-Turn WcStatus.failure wc s = ground arith

    put_block-Woke : (o : Option (List ℕ)) (s : Sys) → Leaves (λ _ t. Woke s t) (put_block o s)
    put_block-Woke none s = tt
    put_block-Woke (some block) s = inl (refl, ground arith)

    landed-Woke :
        (o : WcOpcode) (st : WcStatus) (wc : Wc) (s : Sys)
        → Leaves (λ _ t. Woke s t) (landed o st wc s)
    unfolding landed
    landed-Woke WcOpcode.wc_recv WcStatus.success wc s = inl (refl, ground arith)
    landed-Woke WcOpcode.wc_rdma_read WcStatus.success wc s =
        put_block-Woke (store_bytes wc.bytes s.ctx.rdma_data) s
    landed-Woke _ _ wc s = Woke-refl s

    next-Turn :
        (last : ℕ) (wcs : List Wc) (s t : Sys)
        → Woke s t
        → ((u : Sys) → Leaves (Turn u) (poll_loop env on last wcs u))
        → (go : Bool) (u : Sys) → Turn t go u
        → Leaves (Turn s) ((if go then poll_loop env on last wcs else pure false) u)
    next-Turn last wcs s t h rest true u k =
        Leaves-mono (Turn u) (Turn s) _ (rest u) (λ b v. Turn-after s u b v (Woke-trans s t u h k))
    next-Turn last wcs s t h rest false u k = Turn-after s t false u h k

    poll_loop-Turn :
        (last : ℕ) (wcs : List Wc) (s : Sys) → Leaves (Turn s) (poll_loop env on last wcs s)
    unfolding poll_loop
    poll_loop-Turn last [] s = elim (Bool-cases (last == 0)) [
      | inl e ↦ rw e (Woke-refl s)
      | inr e ↦ rw e (ground arith)
    ]
    poll_loop-Turn last (wc ∷ wcs) s =
        Leaves-bind (λ _ t. Woke s t) (Turn s) (landed wc.opcode wc.status wc s) _
          (landed-Woke wc.opcode wc.status wc s)
          λ _ t h.
            Leaves-bind (Turn t) (Turn s) (on_status env on wc.status wc t) _
              (on_status-Turn wc.status wc t) (next-Turn last wcs s t h (poll_loop-Turn last wcs))

    -- Behind the loop: an error is recorded, and the thread is woken.
    finish :
        (s t : Sys)
        → Woke s t
        → (good : Bool) (u : Sys) → Turn t good u
        → Leaves (λ _ v. Woke s v) ((if good then skip else (set_state error >> wake_up)) u)
    finish s t h true u k = Woke-trans s t u h k
    finish s t h false u k = let m : s.wakes ≤ t.wakes = Woke-monotone s t h in inr (ground arith)

    -- Whatever completions are polled and however the polling ends, a completion interrupt that
    -- changes the state wakes the main thread, if the treatment of a message takes no wake-up back.
    pub cq_event_handler-Woke :
        (wcs : List Wc) (last : ℕ) (s : Sys)
        → Leaves (λ _ t. Woke s t) (cq_event_handler env on wcs last s)
    unfolding cq_event_handler
    cq_event_handler-Woke wcs last s =
        Leaves-if (λ _ t. Woke s t) (eq_state s.ctx.state error) _ _ s (Woke-refl s)
          (Leaves-bind (λ _ t. Woke s t) (λ _ t. Woke s t)
            (raw_call env (ib_req_notify_cq s.ctx.cq) s) _ (raw_call-Woke _ s)
            λ ret t h.
              Leaves-bind (Turn t) (λ _ v. Woke s v) (poll_loop env on last wcs t) _
                (poll_loop-Turn last wcs t) (finish s t h))

  -- Who is woken by an event: whoever waits where the state changes, but for ADDR_RESOLVED. It wakes
  -- nobody where the route has been asked for, and wakes where it could not be.
  abbrev pub WakesOn : Ptr → CmEvent → Sys → Sys → Type 0
  WakesOn id CmEvent.addr_resolved s t =
      (t.ctx.state ≡ addr_resolved)
      × (t.wakes ≡ (
          if (reply_at env (rdma_resolve_route id 2000) s).answer == 0
          then s.wakes
          else s.wakes + 1))
  WakesOn id CmEvent.device_removal s t = t ≡ s
  WakesOn id _ s t = s.wakes < t.wakes

  abbrev pub Wakes : Callback → Sys → Sys → Type 0
  Wakes (cma id e) s t = WakesOn id e s t
  Wakes (cqe wcs last) s t = Woke s t

  -- An event of the connection manager that changes the state wakes the main thread, except that
  -- ADDR_RESOLVED leaves the state at ADDR_RESOLVED, and wakes it if the route cannot be asked for.
  pub cma_event_handler-Woke :
      (id : Ptr) (e : CmEvent) (s : Sys)
      → Leaves (λ _ t. WakesOn id e s t) (cma_event_handler env id e s)
  unfolding cma_event_handler raw_call
  cma_event_handler-Woke id CmEvent.addr_resolved s =
      elim (Bool-cases ((reply_at env (rdma_resolve_route id 2000) s).answer == 0)) [
        | inl e ↦ rw (e, not, when) (refl, refl)
        | inr e ↦ rw (e, not, when) (refl, refl)
      ]
  cma_event_handler-Woke id CmEvent.route_resolved s = ground arith
  cma_event_handler-Woke id CmEvent.connect_request s = ground arith
  cma_event_handler-Woke id CmEvent.established s = elim (Bool-cases (s.ctx.server == 0)) [
    | inl e ↦ rw (e, when) (ground arith)
    | inr e ↦ rw (e, when) (ground arith)
  ]
  cma_event_handler-Woke id CmEvent.addr_error s = ground arith
  cma_event_handler-Woke id CmEvent.route_error s = ground arith
  cma_event_handler-Woke id CmEvent.connect_error s = ground arith
  cma_event_handler-Woke id CmEvent.unreachable s = ground arith
  cma_event_handler-Woke id CmEvent.rejected s = ground arith
  cma_event_handler-Woke id CmEvent.disconnected s = ground arith
  cma_event_handler-Woke id CmEvent.device_removal s = refl
  cma_event_handler-Woke id CmEvent.other_event s = ground arith
