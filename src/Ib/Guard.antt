-- ===== src/Ib/Guard.antt =====
-- A condition on the context that the event handlers keep, where every connection request carries one
-- identifier and every read brings a string.
use infiniband.Common.{
  ℕ, ◌≤◌, length, ◌≡◌, refl, ◌⊎◌, inl, inr, Bool, false, not, Option, none, some, List, [], ◌∷◌,
  ◌==◌, if◌then◌else◌,
}
use infiniband.Ib.Types.{
  Ptr, IbContext, TestState, eq_state, connect_request, connected, error, SgeRef,
}
use infiniband.Ib.Calls.{
  Call, CmEvent, Wc, WcOpcode, WcStatus, Callback, cma, cqe, Env, rdma_resolve_route,
  ib_req_notify_cq, ib_post_recv,
}
use infiniband.Ib.Machine.{
  Sys, Outcome, Cmd, and_then, raw_call, skip, load_sge, wake_up, when, set_state, entry,
}
use infiniband.Ib.Steps.{HasString}
use infiniband.Ib.Wake.{Leaves, Leaves-bind, Leaves-if, Leaves-mono, print_sink-same}
use infiniband.Ib.Events.{
  Treatment, cma_event_handler, cq_event_handler, on_recv, on_opcode, on_status, landed, poll_loop,
  print_sink, store_bytes, put_block,
}

-- A change that reports no connection request, and leaves the child and the buffer alone.
abbrev pub Quietly : IbContext → IbContext → Type 0
Quietly c c' =
    (c'.child_cm_id ≡ c.child_cm_id)
    × (c'.rdma_data ≡ c.rdma_data)
    × (c'.rdma_buf ≡ c.rdma_buf)
    × ((c'.state ≡ c.state) ⊎ (eq_state c'.state connect_request ≡ false))

-- What a condition has to survive.
pub record IsStable (env : Env) (child : Ptr) (G : IbContext → Type 0) : Type 0 where
  pub quietly : (c c' : IbContext) → Quietly c c' → G c → G c'
  pub request :
      (c : IbContext) → G c → G (record c { state = connect_request; child_cm_id = child })
  pub landed_lem :
      (c : IbContext) (bs block : List ℕ)
      → store_bytes bs c.rdma_data ≡ some block
      → HasString bs
      → G c
      → G (record c { rdma_data = block })
  pub sink :
      (c : IbContext) (p : Ptr) → G c → G (record c { rdma_buf = p; rdma_data = env.garbage p })

-- The connection requests carry `child`, and what a read brings has a string and fits the buffer.
abbrev IsFairEvent : Ptr → Ptr → CmEvent → Type 0
IsFairEvent child id CmEvent.connect_request = id ≡ child
IsFairEvent child id _ = Unit

abbrev pub IsFairWc : WcOpcode → WcStatus → List ℕ → Type 0
IsFairWc WcOpcode.wc_rdma_read WcStatus.success bs = (length bs ≤ 64) × HasString bs
IsFairWc _ _ bs = Unit

abbrev pub AllFair : List Wc → Type 0
AllFair [] = Unit
AllFair (wc ∷ wcs) = IsFairWc wc.opcode wc.status wc.bytes × AllFair wcs

abbrev pub IsFair : Ptr → Callback → Type 0
IsFair child (cma id e) = IsFairEvent child id e
IsFair child (cqe wcs last) = AllFair wcs

module _ (env : Env) (child : Ptr) (G : IbContext → Type 0) (st : IsStable env child G) where
  -- A run that ends keeps the condition.
  abbrev pub Stays : {A : Type 0} → Outcome A → Type 0
  Stays = Leaves (λ _ t. G t.ctx)

  Stays-bind :
      {A B : Type 0} (o : Outcome A) (k : A → Cmd B)
      → Stays o
      → ((a : A) (t : Sys) → G t.ctx → Stays (k a t))
      → Stays (and_then o k)
  Stays-bind o k h next = Leaves-bind (λ _ t. G t.ctx) (λ _ t. G t.ctx) o k h next

  Stays-if :
      {A : Type 0} (b : Bool) (m n : Cmd A) (s : Sys)
      → Stays (m s)
      → Stays (n s)
      → Stays ((if b then m else n) s)
  Stays-if b m n s h k = Leaves-if (λ _ t. G t.ctx) b m n s h k

  Stays-raw_call : (c : Call) (s : Sys) → G s.ctx → Stays (raw_call env c s)
  unfolding raw_call
  Stays-raw_call c s g = g

  set_state-keeps :
      (c : IbContext) (t : TestState)
      → eq_state t connect_request ≡ false
      → G c
      → G (record c { state = t })
  set_state-keeps c t e g = st.quietly c (record c { state = t }) (refl, refl, refl, inr e) g

  pub cma_event_handler-Stays :
      (id : Ptr) (e : CmEvent) (s : Sys)
      → IsFairEvent child id e
      → G s.ctx
      → Stays (cma_event_handler env id e s)
  unfolding cma_event_handler
  cma_event_handler-Stays id CmEvent.addr_resolved s f g =
      Stays-bind (raw_call env (rdma_resolve_route id 2000) _) _
        (Stays-raw_call (rdma_resolve_route id 2000) _ (set_state-keeps s.ctx _ refl g))
        λ ret t h. Stays-if (not (ret == 0)) wake_up skip t h h
  cma_event_handler-Stays id CmEvent.route_resolved s f g = set_state-keeps s.ctx _ refl g
  cma_event_handler-Stays id CmEvent.connect_request s f g = rw f (st.request s.ctx g)
  cma_event_handler-Stays id CmEvent.established s f g =
      Stays-bind (when (s.ctx.server == 0) (set_state connected) s) (λ _. wake_up)
        (Stays-if (s.ctx.server == 0) (set_state connected) skip s (set_state-keeps s.ctx _ refl g)
          g)
        λ a t h. h
  cma_event_handler-Stays id CmEvent.addr_error s f g = set_state-keeps s.ctx _ refl g
  cma_event_handler-Stays id CmEvent.route_error s f g = set_state-keeps s.ctx _ refl g
  cma_event_handler-Stays id CmEvent.connect_error s f g = set_state-keeps s.ctx _ refl g
  cma_event_handler-Stays id CmEvent.unreachable s f g = set_state-keeps s.ctx _ refl g
  cma_event_handler-Stays id CmEvent.rejected s f g = set_state-keeps s.ctx _ refl g
  cma_event_handler-Stays id CmEvent.disconnected s f g = set_state-keeps s.ctx _ refl g
  cma_event_handler-Stays id CmEvent.device_removal s f g = g
  cma_event_handler-Stays id CmEvent.other_event s f g = g

  module _ (on : Treatment) (stays : (wc : Wc) (s : Sys) → G s.ctx → Stays (on.message wc s)) where
    on_recv-Stays : (wc : Wc) (s : Sys) → G s.ctx → Stays (on_recv env on wc s)
    unfolding on_recv
    on_recv-Stays wc s g =
        Stays-bind (on.message wc _) _
          (stays wc _ (st.quietly s.ctx _ (refl, refl, refl, inl refl) g))
          λ ret t h. Stays-if (not (ret == 0)) _ _ t h (
            Stays-bind
              (raw_call env (ib_post_recv t.ctx.qp t.ctx.rq_wr (entry t.ctx t.ctx.rq_wr.sg_list)) t)
              _ (Stays-raw_call _ t h) λ posted u h'. Stays-if (not (posted == 0)) _ _ u h' h')

    load_sge-Stays : (l : Option SgeRef) (s : Sys) → G s.ctx → Stays (load_sge l s)
    load_sge-Stays none s g = tt
    load_sge-Stays (some r) s g = g

    print_sink-Stays : (b : Bool) (s : Sys) → G s.ctx → Stays (print_sink b s)
    print_sink-Stays b s g =
        Leaves-mono (λ _ t. t ≡ s) (λ _ t. G t.ctx) _ (print_sink-same env b s) λ _ t e. rw e g

    on_opcode-Stays : (o : WcOpcode) (wc : Wc) (s : Sys) → G s.ctx → Stays (on_opcode env on o wc s)
    unfolding on_opcode
    on_opcode-Stays WcOpcode.wc_send wc s g = st.quietly s.ctx _ (refl, refl, refl, inl refl) g
    on_opcode-Stays WcOpcode.wc_rdma_write wc s g =
        Stays-bind (load_sge s.ctx.rdma_sq_wr.sg_list s) _ (load_sge-Stays _ s g)
          λ sge t h. st.quietly t.ctx _ (refl, refl, refl, inr refl) h
    on_opcode-Stays WcOpcode.wc_rdma_read wc s g =
        Stays-bind (print_sink on.prints s) _ (print_sink-Stays on.prints s g) λ _ u k.
          Stays-bind (load_sge u.ctx.rdma_sq_wr.sg_list u) _ (load_sge-Stays _ u k)
            λ sge t h. st.quietly t.ctx _ (refl, refl, refl, inr refl) h
    on_opcode-Stays WcOpcode.wc_recv wc s g = on_recv-Stays wc s g
    on_opcode-Stays WcOpcode.wc_other wc s g = g

    on_status-Stays :
        (status : WcStatus) (wc : Wc) (s : Sys) → G s.ctx → Stays (on_status env on status wc s)
    unfolding on_status
    on_status-Stays WcStatus.success wc s g = on_opcode-Stays wc.opcode wc s g
    on_status-Stays WcStatus.flush_err wc s g = g
    on_status-Stays WcStatus.failure wc s g = g

    put_block-Stays :
        (o : Option (List ℕ)) (s : Sys)
        → ((block : List ℕ) → o ≡ some block → G (record (s.ctx) { rdma_data = block }))
        → Stays (put_block o s)
    put_block-Stays none s h = tt
    put_block-Stays (some block) s h = h block refl

    landed-Stays :
        (o : WcOpcode) (status : WcStatus) (wc : Wc) (s : Sys)
        → IsFairWc o status wc.bytes
        → G s.ctx
        → Stays (landed o status wc s)
    unfolding landed
    landed-Stays WcOpcode.wc_recv WcStatus.success wc s f g =
        st.quietly s.ctx _ (refl, refl, refl, inl refl) g
    landed-Stays WcOpcode.wc_rdma_read WcStatus.success wc s f g =
        put_block-Stays (store_bytes wc.bytes s.ctx.rdma_data) s
          λ block e. st.landed_lem s.ctx wc.bytes block e f.1 g
    landed-Stays _ _ wc s f g = g

    poll_loop-Stays :
        (last : ℕ) (wcs : List Wc) (s : Sys)
        → AllFair wcs
        → G s.ctx
        → Stays (poll_loop env on last wcs s)
    unfolding poll_loop
    poll_loop-Stays last [] s f g = g
    poll_loop-Stays last (wc ∷ wcs) s f g =
        Stays-bind (landed wc.opcode wc.status wc s) _ (landed-Stays wc.opcode wc.status wc s f.0 g)
          λ _ t h.
            Stays-bind (on_status env on wc.status wc t) _ (on_status-Stays wc.status wc t h)
              λ go u h'. Stays-if go _ _ u (poll_loop-Stays last wcs u f.1 h') h'

    pub cq_event_handler-Stays :
        (wcs : List Wc) (last : ℕ) (s : Sys)
        → AllFair wcs
        → G s.ctx
        → Stays (cq_event_handler env on wcs last s)
    unfolding cq_event_handler
    cq_event_handler-Stays wcs last s f g = Stays-if (eq_state s.ctx.state error) _ _ s g (
        Stays-bind (raw_call env (ib_req_notify_cq s.ctx.cq) s) _ (Stays-raw_call _ s g) λ ret t h.
          Stays-bind (poll_loop env on last wcs t) _ (poll_loop-Stays last wcs t f h)
            λ good u h'. Stays-if good _ _ u h' (set_state-keeps u.ctx error refl h'))
