-- ===== src/Ib/Frame.antt =====
-- What the event handlers leave alone: everything in the context but the state, the statistics and
-- what arrives from the other side, and the resources held.
use infiniband.Common.{
  ℕ, ◌≤◌, ◌≡◌, refl, ap, ◌∙◌, length, List, arith, Bool, true, false, some, [], not, ◌==◌,
  if◌then◌else◌,
}
use infiniband.Ib.Types.{Ptr, IbContext, idle, addr_resolved, connected, SgeRef}
use infiniband.Ib.Calls.{Call, CmEvent, WcOpcode, WcStatus, Env, rdma_resolve_route}
use infiniband.Ib.Machine.{
  Sys, Outcome, done, asleep, oops, Cmd, and_then, raw_call, when, set_state, wake_up, skip,
}
use infiniband.Ib.Events.{cma_event_handler}
use infiniband.Ib.Steps
use infiniband.Ib.Steps.{HasString}
use infiniband.Ib.Ledger.{held, held-neutral, IsNeutral}

-- Total correctness of a run: it ends, and the end satisfies `Q`.
abbrev pub Returns : {A : Type 0} → (A → Sys → Type 0) → Outcome A → Type 0
Returns Q (done a s) = Q a s
Returns Q (asleep s) = ⊥
Returns Q oops = ⊥

pub Returns-bind :
    {A B : Type 0} (P : A → Sys → Type 0) (Q : B → Sys → Type 0) (o : Outcome A) (k : A → Cmd B)
    → Returns P o
    → ((a : A) (s : Sys) → P a s → Returns Q (k a s))
    → Returns Q (and_then o k)
Returns-bind P Q (done a s) k p next = next a s p
Returns-bind P Q (asleep s) k p next = absurd p
Returns-bind P Q oops k p next = absurd p

-- A run that stops at a bad pointer.
abbrev pub Stops : {A : Type 0} → Outcome A → Type 0
Stops (done a s) = ⊥
Stops (asleep s) = ⊥
Stops oops = Unit

pub Stops-bind :
    {A B : Type 0} (P : A → Sys → Type 0) (o : Outcome A) (k : A → Cmd B)
    → Returns P o
    → ((a : A) (s : Sys) → P a s → Stops (k a s))
    → Stops (and_then o k)
Stops-bind P (done a s) k p next = next a s p
Stops-bind P (asleep s) k p next = absurd p
Stops-bind P oops k p next = absurd p

pub Stops-then : {A B : Type 0} (o : Outcome A) (k : A → Cmd B) → Stops o → Stops (and_then o k)
Stops-then (done a s) k h = absurd h
Stops-then (asleep s) k h = absurd h
Stops-then oops k h = tt

-- The context with what the handlers write blotted out.
abbrev pub frozen : IbContext → IbContext
frozen c = record c {
  state = idle;
  stats = Steps.no_stats;
  child_cm_id = 0;
  recv_buf = Steps.no_info;
  rdma_data = [];
  remote_rkey = 0;
  remote_addr = 0;
  remote_len = 0;
}

module _ (env : Env) where
  -- From `s` to `s'` nothing but that has changed, the buffer has its size, and no resource was acquired
  -- or given back.
  pub record Kept (s s' : Sys) : Type 0 where
    pub context : frozen s'.ctx ≡ frozen s.ctx
    pub resources : held env s'.calls ≡ held env s.calls
    pub room : length s'.ctx.rdma_data ≡ length s.ctx.rdma_data

  pub Kept-refl : (s : Sys) → Kept s s
  Kept-refl s = record { context = refl; resources = refl; room = refl }

  pub Kept-trans : {s t u : Sys} → Kept s t → Kept t u → Kept s u
  Kept-trans h k = record {
    context = k.context ∙ h.context;
    resources = k.resources ∙ h.resources;
    room = k.room ∙ h.room;
  }

  -- A run from `s` that ends, and keeps all that.
  abbrev pub Keeps : {A : Type 0} → Sys → Outcome A → Type 0
  Keeps s = Returns (λ _ s'. Kept s s')

  pub Keeps-after : {A : Type 0} {s t : Sys} (o : Outcome A) → Kept s t → Keeps t o → Keeps s o
  Keeps-after (done a u) h k = Kept-trans h k
  Keeps-after (asleep u) h k = absurd k
  Keeps-after oops h k = absurd k

  pub Keeps-bind :
      {A B : Type 0} (s : Sys) (o : Outcome A) (k : A → Cmd B)
      → Keeps s o
      → ((a : A) (t : Sys) → Kept s t → Keeps t (k a t))
      → Keeps s (and_then o k)
  Keeps-bind s (done a t) k h next = Keeps-after (k a t) h (next a t h)
  Keeps-bind s (asleep t) k h next = absurd h
  Keeps-bind s oops k h next = absurd h

  pub Keeps-if :
      {A : Type 0} (s : Sys) (b : Bool) (m n : Cmd A)
      → Keeps s (m s)
      → Keeps s (n s)
      → Keeps s ((if b then m else n) s)
  Keeps-if s true m n hm hn = hm
  Keeps-if s false m n hm hn = hn

  pub Kept-raw_call : (c : Call) (s : Sys) → IsNeutral env c → Keeps s (raw_call env c s)
  unfolding raw_call
  Kept-raw_call c s n = record {
    context = refl;
    resources = held-neutral env c _ s.calls n;
    room = refl;
  }

  pub Kept-blotted :
      (s : Sys) (c : IbContext) (w : ℕ)
      → frozen c ≡ frozen s.ctx
      → length c.rdma_data ≡ length s.ctx.rdma_data
      → Kept s (record s { ctx = c; wakes = w })
  Kept-blotted s c w e z = record { context = e; resources = refl; room = z }

  pub cma_event_handler-Keeps :
      (id : Ptr) (e : CmEvent) (s : Sys) → Keeps s (cma_event_handler env id e s)
  unfolding cma_event_handler
  cma_event_handler-Keeps id CmEvent.addr_resolved s =
      let t = record s { ctx = record (s.ctx) { state = addr_resolved } } in
      Keeps-after _ (Kept-blotted s t.ctx s.wakes refl refl) (
        Keeps-bind t (raw_call env (rdma_resolve_route id 2000) t) _
          (Kept-raw_call (rdma_resolve_route id 2000) t (λ a rs. refl))
          λ ret u h.
            Keeps-if u (not (ret == 0)) wake_up skip (Kept-blotted u u.ctx _ refl refl)
              (Kept-refl u))
  cma_event_handler-Keeps id CmEvent.route_resolved s = Kept-blotted s _ _ refl refl
  cma_event_handler-Keeps id CmEvent.connect_request s = Kept-blotted s _ _ refl refl
  cma_event_handler-Keeps id CmEvent.established s =
      Keeps-bind s (when (s.ctx.server == 0) (set_state connected) s) (λ _. wake_up)
        (Keeps-if s (s.ctx.server == 0) (set_state connected) skip (Kept-blotted s _ _ refl refl)
          (Kept-refl s))
        λ a t h. Kept-blotted t t.ctx _ refl refl
  cma_event_handler-Keeps id CmEvent.addr_error s = Kept-blotted s _ _ refl refl
  cma_event_handler-Keeps id CmEvent.route_error s = Kept-blotted s _ _ refl refl
  cma_event_handler-Keeps id CmEvent.connect_error s = Kept-blotted s _ _ refl refl
  cma_event_handler-Keeps id CmEvent.unreachable s = Kept-blotted s _ _ refl refl
  cma_event_handler-Keeps id CmEvent.rejected s = Kept-blotted s _ _ refl refl
  cma_event_handler-Keeps id CmEvent.disconnected s = Kept-blotted s _ _ refl refl
  cma_event_handler-Keeps id CmEvent.device_removal s = Kept-refl s
  cma_event_handler-Keeps id CmEvent.other_event s = Kept-blotted s _ _ refl refl

  -- A transfer can be counted only if the request's scatter entry is set.
  abbrev pub CanCount : Sys → WcOpcode → Type 0
  CanCount s WcOpcode.wc_rdma_write = (r : SgeRef) × (s.ctx.rdma_sq_wr.sg_list ≡ some r)
  CanCount s WcOpcode.wc_rdma_read = (r : SgeRef) × (s.ctx.rdma_sq_wr.sg_list ≡ some r)
  CanCount s WcOpcode.wc_send = Unit
  CanCount s WcOpcode.wc_recv = Unit
  CanCount s WcOpcode.wc_other = Unit

  pub CanCount-Kept : (s t : Sys) (o : WcOpcode) → Kept s t → CanCount s o → CanCount t o
  CanCount-Kept s t WcOpcode.wc_rdma_write h (r, e) =
      (r, ap (λ c. c.rdma_sq_wr.sg_list) h.context ∙ e)
  CanCount-Kept s t WcOpcode.wc_rdma_read h (r, e) =
      (r, ap (λ c. c.rdma_sq_wr.sg_list) h.context ∙ e)
  CanCount-Kept s t WcOpcode.wc_send h c = tt
  CanCount-Kept s t WcOpcode.wc_recv h c = tt
  CanCount-Kept s t WcOpcode.wc_other h c = tt

  -- What a read has brought fits the buffer and has a NUL.
  abbrev pub Arrives : Sys → WcOpcode → WcStatus → List ℕ → Type 0
  Arrives s WcOpcode.wc_rdma_read WcStatus.success bs =
      (length bs ≤ length s.ctx.rdma_data) × HasString bs
  Arrives s _ _ bs = Unit

  pub Arrives-Kept :
      (s t : Sys) (o : WcOpcode) (st : WcStatus) (bs : List ℕ)
      → Kept s t
      → Arrives s o st bs
      → Arrives t o st bs
  Arrives-Kept s t WcOpcode.wc_rdma_read WcStatus.success bs h (fits, text) =
      (omega (arith, h.room), text)
  Arrives-Kept s t _ _ bs h a = tt
