-- ===== src/Ib/Completions.antt =====
-- The completion handler leaves alone what `Kept` of Ib/Frame says, and always ends.
use infiniband.Common.{
  ℕ, ◌≡◌, refl, Option, none, some, List, [], ◌∷◌, not, ◌==◌, ◌&&◌, Bool, arith,
}
use infiniband.Ib.Types.{SgeRef, null, eq_state, error}
use infiniband.Ib.Calls.{Wc, WcOpcode, WcStatus, Env, ib_req_notify_cq, ib_post_recv}
use infiniband.Ib.Machine.{Sys, raw_call, entry, load_sge, skip}
use infiniband.Ib.Steps.{HasString}
use infiniband.Ib.Buffer.{store_bytes-eq, stored-HasString}
use infiniband.Ib.Events.{
  Treatment, cq_event_handler, on_recv, on_opcode, on_status, landed, poll_loop, count_recv,
  print_sink,
}
use infiniband.Ib.Frame.{
  Kept, Kept-refl, Keeps, Keeps-after, Keeps-bind, Keeps-if, Kept-raw_call, Kept-blotted, CanCount,
  CanCount-Kept, Arrives, Arrives-Kept, Returns, Returns-bind,
}

module _ (env : Env) (on : Treatment)
    (quiet : (wc : Wc) (s : Sys) → Keeps env s (on.message wc s)) where
  on_recv-Keeps : (wc : Wc) (s : Sys) → Keeps env s (on_recv env on wc s)
  unfolding on_recv
  on_recv-Keeps wc s =
      let t = record s { ctx = record (s.ctx) { stats = count_recv s.ctx.stats } } in
      Keeps-after env _ (Kept-blotted env s t.ctx s.wakes refl refl) (
        Keeps-bind env t (on.message wc t) _ (quiet wc t) λ ret u h.
          Keeps-if env u (not (ret == 0)) _ _ (Kept-refl env u) (
            Keeps-bind env u
              (raw_call env (ib_post_recv u.ctx.qp u.ctx.rq_wr (entry u.ctx u.ctx.rq_wr.sg_list)) u)
              _ (Kept-raw_call env _ u (λ a rs. refl))
              λ posted v h'.
                Keeps-if env v (not (posted == 0)) _ _ (Kept-refl env v)
                  (Kept-blotted env v v.ctx _ refl refl)))

  load_sge-Keeps :
      (l : Option SgeRef) (s : Sys) → (r : SgeRef) × (l ≡ some r) → Keeps env s (load_sge l s)
  load_sge-Keeps none s (r, e) = absurd (ground arith)
  load_sge-Keeps (some l) s (r, e) = Kept-refl env s

  print_sink-same : (b : Bool) (s : Sys) → HasString s.ctx.rdma_data → Keeps env s (print_sink b s)
  unfolding print_sink
  print_sink-same b s (n, text) =
      Keeps-if env s (b && not (s.ctx.rdma_buf == null)) _ skip (rw text (Kept-refl env s))
        (Kept-refl env s)

  -- Once a read has landed, there is a string to print.
  abbrev Prints : WcOpcode → WcStatus → Sys → Type 0
  Prints WcOpcode.wc_rdma_read WcStatus.success t = HasString t.ctx.rdma_data
  Prints _ _ t = Unit

  on_opcode-Keeps :
      (o : WcOpcode) (wc : Wc) (s : Sys)
      → CanCount env s o
      → Prints o WcStatus.success s
      → Keeps env s (on_opcode env on o wc s)
  unfolding on_opcode
  on_opcode-Keeps WcOpcode.wc_send wc s c p = Kept-blotted env s _ s.wakes refl refl
  on_opcode-Keeps WcOpcode.wc_rdma_write wc s (r, e) p =
      Keeps-bind env s (load_sge s.ctx.rdma_sq_wr.sg_list s) _ (load_sge-Keeps _ s (r, e))
        λ sge t h. Kept-blotted env t _ _ refl refl
  on_opcode-Keeps WcOpcode.wc_rdma_read wc s c p =
      Keeps-bind env s (print_sink on.prints s) _ (print_sink-same on.prints s p) λ _ t h.
        Keeps-bind env t (load_sge t.ctx.rdma_sq_wr.sg_list t) _
          (load_sge-Keeps _ t (CanCount-Kept env s t WcOpcode.wc_rdma_read h c))
          λ sge u h'. Kept-blotted env u _ _ refl refl
  on_opcode-Keeps WcOpcode.wc_recv wc s c p = on_recv-Keeps wc s
  on_opcode-Keeps WcOpcode.wc_other wc s c p = Kept-refl env s

  on_status-Keeps :
      (st : WcStatus) (wc : Wc) (s : Sys)
      → CanCount env s wc.opcode
      → Prints wc.opcode st s
      → Keeps env s (on_status env on st wc s)
  unfolding on_status
  on_status-Keeps WcStatus.success wc s c p = on_opcode-Keeps wc.opcode wc s c p
  on_status-Keeps WcStatus.flush_err wc s c p = Kept-refl env s
  on_status-Keeps WcStatus.failure wc s c p = Kept-refl env s

  landed-Keeps :
      (o : WcOpcode) (st : WcStatus) (wc : Wc) (s : Sys)
      → Arrives env s o st wc.bytes
      → Returns (λ _ t. Kept env s t × Prints o st t) (landed o st wc s)
  unfolding landed
  landed-Keeps WcOpcode.wc_recv WcStatus.success wc s a =
      (Kept-blotted env s _ s.wakes refl refl, tt)
  landed-Keeps WcOpcode.wc_rdma_read WcStatus.success wc s (fits, text) =
      let stored = store_bytes-eq wc.bytes s.ctx.rdma_data fits in
      let (room, string) = stored-HasString wc.bytes s.ctx.rdma_data _ stored text in
      rw stored (Kept-blotted env s _ s.wakes refl room, string)
  landed-Keeps _ _ wc s a = (Kept-refl env s, tt)

  abbrev pub AllCount : Sys → List Wc → Type 0
  AllCount s [] = Unit
  AllCount s (wc ∷ wcs) =
      (CanCount env s wc.opcode × Arrives env s wc.opcode wc.status wc.bytes) × AllCount s wcs

  AllCount-Kept : (s t : Sys) (wcs : List Wc) → Kept env s t → AllCount s wcs → AllCount t wcs
  AllCount-Kept s t [] h c = tt
  AllCount-Kept s t (wc ∷ wcs) h c = (
    (
      CanCount-Kept env s t wc.opcode h c.0.0,
      Arrives-Kept env s t wc.opcode wc.status wc.bytes h c.0.1,
    ),
    AllCount-Kept s t wcs h c.1,
  )

  poll_loop-Keeps :
      (last : ℕ) (wcs : List Wc) (s : Sys)
      → AllCount s wcs
      → Keeps env s (poll_loop env on last wcs s)
  unfolding poll_loop
  poll_loop-Keeps last [] s c = Kept-refl env s
  poll_loop-Keeps last (wc ∷ wcs) s c =
      Returns-bind (λ _ t. Kept env s t × Prints wc.opcode wc.status t) (λ _ t. Kept env s t)
        (landed wc.opcode wc.status wc s) _ (landed-Keeps wc.opcode wc.status wc s c.0.1)
        λ _ t (h, p). Keeps-after env _ h (
          Keeps-bind env t (on_status env on wc.status wc t) _
            (on_status-Keeps wc.status wc t (CanCount-Kept env s t wc.opcode h c.0.0) p)
            λ go u h'.
              Keeps-if env u go _ _
                (poll_loop-Keeps last wcs u
                  (AllCount-Kept t u wcs h' (AllCount-Kept s t wcs h c.1)))
                (Kept-refl env u))

  -- A completion interrupt ends, if the transfers that it reports can be counted and what its reads
  -- bring fits the buffer and has a NUL, and leaves alone
  -- what `Kept` says.
  pub cq_event_handler-Keeps :
      (wcs : List Wc) (last : ℕ) (s : Sys)
      → AllCount s wcs
      → Keeps env s (cq_event_handler env on wcs last s)
  unfolding cq_event_handler
  cq_event_handler-Keeps wcs last s c =
      Keeps-if env s (eq_state s.ctx.state error) _ _ (Kept-refl env s) (
        Keeps-bind env s (raw_call env (ib_req_notify_cq s.ctx.cq) s) _
          (Kept-raw_call env _ s (λ a rs. refl))
          λ ret t h.
            Keeps-bind env t (poll_loop env on last wcs t) _
              (poll_loop-Keeps last wcs t (AllCount-Kept s t wcs h c))
              λ good u h'.
                Keeps-if env u good _ _ (Kept-refl env u) (Kept-blotted env u _ _ refl refl))
