-- ===== src/Server/Served.antt =====
-- A server's surroundings while it serves one client, and the rules for its main thread there: a run is
-- followed through calm calls, and once the transfer request has its scatter entry through all calls.
use mathlib.Core.Path.{subst}
use infiniband.Common.{
  ℕ, ◌≡◌, refl, ap, ◌∙◌, true, false, some, List, [], ◌∷◌, ◌==◌, length, sym, arith,
}
use infiniband.Ib.Types.{Ptr, IbContext, IsGood, null, TestState, SgeRef, connect_request}
use infiniband.Ib.Calls.{
  Call, Callback, cma, cqe, Env, wait_event_interruptible, ib_alloc_pd, ib_create_cq, ib_get_dma_mr,
  rdma_create_id, Wc, WcOpcode, WcStatus,
}
use infiniband.Ib.Machine.{Sys, Cmd, and_then, reply_at, logged, call, wait_until}
use infiniband.Ib.Ledger.{Resource, settle}
use infiniband.Ib.Frame.{Returns, Returns-bind, Kept, Arrives}
use infiniband.Ib.Invariant.{All, call-keeps, wait-keeps}
use infiniband.Ib.Rules.{At-Kept, At-logged, Returns-mono}
use infiniband.Ib.Mild.{IsMild, IsCalm}
use infiniband.Ib.Wake.{Leaves, Returns-both}
use infiniband.Ib.Steps.{HasString}
use infiniband.Ib.Guard.{
  IsStable, AllFair, IsFairWc, IsFair, cma_event_handler-Stays, cq_event_handler-Stays,
}
use infiniband.Server.Events.{handler, treatment}
use infiniband.Server.Guards.{recv_result-Stays}
use infiniband.Server.Live.{Live, IsFollowed}
use infiniband.Server.Quiet.{mild-Keeps}
use infiniband.Server.Wake.{handler-Keeps, AllArrive, AllArriveIn}

-- One client connects, as `child`; transfers are reported during the calls that are not calm; reads
-- bring at most 64 bytes with a NUL among them, and fresh blocks have 64 bytes with a NUL among them; a
-- signal ends a wait; and the domain, the queue, the region and the identifier are made.
pub record IsServed (env : Env) (child : Ptr) : Type 0 where
  pub fair : (n : ℕ) (c : Call) → All (IsFair child) (env.reply n c).callbacks
  pub calm : (n : ℕ) (c : Call) → IsCalm c → All IsMild (env.reply n c).callbacks
  pub signal : (n : ℕ) (c : Call) → (env.reply n c).signal ≡ true
  pub good_child : IsGood child
  pub good_pd : (n : ℕ) (p : Ptr) → IsGood (env.reply n (ib_alloc_pd p)).answer
  pub good_cq : (n : ℕ) (p : Ptr) (k : ℕ) → IsGood (env.reply n (ib_create_cq p k)).answer
  pub good_mr : (n : ℕ) (p : Ptr) → IsGood (env.reply n (ib_get_dma_mr p)).answer
  pub good_id : (n : ℕ) → IsGood (env.reply n rdma_create_id).answer
  pub other_id : (n : ℕ) → (child == (env.reply n rdma_create_id).answer) ≡ false
  pub text : (p : Ptr) → (length (env.garbage p) ≡ 64) × HasString (env.garbage p)

module _ (env : Env) (child : Ptr) where
  fair_arrival :
      (o : WcOpcode) (st : WcStatus) (bs : List ℕ) (s : Sys)
      → length s.ctx.rdma_data ≡ 64
      → IsFairWc o st bs
      → Arrives env s o st bs
  fair_arrival WcOpcode.wc_rdma_read WcStatus.success bs s z f = (omega (arith, z, f.0), f.1)
  fair_arrival _ _ bs s z f = tt

  fair_all :
      (wcs : List Wc) (s : Sys) → length s.ctx.rdma_data ≡ 64 → AllFair wcs → AllArriveIn env s wcs
  fair_all [] s z f = tt
  fair_all (wc ∷ wcs) s z f =
      (fair_arrival wc.opcode wc.status wc.bytes s z f.0, fair_all wcs s z f.1)

  -- What a fair handler run brings can be taken by a buffer of 64 bytes.
  fair_arrivals :
      (k : Callback) (s : Sys) → length s.ctx.rdma_data ≡ 64 → IsFair child k → AllArrive env s k
  fair_arrivals (cma id e) s z f = tt
  fair_arrivals (cqe wcs last) s z f = fair_all wcs s z f

All-both :
    (P Q : Callback → Type 0) (ks : List Callback) → All P ks → All Q ks → All (λ k. P k × Q k) ks
All-both P Q [] p q = tt
All-both P Q (k ∷ ks) p q = ((p.0, q.0), All-both P Q ks p.1 q.1)

module _ (env : Env) (child : Ptr) (G : IbContext → Type 0) (w : IsServed env child)
    (st : IsStable env child G) where
  handler-Stays :
      (k : Callback) (s : Sys)
      → IsFair child k
      → G s.ctx
      → Leaves (λ _ t. G t.ctx) (handler env k s)
  unfolding handler
  handler-Stays (cma id e) s f g = cma_event_handler-Stays env child G st id e s f g
  handler-Stays (cqe wcs last) s f g =
      cq_event_handler-Stays env child G st (treatment env) (recv_result-Stays env child G st) wcs
        last s f g

  Live-after :
      (r : IbContext) (rs : List Resource) (k : Callback) (s : Sys)
      → IsFair child k
      → Live env G r rs s
      → Returns (λ _ t. Kept env s t) (handler env k s)
      → Returns (λ _ t. Live env G r rs t) (handler env k s)
  Live-after r rs k s f a h =
      Returns-mono (λ _ t. Kept env s t × G t.ctx) (λ _ t. Live env G r rs t) (handler env k s)
        (Returns-both (λ _ t. Kept env s t) (λ _ t. G t.ctx) (handler env k s) h
          (handler-Stays k s f a.guard))
        λ x t (kept, g). record { at = At-Kept env a.at kept; guard = g }

  abbrev IsGentle : Callback → Type 0
  IsGentle k = IsFair child k × IsMild k

  gentle-Live :
      (r : IbContext) (rs : List Resource) (k : Callback)
      → IsGentle k
      → (s : Sys) → Live env G r rs s
      → Returns (λ _ t. Live env G r rs t) (handler env k s)
  gentle-Live r rs k m s a = Live-after r rs k s m.0 a (mild-Keeps env k m.1 s)

  Live-logged :
      (r : IbContext) (rs rs' : List Resource) (s : Sys) (c : Call)
      → Live env G r rs s
      → settle env c (reply_at env c s).answer rs ≡ some rs'
      → Live env G r rs' (logged env c s)
  Live-logged r rs rs' s c a e = record { at = At-logged env a.at c rs' e; guard = a.guard }

  gentle : (s : Sys) (c : Call) → IsCalm c → All IsGentle (reply_at env c s).callbacks
  gentle s c calm =
      All-both (IsFair child) IsMild (reply_at env c s).callbacks (w.fair (length s.calls) c)
        (w.calm (length s.calls) c calm)

  settled :
      (r : IbContext) (rs rs' : List Resource) (s : Sys) (c : Call)
      → Live env G r rs s
      → IsCalm c
      → settle env c (reply_at env c s).answer rs ≡ some rs'
      → Returns
          (λ x t. (x ≡ (reply_at env c s).answer) × Live env G r rs' t)
          (call env (handler env) c s)
  settled r rs rs' s c a calm e =
      call-keeps env (handler env) IsGentle (Live env G r rs') (gentle-Live r rs') c s
        (gentle s c calm) (Live-logged r rs rs' s c a e)

  pub served : IsFollowed env child G
  served = record {
    stable = st;
    follows = record { at = λ r rs s a. a.at; settled = settled };
    good_mr = w.good_mr;
  }

  -- The wait for a client.
  pub wait_for_request :
      (r : IbContext) (rs : List Resource) (s : Sys)
      → Live env G r rs s
      → Returns (λ _ t. Live env G r rs t) (wait_until env (handler env) connect_request s)
  wait_for_request r rs s a =
      wait-keeps env (handler env) IsGentle (Live env G r rs) (gentle-Live r rs) connect_request s
        (w.signal (length s.calls) (wait_event_interruptible connect_request))
        (gentle s (wait_event_interruptible connect_request) tt) a
        (Live-logged r rs rs s (wait_event_interruptible connect_request) a refl)

  -- With the buffer and the scatter entry in their places.
  module _ (room : (c : IbContext) → G c → (c.rdma_buf == null) ≡ false → length c.rdma_data ≡ 64)
      {r : IbContext} (e : SgeRef) (set : r.rdma_sq_wr.sg_list ≡ some e)
      (sink : (r.rdma_buf == null) ≡ false) where
    fair-Arrive :
        (rs' : List Resource) (k : Callback)
        → IsFair child k
        → (s : Sys) → Live env G r rs' s
        → AllArrive env s k
    fair-Arrive rs' k f s a =
        let there : (s.ctx.rdma_buf == null) ≡ false =
          ap (λ c. c.rdma_buf == null) a.at.context ∙ sink in
        fair_arrivals env child k s (room s.ctx a.guard there) f

    fair-Live :
        (rs' : List Resource) (k : Callback)
        → IsFair child k
        → (s : Sys) → Live env G r rs' s
        → Returns (λ _ t. Live env G r rs' t) (handler env k s)
    fair-Live rs' k f s a = Live-after r rs' k s f a (
        handler-Keeps env k s e (ap (λ c. c.rdma_sq_wr.sg_list) a.at.context ∙ set)
          (fair-Arrive rs' k f s a))

    module _ {A : Type 0} (Q : A → Sys → Type 0) {rs : List Resource} {s : Sys}
        (a : Live env G r rs s) where
      pub serve_ask :
          (c : Call) (rs' : List Resource) (k : ℕ → Cmd A)
          → settle env c (reply_at env c s).answer rs ≡ some rs'
          → ((t : Sys) → Live env G r rs' t → Returns Q (k (reply_at env c s).answer t))
          → Returns Q (and_then (call env (handler env) c s) k)
      serve_ask c rs' k settles next =
          Returns-bind _ Q (call env (handler env) c s) k
            (call-keeps env (handler env) (IsFair child) (Live env G r rs') (fair-Live rs') c s
              (w.fair (length s.calls) c) (Live-logged r rs rs' s c a settles))
            λ x t (ex, at). subst (λ y. Returns Q (k y t)) (sym ex) (next t at)

      pub serve_wait :
          (st : TestState) (k : ℕ → Cmd A)
          → ((x : ℕ) (t : Sys) → Live env G r rs t → Returns Q (k x t))
          → Returns Q (and_then (wait_until env (handler env) st s) k)
      serve_wait st k next =
          Returns-bind (λ _ t. Live env G r rs t) Q (wait_until env (handler env) st s) k
            (wait-keeps env (handler env) (IsFair child) (Live env G r rs) (fair-Live rs) st s
              (w.signal (length s.calls) (wait_event_interruptible st))
              (w.fair (length s.calls) (wait_event_interruptible st)) a
              (Live-logged r rs rs s (wait_event_interruptible st) a refl))
            next
