-- ===== src/Server/Live.antt =====
-- Where a run of the server's main thread stands: At of Ib/Rules, with a condition that the handlers
-- keep on what they write.
use infiniband.Common.{ℕ, ◌≡◌, refl, Bool, List, if◌then◌else◌}
use infiniband.Ib.Types.{Ptr, IbContext, IsGood}
use infiniband.Ib.Calls.{Env, ib_get_dma_mr}
use infiniband.Ib.Machine.{Sys}
use infiniband.Ib.Ledger.{Resource}
use infiniband.Ib.Frame.{frozen}
use infiniband.Ib.Rules.{At}
use infiniband.Ib.Follow.{Follows, At-modify, At-if}
use infiniband.Ib.Guard.{Quietly, IsStable}
use infiniband.Server.Events.{handler}

pub record Live (env : Env) (G : IbContext → Type 0) (r : IbContext) (rs : List Resource) (s : Sys)
    : Type 0 where
  pub at : At env r rs s
  pub guard : G s.ctx

-- The main thread can be followed through its calls, with the condition `G`, and the region of the
-- memory is no error pointer.
pub record IsFollowed (env : Env) (child : Ptr) (G : IbContext → Type 0) : Type 0 where
  pub stable : IsStable env child G
  pub follows : Follows env (handler env) (Live env G)
  pub good_mr : (n : ℕ) (p : Ptr) → IsGood (env.reply n (ib_get_dma_mr p)).answer

module _ (env : Env) (child : Ptr) (G : IbContext → Type 0) (d : IsFollowed env child G) where
  pub Live-modify :
      (f g : IbContext → IbContext)
      → ((c : IbContext) → frozen (f c) ≡ g (frozen c))
      → ((c : IbContext) → Quietly c (f c))
      → {r : IbContext} {rs : List Resource} {s : Sys} → Live env G r rs s
      → Live env G (g r) rs (record s { ctx = f s.ctx })
  Live-modify f g commute quiet {s = s} a = record {
    at = At-modify env f g commute a.at;
    guard = d.stable.quietly s.ctx (f s.ctx) (quiet s.ctx) a.guard;
  }

  pub Live-if :
      {r' : IbContext} (rs1 rs2 : List Resource) {t : Sys} (b b' : Bool)
      → b ≡ b'
      → Live env G r' (if b then rs1 else rs2) t
      → Live env G r' (if b' then rs1 else rs2) t
  Live-if rs1 rs2 b b' e a = record { at = At-if env rs1 rs2 b b' e a.at; guard = a.guard }

  -- The buffer for the transfers is put in its place.
  pub Live-sink :
      {r : IbContext} {rs : List Resource} {s : Sys} (x : Ptr)
      → Live env G r rs s
      → Live env G
          (record r { rdma_buf = x })
          rs
          (record s { ctx = record (s.ctx) { rdma_buf = x; rdma_data = env.garbage x } })
  Live-sink {s = s} x a = record {
    at =
        At-modify env (λ c. record c { rdma_buf = x; rdma_data = env.garbage x })
          (λ c. record c { rdma_buf = x }) (λ c. refl) a.at;
    guard = d.stable.sink s.ctx x a.guard;
  }
