-- ===== src/Server/Quiet.antt =====
-- The server's handlers under the rules of Ib/Follow, while no RDMA transfer is reported.
use infiniband.Common.{◌≡◌, List, some, ℕ}
use infiniband.Ib.Types.{IbContext, Ptr, IsGood}
use infiniband.Ib.Calls.{Call, Callback, cma, cqe, Env, ib_get_dma_mr}
use infiniband.Ib.Machine.{Sys, reply_at, call}
use infiniband.Ib.Frame.{Returns, Keeps, cma_event_handler-Keeps}
use infiniband.Ib.Completions.{cq_event_handler-Keeps}
use infiniband.Ib.Ledger.{Resource, settle}
use infiniband.Ib.Mild.{IsMild, IsCalm, counts}
use infiniband.Ib.Rules.{IsPolite, Returns-mono, call-At}
use infiniband.Server.Live.{Live, IsFollowed}
use infiniband.Server.Events.{handler, treatment}
use infiniband.Server.Wake.{recv_result-Keeps}

module _ (env : Env) where
  pub mild-Keeps : (k : Callback) → IsMild k → (s : Sys) → Keeps env s (handler env k s)
  unfolding handler
  mild-Keeps (cma id e) m s = cma_event_handler-Keeps env id e s
  mild-Keeps (cqe wcs last) m s =
      cq_event_handler-Keeps env (treatment env) (recv_result-Keeps env) wcs last s
        (counts env (treatment env) (recv_result-Keeps env) wcs s m)

-- A driver that gives the region of the memory, with no error pointer.
pub record IsAdapter (env : Env) : Type 0 where
  pub polite : IsPolite IsMild env
  pub good_mr : (n : ℕ) (p : Ptr) → IsGood (env.reply n (ib_get_dma_mr p)).answer

-- No condition.
abbrev pub Anything : IbContext → Type 0
Anything c = Unit

module _ (env : Env) (d : IsAdapter env) where
  followed :
      (r : IbContext) (rs rs' : List Resource) (s : Sys) (c : Call)
      → Live env Anything r rs s
      → IsCalm c
      → settle env c (reply_at env c s).answer rs ≡ some rs'
      → Returns
          (λ x t. (x ≡ (reply_at env c s).answer) × Live env Anything r rs' t)
          (call env (handler env) c s)
  followed r rs rs' s c a calm e =
      Returns-mono _ _ (call env (handler env) c s)
        (call-At env (handler env) IsMild d.polite (mild-Keeps env) a.at c rs' e)
        λ x t (ex, at). (ex, record { at = at; guard = tt })

  pub thread : IsFollowed env 0 Anything
  thread = record {
    stable = record {
      quietly = λ c c' q g. tt;
      request = λ c g. tt;
      landed_lem = λ c bs block e h g. tt;
      sink = λ c p g. tt;
    };
    follows = record { at = λ r rs s a. a.at; settled = followed };
    good_mr = d.good_mr;
  }
