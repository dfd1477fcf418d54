-- ===== src/Server/Guards.antt =====
-- The two conditions on what the server's handlers write: before a request is seen, and after.
use infiniband.Common.{
  ◌≡◌, refl, ◌⊎◌, inl, inr, Bool, true, false, not, ◌||◌, ◌==◌, if◌then◌else◌, ◌∙◌, ℕ, List, some,
  length,
}
use infiniband.Ib.Types.{
  Ptr, IbContext, null, eq_state, le_state, connect_request, connected, sizeof_rdma_info,
  rdma_read_adv, rdma_write_adv, rdma_write_complete,
}
use infiniband.Ib.Calls.{Wc, Env}
use infiniband.Ib.Machine.{Sys}
use infiniband.Ib.Wake.{Leaves-if}
use infiniband.Ib.Steps.{HasString}
use infiniband.Ib.Events.{store_bytes}
use infiniband.Ib.Buffer.{stored-HasString}
use infiniband.Ib.Guard.{Quietly, IsStable, Stays}
use infiniband.Server.Events.{recv_result, server_recv}

advertised :
    (b : Bool) → eq_state (if b then rdma_read_adv else rdma_write_adv) connect_request ≡ false
advertised true = refl
advertised false = refl

module _ (env : Env) (child : Ptr) (G : IbContext → Type 0) (st : IsStable env child G) where
  pub recv_result-Stays :
      (wc : Wc) (s : Sys) → G s.ctx → Stays env child G st (recv_result env wc s)
  unfolding recv_result server_recv
  recv_result-Stays wc s g =
      Leaves-if (λ _ t. G t.ctx) (s.ctx.server == 0) _ _ s g
        (Leaves-if (λ _ t. G t.ctx) (not (wc.byte_len == sizeof_rdma_info)) _ _ s g
          (st.quietly s.ctx _
            (
              refl,
              refl,
              refl,
              inr (
                  advertised
                    (le_state s.ctx.state connected || eq_state s.ctx.state rdma_write_complete)),
            )
            g))

-- The buffer has its 64 bytes and holds a string, once there is one.
abbrev pub Printable : IbContext → Type 0
Printable c = ((c.rdma_buf == null) ≡ true) ⊎ ((length c.rdma_data ≡ 64) × HasString c.rdma_data)

Printable-same :
    (c c' : IbContext)
    → c'.rdma_data ≡ c.rdma_data
    → c'.rdma_buf ≡ c.rdma_buf
    → Printable c
    → Printable c'
Printable-same c c' ed eb (inl e) = inl (rw eb e)
Printable-same c c' ed eb (inr (z, (n, e))) = inr (rw ed z, (n, rw ed e))

Printable-stored :
    (c : IbContext) (bs block : List ℕ)
    → store_bytes bs c.rdma_data ≡ some block
    → HasString bs
    → Printable c
    → Printable (record c { rdma_data = block })
Printable-stored c bs block e h (inl gone) = inl gone
Printable-stored c bs block e h (inr (z, text)) =
    let (room, string) = stored-HasString bs c.rdma_data block e h in inr (room ∙ z, string)

-- The child that is waited for, and the child that is there.
abbrev pub Awaited : Ptr → IbContext → Type 0
Awaited child c =
    ((eq_state c.state connect_request ≡ false) ⊎ (c.child_cm_id ≡ child)) × Printable c

abbrev pub Named : Ptr → IbContext → Type 0
Named child c = (c.child_cm_id ≡ child) × Printable c

module _ (env : Env) (child : Ptr)
    (text : (p : Ptr) → (length (env.garbage p) ≡ 64) × HasString (env.garbage p)) where
  Awaited-Quietly : (c c' : IbContext) → Quietly c c' → Awaited child c → Awaited child c'
  Awaited-Quietly c c' (ei, ed, eb, inl es) (inl e, p) =
      (inl (rw es e), Printable-same c c' ed eb p)
  Awaited-Quietly c c' (ei, ed, eb, inr es) (g, p) = (inl es, Printable-same c c' ed eb p)
  Awaited-Quietly c c' (ei, ed, eb, es) (inr e, p) = (inr (ei ∙ e), Printable-same c c' ed eb p)

  pub Awaited-IsStable : IsStable env child (Awaited child)
  Awaited-IsStable = record {
    quietly = Awaited-Quietly;
    request = λ c g. (inr refl, g.1);
    landed_lem = λ c bs block e h g. (g.0, Printable-stored c bs block e h g.1);
    sink = λ c p g. (g.0, inr (text p));
  }

  pub Named-IsStable : IsStable env child (Named child)
  Named-IsStable = record {
    quietly = λ c c' q g. (q.0 ∙ g.0, Printable-same c c' q.1 q.2 g.1);
    request = λ c g. (refl, g.1);
    landed_lem = λ c bs block e h g. (g.0, Printable-stored c bs block e h g.1);
    sink = λ c p g. (g.0, inr (text p));
  }
