-- ===== src/Client/Ping.antt =====
-- What the client of client/megaVM_client.c sends: the text in its buffer, and the advertisement.
use infiniband.Common.{
  ℕ, zero, suc, ◌+◌, ◌-◌, ◌%◌, Option, none, some, List, [], ◌∷◌, ltb, length, set, if◌then◌else◌,
}
use infiniband.Ib.Types.{rdma_read_adv, rdma_write_adv}
use infiniband.Ib.Calls.{Env}
use infiniband.Ib.Machine.{
  Cmd, ◌>>=◌, ◌>>◌, skip, fail, context, modify, set_state, deref, wait_until,
}
use infiniband.Ib.Steps
use infiniband.Ib.Steps.{fill_sockaddr, strlen, blank}
use infiniband.Client.Events.{handler}

-- `p[i] = b`; `none` beyond the end of the buffer.
unfoldable pub store_byte : List ℕ → ℕ → ℕ → Option (List ℕ)
store_byte bs i b = if ltb i (length bs) then some (set bs i b) else none

-- The bytes of "rdma-ping-1: ".
abbrev pub greeting : List ℕ
greeting =
    b'r' ∷ b'd' ∷ b'm' ∷ b'a' ∷ b'-' ∷ b'p' ∷ b'i' ∷ b'n' ∷ b'g' ∷ b'-' ∷ b'1' ∷ b':' ∷ b' ' ∷ []

-- `sprintf` of a text with no conversions: its bytes from `i` on, and a NUL.
unfoldable pub put_text : List ℕ → List ℕ → ℕ → Option (List ℕ)
put_text [] bs i = store_byte bs i 0
put_text (b ∷ text) bs i = elim (store_byte bs i b) [
  | none ↦ none
  | some bs' ↦ put_text text bs' (i + 1)
]

-- `c++; if (c > 122) c = 65;` on an unsigned char.
unfoldable pub next_char : ℕ → ℕ
next_char c = let c' = (c + 1) % 256 in if ltb 122 c' then 65 else c'

-- `for (i = cc, c = start; i < context->size; i++)` with `n` rounds left.
unfoldable pub fill : ℕ → List ℕ → ℕ → ℕ → Option (List ℕ)
fill zero bs i c = some bs
fill (suc n) bs i c = elim (store_byte bs i c) [
  | none ↦ none
  | some bs' ↦ fill n bs' (i + 1) (next_char c)
]

-- The text of the ping, in a buffer of `size` bytes.
unfoldable pub write_ping : ℕ → List ℕ → Option (List ℕ)
write_ping size bs = elim (put_text greeting bs 0) [
  | none ↦ none
  | some bs' ↦ elim (fill (size - 13) bs' 13 65) [
    | none ↦ none
    | some filled ↦ store_byte filled (size - 1) 0
  ]
]

-- megaVM_format_send
unfoldable pub format_send : Env → ℕ → Cmd (Unit {0})
format_send env buf = do
  c ← context
  deref c.dma_mr
  modify λ c. record c {
    send_buf = record {
      buf = env.cpu_to_be64 buf;
      rkey = env.htonl (env.rkey_of c.dma_mr);
      size = env.htonl c.size;
    };
  }

-- `none` is a write outside of the buffer.
abbrev put_ping : Option (List ℕ) → Cmd (Unit {0})
put_ping none = fail
put_ping (some bs) = modify λ c. record c { start_data = bs }

-- megaVM_test_client
unfoldable pub test_client : Env → Cmd (Unit {0})
test_client env = do
  set_state rdma_read_adv
  c ← context
  put_ping (write_ping c.size c.start_data)
  format_send env c.start_dma_addr
  c' ← context
  ret ← Steps.post_send env (handler env) c'.sq_wr
  _ ← wait_until env (handler env) rdma_write_adv
  skip
