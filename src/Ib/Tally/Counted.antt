-- ===== src/Ib/Tally/Counted.antt =====
-- The eight counters with a number of completions counted at once, as in the two completion handlers of
-- client/megaVM_client.c and server/megaVM_server.c.
use infiniband.Common.{ℕ, ◌+◌, ◌*◌, ◌%◌, ◌^◌, ◌<◌, ◌≡◌, refl, List, [], ◌∷◌, arith}
use infiniband.Ib.Types.{MegaVmStats}
use infiniband.Ib.Calls.{Wc, WcOpcode, WcStatus}
use infiniband.Ib.Events.{count_send, count_write, count_read}

-- Every counter is an unsigned long long.
pub record AreWords (st : MegaVmStats) : Type 0 where
  pub send_bytes : st.send_bytes < 2 ^ 64
  pub send_msgs : st.send_msgs < 2 ^ 64
  pub write_bytes : st.write_bytes < 2 ^ 64
  pub write_msgs : st.write_msgs < 2 ^ 64
  pub read_bytes : st.read_bytes < 2 ^ 64
  pub read_msgs : st.read_msgs < 2 ^ 64

-- A completion of a send or a transfer that has come to a good end.
abbrev pub IsGoodEnd : WcStatus → WcOpcode → Type 0
IsGoodEnd WcStatus.success WcOpcode.wc_send = Unit
IsGoodEnd WcStatus.success WcOpcode.wc_rdma_write = Unit
IsGoodEnd WcStatus.success WcOpcode.wc_rdma_read = Unit
IsGoodEnd _ _ = ⊥

abbrev pub AllGoodEnds : List Wc → Type 0
AllGoodEnds [] = Unit
AllGoodEnds (wc ∷ wcs) = IsGoodEnd wc.status wc.opcode × AllGoodEnds wcs

-- The number of sends, of writes and of reads.
abbrev pub sends_in : WcOpcode → ℕ
sends_in WcOpcode.wc_send = 1
sends_in _ = 0

abbrev pub writes_in : WcOpcode → ℕ
writes_in WcOpcode.wc_rdma_write = 1
writes_in _ = 0

abbrev pub reads_in : WcOpcode → ℕ
reads_in WcOpcode.wc_rdma_read = 1
reads_in _ = 0

abbrev pub total : (WcOpcode → ℕ) → List Wc → ℕ
total f [] = 0
total f (wc ∷ wcs) = f wc.opcode + total f wcs

-- The counters with `s` sends of `k` bytes, and `w` writes and `r` reads of `n` bytes more.
abbrev pub counted : (k n s w r : ℕ) → MegaVmStats → MegaVmStats
counted k n s w r st = record st {
  send_bytes = (st.send_bytes + s * k) % 2 ^ 64;
  send_msgs = (st.send_msgs + s) % 2 ^ 64;
  write_bytes = (st.write_bytes + w * n) % 2 ^ 64;
  write_msgs = (st.write_msgs + w) % 2 ^ 64;
  read_bytes = (st.read_bytes + r * n) % 2 ^ 64;
  read_msgs = (st.read_msgs + r) % 2 ^ 64;
}

pub counted-none : (k n : ℕ) (st : MegaVmStats) → AreWords st → counted k n 0 0 0 st ≡ st
counted-none k n st w =
    let a : (st.send_bytes + 0 * k) % 2 ^ 64 ≡ st.send_bytes = omega (arith, w.send_bytes) in
    let b : (st.send_msgs + 0) % 2 ^ 64 ≡ st.send_msgs = omega (arith, w.send_msgs) in
    let c : (st.write_bytes + 0 * n) % 2 ^ 64 ≡ st.write_bytes = omega (arith, w.write_bytes) in
    let d : (st.write_msgs + 0) % 2 ^ 64 ≡ st.write_msgs = omega (arith, w.write_msgs) in
    let e : (st.read_bytes + 0 * n) % 2 ^ 64 ≡ st.read_bytes = omega (arith, w.read_bytes) in
    let f : (st.read_msgs + 0) % 2 ^ 64 ≡ st.read_msgs = omega (arith, w.read_msgs) in
    rw (a, b, c, d, e, f) refl

add_twice : (a n c : ℕ) → ((a + n) % 2 ^ 64 + c * n) % 2 ^ 64 ≡ (a + (1 + c) * n) % 2 ^ 64
add_twice a n c = let e : (1 + c) * n ≡ n + c * n = omega arith in omega (arith, e)

add_one : (a c : ℕ) → ((a + 1) % 2 ^ 64 + c) % 2 ^ 64 ≡ (a + (1 + c)) % 2 ^ 64
add_one a c = omega arith

-- One more completion.
module _ (k n s w r : ℕ) (st : MegaVmStats) where
  send-counted : counted k n s w r (count_send k st) ≡ counted k n (1 + s) w r st
  unfolding count_send
  send-counted = rw (add_twice st.send_bytes k s, add_one st.send_msgs s) refl

  write-counted : counted k n s w r (count_write n st) ≡ counted k n s (1 + w) r st
  unfolding count_write
  write-counted = rw (add_twice st.write_bytes n w, add_one st.write_msgs w) refl

  read-counted : counted k n s w r (count_read n st) ≡ counted k n s w (1 + r) st
  unfolding count_read
  read-counted = rw (add_twice st.read_bytes n r, add_one st.read_msgs r) refl

unfoldable pub one : (k n : ℕ) → WcOpcode → MegaVmStats → MegaVmStats
one k n WcOpcode.wc_send st = count_send k st
one k n WcOpcode.wc_rdma_write st = count_write n st
one k n WcOpcode.wc_rdma_read st = count_read n st
one k n _ st = st

zero_add : (a : ℕ) → 0 + a ≡ a
zero_add a = omega arith

pub one-counted :
    (k n s w r : ℕ) (status : WcStatus) (o : WcOpcode) (st : MegaVmStats)
    → IsGoodEnd status o
    → counted k n s w r (one k n o st)
      ≡ counted k n (sends_in o + s) (writes_in o + w) (reads_in o + r) st
unfolding one
one-counted k n s w r WcStatus.success WcOpcode.wc_send st g =
    rw (zero_add w, zero_add r) (send-counted k n s w r st)
one-counted k n s w r WcStatus.success WcOpcode.wc_rdma_write st g =
    rw (zero_add s, zero_add r) (write-counted k n s w r st)
one-counted k n s w r WcStatus.success WcOpcode.wc_rdma_read st g =
    rw (zero_add s, zero_add w) (read-counted k n s w r st)
one-counted k n s w r _ _ st g = absurd g

pub one-AreWords :
    (k n : ℕ) (o : WcOpcode) (st : MegaVmStats) → AreWords st → AreWords (one k n o st)
unfolding one count_send count_write count_read
one-AreWords k n WcOpcode.wc_send st h = record {
  send_bytes = omega arith;
  send_msgs = omega arith;
  write_bytes = h.write_bytes;
  write_msgs = h.write_msgs;
  read_bytes = h.read_bytes;
  read_msgs = h.read_msgs;
}
one-AreWords k n WcOpcode.wc_rdma_write st h = record {
  send_bytes = h.send_bytes;
  send_msgs = h.send_msgs;
  write_bytes = omega arith;
  write_msgs = omega arith;
  read_bytes = h.read_bytes;
  read_msgs = h.read_msgs;
}
one-AreWords k n WcOpcode.wc_rdma_read st h = record {
  send_bytes = h.send_bytes;
  send_msgs = h.send_msgs;
  write_bytes = h.write_bytes;
  write_msgs = h.write_msgs;
  read_bytes = omega arith;
  read_msgs = omega arith;
}
one-AreWords k n WcOpcode.wc_recv st h = h
one-AreWords k n WcOpcode.wc_other st h = h
