-- ===== src/WriteChain/Delivery.antt =====
-- What the chain delivers: in any interleaving, and to the end.
use slick_net.Prelude.{
  ◌+◌, ◌≡◌, ◌≢◌, refl, sym, ◌∙◌, false, List, [], ◌∷◌, ◌++◌, append-nil, arith, inl, inr, ◌⊎◌,
}
use slick_net.WriteChain.{Chain, Frame, idle, Reach}
use slick_net.WriteChain.Invariant.{Inv, owners, count, Reach-Inv}

-- In every state that can be reached, the sends about to post, the posted wakeups, the parked chain, the writes
-- under way, the handler that has found the queue empty and the failed writes whose onError threw before abandon
-- make one while the gate's flag is set, and none while it is clear.
pub one_chain : {c : Chain} → Reach c → owners c ≡ count c.running
one_chain r = (Reach-Inv r).owned

-- What has been handed to the socket, followed by the queue, is all that was sent, in order.
pub fifo : {c : Chain} → Reach c → c.sent ≡ c.written ++ c.queue
fifo r = (Reach-Inv r).in_order

-- Nothing is left to run: no send under way, no handler, no write, no parked chain.
pub record IsSettled (c : Chain) : Type 0 where
  pub no_send : c.published + c.loaded + c.claimed ≡ 0
  pub no_wakeup : c.posted ≡ 0
  pub no_write : c.writing ≡ 0
  pub not_parked : c.parked ≡ false
  pub at_rest : c.strand ≡ idle

pub nil_or_cons : (q : List Frame) → (q ≡ []) ⊎ (q ≢ [])
nil_or_cons [] = inl refl
nil_or_cons (r ∷ q) = inr (λ e. cc)

pub settled-written : {c : Chain} → Inv c → IsSettled c → c.failed ≡ false → c.written ≡ c.sent
settled-written {c} v s f = elim (nil_or_cons c.queue) [
  | inl e ↦ sym (v.in_order ∙ rw (e, append-nil))
  | inr n ↦ absurd (
      let off : c.running ≡ false = ground (arith, v.owned, v.lost_failed, f, s.at_rest) in
      omega (arith, v.cared n off f (rw s.at_rest refl)))
]

-- No record is stranded: once nothing is left to run, everything sent has been written, unless a write
-- has failed.
pub no_record_stranded : {c : Chain} → Reach c → IsSettled c → c.failed ≡ false → c.written ≡ c.sent
no_record_stranded r = settled-written (Reach-Inv r)
