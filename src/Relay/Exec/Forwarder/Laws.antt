-- ===== src/Relay/Exec/Forwarder/Laws.antt =====
-- What is forwarded is what was sent, in order, with gaps; and how long a dial is put off.
use mathlib.Core.List.{append_assoc, append-nil}
use rootenv.Common.{
  ℕ, zero, suc, ◌+◌, ◌-◌, ◌≤◌, ◌<◌, ◌≡◌, refl, ap, sym, ◌∙◌, subst, ◌⊎◌, inl, inr, Bool, true,
  false, Bool-cases, List, [], ◌∷◌, ◌++◌, Bytes, bytes_eq, bytes_beq, length, length-append, ltb,
  if◌then◌else◌, arith,
}
use rootenv.Relay.Exec.Forwarder.{
  ForwardMsg, Forwarder, forwarder_chan_capacity, new_forwarder, send, close, next_backoff, dial,
  write_next, drain, leave_drain, Event, sent, dialled, drained, closed, left, step, run,
  first_backoff, max_backoff,
}

-- The first list is the second one with gaps.
abbrev pub IsSublist : {A : Type 0} → List A → List A → Type 0
IsSublist [] ys = Unit
IsSublist (x ∷ xs) [] = ⊥
IsSublist (x ∷ xs) (y ∷ ys) = (x ≡ y) × IsSublist xs ys ⊎ IsSublist (x ∷ xs) ys

module _ {A : Type 0} where
  concat-IsSublist :
      (x : A) (xs ys : List A) → IsSublist xs ys → IsSublist (xs ++ x ∷ []) (ys ++ x ∷ [])
  concat-IsSublist x [] [] h = inl (refl, tt)
  concat-IsSublist x [] (y ∷ ys) h = inr (concat-IsSublist x [] ys tt)
  concat-IsSublist x (z ∷ xs) [] h = absurd h
  concat-IsSublist x (z ∷ xs) (y ∷ ys) (inl (e, h)) = inl (e, concat-IsSublist x xs ys h)
  concat-IsSublist x (z ∷ xs) (y ∷ ys) (inr h) = inr (concat-IsSublist x (z ∷ xs) ys h)

  more-IsSublist : (x : A) (xs ys : List A) → IsSublist xs ys → IsSublist xs (ys ++ x ∷ [])
  more-IsSublist x [] ys h = tt
  more-IsSublist x (z ∷ xs) [] h = absurd h
  more-IsSublist x (z ∷ xs) (y ∷ ys) (inl (e, h)) = inl (e, more-IsSublist x xs ys h)
  more-IsSublist x (z ∷ xs) (y ∷ ys) (inr h) = inr (more-IsSublist x (z ∷ xs) ys h)

  pub weaken : (y : A) (xs ys : List A) → IsSublist xs ys → IsSublist xs (y ∷ ys)
  weaken y [] ys h = tt
  weaken y (x ∷ xs) ys h = inr h

  pub tail-IsSublist : (m : A) (xs ys : List A) → IsSublist (m ∷ xs) ys → IsSublist xs ys
  tail-IsSublist m xs [] h = absurd h
  tail-IsSublist m xs (y ∷ ys) (inl (e, h)) = weaken y xs ys h
  tail-IsSublist m xs (y ∷ ys) (inr h) = weaken y xs ys (tail-IsSublist m xs ys h)

  drop-IsSublist : (m : A) (a b ys : List A) → IsSublist (a ++ m ∷ b) ys → IsSublist (a ++ b) ys
  drop-IsSublist m [] b ys h = tail-IsSublist m b ys h
  drop-IsSublist m (x ∷ a) b [] h = absurd h
  drop-IsSublist m (x ∷ a) b (y ∷ ys) (inl (e, h)) = inl (e, drop-IsSublist m a b ys h)
  drop-IsSublist m (x ∷ a) b (y ∷ ys) (inr h) = inr (drop-IsSublist m (x ∷ a) b ys h)

-- The messages that were sent.
unfoldable pub sends : List Event → List ForwardMsg
sends [] = []
sends (sent m ∷ es) = m ∷ sends es
sends (dialled ok ∷ es) = sends es
sends (drained ok ∷ es) = sends es
sends (closed ∷ es) = sends es
sends (left ∷ es) = sends es

-- Of what was sent so far, in order: what has been written, and behind it what is queued.
abbrev pub IsSound : Forwarder → List ForwardMsg → Type 0
IsSound f ms = IsSublist (f.written ++ f.queue) ms × (length f.queue ≤ forwarder_chan_capacity)

send-IsSound :
    (m : ForwardMsg) (f : Forwarder) (ms : List ForwardMsg)
    → IsSound f ms
    → IsSound (send m f) (ms ++ m ∷ [])
unfolding send
send-IsSound m f ms (h, bound) = elim (Bool-cases (bytes_beq f.addr [])) [
  | inl e ↦ rw (e, send) (more-IsSublist m _ ms h, bound)
  | inr e ↦ elim (Bool-cases (ltb (length f.queue) forwarder_chan_capacity)) [
    | inl l ↦
        rw (e, send, l)
          (
            subst (λ q. IsSublist q (ms ++ m ∷ [])) (append_assoc f.written f.queue (m ∷ []))
                (concat-IsSublist m _ ms h),
            ground (arith, l, length-append f.queue (m ∷ [])),
          )
    | inr l ↦ rw (e, send, l) (more-IsSublist m _ ms h, bound)
  ]
]

write_next-IsSound :
    (ok : Bool) (q : List ForwardMsg) (f : Forwarder) (ms : List ForwardMsg)
    → q ≡ f.queue
    → IsSound f ms
    → IsSound (write_next ok q f) ms
unfolding write_next
write_next-IsSound ok [] f ms e h = h
write_next-IsSound true (m ∷ q) f ms e (h, bound) = (
  subst (λ l. IsSublist l ms)
      (ap (◌++◌ f.written) (sym e) ∙ sym (append_assoc f.written (m ∷ []) q)) h,
  ground (arith, ap length e, bound),
)
write_next-IsSound false (m ∷ q) f ms e (h, bound) = (
  drop-IsSublist m f.written q ms (subst (λ l. IsSublist l ms) (ap (◌++◌ f.written) (sym e)) h),
  ground (arith, ap length e, bound),
)

-- A step that leaves the messages alone.
IsSound-same :
    (f f' : Forwarder) (ms : List ForwardMsg)
    → f'.written ≡ f.written
    → f'.queue ≡ f.queue
    → IsSound f ms
    → IsSound f' ms
IsSound-same f f' ms w q (h, bound) = (
  subst (λ l. IsSublist l ms) (ap (λ a. a ++ f.queue) (sym w) ∙ ap (◌++◌ f'.written) (sym q)) h,
  ground (arith, ap length q, bound),
)

dial-same :
    (ok : Bool) (f : Forwarder) → ((dial ok f).written ≡ f.written) × ((dial ok f).queue ≡ f.queue)
unfolding dial
dial-same ok f = ground arith

leave_drain-same :
    (f : Forwarder) → ((leave_drain f).written ≡ f.written) × ((leave_drain f).queue ≡ f.queue)
unfolding leave_drain
leave_drain-same f = ground arith

drain-cond :
    (c ok : Bool) (f : Forwarder) (ms : List ForwardMsg)
    → IsSound f ms
    → IsSound (if c then write_next ok f.queue f else f) ms
drain-cond true ok f ms h = write_next-IsSound ok f.queue f ms refl h
drain-cond false ok f ms h = h

drain-IsSound :
    (ok : Bool) (f : Forwarder) (ms : List ForwardMsg) → IsSound f ms → IsSound (drain ok f) ms
unfolding drain
drain-IsSound ok f ms h = drain-cond f.connected ok f ms h

run-IsSound :
    (f : Forwarder) (es : List Event) (ms : List ForwardMsg)
    → IsSound f ms
    → IsSound (run f es) (ms ++ sends es)
unfolding run step sends close
run-IsSound f [] ms h = subst (IsSound f) (sym (append-nil ms)) h
run-IsSound f (sent m ∷ es) ms h =
    subst (IsSound (run (send m f) es)) (append_assoc ms (m ∷ []) (sends es))
      (run-IsSound (send m f) es (ms ++ m ∷ []) (send-IsSound m f ms h))
run-IsSound f (dialled ok ∷ es) ms h =
    run-IsSound (dial ok f) es ms
      (IsSound-same f (dial ok f) ms (dial-same ok f).0 (dial-same ok f).1 h)
run-IsSound f (drained ok ∷ es) ms h = run-IsSound (drain ok f) es ms (drain-IsSound ok f ms h)
run-IsSound f (closed ∷ es) ms h = run-IsSound (close f) es ms h
run-IsSound f (left ∷ es) ms h =
    run-IsSound (leave_drain f) es ms
      (IsSound-same f (leave_drain f) ms (leave_drain-same f).0 (leave_drain-same f).1 h)

-- Whatever the dials and writes come to, what has been written, with what is queued behind it, is
-- what was sent, in order, none twice, with gaps; and no more than 256 messages are queued.
pub run-IsSublist :
    (addr : Bytes) (es : List Event)
    → let f = run (new_forwarder addr) es in
      IsSublist (f.written ++ f.queue) (sends es) × (length f.queue ≤ 256)
unfolding new_forwarder
run-IsSublist addr es = run-IsSound (new_forwarder addr) es [] (tt, omega arith)

-- The delay behind the next failure, after this many failed dials in a row.
unfoldable pub backoff_after : ℕ → ℕ
backoff_after zero = first_backoff
backoff_after (suc n) = next_backoff (backoff_after n)

from_five : (k n : ℕ) → n ≡ 5 + k → backoff_after n ≡ 16000
unfolding backoff_after next_backoff
from_five zero n h = let e : n ≡ 5 = omega (arith, h) in ap backoff_after e
from_five (suc k) zero h = absurd (omega (arith, h))
from_five (suc k) (suc n) h = ap next_backoff (from_five k n (omega (arith, h)))

-- After five failed dials in a row, or more, the delay behind the next failure is 16 seconds, above
-- the 10 seconds that are called its maximum.
pub backoff_after-ge : (n : ℕ) → 5 ≤ n → (backoff_after n ≡ 16000) × (max_backoff < backoff_after n)
backoff_after-ge n h = let e = from_five (n - 5) n (omega (arith, h)) in (e, omega (arith, e))
