-- ===== src/Hub/Wakeup/Steps.antt =====
-- Producers that push into a queue and call Notify after it, and the loop of Worker::Run
-- (src/hub/worker.cpp) or Distributor::Run (src/hub/distributor.cpp), step by step.
use hi_im_core.Hub.Wakeup
use hi_im_core.Hub.Queue.Mpsc
use hi_im_core.Prelude.{
  List, Option, [], ap, arith, false, inl, inr, none, refl, some, sym, true, ℕ, ◌+◌, ◌<◌, ◌∷◌, ◌≡◌,
  ◌≢◌, ◌⊎◌,
}
use hi_im_core.Hub.Queue.Mpsc.{MpscQueue}
use hi_im_core.Hub.Wakeup.{EventFd, IsEventFd, make_wakeup}

-- Where the loop is: before epoll_wait, in Drain, and in the loop over the queue.
pub data Phase : Type 0 where
  polling draining emptying : Phase

-- `unannounced` counts the pushes that Notify is still to follow.
pub record Exchange (K A : Type 0) : Type 0 where
  pub queue : MpscQueue A
  pub os_state : K
  pub unannounced : ℕ
  pub phase : Phase

pop_empties : {A : Type 0} (q q' : MpscQueue A) → Mpsc.pop q ≡ (none, q') → q'.queue ≡ []
unfolding Mpsc.pop
pop_empties {A} q q' h = by_queue q.queue h
  where
    by_queue : (l : List A) → Mpsc.pop (record q { queue = l }) ≡ (none, q') → q'.queue ≡ []
    by_queue [] same = ap (λ (r : Option A × MpscQueue A). r.1.queue) (sym same)
    by_queue (x ∷ xs) same = absurd (cc same)

-- A queue with nothing in it, and a loop that is about to poll.
unfoldable pub resting : {K A : Type 0} → ℕ → K → Exchange K A
resting capacity k = record {
  queue = Mpsc.make capacity;
  os_state = k;
  unannounced = 0;
  phase = polling;
}

module _ {K A : Type 0} (os : EventFd K) (fd : ℕ) where
  pub data Move (s : Exchange K A) : Exchange K A → Type 0 where
    pushes :
        (v : A) (q : MpscQueue A)
        → Mpsc.push s.queue v ≡ (q, true)
        → Move s (record s { queue = q; unannounced = s.unannounced + 1 })
    push_fails : (v : A) → Mpsc.push s.queue v ≡ (s.queue, false) → Move s s
    announces :
        (n : ℕ)
        → s.unannounced ≡ n + 1
        → Move s (record s {
          os_state = Wakeup.notify os (make_wakeup (some fd)) s.os_state;
          unannounced = n;
        })
    wakes :
        s.phase ≡ polling
        → os.readable fd s.os_state ≡ true
        → Move s (record s { phase = draining })
    sleeps_on :
        s.phase ≡ polling
        → os.readable fd s.os_state ≡ false
        → Move s (record s { phase = emptying })
    reads :
        s.phase ≡ draining
        → (os.read fd s.os_state).0 ≡ true
        → Move s (record s { os_state = (os.read fd s.os_state).1 })
    has_drained :
        s.phase ≡ draining
        → (os.read fd s.os_state).0 ≡ false
        → Move s (record s { os_state = (os.read fd s.os_state).1; phase = emptying })
    pops :
        (x : A) (q : MpscQueue A)
        → s.phase ≡ emptying
        → Mpsc.pop s.queue ≡ (some x, q)
        → Move s (record s { queue = q })
    finds_nothing :
        (q : MpscQueue A)
        → s.phase ≡ emptying
        → Mpsc.pop s.queue ≡ (none, q)
        → Move s (record s { queue = q; phase = polling })

  pub data Moves (s : Exchange K A) : Exchange K A → Type 0 where
    at_start : Moves s s
    then_move : {t u : Exchange K A} → Moves s t → Move t u → Moves s u

  -- A loop that is about to poll while something waits will learn of it.
  abbrev pub IsAlert : Exchange K A → Type 0
  IsAlert s =
      s.phase ≡ polling
      → (s.queue.queue ≡ []) ⊎ (os.readable fd s.os_state ≡ true) ⊎ (0 < s.unannounced)

  module _ (laws : IsEventFd os) where
    Move-IsAlert : (s t : Exchange K A) → IsAlert s → Move s t → IsAlert t
    unfolding Wakeup.notify make_wakeup Mpsc.pop
    Move-IsAlert s t alert (pushes v q pushed_now) = λ h. inr (inr (omega arith))
    Move-IsAlert s t alert (push_fails v full) = alert
    Move-IsAlert s t alert (announces n some_left) = λ h. inr (inl (laws.write_wakes fd s.os_state))
    Move-IsAlert s t alert (wakes here_polling ready) = λ h. cc h
    Move-IsAlert s t alert (sleeps_on here_polling unready) = λ h. cc h
    Move-IsAlert s t alert (reads in_drain more) = λ h. absurd (cc (in_drain, h))
    Move-IsAlert s t alert (has_drained in_drain over) = λ h. cc h
    Move-IsAlert s t alert (pops x q in_loop got) = λ h. absurd (cc (in_loop, h))
    Move-IsAlert s t alert (finds_nothing q in_loop got) = λ h. inl (pop_empties s.queue q got)

    Moves-IsAlert : (s t : Exchange K A) → IsAlert s → Moves s t → IsAlert t
    Moves-IsAlert s t alert at_start = alert
    Moves-IsAlert s t alert (then_move {t = u} moves move) =
        Move-IsAlert u t (Moves-IsAlert s u alert moves) move

    -- No wakeup is lost: from an empty queue, in every order of the producers' pushes and Notify
    -- calls and of the steps of the loop, a loop that is about to poll while something is in the
    -- queue finds the wakeup readable, unless a producer that has pushed is still to call Notify.
    pub no_lost_wakeup :
        (capacity : ℕ) (k : K) (s : Exchange K A)
        → Moves (resting capacity k) s
        → s.phase ≡ polling
        → s.queue.queue ≢ []
        → s.unannounced ≡ 0
        → os.readable fd s.os_state ≡ true
    unfolding resting Mpsc.make
    no_lost_wakeup capacity k s moves before_poll something all_told =
        elim (Moves-IsAlert (resting capacity k) s (λ h. inl refl) moves before_poll) [
          | inl nothing ↦ absurd (something nothing)
          | inr (inl ready) ↦ ready
          | inr (inr some_left) ↦ absurd (omega arith)
        ]
