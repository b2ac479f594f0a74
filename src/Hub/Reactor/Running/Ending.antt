-- ===== src/Hub/Reactor/Running/Ending.antt =====
-- How the thread of a reactor ends.
use hi_im_core.Prelude.{
  ==_refl, Bool, Bool-cases, List, Option-cases, Table, [], ap, done, false, inl, inr, lookup, map,
  ne→not_==, refl, some, sym, true, ℕ, ◌==◌, ◌||◌, ◌∙◌, ◌∷◌, ◌≡◌, ◌≢◌, ◌⊎◌,
}
use hi_im_core.Hub.Reactor.{Reactor, Session, close_all, close_found, close_session}
use hi_im_core.Hub.Reactor.Input.{RecvEnv}
use hi_im_core.Hub.Reactor.Laws.Held.{held, is_there}
use hi_im_core.Hub.Reactor.Laws.Linked.{lookup-erase_cases}
use hi_im_core.Hub.Reactor.Laws.Sound.{Failure, Fixed, IsSound, Reaches, close_session-IsSound}
use hi_im_core.Hub.Reactor.Loop.{Round, on_round, run}
use hi_im_core.Hub.Reactor.Output.{Kernel}
use hi_im_core.Hub.Reactor.Running.{IsFair, Serves, Serves-IsSound}
use hi_im_core.Hub.Reactor.Running.Steps.{
  AllFair, EventsReason, MeetsAnonymous, Reaches-next, Reaches-weaken, on_round-Serves,
}
use hi_im_core.Wire.Bytes.{Endian}

-- Whether a list of keys has one.
unfoldable pub has_key : ℕ → List ℕ → Bool
has_key k [] = false
has_key k (j ∷ keys) = (j == k) || has_key k keys

has_key-map :
    {V : Type 0} (t : Table V) (k : ℕ) (v : V)
    → lookup k t ≡ some v
    → has_key k (map (λ entry. entry.0) t) ≡ true
unfolding has_key lookup
has_key-map [] k v found = cc
has_key-map ((j, w) ∷ t) k v found = elim (Bool-cases (j == k)) [
  | inl this ↦ rw this refl
  | inr other ↦ rw other (has_key-map t k v (sym (rw (lookup, other) refl) ∙ found))
]

empty_of : {V : Type 0} (t : Table V) → ((k : ℕ) (v : V) → lookup k t ≢ some v) → t ≡ []
unfolding lookup
empty_of [] h = refl
empty_of ((j, w) ∷ t) h = absurd (h j w (rw (==_refl j) refl))

-- What is found after a session is closed was there before, and is another one.
still_found :
    (sid k : ℕ) (s : Session) (r : Reactor)
    → lookup k (close_session sid r).sessions ≡ some s
    → (sid ≢ k) × (lookup k r.sessions ≡ some s)
unfolding close_session close_found
still_found sid k s r found = elim (Option-cases (lookup sid r.sessions)) [
  | inl missing ↦
      let before : lookup k r.sessions ≡ some s = sym (rw (close_session, missing) refl) ∙ found in
      (λ same. cc (missing, before, same), before)
  | inr (t, there) ↦
      lookup-erase_cases sid k s r.sessions (sym (rw (close_session, there) refl) ∙ found)
]

module _ {base : Fixed} where
  -- After the loop over all the keys no session is found.
  close_all-IsSound :
      (sids : List ℕ) (r : Reactor)
      → IsSound base r
      → ((k : ℕ) (s : Session) → lookup k r.sessions ≡ some s → has_key k sids ≡ true)
      → IsSound base (close_all sids r)
        × ((k : ℕ) (s : Session) → lookup k (close_all sids r).sessions ≢ some s)
  unfolding close_all has_key
  close_all-IsSound [] r sound all = (sound, λ k s found. absurd (cc (all k s found)))
  close_all-IsSound (sid ∷ sids) r sound all =
      close_all-IsSound sids (close_session sid r) (close_session-IsSound sid r sound) (λ k s found.
        let (other, before) = still_found sid k s r found in
        skipped sid k sids other (all k s before))
    where
      skipped :
          (j k : ℕ) (keys : List ℕ) → j ≢ k → has_key k (j ∷ keys) ≡ true → has_key k keys ≡ true
      skipped j k keys other h = sym (rw (ne→not_== j k other) refl) ∙ h

-- The thread has closed all that it has taken over.
pub record HasClosed (r : Reactor) : Type 0 where
  pub no_session_left : r.sessions ≡ []
  pub no_descriptor_left : r.fd_to_sid ≡ []
  pub nothing_held : (key : ℕ) → held key r.calls false ≡ false

closes :
    {base : Fixed} (r : Reactor)
    → IsSound base r
    → HasClosed (close_all (map (λ entry. entry.0) r.sessions) r)
unfolding lookup
closes r sound =
    let sids = map (λ (entry : ℕ × Session). entry.0) r.sessions in
    let (sound', all_gone) = close_all-IsSound sids r sound (has_key-map r.sessions) in
    let no_fds =
      empty_of (close_all sids r).fd_to_sid (λ f k found.
        let (s, there, its_fd) = sound'.linked.owned f k found in all_gone k s there) in
    record {
      no_session_left = empty_of (close_all sids r).sessions all_gone;
      no_descriptor_left = no_fds;
      nothing_held = λ key. sound'.owns key ∙ ap (λ fds. is_there (lookup key fds)) no_fds;
    }

abbrev pub AllFairRounds : ℕ → List Round → Type 0
AllFairRounds fuel [] = Unit {0}
AllFairRounds fuel (round ∷ rounds) =
    AllFair fuel round.events × IsFair fuel round.before_sends × AllFairRounds fuel rounds

module _ (e : Endian) (kernel : Kernel) (others : RecvEnv) (fuel : ℕ) where
  -- In one of the rounds bytes come on a descriptor whose session has not authenticated by then.
  pub data RunMeetsAnonymous : List Round → Reactor → Type 0 where
    in_events :
        {round : Round} {rounds : List Round} {r : Reactor}
        → MeetsAnonymous e kernel others fuel round.events r
        → RunMeetsAnonymous (round ∷ rounds) r
    after_round :
        {round : Round} {rounds : List Round} {r r' : Reactor}
        → on_round e kernel others fuel round r ≡ done r'
        → RunMeetsAnonymous rounds r'
        → RunMeetsAnonymous (round ∷ rounds) r

  -- A use of an erased session has one of these reasons.
  abbrev pub RunReason : List Round → Reactor → Type 0
  RunReason rounds r = Failure kernel ⊎ RunMeetsAnonymous rounds r

  -- The thread of a reactor ends, whatever events come and whatever the kernel answers, if before
  -- each step the other threads leave fewer frames and connections in its queues than the fuel, the
  -- connections with numbers and descriptors that it does not have and that differ, and the queues of
  -- its workers in place: no `.at` of it throws, and at the end it has no session left, and it has
  -- closed every descriptor that it has taken over; or it uses an erased session, and then a send
  -- fails, or a round brings bytes on the descriptor of a session that has not authenticated by then.
  pub run-HasClosed :
      (rounds : List Round) (r : Reactor)
      → AllFairRounds fuel rounds
      → Serves fuel r
      → Reaches (RunReason rounds r) HasClosed (run e kernel others fuel rounds r)
  unfolding run
  run-HasClosed [] r fair serves = closes r (Serves-IsSound fuel r serves)
  run-HasClosed (round ∷ rounds) r fair serves =
      Reaches-next (RunReason (round ∷ rounds) r) (Serves fuel) HasClosed
        (on_round e kernel others fuel round r) _
        (Reaches-weaken (EventsReason e kernel others fuel round.events r)
          (RunReason (round ∷ rounds) r) (Serves fuel) (Serves fuel)
          (on_round e kernel others fuel round r) now (λ r' h. h)
          (on_round-Serves e kernel others fuel round r fair.0 fair.1 serves))
        (λ r' ends serves'.
          Reaches-weaken (RunReason rounds r') (RunReason (round ∷ rounds) r) HasClosed HasClosed
            (run e kernel others fuel rounds r') (later r' ends) (λ r'' h. h)
            (run-HasClosed rounds r' fair.2 serves'))
    where
      now : EventsReason e kernel others fuel round.events r → RunReason (round ∷ rounds) r
      now (inl failure) = inl failure
      now (inr met) = inr (in_events met)

      later :
          (r' : Reactor)
          → on_round e kernel others fuel round r ≡ done r'
          → RunReason rounds r'
          → RunReason (round ∷ rounds) r
      later r' ends (inl failure) = inl failure
      later r' ends (inr met) = inr (after_round ends met)
