-- ===== src/Hub/Listener/Numbering.antt =====
-- The numbers and the descriptors of connections, when one more comes.

-- The connection of a descriptor that gets the number n.
use hi_im_core.Prelude.{
  Bool, List, Table, [], arith, false, lookup, none, refl, some, ℕ, ℕ_discrete, ◌++◌, ◌+◌, ◌==◌,
  ◌||◌, ◌∷◌, ◌≡◌,
}
use hi_im_core.Hub.Messages.{NewConnection}
use hi_im_core.Hub.Reactor.{Session, fd_key}
use hi_im_core.Hub.Reactor.Laws.Linked.{AreFresh}
use hi_im_core.Hub.Reactor.Running.{AllDistinct, any_of, coming_of}

abbrev pub new_conn : ℕ → ℕ → NewConnection
new_conn fd n = record { fd = some fd; sid = n }

any_of-append :
    (p : NewConnection → Bool) (cs : List NewConnection) (c : NewConnection)
    → any_of p (cs ++ (c ∷ [])) ≡ (any_of p cs || p c)
unfolding any_of
any_of-append p [] c = ground arith
any_of-append p (d ∷ cs) c = ground (arith, any_of-append p cs c)

-- The next number goes to a connection at the end of the queue.
pub AllDistinct-snoc :
    (n fd : ℕ) (cs : List NewConnection)
    → AllDistinct n cs
    → any_of (λ c. fd_key c.fd == fd_key (some fd)) cs ≡ false
    → AllDistinct (n + 1) (cs ++ (new_conn fd n ∷ []))
unfolding any_of
AllDistinct-snoc n fd [] distinct new = (ground arith, refl, tt)
AllDistinct-snoc n fd (c ∷ cs) distinct new = (
  ground (arith, any_of-append (λ d. d.sid == c.sid) cs (new_conn fd n)),
  ground (arith, any_of-append (λ d. fd_key d.fd == fd_key c.fd) cs (new_conn fd n)),
  AllDistinct-snoc n fd cs distinct.2 (ground arith),
)

pub AllDistinct-suc : (n : ℕ) (cs : List NewConnection) → AllDistinct n cs → AllDistinct (n + 1) cs
AllDistinct-suc n [] distinct = tt
AllDistinct-suc n (c ∷ cs) distinct = (ground arith, distinct.1, AllDistinct-suc n cs distinct.2)

module _ {sessions : Table Session} {fds : Table ℕ} (n fd : ℕ) (cs : List NewConnection)
    (fresh : AreFresh (coming_of n cs) sessions fds) where
  pub AreFresh-snoc :
      lookup (fd_key (some fd)) fds ≡ none
      → AreFresh (coming_of (n + 1) (cs ++ (new_conn fd n ∷ []))) sessions fds
  AreFresh-snoc new = record {
    no_sid = λ k s found.
        ground (arith, fresh.no_sid k s found, any_of-append (λ d. d.sid == k) cs (new_conn fd n));
    no_key = λ f k found. elim (ℕ_discrete (fd_key (some fd)) f) [
      | yes same ↦ absurd (cc (new, same, found))
      | no other ↦
          ground (
            arith,
            fresh.no_key f k found,
            any_of-append (λ d. fd_key d.fd == f) cs (new_conn fd n),
          )
    ];
  }

  pub AreFresh-suc : AreFresh (coming_of (n + 1) cs) sessions fds
  AreFresh-suc = record {
    no_sid = λ k s found. ground (arith, fresh.no_sid k s found);
    no_key = fresh.no_key;
  }
