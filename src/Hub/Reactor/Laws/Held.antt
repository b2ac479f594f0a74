-- ===== src/Hub/Reactor/Laws/Held.antt =====
-- The descriptors that a reactor has taken over and not closed.

-- Whether the descriptor of the key is held after the calls, if `b` tells whether it was before.
use hi_im_core.Prelude.{
  Bool, List, Option, Table, [], ap, arith, erase, false, if◌then◌else◌, insert, lookup,
  lookup-erase, lookup-insert, none, refl, some, true, ℕ, ◌++◌, ◌==◌, ◌∙◌, ◌∷◌, ◌≡◌,
}
use hi_im_core.Hub.Reactor.{
  Call, closed, drained_wakeup, epoll_add, epoll_del, epoll_mod, fd_key, tuned, wrote,
}

unfoldable pub held : ℕ → List Call → Bool → Bool
held key [] b = b
held key (epoll_add fd ∷ calls) b = held key calls (if fd_key fd == key then true else b)
held key (epoll_mod fd want_read want_write ∷ calls) b = held key calls b
held key (epoll_del fd ∷ calls) b = held key calls b
held key (tuned fd ∷ calls) b = held key calls b
held key (wrote fd bytes ∷ calls) b = held key calls b
held key (closed fd ∷ calls) b = held key calls (if fd_key fd == key then false else b)
held key (drained_wakeup ∷ calls) b = held key calls b

held-append :
    (key : ℕ) (l m : List Call) (b : Bool) → held key (l ++ m) b ≡ held key m (held key l b)
unfolding held
held-append key [] m b = refl
held-append key (epoll_add fd ∷ l) m b = held-append key l m _
held-append key (epoll_mod fd want_read want_write ∷ l) m b = held-append key l m b
held-append key (epoll_del fd ∷ l) m b = held-append key l m b
held-append key (tuned fd ∷ l) m b = held-append key l m b
held-append key (wrote fd bytes ∷ l) m b = held-append key l m b
held-append key (closed fd ∷ l) m b = held-append key l m _
held-append key (drained_wakeup ∷ l) m b = held-append key l m b

abbrev pub is_there : Option ℕ → Bool
is_there none = false
is_there (some k) = true

-- The held descriptors are those of the table.
abbrev pub AreHeld : List Call → Table ℕ → Type 0
AreHeld calls fds = (key : ℕ) → held key calls false ≡ is_there (lookup key fds)

-- A call that takes over and closes nothing.
abbrev pub IsNeutral : Call → Type 0
IsNeutral c = (key : ℕ) (b : Bool) → held key (c ∷ []) b ≡ b

module _ (calls : List Call) (fds : Table ℕ) (are_held : AreHeld calls fds) where
  pub AreHeld-neutral : (c : Call) → IsNeutral c → AreHeld (calls ++ (c ∷ [])) fds
  AreHeld-neutral c neutral key =
      held-append key calls (c ∷ []) false ∙ neutral key (held key calls false) ∙ are_held key

  pub AreHeld-close :
      (fd : Option ℕ) → AreHeld (calls ++ (epoll_del fd ∷ closed fd ∷ [])) (erase (fd_key fd) fds)
  unfolding held
  AreHeld-close fd key =
      held-append key calls (epoll_del fd ∷ closed fd ∷ []) false
      ∙ ap (λ b. if fd_key fd == key then false else b) (are_held key)
      ∙ ground (arith, lookup-erase (fd_key fd) key fds)

  pub AreHeld-add :
      (fd : Option ℕ) (sid : ℕ)
      → AreHeld (calls ++ (tuned fd ∷ epoll_add fd ∷ [])) (insert (fd_key fd) sid fds)
  unfolding held
  AreHeld-add fd sid key =
      held-append key calls (tuned fd ∷ epoll_add fd ∷ []) false
      ∙ ap (λ b. if fd_key fd == key then true else b) (are_held key)
      ∙ ground (arith, lookup-insert (fd_key fd) key sid fds)

pub epoll_mod-IsNeutral :
    (fd : Option ℕ) (want_read want_write : Bool) → IsNeutral (epoll_mod fd want_read want_write)
unfolding held
epoll_mod-IsNeutral fd want_read want_write key b = refl

pub wrote-IsNeutral : (fd : Option ℕ) (bytes : List ℕ) → IsNeutral (wrote fd bytes)
unfolding held
wrote-IsNeutral fd bytes key b = refl

pub drained_wakeup-IsNeutral : IsNeutral drained_wakeup
unfolding held
drained_wakeup-IsNeutral key b = refl
