-- ===== src/Hub/Reactor/Laws/Linked.antt =====
-- The two tables of a reactor: the sessions and the descriptors.
use hi_im_core.Prelude.{
  ==_refl, Bool, Option-cases, Table, [], ap, arith, erase, false, inl, inr, insert, lookup,
  lookup-erase, lookup-insert, ne→not_==, none, refl, some, sym, true, ℕ, ◌∙◌, ◌≡◌, ◌≢◌, ◌⊎◌,
}
use hi_im_core.Hub.Reactor.{Session, fd_key}

-- A session is stored under its number and its descriptor leads to it, and a descriptor leads to a
-- session that has it.
pub record AreLinked (sessions : Table Session) (fds : Table ℕ) : Type 0 where
  pub own : (k : ℕ) (s : Session) → lookup k sessions ≡ some s → s.sid ≡ k
  pub listed :
      (k : ℕ) (s : Session) → lookup k sessions ≡ some s → lookup (fd_key s.fd) fds ≡ some k
  pub owned :
      (f k : ℕ)
      → lookup f fds ≡ some k
      → (s : Session) × (lookup k sessions ≡ some s) × (fd_key s.fd ≡ f)

pub lookup-insert_cases :
    {V : Type 0} (k j : ℕ) (v w : V) (t : Table V)
    → lookup j (insert k v t) ≡ some w
    → ((k ≡ j) × (v ≡ w)) ⊎ ((k ≢ j) × (lookup j t ≡ some w))
lookup-insert_cases k j v w t found = ground (arith, lookup-insert k j v t)

pub lookup-erase_cases :
    {V : Type 0} (k j : ℕ) (w : V) (t : Table V)
    → lookup j (erase k t) ≡ some w
    → (k ≢ j) × (lookup j t ≡ some w)
lookup-erase_cases k j w t found = ground (arith, lookup-erase k j t)

pub lookup-insert_same :
    {V : Type 0} (k : ℕ) (v : V) (t : Table V) → lookup k (insert k v t) ≡ some v
lookup-insert_same k v t = rw (lookup-insert k k v t, ==_refl k) refl

pub lookup-insert_other :
    {V : Type 0} (k j : ℕ) (v : V) (t : Table V) → k ≢ j → lookup j (insert k v t) ≡ lookup j t
lookup-insert_other k j v t differ = rw (lookup-insert k j v t, ne→not_== k j differ) refl

pub lookup-erase_other :
    {V : Type 0} (k j : ℕ) (t : Table V) → k ≢ j → lookup j (erase k t) ≡ lookup j t
lookup-erase_other k j t differ = rw (lookup-erase k j t, ne→not_== k j differ) refl

ℕ-cases : (k j : ℕ) → (k ≡ j) ⊎ (k ≢ j)
ℕ-cases k j = ground arith

module _ {sessions : Table Session} {fds : Table ℕ} (linked : AreLinked sessions fds) where
  -- A session is changed in place.
  pub AreLinked-put :
      (k : ℕ) (s s' : Session)
      → lookup k sessions ≡ some s
      → s'.sid ≡ s.sid
      → s'.fd ≡ s.fd
      → AreLinked (insert k s' sessions) fds
  AreLinked-put k s s' there same_sid same_fd = record {
    own = λ j t found. elim (lookup-insert_cases k j s' t sessions found) [
      | inl (at_k, this) ↦ ap (λ x. x.sid) (sym this) ∙ same_sid ∙ linked.own k s there ∙ at_k
      | inr (differ, before) ↦ linked.own j t before
    ];
    listed = λ j t found. elim (lookup-insert_cases k j s' t sessions found) [
      | inl (at_k, this) ↦
          ap (λ x. lookup (fd_key x.fd) fds) (sym this)
          ∙ ap (λ fd. lookup (fd_key fd) fds) same_fd
          ∙ linked.listed k s there
          ∙ ap some at_k
      | inr (differ, before) ↦ linked.listed j t before
    ];
    owned = λ f j found.
        let (t, t_there, t_fd) = linked.owned f j found in
        elim (ℕ-cases k j) [
          | inl at_k ↦ (
            s',
            ap (λ i. lookup i (insert k s' sessions)) (sym at_k) ∙ lookup-insert_same k s' sessions,
            ap fd_key same_fd ∙ ap (λ x. fd_key x.fd) (same_entry j s t there at_k t_there) ∙ t_fd,
          )
          | inr differ ↦ (t, lookup-insert_other k j s' sessions differ ∙ t_there, t_fd)
        ];
  }
    where
      same_entry :
          (j : ℕ) (s t : Session)
          → lookup k sessions ≡ some s
          → k ≡ j
          → lookup j sessions ≡ some t
          → s ≡ t
      same_entry j s t s_there at_k t_there = cc

  -- Two descriptors of one key belong to one session.
  descriptors_differ :
      (k j : ℕ) (s t : Session)
      → lookup k sessions ≡ some s
      → lookup j sessions ≡ some t
      → k ≢ j
      → fd_key s.fd ≢ fd_key t.fd
  descriptors_differ k j s t s_there t_there differ same =
      differ (cc (linked.listed k s s_there, linked.listed j t t_there))

  -- A session and its descriptor are erased.
  pub AreLinked-erase :
      (k : ℕ) (s : Session)
      → lookup k sessions ≡ some s
      → AreLinked (erase k sessions) (erase (fd_key s.fd) fds)
  AreLinked-erase k s there = record {
    own = λ j t found. linked.own j t (lookup-erase_cases k j t sessions found).1;
    listed = λ j t found.
        let (differ, before) = lookup-erase_cases k j t sessions found in
        lookup-erase_other (fd_key s.fd) (fd_key t.fd) fds
          (descriptors_differ k j s t there before differ)
        ∙ linked.listed j t before;
    owned = λ f j found.
        let (other_fd, before) = lookup-erase_cases (fd_key s.fd) f j fds found in
        let (t, t_there, t_fd) = linked.owned f j before in
        (
          t,
          lookup-erase_other k j sessions (λ at_k. other_fd (one_session j f t at_k t_there t_fd))
              ∙ t_there,
          t_fd,
        );
  }
    where
      one_session :
          (j f : ℕ) (t : Session)
          → k ≡ j
          → lookup j sessions ≡ some t
          → fd_key t.fd ≡ f
          → fd_key s.fd ≡ f
      one_session j f t at_k t_there t_fd = cc

  -- A session is added under a new number and a new descriptor.
  pub AreLinked-add :
      (k : ℕ) (s : Session)
      → s.sid ≡ k
      → lookup k sessions ≡ none
      → lookup (fd_key s.fd) fds ≡ none
      → AreLinked (insert k s sessions) (insert (fd_key s.fd) k fds)
  AreLinked-add k s own_sid new_sid new_fd = record {
    own = λ j t found. elim (lookup-insert_cases k j s t sessions found) [
      | inl (at_k, this) ↦ ap (λ x. x.sid) (sym this) ∙ own_sid ∙ at_k
      | inr (differ, before) ↦ linked.own j t before
    ];
    listed = λ j t found. elim (lookup-insert_cases k j s t sessions found) [
      | inl (at_k, this) ↦
          ap (λ x. lookup (fd_key x.fd) (insert (fd_key s.fd) k fds)) (sym this)
          ∙ lookup-insert_same (fd_key s.fd) k fds
          ∙ ap some at_k
      | inr (differ, before) ↦
          lookup-insert_other (fd_key s.fd) (fd_key t.fd) k fds
            (λ same. cc (linked.listed j t before, same, new_fd))
          ∙ linked.listed j t before
    ];
    owned = λ f j found. elim (lookup-insert_cases (fd_key s.fd) f k j fds found) [
      | inl (at_f, this) ↦ (
        s,
        ap (λ i. lookup i (insert k s sessions)) (sym this) ∙ lookup-insert_same k s sessions,
        at_f,
      )
      | inr (other, before) ↦
          let (t, t_there, t_fd) = linked.owned f j before in
          (
            t,
            lookup-insert_other k j s sessions (λ at_k. cc (at_k, t_there, new_sid)) ∙ t_there,
            t_fd,
          )
    ];
  }

-- The tables of a new reactor.
pub empty-AreLinked : AreLinked [] []
unfolding lookup
empty-AreLinked = record {
  own = λ k s found. absurd (cc found);
  listed = λ k s found. absurd (cc found);
  owned = λ f k found. absurd (cc found);
}

-- The numbers and the keys of the descriptors of connections that are still to come.
pub record Coming : Type 0 where
  pub sid : ℕ → Bool
  pub key : ℕ → Bool

-- No session and no descriptor of the tables is still to come.
pub record AreFresh (coming : Coming) (sessions : Table Session) (fds : Table ℕ) : Type 0 where
  pub no_sid : (k : ℕ) (s : Session) → lookup k sessions ≡ some s → coming.sid k ≡ false
  pub no_key : (f k : ℕ) → lookup f fds ≡ some k → coming.key f ≡ false

module _ {coming : Coming} {sessions : Table Session} {fds : Table ℕ}
    (fresh : AreFresh coming sessions fds) where
  pub AreFresh-put :
      (k : ℕ) (s s' : Session)
      → lookup k sessions ≡ some s
      → AreFresh coming (insert k s' sessions) fds
  AreFresh-put k s s' there = record {
    no_sid = λ j t found. elim (lookup-insert_cases k j s' t sessions found) [
      | inl (at_k, this) ↦ ap coming.sid (sym at_k) ∙ fresh.no_sid k s there
      | inr (differ, before) ↦ fresh.no_sid j t before
    ];
    no_key = fresh.no_key;
  }

  pub AreFresh-erase : (k f : ℕ) → AreFresh coming (erase k sessions) (erase f fds)
  AreFresh-erase k f = record {
    no_sid = λ j t found. fresh.no_sid j t (lookup-erase_cases k j t sessions found).1;
    no_key = λ g j found. fresh.no_key g j (lookup-erase_cases f g j fds found).1;
  }

  -- A connection has come, and others are to come.
  pub AreFresh-add :
      (coming' : Coming) (k f : ℕ) (s : Session)
      → ((j : ℕ) → coming.sid j ≡ false → coming'.sid j ≡ false)
      → ((g : ℕ) → coming.key g ≡ false → coming'.key g ≡ false)
      → coming'.sid k ≡ false
      → coming'.key f ≡ false
      → AreFresh coming' (insert k s sessions) (insert f k fds)
  AreFresh-add coming' k f s fewer_sids fewer_keys no_k no_f = record {
    no_sid = λ j t found. elim (lookup-insert_cases k j s t sessions found) [
      | inl (at_k, this) ↦ ap coming'.sid (sym at_k) ∙ no_k
      | inr (differ, before) ↦ fewer_sids j (fresh.no_sid j t before)
    ];
    no_key = λ g j found. elim (lookup-insert_cases f g k j fds found) [
      | inl (at_f, this) ↦ ap coming'.key (sym at_f) ∙ no_f
      | inr (differ, before) ↦ fewer_keys g (fresh.no_key g j before)
    ];
  }

  -- What is still to come is not in the tables.
  pub new_sid : (k : ℕ) → coming.sid k ≡ true → lookup k sessions ≡ none
  new_sid k comes = elim (Option-cases (lookup k sessions)) [
    | inl missing ↦ missing
    | inr (s, there) ↦ absurd (cc (fresh.no_sid k s there))
  ]

  pub new_key : (f : ℕ) → coming.key f ≡ true → lookup f fds ≡ none
  new_key f comes = elim (Option-cases (lookup f fds)) [
    | inl missing ↦ missing
    | inr (k, there) ↦ absurd (cc (fresh.no_key f k there))
  ]
