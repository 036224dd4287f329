-- ===== src/Poller/Interest.antt =====
-- The kernel's interest list against `channels_` of polaris/src/EPollPoller.cc.
use lute.Prelude.{
  true, some, none, ◌≡◌, ℕ, Option, ◌≢◌, set_at, refl, sym, ◌⊎◌, ap, ◌∙◌, set_at_same, set_at_other,
  ℕ-cases, inl, inr,
}
use lute.Poller.{Poller, Channel, Epoll, Events, Index, ctl_add, ctl_mod, ctl_del, is_none_event}

-- The slot of `channels_` that a channel holds, and what the kernel watches for it.
abbrev pub slot : Index → ℕ → Option ℕ
slot Index.new p = none
slot Index.added p = some p
slot Index.deleted p = some p

abbrev pub watched : Index → Events → ℕ → Option (Events × ℕ)
watched Index.added e p = some (e, p)
watched Index.new e p = none
watched Index.deleted e p = none

abbrev pub expected : (ℕ → Channel) → Option ℕ → Option (Events × ℕ)
expected objects none = none
expected objects (some p) = watched (objects p).index (objects p).events p

module _ (epoll : Epoll) where
  open epoll use {Kernel, ctl, interest}

  abbrev pub Sets : ℕ → Option (Events × ℕ) → Kernel → Kernel → Type 0
  Sets fd v k k' = (f : ℕ) → interest k' f ≡ set_at fd v (interest k) f

  -- epoll_ctl(2), for a descriptor that is open: EPOLL_CTL_ADD of one that is not in the list, and
  -- EPOLL_CTL_MOD and EPOLL_CTL_DEL of one that is, succeed, and touch no other descriptor.
  pub record Laws : Type 0 where
    pub adds :
        (fd : ℕ) (e : Events × ℕ) (k : Kernel)
        → interest k fd ≡ none
        → (k' : Kernel) × (ctl ctl_add fd e k ≡ some k') × Sets fd (some e) k k'
    pub modifies :
        (fd : ℕ) (e x : Events × ℕ) (k : Kernel)
        → interest k fd ≡ some x
        → (k' : Kernel) × (ctl ctl_mod fd e k ≡ some k') × Sets fd (some e) k k'
    pub deletes :
        (fd : ℕ) (e x : Events × ℕ) (k : Kernel)
        → interest k fd ≡ some x
        → (k' : Kernel) × (ctl ctl_del fd e k ≡ some k') × Sets fd none k k'

  -- The kernel watches the descriptors of the channels that are `kAdded`, for the events that they
  -- ask for and under their own address; one that is `kDeleted` asks for nothing.
  pub record Sync (s : Poller epoll) : Type 0 where
    pub agrees : (f : ℕ) → interest s.kernel f ≡ expected s.objects (s.channels f)
    pub at_its_fd : (f p : ℕ) → s.channels f ≡ some p → (s.objects p).fd ≡ f
    pub listed : (p : ℕ) → (s.objects p).index ≢ Index.new → s.channels (s.objects p).fd ≡ some p
    pub idle :
        (p : ℕ) → (s.objects p).index ≡ Index.deleted → is_none_event (s.objects p).events ≡ true

  -- The channel at `p` becomes `c`, and all the rest is the same.
  pub record Placed (s : Poller epoll) (p : ℕ) (c : Channel) (s' : Poller epoll) : Type 0 where
    pub channels : (f : ℕ) → s'.channels f ≡ set_at c.fd (slot c.index p) s.channels f
    pub objects : (q : ℕ) → s'.objects q ≡ set_at p c s.objects q
    pub kernel : Sets c.fd (watched c.index c.events p) s.kernel s'.kernel

  slot-watched :
      (c : Channel) (p : ℕ) (objects : ℕ → Channel)
      → objects p ≡ c
      → watched c.index c.events p ≡ expected objects (slot c.index p)
  slot-watched c p objects e = go c.index refl
    where
      go : (i : Index) → c.index ≡ i → watched i c.events p ≡ expected objects (slot i p)
      go Index.new h = refl
      go Index.added h = rw (e, h)
      go Index.deleted h = rw (e, h)

  slot-some : (i : Index) (p q : ℕ) → slot i p ≡ some q → p ≡ q
  slot-some Index.new p q h = cc
  slot-some Index.added p q h = cc
  slot-some Index.deleted p q h = cc

  slot_taken : (i : Index) (p : ℕ) → i ≢ Index.new → slot i p ≡ some p
  slot_taken Index.new p h = absurd (h refl)
  slot_taken Index.added p h = refl
  slot_taken Index.deleted p h = refl

  -- No other channel has the descriptor of this one.
  abbrev pub Free : Poller epoll → ℕ → Type 0
  Free s p = (s.channels (s.objects p).fd ≡ none) ⊎ (s.channels (s.objects p).fd ≡ some p)

  elsewhere :
      (s : Poller epoll) (p q f : ℕ) → Sync s → f ≢ (s.objects p).fd → s.channels f ≡ some q → q ≢ p
  elsewhere s p q f sync h e same =
      h (sym (ap (λ x. (s.objects x).fd) (sym same) ∙ sync.at_its_fd f q e))

  -- What such a step keeps.
  module _ (s s' : Poller epoll) (p : ℕ) (c : Channel) (sync : Sync s)
      (same_fd : c.fd ≡ (s.objects p).fd) (free : Free s p)
      (rest : c.index ≡ Index.deleted → is_none_event c.events ≡ true)
      (placed : Placed s p c s') where
    at_p : s'.objects p ≡ c
    at_p = placed.objects p ∙ set_at_same p c s.objects

    at_q : (q : ℕ) → q ≢ p → s'.objects q ≡ s.objects q
    at_q q h = placed.objects q ∙ set_at_other p q c s.objects h

    slot_at : s'.channels c.fd ≡ slot c.index p
    slot_at = placed.channels c.fd ∙ set_at_same c.fd (slot c.index p) s.channels

    slot_other : (f : ℕ) → f ≢ c.fd → s'.channels f ≡ s.channels f
    slot_other f h = placed.channels f ∙ set_at_other c.fd f (slot c.index p) s.channels h

    q_of : (f q : ℕ) → f ≢ c.fd → s.channels f ≡ some q → q ≢ p
    q_of f q h e = elsewhere s p q f sync (λ k. h (k ∙ sym same_fd)) e

    unchanged :
        (f : ℕ)
        → f ≢ c.fd
        → (o : Option ℕ) → s.channels f ≡ o
        → expected s.objects o ≡ expected s'.objects o
    unchanged f h none e = refl
    unchanged f h (some q) e = rw (at_q q (q_of f q h e)) refl

    agrees_after : (f : ℕ) → interest s'.kernel f ≡ expected s'.objects (s'.channels f)
    agrees_after f = elim (ℕ-cases f c.fd) [
      | inl here ↦
          rw (here, placed.kernel c.fd, set_at_same, slot_at) (slot-watched c p s'.objects at_p)
      | inr there ↦
          placed.kernel f
          ∙ set_at_other c.fd f _ (interest s.kernel) there
          ∙ sync.agrees f
          ∙ unchanged f there (s.channels f) refl
          ∙ ap (expected s'.objects) (sym (slot_other f there))
    ]

    at_its_fd_after : (f q : ℕ) → s'.channels f ≡ some q → (s'.objects q).fd ≡ f
    at_its_fd_after f q e = elim (ℕ-cases f c.fd) [
      | inl here ↦
          let own = slot-some c.index p q (sym slot_at ∙ ap s'.channels (sym here) ∙ e) in
          ap (λ x. (s'.objects x).fd) (sym own) ∙ ap (λ x. x.fd) at_p ∙ sym here
      | inr there ↦
          let e' = sym (slot_other f there) ∙ e in
          ap (λ x. x.fd) (at_q q (q_of f q there e')) ∙ sync.at_its_fd f q e'
    ]

    other_fd : (q : ℕ) → q ≢ p → (s.objects q).index ≢ Index.new → (s.objects q).fd ≢ c.fd
    other_fd q h n e =
        let at_fd = ap s.channels (sym (e ∙ same_fd)) ∙ sync.listed q n in
        elim free [ inl empty ↦ cc | inr own ↦ h (cc) ]

    listed_after :
        (q : ℕ) → (s'.objects q).index ≢ Index.new → s'.channels (s'.objects q).fd ≡ some q
    listed_after q n = elim (ℕ-cases q p) [
      | inl here ↦
          let is_c = ap s'.objects here ∙ at_p in
          ap (λ x. s'.channels x.fd) is_c
          ∙ slot_at
          ∙ slot_taken c.index p (λ k. n (ap (λ x. x.index) is_c ∙ k))
          ∙ ap some (sym here)
      | inr there ↦
          let same = at_q q there in
          let n' : (s.objects q).index ≢ Index.new = λ k. n (ap (λ x. x.index) same ∙ k) in
          ap (λ x. s'.channels x.fd) same ∙ slot_other _ (other_fd q there n') ∙ sync.listed q n'
    ]

    idle_after :
        (q : ℕ) → (s'.objects q).index ≡ Index.deleted → is_none_event (s'.objects q).events ≡ true
    idle_after q e = elim (ℕ-cases q p) [
      | inl here ↦
          let is_c = ap s'.objects here ∙ at_p in
          ap (λ x. is_none_event x.events) is_c ∙ rest (ap (λ x. x.index) (sym is_c) ∙ e)
      | inr there ↦
          let same = at_q q there in
          ap (λ x. is_none_event x.events) same ∙ sync.idle q (ap (λ x. x.index) (sym same) ∙ e)
    ]

    pub Placed-Sync : Sync s'
    Placed-Sync = record {
      agrees = agrees_after;
      at_its_fd = at_its_fd_after;
      listed = listed_after;
      idle = idle_after;
    }
