-- ===== src/Reactor/EventLoop/Registrations.antt =====
-- What a loop believes to watch is what epoll was told, and what epoll can report can be handled.
use mathlib.Core.Path.{subst}
use lars_system.Base.{
  ℕ, ◌≡◌, refl, ap, ◌∙◌, ◌==◌, Bool, true, false, Option, none, some, lookup, put, lookup-put,
  lookup-erase, contains, contains-insert, contains-remove, is_some, arith, Bool-cases, inl, inr,
  ◌⊎◌,
}
use lars_system.Reactor.EventLoop.{
  Mask, epollin, epollout, join, without, is_empty, IoEvent, EventLoop, add_callback, add_io_event,
  del_io_event, del_mask, del_io_event_mask, Fired, call_it, call_either, dispatch, process_event,
}

-- What epoll may report of a descriptor that was told with a mask: readiness that the mask asks
-- for, and a hang-up always.
abbrev pub MayFire : Option Mask → Fired → Type 0
MayFire none e = ⊥
MayFire (some m) e = (e.readable ≡ true → m.reads ≡ true) × (e.writable ≡ true → m.writes ≡ true)

module _ {ℓ} {F : Type ℓ} where
  -- An entry whose mask is not empty, with a callback for each bit of it.
  pub record Callable (ev : IoEvent F) : Type 0 where
    pub some_bit : is_empty ev.mask ≡ false
    pub can_read : ev.mask.reads ≡ true → is_some ev.read_callback ≡ true
    pub can_write : ev.mask.writes ≡ true → is_some ev.write_callback ≡ true

  -- The entry of a descriptor, what epoll was told of it, and whether it is among the listened.
  abbrev pub Agree : Option (IoEvent F) → Option Mask → Bool → Type 0
  Agree none none listened = listened ≡ false
  Agree (some ev) (some m) listened = (m ≡ ev.mask) × (listened ≡ true) × Callable ev
  Agree none (some m) listened = ⊥
  Agree (some ev) none listened = ⊥

  abbrev AllCallable : Option (IoEvent F) → Type 0
  AllCallable none = Unit {0}
  AllCallable (some ev) = Callable ev

  Agree-AllCallable :
      (o : Option (IoEvent F)) (m : Option Mask) (b : Bool) → Agree o m b → AllCallable o
  Agree-AllCallable none m b h = tt
  Agree-AllCallable (some ev) none b h = absurd h
  Agree-AllCallable (some ev) (some m) b h = h.2

  add_callback-Callable :
      (f : F) (mask : Mask) (o : Option (IoEvent F))
      → (mask ≡ epollin) ⊎ (mask ≡ epollout)
      → AllCallable o
      → Callable (add_callback f mask o)
  unfolding add_callback join is_empty epollin epollout
  add_callback-Callable f mask none (inl e) h = record {
    some_bit = ground (arith, e);
    can_read = ground (arith, e);
    can_write = ground (arith, e);
  }
  add_callback-Callable f mask none (inr e) h = record {
    some_bit = ground (arith, e);
    can_read = ground (arith, e);
    can_write = ground (arith, e);
  }
  add_callback-Callable f mask (some ev) (inl e) h = record {
    some_bit = ground (arith, e, h.some_bit);
    can_read = ground (arith, e);
    can_write = ground (arith, e, h.can_write);
  }
  add_callback-Callable f mask (some ev) (inr e) h = record {
    some_bit = ground (arith, e, h.some_bit);
    can_read = ground (arith, e, h.can_read);
    can_write = ground (arith, e);
  }

  without-Callable :
      (mask : Mask) (ev : IoEvent F)
      → is_empty (without ev.mask mask) ≡ false
      → Callable ev
      → Callable (record ev { mask = without ev.mask mask })
  unfolding without is_empty
  without-Callable mask ev h c = record {
    some_bit = h;
    can_read = λ r. c.can_read (ground (arith, r));
    can_write = λ r. c.can_write (ground (arith, r));
  }

  Agree-listened :
      (ev : IoEvent F) (m : Option Mask) (b : Bool) → Agree (some ev) m b → (b ≡ true) × Callable ev
  Agree-listened ev none b h = absurd h
  Agree-listened ev (some m) b h = (h.1, h.2)

  dispatch_handles :
      (o : Option (IoEvent F)) (m : Option Mask) (b : Bool) (e : Fired)
      → Agree o m b
      → MayFire m e
      → is_some (dispatch e o) ≡ true
  unfolding dispatch call_it call_either
  dispatch_handles none none b e a h = absurd h
  dispatch_handles none (some m) b e a h = absurd a
  dispatch_handles (some ev) none b e a h = absurd h
  dispatch_handles (some ev) (some m) b e (same, _, c) (r, w) =
      ground (arith, same, c.can_read, c.can_write, r, w)

module _ {ℓ κ} {F : Type ℓ} {T : Type κ} where
  -- The loop, for every descriptor.
  unfoldable pub InStep : EventLoop F T → Type 0
  InStep l = (fd : ℕ) → Agree (lookup fd l.io_evs) (lookup fd l.epoll) (contains fd l.listen_fds)

  -- To register a callback for reading or for writing, when epoll accepts it, keeps the loop in step.
  pub add_io_event-InStep :
      (fd : ℕ) (f : F) (mask : Mask) (l : EventLoop F T)
      → (mask ≡ epollin) ⊎ (mask ≡ epollout)
      → InStep l
      → InStep (add_io_event true fd f mask l)
  unfolding add_io_event InStep
  add_io_event-InStep fd f mask l one v j =
      let c = add_callback-Callable f mask (lookup fd l.io_evs) one (
        Agree-AllCallable (lookup fd l.io_evs) (lookup fd l.epoll) (contains fd l.listen_fds)
          (v fd)) in
      let ev = add_callback f mask (lookup fd l.io_evs) in
      elim (Bool-cases (fd == j)) [
        | inl e ↦
            rw
              (
                lookup-put fd j ev l.io_evs,
                lookup-put fd j ev.mask l.epoll,
                contains-insert j fd l.listen_fds,
                e,
              )
              (refl, refl, c)
        | inr e ↦
            rw
              (
                lookup-put fd j ev l.io_evs,
                lookup-put fd j ev.mask l.epoll,
                contains-insert j fd l.listen_fds,
                e,
              )
              (v j)
      ]

  -- To delete a descriptor keeps the loop in step.
  pub del_io_event-InStep : (fd : ℕ) (l : EventLoop F T) → InStep l → InStep (del_io_event fd l)
  unfolding del_io_event InStep
  del_io_event-InStep fd l v j = elim (Bool-cases (fd == j)) [
    | inl e ↦
        let back : (j == fd) ≡ true = ground (arith, e) in
        rw
          (
            lookup-erase fd j l.io_evs,
            lookup-erase fd j l.epoll,
            contains-remove j fd l.listen_fds,
            e,
            back,
          )
          refl
    | inr e ↦
        let back : (j == fd) ≡ false = ground (arith, e) in
        rw
          (
            lookup-erase fd j l.io_evs,
            lookup-erase fd j l.epoll,
            contains-remove j fd l.listen_fds,
            e,
            back,
          )
          (v j)
  ]

  -- To put an entry of a descriptor does not matter when the descriptor is deleted after that.
  del_io_event-put :
      (fd : ℕ) (ev : IoEvent F) (l : EventLoop F T)
      → InStep l
      → InStep (del_io_event fd (record l { io_evs = put fd ev l.io_evs }))
  unfolding del_io_event InStep
  del_io_event-put fd ev l v j = elim (Bool-cases (fd == j)) [
    | inl e ↦
        let back : (j == fd) ≡ true = ground (arith, e) in
        rw
          (
            lookup-erase fd j (put fd ev l.io_evs),
            lookup-erase fd j l.epoll,
            contains-remove j fd l.listen_fds,
            e,
            back,
          )
          refl
    | inr e ↦
        let back : (j == fd) ≡ false = ground (arith, e) in
        rw
          (
            lookup-erase fd j (put fd ev l.io_evs),
            lookup-put fd j ev l.io_evs,
            lookup-erase fd j l.epoll,
            contains-remove j fd l.listen_fds,
            e,
            back,
          )
          (v j)
  ]

  put_mask-InStep :
      (fd : ℕ) (ev : IoEvent F) (l : EventLoop F T)
      → Callable ev
      → contains fd l.listen_fds ≡ true
      → InStep l
      → InStep (record l { io_evs = put fd ev l.io_evs; epoll = put fd ev.mask l.epoll })
  unfolding InStep
  put_mask-InStep fd ev l c h v j = elim (Bool-cases (fd == j)) [
    | inl e ↦
        rw (lookup-put fd j ev l.io_evs, lookup-put fd j ev.mask l.epoll, e)
          (refl, ap (λ i. contains i l.listen_fds) (ground (arith, e)) ∙ h, c)
    | inr e ↦ rw (lookup-put fd j ev l.io_evs, lookup-put fd j ev.mask l.epoll, e) (v j)
  ]

  del_mask-InStep :
      (fd : ℕ) (mask : Mask) (o : Option (IoEvent F)) (l : EventLoop F T)
      → lookup fd l.io_evs ≡ o
      → InStep l
      → InStep (del_mask fd mask o l)
  unfolding del_mask InStep
  del_mask-InStep fd mask none l e v = v
  del_mask-InStep fd mask (some ev) l e v =
      let known =
        Agree-listened ev (lookup fd l.epoll) (contains fd l.listen_fds) (entry_of fd ev l e v) in
      elim (Bool-cases (is_empty (without ev.mask mask))) [
        | inl none_left ↦
            rw none_left (del_io_event-put fd (record ev { mask = without ev.mask mask }) l v)
        | inr left ↦ rw left (
            put_mask-InStep fd (record ev { mask = without ev.mask mask }) l
              (without-Callable mask ev left known.1) known.0 v)
      ]
    where
      entry_of :
          (fd : ℕ) (ev : IoEvent F) (l : EventLoop F T)
          → lookup fd l.io_evs ≡ some ev
          → InStep l
          → Agree (some ev) (lookup fd l.epoll) (contains fd l.listen_fds)
      entry_of fd ev l e v =
          subst (λ o. Agree o (lookup fd l.epoll) (contains fd l.listen_fds)) e (v fd)

  -- To delete the interests of a mask, where epoll accepts it, keeps the loop in step with epoll.
  pub del_io_event_mask-InStep :
      (fd : ℕ) (mask : Mask) (l : EventLoop F T) → InStep l → InStep (del_io_event_mask fd mask l)
  unfolding del_io_event_mask
  del_io_event_mask-InStep fd mask l v = del_mask-InStep fd mask (lookup fd l.io_evs) l refl v

  -- In a loop that is in step with epoll, an event that epoll can report is handled: its descriptor
  -- has an entry, and no null pointer is called.
  pub process_event_handles :
      (fd : ℕ) (e : Fired) (l : EventLoop F T)
      → InStep l
      → MayFire (lookup fd l.epoll) e
      → is_some (process_event fd e l) ≡ true
  unfolding process_event InStep
  process_event_handles fd e l v h =
      dispatch_handles (lookup fd l.io_evs) (lookup fd l.epoll) (contains fd l.listen_fds) e (v fd)
        h
