-- ===== src/Reactor/TcpClient/Connects.antt =====
-- What tcp_client.cpp registers when a connection is made, at once or later, and what a reconnection
-- leaves as it was.
use mathlib.Core.Path.{subst}
use lars_system.Base.{
  ℕ, ◌≡◌, refl, sym, ap, ◌∙◌, ◌==◌, not, Bool, true, false, if◌then◌else◌, Option, none, some, ◌∷◌,
  lookup, lookup-put, lookup-erase, contains, insert, contains-insert, contains-remove, ◌&&◌, ◌||◌,
  arith, Bool-cases, inl, inr,
}
use lars_system.Base.Run.{Safe}
use lars_system.Reactor.ReactorBuf.{length_in, buf_length}
use lars_system.Reactor.EventLoop.{
  Mask, IoEvent, EventLoop, epollin, epollout, join, add_callback, add_io_event, del_io_event,
}
use lars_system.Reactor.TcpClient.{
  Callback, client_rd, client_wr, connection_succ, TcpClient, Connect, connected, in_progress,
  Hooks, watch_loop, watch, connection_made, close_present, after_connect, do_connect, forget,
  clean_conn,
}

-- What a client asks of its connection: readings, and writings if there is output.
abbrev pub event_of : {C : Type 0} → Bool → IoEvent (Callback C)
event_of no_output = record {
  mask = record { reads = true; writes = not no_output };
  read_callback = some client_rd;
  write_callback = if no_output then none else some client_wr;
}

abbrev mask_of : {F : Type 0} → Option (IoEvent F) → Option Mask
mask_of none = none
mask_of (some ev) = some ev.mask

module _ {C T : Type 0} where
  -- No hooks are set.
  abbrev pub no_hooks : Hooks C T
  no_hooks = record { conn_start = λ c. c; conn_close = λ c. c }

  -- A descriptor has this entry, epoll was told its mask, and every other descriptor has the entry
  -- that it had.
  abbrev pub Entry :
      ℕ
      → Option (IoEvent (Callback C))
      → EventLoop (Callback C) T
      → EventLoop (Callback C) T
      → Type 0
  Entry fd ev old l =
      (k : ℕ)
      → (lookup k l.io_evs ≡ (if fd == k then ev else lookup k old.io_evs))
        × (lookup k l.epoll ≡ (if fd == k then mask_of ev else lookup k old.epoll))

  Entry-add_io_event :
      (fd : ℕ) (f : Callback C) (m : Mask) (ev : Option (IoEvent (Callback C)))
      (old l : EventLoop (Callback C) T)
      → Entry fd ev old l
      → Entry fd (some (add_callback f m ev)) old (add_io_event true fd f m l)
  unfolding add_io_event
  Entry-add_io_event fd f m ev old l h k =
      let before : lookup fd l.io_evs ≡ ev = (h fd).0 ∙ ground arith in
      rw
        (
          lookup-put fd k (add_callback f m (lookup fd l.io_evs)) l.io_evs,
          lookup-put fd k (add_callback f m (lookup fd l.io_evs)).mask l.epoll,
          before,
        )
        (elim (Bool-cases (fd == k)) [
          | inl same ↦ rw same (refl, refl)
          | inr differ ↦ rw differ ((h k).0 ∙ rw differ refl, (h k).1 ∙ rw differ refl)
        ])

  -- Every other descriptor has the entry that it had.
  abbrev Others : ℕ → EventLoop (Callback C) T → EventLoop (Callback C) T → Type 0
  Others fd old l =
      (k : ℕ)
      → (fd == k) ≡ false
      → (lookup k l.io_evs ≡ lookup k old.io_evs) × (lookup k l.epoll ≡ lookup k old.epoll)

  Others-add_io_event :
      (fd : ℕ) (f : Callback C) (m : Mask) (old l : EventLoop (Callback C) T)
      → Others fd old l
      → Others fd old (add_io_event true fd f m l)
  unfolding add_io_event
  Others-add_io_event fd f m old l h k differ =
      rw
        (
          lookup-put fd k (add_callback f m (lookup fd l.io_evs)) l.io_evs,
          lookup-put fd k (add_callback f m (lookup fd l.io_evs)).mask l.epoll,
          differ,
        )
        (h k differ)

  Others-watch_loop :
      (no_output : Bool) (fd : ℕ) (old l : EventLoop (Callback C) T)
      → Others fd old l
      → Others fd old (watch_loop no_output fd l)
  unfolding watch_loop
  Others-watch_loop true fd old l h = Others-add_io_event fd client_rd epollin old l h
  Others-watch_loop false fd old l h =
      Others-add_io_event fd client_wr epollout old (add_io_event true fd client_rd epollin l)
        (Others-add_io_event fd client_rd epollin old l h)

  Entry-del_io_event :
      (fd : ℕ) (old l : EventLoop (Callback C) T)
      → Others fd old l
      → Entry fd none old (del_io_event fd l)
  unfolding del_io_event
  Entry-del_io_event fd old l h k =
      rw (lookup-erase fd k l.io_evs, lookup-erase fd k l.epoll)
        (elim (Bool-cases (fd == k)) [
          | inl same ↦ rw same (refl, refl)
          | inr differ ↦ rw differ (h k differ)
        ])

  watch_loop-Entry :
      (no_output : Bool) (fd : ℕ) (old l : EventLoop (Callback C) T)
      → Entry fd none old l
      → Entry fd (some (event_of no_output)) old (watch_loop no_output fd l)
  unfolding watch_loop add_callback join epollin epollout
  watch_loop-Entry true fd old l h = Entry-add_io_event fd client_rd epollin none old l h
  watch_loop-Entry false fd old l h =
      Entry-add_io_event fd client_wr epollout (some (add_callback client_rd epollin none)) old
        (add_io_event true fd client_rd epollin l)
        (Entry-add_io_event fd client_rd epollin none old l h)

  forget-some :
      (fd : ℕ) (c : TcpClient C T)
      → c.sockfd ≡ some fd
      → forget c ≡ record c { loop = del_io_event fd c.loop; closed = fd ∷ c.closed }
  unfolding forget
  forget-some fd c e = rw e refl

  close_present-some :
      (fd : ℕ) (c : TcpClient C T)
      → c.sockfd ≡ some fd
      → close_present c ≡ record c { closed = fd ∷ c.closed }
  unfolding close_present
  close_present-some fd c e = rw e refl

  -- The client when `clean_conn` comes to `connect`.
  abbrev left : ℕ → TcpClient C T → TcpClient C T
  left gone c = record c { loop = del_io_event gone c.loop; closed = gone ∷ gone ∷ c.closed }

  clean_conn-left :
      (net : Connect) (gone : ℕ) (c : TcpClient C T)
      → c.sockfd ≡ some gone
      → clean_conn no_hooks net c ≡ after_connect no_hooks net (left gone c)
  unfolding clean_conn do_connect
  clean_conn-left net gone c e =
      ap (λ d. after_connect no_hooks net (close_present d)) (forget-some gone c e)
      ∙ ap (after_connect no_hooks net) (
          close_present-some gone
            (record c { loop = del_io_event gone c.loop; closed = gone ∷ c.closed }) e)

  -- The new descriptor has this entry, epoll was told its mask, and it is listened to; of the old one
  -- nothing is left; every other descriptor has what it had; and the same tasks are ready.
  abbrev pub Moved :
      ℕ → ℕ → IoEvent (Callback C) → EventLoop (Callback C) T → EventLoop (Callback C) T → Type 0
  Moved fd gone ev old l =
      ((k : ℕ)
        → (lookup k l.io_evs
            ≡ (if fd == k then some ev else if gone == k then none else lookup k old.io_evs))
          × (lookup k l.epoll
              ≡ (if fd == k then some ev.mask else if gone == k then none else lookup k old.epoll))
          × (contains k l.listen_fds
              ≡ ((fd == k) || (not (gone == k) && contains k old.listen_fds))))
      × (l.ready_tasks ≡ old.ready_tasks)

  listens-watch_loop :
      (no_output : Bool) (fd k : ℕ) (l : EventLoop (Callback C) T)
      → contains k (watch_loop no_output fd l).listen_fds ≡ ((fd == k) || contains k l.listen_fds)
  unfolding watch_loop add_io_event
  listens-watch_loop true fd k l = contains-insert k fd l.listen_fds
  listens-watch_loop false fd k l =
      ground
        (arith, contains-insert k fd (insert fd l.listen_fds), contains-insert k fd l.listen_fds)

  ready_tasks-watch_loop :
      (no_output : Bool) (fd : ℕ) (l : EventLoop (Callback C) T)
      → (watch_loop no_output fd l).ready_tasks ≡ l.ready_tasks
  unfolding watch_loop add_io_event
  ready_tasks-watch_loop true fd l = refl
  ready_tasks-watch_loop false fd l = refl

  -- The last registrations of a connection, whatever was registered for the descriptor before.
  watch_loop-Moved :
      (no_output : Bool) (fd gone : ℕ) (old l : EventLoop (Callback C) T)
      → Others fd (del_io_event gone old) l
      → ((k : ℕ)
          → contains k l.listen_fds ≡ ((fd == k) || contains k (del_io_event gone old).listen_fds))
      → l.ready_tasks ≡ old.ready_tasks
      → Moved fd gone (event_of no_output) old (watch_loop no_output fd (del_io_event fd l))
  unfolding del_io_event
  watch_loop-Moved no_output fd gone old l h listens tasks =
      let now =
        watch_loop-Entry no_output fd (del_io_event gone old) (del_io_event fd l)
          (Entry-del_io_event fd (del_io_event gone old) l h) in
      (
        (λ k. (
          (now k).0 ∙ rw (lookup-erase gone k old.io_evs) refl,
          (now k).1 ∙ rw (lookup-erase gone k old.epoll) refl,
          ground (
            arith,
            listens-watch_loop no_output fd k (del_io_event fd l),
            contains-remove k fd l.listen_fds,
            listens k,
            contains-remove k gone old.listen_fds,
          ),
        )),
        ready_tasks-watch_loop no_output fd (del_io_event fd l) ∙ tasks,
      )

  -- The state after a reconnection to `fd`: the loop watches it for what the client wants, and of the
  -- old descriptor nothing is left; both buffers are as they were; and the old descriptor was passed
  -- to `close` twice.
  abbrev pub Reconnected : ℕ → ℕ → TcpClient C T → TcpClient C T → Type 0
  Reconnected fd gone c c' =
      (c'.sockfd ≡ some fd)
      × Moved fd gone (event_of (length_in c.obuf == 0)) c.loop c'.loop
      × (c'.ibuf ≡ c.ibuf)
      × (c'.obuf ≡ c.obuf)
      × (c'.pool ≡ c.pool)
      × (c'.closed ≡ gone ∷ gone ∷ c.closed)

  -- Where no hooks are set and `connect` succeeds, `clean_conn` comes to a reconnection: the loop
  -- watches the new descriptor, has nothing of the old one, and has of all others what it had. So it
  -- is whether the connection is made at once, or later, where the loop calls `connection_succ` without
  -- an error and the client and the loop did nothing in between.
  pub clean_conn-Reconnected :
      (fd gone : ℕ) (c : TcpClient C T)
      → c.sockfd ≡ some gone
      → Safe ⊥ (Reconnected fd gone c) (clean_conn no_hooks (connected fd true) c)
        × Safe ⊥
            (λ c'. Reconnected fd gone c (connection_made no_hooks true fd c'))
            (clean_conn no_hooks (in_progress fd) c)
  unfolding after_connect connection_made watch buf_length add_io_event
  clean_conn-Reconnected fd gone c e =
      let no_output = length_in c.obuf == 0 in
      let l = del_io_event gone c.loop in
      let same : Others fd l l = λ k differ. (refl, refl) in
      let waits = add_io_event true fd connection_succ epollout l in
      (
        subst (Safe ⊥ (Reconnected fd gone c)) (sym (clean_conn-left (connected fd true) gone c e))
            (
              refl,
              watch_loop-Moved no_output fd gone c.loop (watch_loop no_output fd l)
                  (Others-watch_loop no_output fd l l same)
                  (λ k. listens-watch_loop no_output fd k l)
                  (ready_tasks-watch_loop no_output fd l),
              refl,
              refl,
              refl,
              refl,
            ),
        subst (Safe ⊥ (λ c'. Reconnected fd gone c (connection_made no_hooks true fd c')))
            (sym (clean_conn-left (in_progress fd) gone c e))
            (
              refl,
              watch_loop-Moved no_output fd gone c.loop waits
                  (Others-add_io_event fd connection_succ epollout l l same)
                  (λ k. contains-insert k fd l.listen_fds) refl,
              refl,
              refl,
              refl,
              refl,
            ),
      )
