-- ===== src/TableWriter/Pinned.antt =====
-- No statement but the one that pins the sql_mode runs on a connection before that one succeeded.
use mysql_selective_trace_pl.Common.{
  ℕ, ◌≡◌, refl, ◌∙◌, ◌⊎◌, inl, inr, Bool, true, false, not, ◌&&◌, ◌||◌, List, [], ◌∷◌,
  if◌then◌else◌, Bool-cases, if_cases, if_split, Bytes, equal, equal_iff,
}
use mysql_selective_trace_pl.TableWriter.{
  Call, registry_acquire, acquire, thread_init, factory_init, connect, close, sql_errno, thread_end,
  registry_release, release, query, set_mode, Writer, Server, make, acquire_services, close_conn,
  last_errno, open_conn, init_conn, init_thread, ensure_conn,
}

module _ (server : Server) where
  -- Whether the connection was opened by the calls, last one first, and its sql_mode was set with
  -- success since, with nothing that opens or closes a connection in between.
  abbrev pub pinned : List Call → Bool
  pinned [] = false
  pinned (registry_acquire ∷ h) = pinned h
  pinned (acquire _ ∷ h) = pinned h
  pinned (thread_init ∷ h) = pinned h
  pinned (factory_init ∷ h) = false
  pinned (connect ∷ h) = false
  pinned (close ∷ h) = false
  pinned (sql_errno ∷ h) = pinned h
  pinned (thread_end ∷ h) = pinned h
  pinned (registry_release ∷ h) = pinned h
  pinned (release _ ∷ h) = pinned h
  pinned (query sql ∷ h) =
      let before = pinned h in
      if equal sql set_mode then not (server.fails (query sql ∷ h)) else before

  -- Every other statement ran on a connection with its sql_mode pinned.
  abbrev pub AllPinned : List Call → Type 0
  AllPinned [] = Unit
  AllPinned (query sql ∷ h) = ((equal sql set_mode ≡ true) ⊎ (pinned h ≡ true)) × AllPinned h
  AllPinned (registry_acquire ∷ h) = AllPinned h
  AllPinned (acquire _ ∷ h) = AllPinned h
  AllPinned (thread_init ∷ h) = AllPinned h
  AllPinned (factory_init ∷ h) = AllPinned h
  AllPinned (connect ∷ h) = AllPinned h
  AllPinned (close ∷ h) = AllPinned h
  AllPinned (sql_errno ∷ h) = AllPinned h
  AllPinned (thread_end ∷ h) = AllPinned h
  AllPinned (registry_release ∷ h) = AllPinned h
  AllPinned (release _ ∷ h) = AllPinned h

  -- The statements so far were safe, and a connection that is open is pinned.
  pub record IsSafe (w : Writer) : Type 0 where
    pub all : AllPinned w.calls
    pub live : w.connected ≡ true → pinned w.calls ≡ true

  -- not the statement that sets the sql_mode
  abbrev pub IsOther : Bytes → Type 0
  IsOther sql = equal sql set_mode ≡ false

  close_conn-IsSafe :
      (w : Writer) → AllPinned w.calls → w.com_factory ≡ true → IsSafe (close_conn server w)
  unfolding close_conn
  close_conn-IsSafe w a f = elim (Bool-cases w.connected) [
    | inl e ↦ rw (e, f) (record { all = a; live = λ c. absurd (cc c) })
    | inr e ↦ rw e (record { all = a; live = λ c. absurd (cc c) })
  ]

  pub close_conn_keeps : (w : Writer) → IsSafe w → IsSafe (close_conn server w)
  unfolding close_conn
  close_conn_keeps w s = elim (Bool-cases (w.connected && w.com_factory)) [
    | inl e ↦ rw e (record { all = s.all; live = λ c. absurd (cc c) })
    | inr e ↦ rw e s
  ]

  pub last_errno-IsSafe : (w : Writer) → IsSafe w → IsSafe (last_errno server w).1
  unfolding last_errno
  last_errno-IsSafe w s = elim (Bool-cases (not w.com_error_info || not w.connected)) [
    | inl e ↦ rw e s
    | inr e ↦ rw e (record { all = s.all; live = s.live })
  ]

  -- a statement on an open connection
  pub query-IsSafe :
      (sql : Bytes) (w : Writer)
      → IsOther sql
      → IsSafe w
      → w.connected ≡ true
      → IsSafe (make server (query sql) w).1
  unfolding make
  query-IsSafe sql w other s c = record {
    all = (inr (s.live c), s.all);
    live = λ _. rw other (s.live c);
  }

  pub make-connected :
      (c : Call) (w : Writer) → w.connected ≡ true → (make server c w).1.connected ≡ true
  unfolding make
  make-connected c w on = on

  -- what a try to open a connection leaves
  abbrev pub Opened : Bool × Writer → Type 0
  Opened r = IsSafe r.1 × (r.0 ≡ true → r.1.connected ≡ true)

  set_mode-itself : equal set_mode set_mode ≡ true
  set_mode-itself = (equal_iff set_mode set_mode).1 refl

  pub last_errno-connected : (w : Writer) → (last_errno server w).1.connected ≡ w.connected
  unfolding last_errno
  last_errno-connected w =
      if_cases (λ (r : ℕ × Writer). r.1.connected ≡ w.connected)
        (not w.com_error_info || not w.connected) {x = (0, w)}
        {y = (
          (if server.fails (sql_errno ∷ w.calls) then 0 else server.errno (sql_errno ∷ w.calls)),
          record w { calls = sql_errno ∷ w.calls },
        )}
        refl refl

  -- behind the CREATE, on a connection that is safe
  created-Opened :
      (failed : Bool) (w : Writer)
      → IsSafe w
      → w.connected ≡ true
      → Opened (true, (if failed then (last_errno server w).1 else w))
  created-Opened true w s c = (last_errno-IsSafe w s, (λ _. last_errno-connected w ∙ c))
  created-Opened false w s c = (s, (λ _. c))

  open_conn-Opened :
      (w : Writer)
      → IsOther server.create_log_table
      → AllPinned w.calls
      → w.com_factory ≡ true
      → w.connected ≡ true
      → Opened (open_conn server w)
  unfolding open_conn make
  open_conn-Opened w other a f c =
      let w1 = record w { calls = connect ∷ w.calls } in
      let w2 = record w { calls = query set_mode ∷ connect ∷ w.calls } in
      let set_all : AllPinned w2.calls = (inl set_mode-itself, a) in
      elim (Bool-cases (server.fails (connect ∷ w.calls))) [
        | inl e ↦ rw e (close_conn-IsSafe w1 a f, (λ h. absurd (cc h)))
        | inr e ↦ elim (Bool-cases (server.fails (query set_mode ∷ connect ∷ w.calls))) [
          | inl e' ↦ rw (e, e') (close_conn-IsSafe w2 set_all f, (λ h. absurd (cc h)))
          | inr e' ↦
              let safe : IsSafe w2 = record {
                all = set_all;
                live = λ _. rw (set_mode-itself, e') refl;
              } in
              rw (e, e')
                (created-Opened _ (make server (query server.create_log_table) w2).1
                  (query-IsSafe server.create_log_table w2 other safe c) c)
        ]
      ]

  init_conn-Opened :
      (w : Writer)
      → IsOther server.create_log_table
      → AllPinned w.calls
      → w.com_factory ≡ true
      → Opened (init_conn server w)
  unfolding init_conn make
  init_conn-Opened w other a f = elim (Bool-cases (server.fails (factory_init ∷ w.calls))) [
    | inl e ↦ rw e (record { all = a; live = λ c. absurd (cc c) }, (λ h. absurd (cc h)))
    | inr e ↦ rw e (
        open_conn-Opened (record w { calls = factory_init ∷ w.calls; connected = true }) other a f
          refl)
  ]

  init_thread-Opened :
      (w : Writer)
      → IsOther server.create_log_table
      → AllPinned w.calls
      → w.com_factory ≡ true
      → w.connected ≡ false
      → Opened (init_thread server w)
  unfolding init_thread make
  init_thread-Opened w other a f off =
      let failed = server.fails (thread_init ∷ w.calls) in
      let w1 = record w { calls = thread_init ∷ w.calls } in
      let w2 = record w1 { command_thread_inited = true } in
      let second : Opened (if failed then (false, w1) else init_conn server w2) =
        if_cases Opened failed {x = (false, w1)} {y = init_conn server w2}
          (record { all = a; live = λ c. absurd (cc (c, off)) }, (λ h. absurd (cc h)))
          (init_conn-Opened w2 other a f) in
      if_cases Opened w.command_thread_inited {x = init_conn server w}
        {y = if failed then (false, w1) else init_conn server w2} (init_conn-Opened w other a f)
        second

  -- what acquiring the services leaves
  abbrev Acquired : Writer → Bool × Writer → Type 0
  Acquired w r =
      AllPinned r.1.calls × (r.1.connected ≡ w.connected) × (r.0 ≡ true → r.1.com_factory ≡ true)

  first_true : (a b c d : Bool) → (a && b && c && d) ≡ true → a ≡ true
  first_true true b c d h = refl
  first_true false b c d h = cc h

  acquire_services-Acquired :
      (w : Writer) → AllPinned w.calls → Acquired w (acquire_services server w)
  unfolding acquire_services
  acquire_services-Acquired w a = elim (Bool-cases w.services_acquired) [
    | inl e ↦ rw e (a, refl, first_true w.com_factory w.com_query w.com_error_info w.com_thread)
    | inr e ↦ elim (Bool-cases (server.fails (registry_acquire ∷ w.calls))) [
      | inl e' ↦ rw (e, e') (a, refl, (λ h. absurd (cc h)))
      | inr e' ↦ rw (e, e') (a, refl, first_true _ _ _ _)
    ]
  ]

  pub ensure_conn-Opened :
      (w : Writer) → IsOther server.create_log_table → IsSafe w → Opened (ensure_conn server w)
  unfolding ensure_conn
  ensure_conn-Opened w other s =
      let (all, same, factory) = acquire_services-Acquired w s.all in
      let got = acquire_services server w in
      let second : w.connected ≡ false
          → Opened (if got.0 then init_thread server got.1 else (false, got.1)) =
        λ off.
          if_split Opened got.0 {x = init_thread server got.1} {y = (false, got.1)}
            (λ ok. init_thread-Opened got.1 other all (factory ok) (same ∙ off))
            (λ no_services. (
              record { all = all; live = λ c. absurd (cc (c, same, off)) },
              (λ h. absurd (cc h)),
            )) in
      if_split Opened w.connected {x = (true, w)}
        {y = if got.0 then init_thread server got.1 else (false, got.1)} (λ on. (s, (λ _. on)))
        second
