-- ===== src/Session/Bracket.antt =====
-- What every call of the session wrapper of session.ts does to its connection.
use olive_branch.Prelude.{
  true, false, none, List, [], ◌∷◌, ◌++◌, map, ◌≡◌, refl, ◌⊎◌, inl, inr, ◌↔◌, ◌≢◌, arith,
  Bool-cases, Option-cases, sym, subst, ap,
}
use olive_branch.Session.{
  RoleName, child, is_child_role, VerifiedPrincipal, Sql, begin_transaction, commit, rollback,
  set_config, Effect, connected, released, query, Fault, connect_failed, query_failed, Outcome,
  returned, thrown, Trace, Callback, Database, is_falsy, callback_query, after, complete, finish,
  transaction, settle, on_connection, context_of, session_fault, with_session, with_system_session,
}

-- The principal may open a session: it is verified, a child has a child id, all others a user id.
pub record IsAcceptable (ctx : VerifiedPrincipal) : Type 0 where
  pub is_verified : ctx.verified ≡ true
  pub has_child_id : ctx.role_name ≡ child → is_falsy ctx.child_id ≡ false
  pub has_user_id : ctx.role_name ≢ child → is_falsy ctx.user_id ≡ false

session_fault_iff : (ctx : VerifiedPrincipal) → (session_fault ctx ≡ none) ↔ IsAcceptable ctx
unfolding session_fault
session_fault_iff ctx = let role = is_child_role_iff ctx.role_name in ground arith
  where
    is_child_role_iff : (r : RoleName) → (is_child_role r ≡ true) ↔ (r ≡ child)
    is_child_role_iff r = ground arith

module _ {T : Type 0} where
  -- The whole transaction ran: context, the callback's queries, COMMIT, release, in this order, and
  -- the database accepted BEGIN, the context and COMMIT.
  pub record IsCommitted (db : Database) (context : Sql) (fn : Callback T) (t : Trace T)
      : Type 0 where
    pub value : T
    pub began : db.accepts begin_transaction ≡ true
    pub has_context : db.accepts context ≡ true
    pub committed : db.accepts commit ≡ true
    pub from_callback : fn.result ≡ returned value
    pub to_caller : t.outcome ≡ returned value
    pub effects :
        t.effects
        ≡ connected
          ∷ query begin_transaction
          ∷ query context
          ∷ ((map callback_query fn.queries ++ query commit ∷ []) ++ released ∷ [])

  -- How far a transaction came that failed, by what it had done and what the caller sees: BEGIN was
  -- refused; or the context was; or both were accepted and the callback's queries ran, and then the
  -- callback threw or COMMIT was refused.
  abbrev pub FailsAfter : Database → Sql → Callback T → List Effect → Fault → Type 0
  FailsAfter db context fn before fault =
      ((before ≡ query begin_transaction ∷ [])
        × (db.accepts begin_transaction ≡ false)
        × (fault ≡ query_failed begin_transaction))
      ⊎ ((before ≡ query begin_transaction ∷ query context ∷ [])
          × (db.accepts begin_transaction ≡ true)
          × (db.accepts context ≡ false)
          × (fault ≡ query_failed context))
      ⊎ ((before ≡ query begin_transaction ∷ query context ∷ map callback_query fn.queries)
          × (db.accepts begin_transaction ≡ true)
          × (db.accepts context ≡ true)
          × (fn.result ≡ thrown fault))
      ⊎ ((before
            ≡ query begin_transaction
              ∷ query context
              ∷ (map callback_query fn.queries ++ query commit ∷ []))
          × (db.accepts begin_transaction ≡ true)
          × (db.accepts context ≡ true)
          × (db.accepts commit ≡ false)
          × (fault ≡ query_failed commit)
          × ((value : T) × (fn.result ≡ returned value)))

  -- Something failed: the last two effects are ROLLBACK and the release, and the fault is thrown.
  pub record IsRolledBack (db : Database) (context : Sql) (fn : Callback T) (t : Trace T)
      : Type 0 where
    pub fault : Fault
    pub to_caller : t.outcome ≡ thrown fault
    pub before : List Effect
    pub effects : t.effects ≡ connected ∷ (before ++ query rollback ∷ released ∷ [])
    pub reason : FailsAfter db context fn before fault

  complete-cases :
      (db : Database) (effects : List Effect) (o : Outcome T)
      → ((x : T) × (o ≡ returned x)
          × (db.accepts commit ≡ true)
          × (complete db effects o
              ≡ record { effects = effects ++ query commit ∷ []; outcome = returned x }))
        ⊎ ((e : Fault) × (o ≡ thrown e)
            × (complete db effects o ≡ record { effects = effects; outcome = thrown e }))
        ⊎ ((x : T) × (o ≡ returned x)
            × (db.accepts commit ≡ false)
            × (complete db effects o ≡ record {
              effects = effects ++ query commit ∷ [];
              outcome = thrown (query_failed commit);
            }))
  complete-cases db effects (thrown e) = inr (inl (e, refl, refl))
  complete-cases db effects (returned x) = elim (Bool-cases (db.accepts commit)) [
    | inl e ↦ inl (x, refl, e, rw e refl)
    | inr e ↦ inr (inr (x, refl, e, rw e refl))
  ]

  settle-thrown :
      (t : Trace T) (e : Fault)
      → t.outcome ≡ thrown e
      → settle t
        ≡ record { effects = t.effects ++ query rollback ∷ released ∷ []; outcome = thrown e }
  unfolding settle
  settle-thrown t e h = rw h refl

  rolled_back :
      (db : Database) (context : Sql) (fn : Callback T) (t : Trace T) (e : Fault)
      → t.outcome ≡ thrown e
      → FailsAfter db context fn t.effects e
      → IsRolledBack db context fn (after connected (settle t))
  rolled_back db context fn t e h g = record {
    fault = e;
    to_caller = rw (settle-thrown t e h) refl;
    before = t.effects;
    effects = rw (settle-thrown t e h) refl;
    reason = g;
  }

  no_begin :
      (db : Database) (context : Sql) (fn : Callback T)
      → db.accepts begin_transaction ≡ false
      → transaction db context fn ≡ record {
        effects = query begin_transaction ∷ [];
        outcome = thrown (query_failed begin_transaction);
      }
  unfolding transaction
  no_begin db context fn e = rw e refl

  no_context :
      (db : Database) (context : Sql) (fn : Callback T)
      → db.accepts begin_transaction ≡ true
      → db.accepts context ≡ false
      → transaction db context fn ≡ record {
        effects = query begin_transaction ∷ query context ∷ [];
        outcome = thrown (query_failed context);
      }
  unfolding transaction
  no_context db context fn e f = rw (e, f) refl

  with_context :
      (db : Database) (context : Sql) (fn : Callback T)
      → db.accepts begin_transaction ≡ true
      → db.accepts context ≡ true
      → transaction db context fn
        ≡ after (query begin_transaction) (after (query context) (finish db fn))
  unfolding transaction
  with_context db context fn e f = rw (e, f) refl

  -- What `on_connection` promises once it is connected.
  abbrev Settles : Database → Sql → Callback T → Trace T → Type 0
  Settles db context fn t =
      IsCommitted db context fn (after connected (settle t))
      ⊎ IsRolledBack db context fn (after connected (settle t))

  settle-finish :
      (db : Database) (context : Sql) (fn : Callback T)
      → db.accepts begin_transaction ≡ true
      → db.accepts context ≡ true
      → Settles db context fn
          (after (query begin_transaction) (after (query context) (finish db fn)))
  unfolding finish
  settle-finish db context fn b c =
      elim (complete-cases db (map callback_query fn.queries) fn.result) [
        | inl (x, result, accepted, done) ↦ inl (
            unfold settle in
            rw done (record {
              value = x;
              began = b;
              has_context = c;
              committed = accepted;
              from_callback = result;
              to_caller = refl;
              effects = refl;
            }))
        | inr (inl (e, result, done)) ↦ inr (
            rolled_back db context fn _ e (rw done refl)
              (inr (inr (inl (rw done refl, b, c, result)))))
        | inr (inr (x, result, refused, done)) ↦ inr (
            rolled_back db context fn _ (query_failed commit) (rw done refl)
              (inr (inr (inr (rw done refl, b, c, refused, refl, (x, result))))))
      ]

  settle-transaction :
      (db : Database) (context : Sql) (fn : Callback T)
      → Settles db context fn (transaction db context fn)
  settle-transaction db context fn = elim (Bool-cases (db.accepts begin_transaction)) [
    | inr e ↦ subst (Settles db context fn) (sym (no_begin db context fn e)) (
        inr
          (rolled_back db context fn _ (query_failed begin_transaction) refl (inl (refl, e, refl))))
    | inl e ↦ elim (Bool-cases (db.accepts context)) [
      | inr f ↦ subst (Settles db context fn) (sym (no_context db context fn e f)) (
          inr (
            rolled_back db context fn _ (query_failed context) refl (inr (inl (refl, e, f, refl)))))
      | inl f ↦
          subst (Settles db context fn) (sym (with_context db context fn e f))
            (settle-finish db context fn e f)
    ]
  ]

  -- The connection is opened, and closed again behind COMMIT or ROLLBACK; or the database does not connect,
  -- and the call throws.
  abbrev pub IsBracketed : Database → Sql → Callback T → Trace T → Type 0
  IsBracketed db context fn t =
      ((db.connects ≡ false) × (t.effects ≡ []) × (t.outcome ≡ thrown connect_failed))
      ⊎ ((db.connects ≡ true) × (IsCommitted db context fn t ⊎ IsRolledBack db context fn t))

  on_connection-IsBracketed :
      (db : Database) (context : Sql) (fn : Callback T)
      → IsBracketed db context fn (on_connection db context fn)
  unfolding on_connection
  on_connection-IsBracketed db context fn = elim (Bool-cases db.connects) [
    | inr e ↦ subst (IsBracketed db context fn) (sym (down e)) (inl (e, refl, refl))
    | inl e ↦
        subst (IsBracketed db context fn) (sym (up e)) (inr (e, settle-transaction db context fn))
  ]
    where
      down :
          db.connects ≡ false
          → on_connection db context fn ≡ record { effects = []; outcome = thrown connect_failed }
      down e = rw e refl

      up :
          db.connects ≡ true
          → on_connection db context fn ≡ after connected (settle (transaction db context fn))
      up e = simp e refl

  -- A background session, whatever fails, is bracketed, and its context names no user and no child.
  pub with_system_session-IsBracketed :
      (db : Database) (fn : Callback T)
      → IsBracketed db (set_config "system" "" "") fn (with_system_session db fn)
  unfolding with_system_session
  with_system_session-IsBracketed db fn =
      on_connection-IsBracketed db (set_config "system" "" "") fn

  -- The call either does nothing to the connection, or goes on with an acceptable principal.
  with_session-cases :
      (db : Database) (ctx : VerifiedPrincipal) (fn : Callback T)
      → ((¬ (IsAcceptable ctx))
          × ((e : Fault) × (with_session db ctx fn ≡ record { effects = []; outcome = thrown e })))
        ⊎ (IsAcceptable ctx × (with_session db ctx fn ≡ on_connection db (context_of ctx) fn))
  with_session-cases db ctx fn = elim (Option-cases (session_fault ctx)) [
    | inl e ↦ inr ((session_fault_iff ctx).0 e, unfold with_session in rw (e, with_session) refl)
    | inr (f, e) ↦ inl (
      λ a. let free = (session_fault_iff ctx).1 a in absurd (cc),
      (f, unfold with_session in rw (e, with_session) refl),
    )
  ]

  -- For any principal, any callback and any failure of the database: where the principal is not
  -- acceptable, nothing is done to the database and the call throws. Where it is, the session is
  -- bracketed: if the database does not connect, the call throws; if it does, the callback's queries run
  -- only behind a BEGIN and the principal's own context that the database has both accepted; only a
  -- transaction whose COMMIT it accepted returns a value, that of the callback; every other ends with
  -- ROLLBACK and throws the first refusal or the callback's own fault; and the connection is released
  -- last.
  pub with_session-IsBracketed :
      (db : Database) (ctx : VerifiedPrincipal) (fn : Callback T)
      → ((¬ (IsAcceptable ctx))
          × ((with_session db ctx fn).effects ≡ [])
          × ((e : Fault) × ((with_session db ctx fn).outcome ≡ thrown e)))
        ⊎ (IsAcceptable ctx × IsBracketed db (context_of ctx) fn (with_session db ctx fn))
  with_session-IsBracketed db ctx fn = elim (with_session-cases db ctx fn) [
    | inl (out, (e, h)) ↦ inl (out, ap (λ t. t.effects) h, (e, ap (λ t. t.outcome) h))
    | inr (accepted, h) ↦ inr (
      accepted,
      subst (IsBracketed db (context_of ctx) fn) (sym h)
          (on_connection-IsBracketed db (context_of ctx) fn),
    )
  ]
