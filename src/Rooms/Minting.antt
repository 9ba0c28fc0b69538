-- ===== src/Rooms/Minting.antt =====
-- Who gets a token for a session of rooms.ts, and what the token is good for.
use olive_branch.Prelude.{
  ℕ, String, ◌≡◌, refl, ◌≢◌, ◌↔◌, ◌⊎◌, inl, inr, true, false, not, Option, none, some, List, [],
  ◌∷◌, arith, Any, Bool-cases, str_eq, eq_iff, sym, subst, leaks,
}
use olive_branch.Family.Authorize.{LadderStep, none_step, supervised, Edge, call, can, Decision}
use olive_branch.Family.Authorize
use olive_branch.Family.Gate.{Grants, can_iff}
use olive_branch.Rooms.Session.{
  SessionRecord, MintedToken, NewSession, Principal, includes_id, dedupe_from, create_session, ok,
  is_allow, mint_token, minted,
}

abbrev pub Holds : List String → String → Type 0
Holds ids id = Any (λ x. x ≡ id) ids

pub includes_id_iff : (ids : List String) (id : String) → (includes_id ids id ≡ true) ↔ Holds ids id
includes_id_iff [] id = (λ h. cc, λ h. absurd h)
includes_id_iff (x ∷ xs) id =
    let (to, from) = includes_id_iff xs id in
    (
      λ h. elim (Bool-cases (str_eq x id)) [
        | inl e ↦ inl ((eq_iff x id).0 e)
        | inr n ↦ inr (to (ground arith))
      ],
      λ h. elim h [ inl e ↦ rw ((eq_iff x id).1 e) | inr r ↦ ground (arith, from r) ],
    )

-- What it takes to be given a token: a session that has not ended, on an open ladder, being the
-- child or being let call her by one of one's edges, and a place on the session's list.
pub record MayEnter (s : SessionRecord) (p : Principal) (edges : List Edge) (now : ℕ) : Type 0 where
  pub running : s.ended_at ≡ none
  pub ladder_open : s.ladder_step ≢ none_step
  pub lawful : (p.is_child ≡ true) ⊎ Any (Grants call false now s.child_id) edges
  pub listed : Holds s.authorized_user_ids p.user_id

-- What a token gives: the holder's own identity, this one room and no other, never the right to
-- rename oneself, publishing exactly if the holder is no observer, ten minutes, and a disclosure
-- exactly if the session is recorded.
pub record IsFor (s : SessionRecord) (p : Principal) (t : MintedToken) : Type 0 where
  pub identity : t.identity ≡ p.user_id
  pub room : (t.room ≡ s.room_name) × (t.grant.room ≡ s.room_name)
  pub fixed_name : t.grant.can_update_own_metadata ≡ false
  pub publishes :
      (t.grant.can_publish ≡ not p.observer_only) × (t.grant.can_publish_data ≡ not p.observer_only)
  pub short : t.ttl_seconds ≡ 600
  pub recorded : t.recorded ≡ s.recorded
  pub disclosed : (s.recorded ≡ true) ↔ (t.disclosure ≢ none)

call_allowed_iff :
    (edges : List Edge) (c : String) (now : ℕ) (role : Option String)
    → (is_allow (can call edges c now role false) ≡ true) ↔ Any (Grants call false now c) edges
call_allowed_iff edges c now role =
    let (to, from) = can_iff call edges c now role false in
    (λ h. (to (allowed _ h)).2, λ h. rw (from (λ j. cc, λ f. ground (arith, f.1), h)))
  where
    allowed : (d : Authorize.Decision) → is_allow d ≡ true → d ≡ Authorize.Decision.allow
    allowed d h = ground arith

-- A token is minted exactly when the session has not ended, its ladder is open, the principal is on
-- the session's list, and is the child or an adult whom one of the given edges lets call her.
pub mint_token_iff :
    (s : SessionRecord) (p : Principal) (edges : List Edge) (now : ℕ)
    → ((t : MintedToken) × (mint_token s p edges now ≡ ok t)) ↔ MayEnter s p edges now
unfolding mint_token
mint_token_iff s p edges now = (
  λ h. record {
    running = ground arith;
    ladder_open = λ e. ground arith;
    lawful = elim (Bool-cases p.is_child) [
      | inl child ↦ inl child
      | inr adult ↦ inr ((call_allowed_iff edges s.child_id now p.role_name).0 (ground arith))
    ];
    listed = (includes_id_iff _ _).0 (ground arith);
  },
  λ h. (
    minted s p,
    elim h.lawful [
      | inl child ↦
          ground (arith, h.running, h.ladder_open, child, (includes_id_iff _ _).1 h.listed)
      | inr granted ↦ ground (
        arith,
        h.running,
        h.ladder_open,
        (call_allowed_iff edges s.child_id now p.role_name).1 granted,
        (includes_id_iff _ _).1 h.listed,
      )
    ],
  ),
)

-- Whatever token is minted bears its holder's identity, opens the session's room and no other, lets
-- nobody change their own metadata, publishes exactly if the holder is no observer, lives ten
-- minutes, and has a disclosure exactly if the session is recorded.
pub mint_token-IsFor :
    (s : SessionRecord) (p : Principal) (edges : List Edge) (now : ℕ) (t : MintedToken)
    → mint_token s p edges now ≡ ok t
    → IsFor s p t
unfolding mint_token
mint_token-IsFor s p edges now t h = ground arith

abbrev pub Distinct : List String → Type 0
Distinct [] = Unit
Distinct (x ∷ xs) = ¬ Holds xs x × Distinct xs

dedupe_from-old :
    (seen : List String) (x : String) (xs : List String)
    → includes_id seen x ≡ true
    → dedupe_from seen (x ∷ xs) ≡ dedupe_from seen xs
dedupe_from-old seen x xs e = rw (e, dedupe_from)

dedupe_from-new :
    (seen : List String) (x : String) (xs : List String)
    → includes_id seen x ≡ false
    → dedupe_from seen (x ∷ xs) ≡ x ∷ dedupe_from (x ∷ seen) xs
dedupe_from-new seen x xs e = rw (e, dedupe_from)

dedupe_from_iff :
    (seen xs : List String) (id : String)
    → Holds (dedupe_from seen xs) id ↔ (Holds xs id × ¬ Holds seen id)
dedupe_from_iff seen [] id = (λ h. absurd h, λ h. absurd h.0)
dedupe_from_iff seen (x ∷ xs) id = elim (Bool-cases (includes_id seen x)) [
  | inl old ↦
      let (to, from) = dedupe_from_iff seen xs id in
      let seen_x = (includes_id_iff seen x).0 old in
      rw (dedupe_from-old seen x xs old) (
        λ h. (inr (to h).0, (to h).1),
        λ h. elim h.0 [
          | inl e ↦ absurd (h.1 (subst (Holds seen) e seen_x))
          | inr r ↦ from (r, h.1)
        ],
      )
  | inr new ↦
      let (to, from) = dedupe_from_iff (x ∷ seen) xs id in
      rw (dedupe_from-new seen x xs new) (
        λ h. elim h [
          | inl e ↦ (
            inl e,
            λ s. ground (arith, (includes_id_iff seen x).1 (subst (Holds seen) (sym e) s)),
          )
          | inr r ↦ (inr (to r).0, λ s. (to r).1 (inr s))
        ],
        λ h. elim (Bool-cases (str_eq x id)) [
          | inl e ↦ inl ((eq_iff x id).0 e)
          | inr n ↦ inr (
              from (
                elim h.0 [ inl e ↦ absurd (ground (arith, (eq_iff x id).1 e)) | inr r ↦ r ],
                λ s. elim s [ inl e ↦ ground (arith, (eq_iff x id).1 e) | inr r ↦ h.1 r ],
              ))
        ],
      )
]

dedupe_from-Distinct : (seen xs : List String) → Distinct (dedupe_from seen xs)
dedupe_from-Distinct seen [] = tt
dedupe_from-Distinct seen (x ∷ xs) = elim (Bool-cases (includes_id seen x)) [
  | inl old ↦ rw (dedupe_from-old seen x xs old) (dedupe_from-Distinct seen xs)
  | inr new ↦ rw (dedupe_from-new seen x xs new) (
    λ h. ((dedupe_from_iff (x ∷ seen) xs x).0 h).1 (inl refl),
    dedupe_from-Distinct (x ∷ seen) xs,
  )
]

-- What a new session is.
pub record IsNew (input : NewSession) (room : String) (s : SessionRecord) : Type 0 where
  pub recorded_iff : (s.recorded ≡ true) ↔ (input.ladder_step ≡ supervised)
  pub ladder_open : s.ladder_step ≢ none_step
  pub opaque_room : leaks s.room_name (s.child_id ∷ s.created_by ∷ []) ≡ false
  pub same_room : s.room_name ≡ room
  pub running : s.ended_at ≡ none
  pub lists : (id : String) → Holds s.authorized_user_ids id ↔ Holds input.authorized_user_ids id
  pub once : Distinct s.authorized_user_ids

-- A session that was created is recorded exactly on a supervised ladder, is never one without any
-- contact, has the room name it was given, which leaks neither the child nor its creator, has not
-- ended, and lists exactly the users it was given, each once.
pub create_session-IsNew :
    (input : NewSession) (room id : String) (now : ℕ) (s : SessionRecord)
    → create_session input room id now ≡ some s
    → IsNew input room s
unfolding create_session
create_session-IsNew input room id now s h =
    let listed : s.authorized_user_ids ≡ dedupe_from [] input.authorized_user_ids = ground arith in
    record {
      recorded_iff = ground arith;
      ladder_open = λ e. ground arith;
      opaque_room = ground arith;
      same_room = ground arith;
      running = ground arith;
      lists = λ u.
          let (to, from) = dedupe_from_iff [] input.authorized_user_ids u in
          rw listed (λ k. (to k).0, λ k. from (k, λ z. z));
      once = rw listed (dedupe_from-Distinct [] input.authorized_user_ids);
    }
