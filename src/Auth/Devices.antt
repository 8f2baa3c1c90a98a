-- ===== src/Auth/Devices.antt =====
-- Sessions over runs of requests (src/microservices/auth-service/services/session.service.ts): one
-- for a device, and none after a revocation.
use backend_gateway.Base.{
  ℕ, ◌≤◌, String, Bool, true, false, Option, none, some, List, [], ◌∷◌, ◌≡◌, ◌≢◌, refl, subst, ◌==◌,
  nat_eq, string_eq, not, ◌&&◌, All, Bool-cases, Option-cases, inl, inr, arith, Collection,
  count_where, count-change_where, count-change_all, count-filter,
}
use backend_gateway.Auth.Sessions.{
  DeviceInfo, Session, CreateSession, given_device, same_device, on_device, new_session, renewed,
  insert_session, reuse_or_insert, create_session, update_found, update_session_activity,
  update_session_refresh_token, revoke_session, revoke_all_sessions, cleanup_expired_sessions,
  revoked, revocable, is_stale,
}

-- A request that changes the store.
pub data Request : Type 0 where
  create : (now expiry : ℕ) (id : String) → CreateSession → Request
  activity : (now : ℕ) (id : String) → Request
  rotation : (now : ℕ) (id token : String) → Request
  revocation : (now : ℕ) (user id : String) → Option String → Request
  revocations : (now : ℕ) (user : String) → Option String → Request
  cleanup : (now : ℕ) → Request

renewed_device :
    (tracks_mixed : Bool) (now expiry : ℕ) (o : CreateSession) (d : DeviceInfo) (x : Session)
    → (renewed tracks_mixed now expiry o d x).device_info.device_id ≡ x.device_info.device_id
unfolding renewed
renewed_device true now expiry o d x = refl
renewed_device false now expiry o d x = refl

abbrev device_key : String → String → String → String → Option String → Bool
device_key user device u id d = u == user && same_device device d

abbrev id_key : String → String → String → Option String → Bool
id_key id u i d = i == id

abbrev creates : Request → Bool
creates (create now expiry id o) = true
creates r = false

-- A request that brings no session of that id.
abbrev pub IsFresh : String → Request → Type 0
IsFresh id (create now expiry new o) = new ≢ id
IsFresh id r = Unit

abbrev pub has_id : String → Session → Bool
has_id id x = x.session_id == id && x.is_active

module _ {S : Type 0} (c : Collection Session S) (tracks_mixed : Bool) where
  unfoldable pub handle : Request → S → S
  handle (create now expiry id o) s = (create_session c tracks_mixed now expiry id o s).0
  handle (activity now id) s = update_session_activity c now id s
  handle (rotation now id token) s = (update_session_refresh_token c now id token s).0
  handle (revocation now user id reason) s = (revoke_session c now user id reason s).0
  handle (revocations now user kept) s = (revoke_all_sessions c now user kept s).0
  handle (cleanup now) s = (cleanup_expired_sessions c now s).0

  abbrev pub run : List Request → S → S
  run [] s = s
  run (r ∷ rs) s = run rs (handle r s)

  -- The active sessions whose user, id and device pass a test.
  module _ (key : String → String → Option String → Bool) where
    abbrev active : Session → Bool
    active d = key d.user_id d.session_id d.device_info.device_id && d.is_active

    count-update_one :
        (q : Session → Bool) (f : Session → Session) (s : S)
        → ((d : Session) → q d ≡ true → active (f d) ≡ true → active d ≡ true)
        → count_where active (c.docs (c.update_one q f s)) ≤ count_where active (c.docs s)
    count-update_one q f s h =
        let less = count-change_where active q f (c.docs s) h in rw (c.update_one_law q f s) less

    count-update_found :
        (q : Session → Bool) (f : Session → Session) (s : S)
        → ((d : Session) → q d ≡ true → active (f d) ≡ true → active d ≡ true)
        → count_where active (c.docs (update_found c q f s).0) ≤ count_where active (c.docs s)
    unfolding update_found
    count-update_found q f s h = elim (Bool-cases (c.count q s == 0)) [
      | inl e ↦ rw e (count-update_one q f s h)
      | inr e ↦ rw e (count-update_one q f s h)
    ]

    -- An update of a session that is found again raises the count of no active sessions.
    count-renewed :
        (now expiry : ℕ) (o : CreateSession) (d : DeviceInfo) (e : Session) (s : S)
        → count_where active (
            c.docs (
              c.update_one
                (λ x. x.session_id == e.session_id)
                (renewed tracks_mixed now expiry o d)
                s))
          ≤ count_where active (c.docs s)
    unfolding renewed
    count-renewed now expiry o d e s =
        count-update_one (λ x. x.session_id == e.session_id) (renewed tracks_mixed now expiry o d) s
          (λ x q k.
            subst (λ i. key x.user_id x.session_id i && x.is_active ≡ true)
              (renewed_device tracks_mixed now expiry o d x) k)

    -- What changes no session's activity but to false raises no count of active sessions.
    count-changed :
        (r : Request) (s : S)
        → creates r ≡ false
        → count_where active (c.docs (handle r s)) ≤ count_where active (c.docs s)
    unfolding handle update_session_activity update_session_refresh_token revoke_session
        revoke_all_sessions cleanup_expired_sessions
    count-changed (create now expiry id o) s h = ground arith
    count-changed (activity now id) s h =
        count-update_one (λ x. x.session_id == id) (λ x. record x { last_active_at = now }) s
          (λ d q k. k)
    count-changed (rotation now id token) s h =
        count-update_found (λ x. x.session_id == id && x.is_active)
          (λ x. record x { refresh_token = token; last_active_at = now }) s (λ d q k. k)
    count-changed (revocation now user id reason) s h =
        count-update_found (λ x. (x.user_id == user && x.session_id == id) && x.is_active)
          (revoked now _) s (λ d q k. ground arith)
    count-changed (revocations now user kept) s h =
        rw (c.update_many_law (revocable user kept) (revoked now "User revoked all sessions") s) (
          count-change_all active (revocable user kept) (revoked now "User revoked all sessions")
            (c.docs s) (λ d q k. ground arith))
    count-changed (cleanup now) s h =
        rw (c.delete_many_law (is_stale now) s)
          (count-filter active (λ d. not (is_stale now d)) (c.docs s))

  count-insert_session :
      (p : Session → Bool) (now expiry : ℕ) (id : String) (o : CreateSession) (s : S)
      → count_where p (c.docs s) ≤ 1
      → (p (new_session now expiry id o) ≡ true → count_where p (c.docs s) ≡ 0)
      → count_where p (c.docs (insert_session c now expiry id o s).0) ≤ 1
  unfolding insert_session
  count-insert_session p now expiry id o s h k =
      rw (c.insert_law (new_session now expiry id o) s) (ground (arith, k))

  -- A request without a device id makes a session that is on no device.
  no_device-on_device :
      (user device : String) (now expiry : ℕ) (id : String) (o : CreateSession)
      → device ≢ ""
      → given_device o.device_info ≡ none
      → on_device user device (new_session now expiry id o) ≡ false
  unfolding new_session
  no_device-on_device user device now expiry id o ne e = ground arith

  device-on_device :
      (user device : String) (now expiry : ℕ) (id : String) (o : CreateSession) (i : String)
      (d : DeviceInfo)
      → given_device o.device_info ≡ some (i, d)
      → on_device user device (new_session now expiry id o) ≡ true
      → (user ≡ o.user_id) × (device ≡ i)
  unfolding new_session
  device-on_device user device now expiry id o i d e h = ground arith

  -- One session at most for a user on a device.
  on_device-create :
      (user device : String) (now expiry : ℕ) (id : String) (o : CreateSession) (s : S)
      → device ≢ ""
      → count_where (on_device user device) (c.docs s) ≤ 1
      → count_where
          (on_device user device)
          (c.docs (create_session c tracks_mixed now expiry id o s).0)
        ≤ 1
  unfolding create_session reuse_or_insert insert_session
  on_device-create user device now expiry id o s ne h =
      elim (Option-cases (given_device o.device_info)) [
        | inl e ↦
            rw (e, create_session)
              (count-insert_session (on_device user device) now expiry id o s h
                (λ k. ground (arith, no_device-on_device user device now expiry id o ne e, k)))
        | inr ((i, d), e) ↦ elim (Option-cases (c.find_one (on_device o.user_id i) s)) [
          | inl f ↦
              rw (e, create_session, reuse_or_insert, f)
                (count-insert_session (on_device user device) now expiry id o s h (λ k.
                  let (u, v) = device-on_device user device now expiry id o i d e k in
                  rw (u, v) (c.find_one_none (on_device o.user_id i) s f)))
          | inr (x, f) ↦
              rw (e, create_session, reuse_or_insert, f)
                (ground (arith, count-renewed (device_key user device) now expiry o d x s))
        ]
      ]

  on_device-handle :
      (user device : String) (r : Request) (s : S)
      → device ≢ ""
      → count_where (on_device user device) (c.docs s) ≤ 1
      → count_where (on_device user device) (c.docs (handle r s)) ≤ 1
  unfolding handle
  on_device-handle user device (create now expiry id o) s ne h =
      on_device-create user device now expiry id o s ne h
  on_device-handle user device r s ne h =
      let less = count-changed (device_key user device) r s refl in ground arith

  -- Whatever requests are served, one after the other, a user has at most one active session on a
  -- device with an id, if it was so before.
  pub on_device-run :
      (user device : String) (rs : List Request) (s : S)
      → device ≢ ""
      → count_where (on_device user device) (c.docs s) ≤ 1
      → count_where (on_device user device) (c.docs (run rs s)) ≤ 1
  on_device-run user device [] s ne h = h
  on_device-run user device (r ∷ rs) s ne h =
      on_device-run user device rs (handle r s) ne (on_device-handle user device r s ne h)

  id-insert_session :
      (id : String) (now expiry : ℕ) (new : String) (o : CreateSession) (s : S)
      → new ≢ id
      → count_where (has_id id) (c.docs s) ≡ 0
      → count_where (has_id id) (c.docs (insert_session c now expiry new o s).0) ≡ 0
  unfolding insert_session new_session
  id-insert_session id now expiry new o s fresh h =
      rw (c.insert_law (new_session now expiry new o) s) (ground arith)

  id-create :
      (id : String) (now expiry : ℕ) (new : String) (o : CreateSession) (s : S)
      → new ≢ id
      → count_where (has_id id) (c.docs s) ≡ 0
      → count_where (has_id id) (c.docs (create_session c tracks_mixed now expiry new o s).0) ≡ 0
  unfolding create_session reuse_or_insert insert_session
  id-create id now expiry new o s fresh h = elim (Option-cases (given_device o.device_info)) [
    | inl e ↦ rw (e, create_session) (id-insert_session id now expiry new o s fresh h)
    | inr ((i, d), e) ↦ elim (Option-cases (c.find_one (on_device o.user_id i) s)) [
      | inl f ↦
          rw (e, create_session, reuse_or_insert, f)
            (id-insert_session id now expiry new o s fresh h)
      | inr (x, f) ↦
          rw (e, create_session, reuse_or_insert, f)
            (ground (arith, count-renewed (id_key id) now expiry o d x s))
    ]
  ]

  -- The active sessions of an id are no more after a request that brings no session of that id.
  id-handle :
      (id : String) (r : Request) (s : S)
      → IsFresh id r
      → count_where (has_id id) (c.docs s) ≡ 0
      → count_where (has_id id) (c.docs (handle r s)) ≡ 0
  unfolding handle
  id-handle id (create now expiry new o) s fresh h = id-create id now expiry new o s fresh h
  id-handle id r s fresh h = let less = count-changed (id_key id) r s refl in ground arith

  pub id-run :
      (id : String) (rs : List Request) (s : S)
      → All (IsFresh id) rs
      → count_where (has_id id) (c.docs s) ≡ 0
      → count_where (has_id id) (c.docs (run rs s)) ≡ 0
  id-run id [] s fresh h = h
  id-run id (r ∷ rs) s (new, fresh) h = id-run id rs (handle r s) fresh (id-handle id r s new h)
