-- ===== src/Auth/Revoked.antt =====
-- What a revocation is good for (src/microservices/auth-service/services/session.service.ts).
use backend_gateway.Base.{
  ℕ, ◌≤◌, ◌<◌, String, Bool, true, Option, none, some, List, ◌≡◌, ◌≢◌, ap, ◌∙◌, ◌==◌, nat_eq,
  string_eq, not, ◌&&◌, All, Option-cases, inl, inr, arith, Collection, count_where, change_where,
  count_imp, count-change_where_last, count-change_all_out,
}
use backend_gateway.Auth.Response.{Response, success_response, is_success}
use backend_gateway.Auth.Sessions.{
  Session, is_live, get_session, get_session_by_refresh_token, update_found, revoke_session,
  revoke_all_sessions, get_session_count, revoked, revocable,
}
use backend_gateway.Auth.Devices.{Request, run, IsFresh, has_id, id-run}

answer_inj :
    {o p : Option Session}
    → ◌≡◌ {A = Response (Option Session)} (success_response o) (success_response p)
    → o ≡ p
answer_inj h = ground arith

module _ {S : Type 0} (c : Collection Session S) where
  found-none :
      (p q : Session → Bool) (s : S)
      → ((d : Session) → p d ≡ true → q d ≡ true)
      → count_where q (c.docs s) ≡ 0
      → c.find_one p s ≡ none
  found-none p q s h k = elim (Option-cases (c.find_one p s)) [
    | inl e ↦ e
    | inr (d, e) ↦ let (a, b) = c.find_one_some p s d e in let pos = b q (h d a) in ground arith
  ]

  found_live :
      (p : Session → Bool) (id : String) (s : S) (d : Session)
      → c.find_one p s ≡ some d
      → (p d ≡ true → d.is_active ≡ true)
      → d.session_id ≡ id
      → count_where (has_id id) (c.docs s) ≢ 0
  found_live p id s d e h i k =
      let (a, b) = c.find_one_some p s d e in
      let pos = b (has_id id) (ground (arith, h a)) in ground arith

  update_found-success :
      (q : Session → Bool) (f : Session → Session) (s : S)
      → is_success (update_found c q f s).1 ≡ true
      → (0 < count_where q (c.docs s))
        × (c.docs (update_found c q f s).0 ≡ change_where q f (c.docs s))
  unfolding update_found
  update_found-success q f s h = ground (arith, c.count_law q s, c.update_one_law q f s)

  revoked_id :
      (now : ℕ) (user id : String) (reason : Option String) (s : S)
      → count_where (λ x. x.session_id == id) (c.docs s) ≤ 1
      → is_success (revoke_session c now user id reason s).1 ≡ true
      → count_where (has_id id) (c.docs (revoke_session c now user id reason s).0) ≡ 0
  unfolding revoke_session
  revoked_id now user id reason s h k =
      let (found, after) =
        update_found-success (λ x. (x.user_id == user && x.session_id == id) && x.is_active)
          (revoked now _) s k in
      rw after (
        count-change_where_last (has_id id) _ (revoked now _) (c.docs s)
          (λ d q. (ground arith, ground arith))
          (let less =
              count_imp (has_id id) (λ x. x.session_id == id) (c.docs s) (λ d q. ground arith) in
            ground arith)
          found)

  -- A session that was revoked is never found again, neither by its id nor by any token, whatever
  -- requests are served after, as long as no new session gets its id. In the store its id is
  -- unique.
  pub get_session-revoke_session :
      (tracks_mixed : Bool) (now : ℕ) (user id : String) (reason : Option String) (s : S)
      (rs : List Request) (later : ℕ) (token : String)
      → count_where (λ x. x.session_id == id) (c.docs s) ≤ 1
      → is_success (revoke_session c now user id reason s).1 ≡ true
      → All (IsFresh id) rs
      → (get_session c later id (run c tracks_mixed rs (revoke_session c now user id reason s).0)
          ≡ success_response none)
        × ((d : Session)
            → get_session_by_refresh_token c later token
                (run c tracks_mixed rs (revoke_session c now user id reason s).0)
              ≡ success_response (some d)
            → d.session_id ≢ id)
  unfolding get_session get_session_by_refresh_token
  get_session-revoke_session tracks_mixed now user id reason s rs later token h k fresh =
      let gone =
        id-run c tracks_mixed id rs (revoke_session c now user id reason s).0 fresh
          (revoked_id now user id reason s h k) in
      (
        ap success_response (found-none _ (has_id id) _ (λ d q. ground arith) gone),
        λ d e i.
            found_live (λ x. x.refresh_token == token && is_live later x) id _ d (answer_inj e)
              (λ q. ground arith) i gone,
      )

  -- What every user has left after the sessions of one were revoked: those that were live and are
  -- not among the revoked, whose number is the answer.
  pub get_session_count-revoke_all_sessions :
      (now t : ℕ) (user v : String) (kept : Option String) (s : S)
      → (get_session_count c t v (revoke_all_sessions c now user kept s).0
          ≡ count_where
              (λ x. (x.user_id == v && is_live t x) && not (revocable user kept x))
              (c.docs s))
        × ((revoke_all_sessions c now user kept s).1
            ≡ success_response (count_where (revocable user kept) (c.docs s)))
  unfolding get_session_count revoke_all_sessions
  get_session_count-revoke_all_sessions now t user v kept s = (
    c.count_law (λ x. x.user_id == v && is_live t x) _
        ∙ ap (count_where (λ x. x.user_id == v && is_live t x))
            (c.update_many_law (revocable user kept) (revoked now "User revoked all sessions") s)
        ∙ count-change_all_out (λ x. x.user_id == v && is_live t x) (revocable user kept)
            (revoked now "User revoked all sessions") (c.docs s) (λ d q. ground arith),
    ap success_response (c.count_law (revocable user kept) s),
  )
