-- ===== src/Auth/Single.antt =====
-- Verifications of a phone with at most one open record
-- (src/microservices/auth-service/services/otp.service.ts).
use backend_gateway.Base.{
  ℕ, ◌≤◌, String, Bool, true, false, none, List, [], ◌∷◌, ◌≡◌, ap, ◌∙◌, ◌==◌, ==_iff, ne_of_test,
  subst, ◌⊎◌, string_eq, if◌then◌else◌, ltb, leb, find, All, arith, Bool-cases, inl, inr,
  Collection,
}
use backend_gateway.Auth.Response.{is_success}
use backend_gateway.Auth.Otp.{OtpRecord, is_open, verify_otp}
use backend_gateway.Auth.Guesses.{
  view, found-view, verify-nothing, nothing_left, missed, wrong_guess, right_guess, run,
}

module _ {S : Type 0} (c : Collection OtpRecord S) (print : ℕ → String) (phone : String)
    (t : ℕ) where
  -- At most one record is open.
  abbrev pub IsSingle : S → Type 0
  IsSingle s = (view c print phone t s ≡ []) ⊎ ((r : OtpRecord) × (view c print phone t s ≡ r ∷ []))

  expired-view :
      (now : ℕ) (s : S) (r : OtpRecord)
      → t ≤ now
      → view c print phone t s ≡ r ∷ []
      → r.expires_at ≤ now
      → c.find_newest (is_open phone now) s ≡ none
  expired-view now s r h e k =
      found-view c print phone t now s h ∙ ap (find (is_open phone now)) e ∙ ground (arith, k)

  missed-IsSingle :
      (b : Bool) (s : S) (r : OtpRecord)
      → view c print phone t s ≡ (if b then [] else r ∷ [])
      → IsSingle s
  missed-IsSingle true s r e = inl e
  missed-IsSingle false s r e = inr (r, e)

  -- A verification keeps that, and leaves none open if it succeeds.
  pub verify_otp-IsSingle :
      (now : ℕ) (code : String) (s : S)
      → t ≤ now
      → IsSingle s
      → IsSingle (verify_otp c print now phone code s).0
        × (is_success (verify_otp c print now phone code s).1 ≡ true
            → view c print phone t (verify_otp c print now phone code s).0 ≡ [])
  verify_otp-IsSingle now code s h (inl e) =
      let (empty, fails) = nothing_left c print phone t now code s h e in (inl empty, λ k. empty)
  verify_otp-IsSingle now code s h (inr (r, e)) = elim (Bool-cases (ltb now r.expires_at)) [
    | inr late ↦
        (let (same, fails) =
            verify-nothing c print phone t now code s
              (expired-view now s r h e (ground (arith, late))) in
          (inr (r, ap (view c print phone t) same ∙ e), λ k. ground (arith, fails, k)))
    | inl in_time ↦ elim (Bool-cases (r.code == code)) [
      | inl right ↦
          (let used : view c print phone t (verify_otp c print now phone code s).0 ≡ [] =
              subst (λ x. view c print phone t (verify_otp c print now phone x s).0 ≡ [])
                ((==_iff r.code code).0 right)
                (right_guess c print phone t now s r h e (ground (arith, in_time))).1 in
            (inl used, λ k. used))
      | inr wrong ↦
          (let (after, fails) =
              wrong_guess c print phone t now code s r h e (ground (arith, in_time))
                (ne_of_test r.code code wrong) in
            (
              missed-IsSingle (leb r.max_attempts r.attempts)
                  (verify_otp c print now phone code s).0 (missed c print phone t r) after,
              λ k. ground (arith, fails, k),
            ))
    ]
  ]

  pub run-IsSingle :
      (gs : List (ℕ × String)) (s : S)
      → All (λ g. t ≤ g.0) gs
      → IsSingle s
      → IsSingle (run c print phone t gs s)
  run-IsSingle [] s h e = e
  run-IsSingle ((now, code) ∷ gs) s (h, hs) e =
      run-IsSingle gs (verify_otp c print now phone code s).0 hs
        (verify_otp-IsSingle now code s h e).0
