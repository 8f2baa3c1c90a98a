-- ===== src/Auth/Guesses.antt =====
-- How often a code can be guessed and used
-- (src/microservices/auth-service/services/otp.service.ts).
use backend_gateway.Base.{
  ℕ, ◌+◌, ◌≤◌, ◌<◌, String, Bool, true, false, none, some, List, [], ◌∷◌, ◌≡◌, ◌≢◌, refl, sym, ap,
  ◌∙◌, string_eq, if◌then◌else◌, ltb, leb, not, filter, find, length, All, arith, Bool-cases, inl,
  inr, ==_refl, Collection, change_where, remove_where, find-filter, filter-change_where,
  filter-change_where_out, filter-remove_where,
}
use backend_gateway.Auth.Response.{is_success}
use backend_gateway.Auth.Otp.{OtpRecord, is_open, check_code, verify_otp}

is_open-earlier :
    (phone : String) (t now : ℕ) (r : OtpRecord)
    → t ≤ now
    → is_open phone now r ≡ true
    → is_open phone t r ≡ true
is_open-earlier phone t now r h k = ground arith

passes-filter :
    (p : OtpRecord → Bool) (r : OtpRecord) (ds : List OtpRecord) → filter p ds ≡ r ∷ [] → p r ≡ true
passes-filter p r [] h = ground arith
passes-filter p r (d ∷ ds) h = elim (Bool-cases (p d)) [
  | inl e ↦ ground arith
  | inr e ↦ passes-filter p r ds (ground arith)
]

module _ {S : Type 0} (c : Collection OtpRecord S) (print : ℕ → String) (phone : String)
    (t : ℕ) where
  -- The open records of the phone at a time, in a store.
  abbrev pub view : S → List OtpRecord
  view s = filter (is_open phone t) (c.docs s)

  pub found-view :
      (now : ℕ) (s : S)
      → t ≤ now
      → c.find_newest (is_open phone now) s ≡ find (is_open phone now) (view s)
  found-view now s h =
      c.find_newest_law (is_open phone now) s
      ∙ sym (
          find-filter (is_open phone t) (is_open phone now) (c.docs s)
            (λ d k. is_open-earlier phone t now d h k))

  still_open :
      (now : ℕ) (s : S) (r : OtpRecord)
      → view s ≡ r ∷ []
      → now < r.expires_at
      → is_open phone now r ≡ true
  still_open now s r e h =
      let open_then = passes-filter (is_open phone t) r (c.docs s) e in ground arith

  find-one :
      (now : ℕ) (s : S) (r : OtpRecord)
      → t ≤ now
      → view s ≡ r ∷ []
      → now < r.expires_at
      → c.find_newest (is_open phone now) s ≡ some r
  find-one now s r h e k = ground (arith, found-view now s h, still_open now s r e k)

  find-nothing :
      (now : ℕ) (s : S) → t ≤ now → view s ≡ [] → c.find_newest (is_open phone now) s ≡ none
  find-nothing now s h e = found-view now s h ∙ ap (find (is_open phone now)) e

  verify-found :
      (now : ℕ) (code : String) (s : S) (r : OtpRecord)
      → c.find_newest (is_open phone now) s ≡ some r
      → verify_otp c print now phone code s ≡ check_code c print now phone code r s
  unfolding verify_otp
  verify-found now code s r h = rw (h, verify_otp) refl

  pub verify-nothing :
      (now : ℕ) (code : String) (s : S)
      → c.find_newest (is_open phone now) s ≡ none
      → ((verify_otp c print now phone code s).0 ≡ s)
        × (is_success (verify_otp c print now phone code s).1 ≡ false)
  unfolding verify_otp
  verify-nothing now code s h = (rw (h, verify_otp) refl, rw (h, verify_otp) refl)

  -- Where no open record is left, none comes back and nothing succeeds.
  pub nothing_left :
      (now : ℕ) (code : String) (s : S)
      → t ≤ now
      → view s ≡ []
      → (view (verify_otp c print now phone code s).0 ≡ [])
        × (is_success (verify_otp c print now phone code s).1 ≡ false)
  nothing_left now code s h e =
      let (same, fails) = verify-nothing now code s (find-nothing now s h e) in (rw same e, fails)

  abbrev pub missed : OtpRecord → OtpRecord
  missed r = record r { attempts = r.attempts + 1 }

  abbrev verified : ℕ → OtpRecord → OtpRecord
  verified now r = record r { is_verified = true; verified_at = some now }

  -- What each branch of `check_code` leaves of the open records.
  view-delete_one :
      (now : ℕ) (s : S) (r : OtpRecord)
      → t ≤ now
      → view s ≡ r ∷ []
      → is_open phone now r ≡ true
      → view (c.delete_one (is_open phone now) s) ≡ []
  view-delete_one now s r h e k =
      ap (filter (is_open phone t)) (c.delete_one_law (is_open phone now) s)
      ∙ filter-remove_where (is_open phone t) (is_open phone now) (c.docs s)
          (λ d q. is_open-earlier phone t now d h q)
      ∙ ap (remove_where (is_open phone now)) e
      ∙ ground (arith, k)

  view-missed :
      (now : ℕ) (s : S) (r : OtpRecord)
      → t ≤ now
      → view s ≡ r ∷ []
      → is_open phone now r ≡ true
      → view (c.update_one (is_open phone now) missed s) ≡ missed r ∷ []
  view-missed now s r h e k =
      ap (filter (is_open phone t)) (c.update_one_law (is_open phone now) missed s)
      ∙ filter-change_where (is_open phone t) (is_open phone now) missed (c.docs s)
          (λ d q. (is_open-earlier phone t now d h q, is_open-earlier phone t now d h q))
      ∙ ap (change_where (is_open phone now) missed) e
      ∙ ground (arith, k)

  view-verified :
      (now : ℕ) (s : S) (r : OtpRecord)
      → t ≤ now
      → view s ≡ r ∷ []
      → is_open phone now r ≡ true
      → view (c.update_one (is_open phone now) (verified now) s) ≡ []
  view-verified now s r h e k =
      ap (filter (is_open phone t)) (c.update_one_law (is_open phone now) (verified now) s)
      ∙ filter-change_where_out (is_open phone t) (is_open phone now) (verified now) (c.docs s)
          (λ d q. (is_open-earlier phone t now d h q, ground arith))
      ∙ ap (remove_where (is_open phone now)) e
      ∙ ground (arith, k)

  pub wrong_guess :
      (now : ℕ) (code : String) (s : S) (r : OtpRecord)
      → t ≤ now
      → view s ≡ r ∷ []
      → now < r.expires_at
      → r.code ≢ code
      → (view (verify_otp c print now phone code s).0
          ≡ (if leb r.max_attempts r.attempts then [] else missed r ∷ []))
        × (is_success (verify_otp c print now phone code s).1 ≡ false)
  unfolding check_code
  wrong_guess now code s r h e k w = rw (verify-found now code s r (find-one now s r h e k)) (
      ground (
        arith,
        view-delete_one now s r h e (still_open now s r e k),
        view-missed now s r h e (still_open now s r e k),
      ))

  pub right_guess :
      (now : ℕ) (s : S) (r : OtpRecord)
      → t ≤ now
      → view s ≡ r ∷ []
      → now < r.expires_at
      → (is_success (verify_otp c print now phone r.code s).1 ≡ not (leb r.max_attempts r.attempts))
        × (view (verify_otp c print now phone r.code s).0 ≡ [])
  unfolding check_code
  right_guess now s r h e k = rw (verify-found now r.code s r (find-one now s r h e k)) (
      ground (
        arith,
        view-delete_one now s r h e (still_open now s r e k),
        view-verified now s r h e (still_open now s r e k),
        ==_refl r.code,
      ))

  -- Verifications one after the other, each with its time and code.
  abbrev pub run : List (ℕ × String) → S → S
  run [] s = s
  run ((now, code) ∷ gs) s = run gs (verify_otp c print now phone code s).0

  -- Guesses within the life of a code that are not the code.
  abbrev pub AreWrong : OtpRecord → List (ℕ × String) → Type 0
  AreWrong r = All (λ g. (t ≤ g.0) × (g.0 < r.expires_at) × (g.1 ≢ r.code))

  pub run-nothing :
      (gs : List (ℕ × String)) (s : S) → All (λ g. t ≤ g.0) gs → view s ≡ [] → view (run gs s) ≡ []
  run-nothing [] s h e = e
  run-nothing ((now, code) ∷ gs) s (h, hs) e =
      run-nothing gs (verify_otp c print now phone code s).0 hs (nothing_left now code s h e).0

  -- The times alone.
  AreWrong-since : (r : OtpRecord) (gs : List (ℕ × String)) → AreWrong r gs → All (λ g. t ≤ g.0) gs
  AreWrong-since r [] w = w
  AreWrong-since r (g ∷ gs) ((h, _, _), w) = (h, AreWrong-since r gs w)

  -- The right code is accepted while there were fewer wrong ones than attempts.
  pub count-run :
      (gs : List (ℕ × String)) (now : ℕ) (s : S) (r : OtpRecord)
      → t ≤ now
      → now < r.expires_at
      → view s ≡ r ∷ []
      → AreWrong r gs
      → is_success (verify_otp c print now phone r.code (run gs s)).1
        ≡ ltb (length gs + r.attempts) r.max_attempts
  count-run [] now s r h k e w = rw ((right_guess now s r h e k).0) (ground arith)
  count-run ((at, code) ∷ gs) now s r h k e ((ha, ka, ne), w) =
      let (after, _) = wrong_guess at code s r ha e ka (λ q. ne (sym q)) in
      let s2 = (verify_otp c print at phone code s).0 in
      elim (Bool-cases (leb r.max_attempts r.attempts)) [
        | inl q ↦
            (nothing_left now r.code (run gs s2) h
              (run-nothing gs s2 (AreWrong-since r gs w) (after ∙ rw q refl))).1
            ∙ ground (arith, q)
        | inr q ↦ count-run gs now s2 (missed r) h k (after ∙ rw q refl) w ∙ ground (arith, q)
      ]
