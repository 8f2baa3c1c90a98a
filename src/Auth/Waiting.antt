-- ===== src/Auth/Waiting.antt =====
-- How long another code has to be waited for
-- (src/microservices/auth-service/services/otp.service.ts).
use backend_gateway.Base.{
  ℕ, ◌+◌, ◌≤◌, ◌<◌, String, true, false, some, List, [], ◌∷◌, ◌≡◌, ◌≢◌, ap, ◌∙◌, ◌==◌, string_eq,
  ltb, All, arith, Bool-cases, inl, inr, ne_of_test, ==_iff, Collection,
}
use backend_gateway.Auth.Response.{is_success}
use backend_gateway.Auth.Otp.{
  OtpRecord, SendOtp, Cache, rate_limit, rate_key, wait_time, send_otp, verify_otp,
  cleanup_expired_otps,
}
use backend_gateway.Auth.Sent.{send_otp_granted}

pub data Request : Type 0 where
  sending : (now : ℕ) (code : String) → SendOtp → Request
  guess : (now : ℕ) (phone code : String) → Request
  cleaning : (now : ℕ) → Request

abbrev pub time_of : Request → ℕ
time_of (sending now code o) = now
time_of (guess now phone code) = now
time_of (cleaning now) = now

module _ {S C : Type 0} (c : Collection OtpRecord S) (k : Cache C) (print : ℕ → String) where
  unfoldable pub handle : Request → S × C → S × C
  handle (sending now code o) s = (send_otp c k print now code o s).0
  handle (guess now phone code) (s, cache) = ((verify_otp c print now phone code s).0, cache)
  handle (cleaning now) (s, cache) = (cleanup_expired_otps c now s, cache)

  abbrev pub run : List Request → S × C → S × C
  run [] s = s
  run (r ∷ rs) s = run rs (handle r s)

  -- What is set for a key changes nothing for another.
  module _
      (get_set_other : (i j : String) (now v ttl later : ℕ) (cache : C)
        → i ≢ j
        → k.get j later (k.set i now v ttl cache) ≡ k.get j later cache) where
    module _ (t : ℕ) (phone : String) where
      -- The cache knows of the request at the time, for a minute.
      abbrev IsNoted : S × C → Type 0
      IsNoted s = (u : ℕ) → t ≤ u → u < t + rate_limit → k.get (rate_key phone) u s.1 ≡ some t

      must_wait :
          (cache : C) (now : ℕ)
          → 0 < t
          → t ≤ now
          → now < t + rate_limit
          → k.get (rate_key phone) now cache ≡ some t
          → ltb 0 (wait_time now (k.get (rate_key phone) now cache)) ≡ true
      unfolding wait_time
      must_wait cache now z h e g = rw g (ground arith)

      refused :
          (now : ℕ) (code : String) (o : SendOtp) (s : S × C)
          → ltb 0 (wait_time now (k.get (rate_key o.phone_number) now s.1)) ≡ true
          → (is_success (send_otp c k print now code o s).1 ≡ false)
            × ((send_otp c k print now code o s).0 ≡ s)
      unfolding send_otp
      refused now code o (s, cache) w = ground (arith, w)

      handle-IsNoted :
          (r : Request) (s : S × C)
          → 0 < t
          → t ≤ time_of r
          → time_of r < t + rate_limit
          → IsNoted s
          → IsNoted (handle r s)
      unfolding handle send_otp
      handle-IsNoted (sending now code o) (s, cache) z h e n u hu eu =
          elim (Bool-cases (rate_key o.phone_number == rate_key phone)) [
            | inl same ↦
                (let waits = must_wait cache now z h e (n now h e) in
                  let same_key = (==_iff (rate_key o.phone_number) (rate_key phone)).0 same in
                  ap (λ x. k.get (rate_key phone) u x.1)
                    ((refused now code o (s, cache) (rw same_key waits)).1)
                  ∙ n u hu eu)
            | inr differ ↦
                (let kept =
                    get_set_other (rate_key o.phone_number) (rate_key phone) now now rate_limit u
                      cache (ne_of_test (rate_key o.phone_number) (rate_key phone) differ) in
                  ground (arith, kept, n u hu eu))
          ]
      handle-IsNoted (guess now w code) (s, cache) z h e n u hu eu = n u hu eu
      handle-IsNoted (cleaning now) (s, cache) z h e n u hu eu = n u hu eu

      run-IsNoted :
          (rs : List Request) (s : S × C)
          → 0 < t
          → All (λ r. (t ≤ time_of r) × (time_of r < t + rate_limit)) rs
          → IsNoted s
          → IsNoted (run rs s)
      run-IsNoted [] s z h n = n
      run-IsNoted (r ∷ rs) s z ((h, e), hs) n =
          run-IsNoted rs (handle r s) z hs (handle-IsNoted r s z h e n)

    -- Within a minute of a request that was granted, any other for the phone is refused and changes
    -- nothing, whatever requests for any phones, verifications and clean-ups are served between, if
    -- setting a key of the cache changes no other key. The first was not at time 0, which counts as
    -- none.
    pub send_otp-send_otp :
        (t : ℕ) (sent : String) (o : SendOtp) (s : S × C) (rs : List Request) (later : ℕ)
        (code : String) (again : SendOtp)
        → is_success (send_otp c k print t sent o s).1 ≡ true
        → 0 < t
        → All (λ r. (t ≤ time_of r) × (time_of r < t + rate_limit)) rs
        → t ≤ later
        → later < t + rate_limit
        → again.phone_number ≡ o.phone_number
        → let s' = run rs (send_otp c k print t sent o s).0 in
          (is_success (send_otp c k print later code again s').1 ≡ false)
          × ((send_otp c k print later code again s').0 ≡ s')
    send_otp-send_otp t sent o s rs later code again ok z hs h e p =
        let s' = run rs (send_otp c k print t sent o s).0 in
        let noted =
          run-IsNoted t o.phone_number rs (send_otp c k print t sent o s).0 z hs (λ u hu eu.
            ap (λ x. k.get (rate_key o.phone_number) u x.1)
              (send_otp_granted c k print t sent o s ok)
            ∙ k.get_set (rate_key o.phone_number) t t rate_limit u s.1 eu) in
        refused t o.phone_number later code again s'
          (rw p (must_wait t o.phone_number s'.1 later z h e (noted later h e)))
