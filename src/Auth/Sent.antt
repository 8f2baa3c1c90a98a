-- ===== src/Auth/Sent.antt =====
-- What a code that was sent is good for
-- (src/microservices/auth-service/services/otp.service.ts).
use backend_gateway.Base.{
  inr, ℕ, ◌+◌, ◌≤◌, ◌<◌, String, true, false, List, [], ◌∷◌, ◌≡◌, refl, ap, ◌∙◌, string_eq, ltb,
  filter, length, All, arith, ==_refl, Collection, change_all,
}
use backend_gateway.Auth.Response.{is_success}
use backend_gateway.Auth.Otp.{
  OtpRecord, SendOtp, Cache, otp_expiry, max_attempts, rate_limit, rate_key, is_pending, is_open,
  new_record, send_otp, verify_otp,
}
use backend_gateway.Auth.Guesses.{view, nothing_left, run, AreWrong, run-nothing, count-run}
use backend_gateway.Auth.Single.{verify_otp-IsSingle, run-IsSingle}

none_open-change_all :
    (phone : String) (now : ℕ) (ds : List OtpRecord)
    → filter
        (is_open phone now)
        (change_all (is_pending phone) (λ r. record r { expires_at = now }) ds)
      ≡ []
none_open-change_all phone now [] = refl
none_open-change_all phone now (d ∷ ds) = ground (arith, none_open-change_all phone now ds)

module _ {S C : Type 0} (c : Collection OtpRecord S) (k : Cache C) (print : ℕ → String) (t : ℕ)
    (sent : String) (o : SendOtp) where
  abbrev pub after_send : S × C → S
  after_send s = (send_otp c k print t sent o s).0.0

  -- The stores after a request that is granted.
  abbrev stored : S × C → S × C
  stored s = (
    c.insert (new_record t sent o)
        (c.update_many (is_pending o.phone_number) (λ r. record r { expires_at = t }) s.0),
    k.set (rate_key o.phone_number) t t rate_limit s.1,
  )

  pub send_otp_granted :
      (s : S × C)
      → is_success (send_otp c k print t sent o s).1 ≡ true
      → (send_otp c k print t sent o s).0 ≡ stored s
  unfolding send_otp
  send_otp_granted (s, cache) ok = ground (arith, ok)

  -- A request that is granted leaves its own record as the only open one.
  view-send_otp :
      (s : S × C)
      → is_success (send_otp c k print t sent o s).1 ≡ true
      → view c print o.phone_number t (after_send s) ≡ new_record t sent o ∷ []
  unfolding new_record
  view-send_otp s ok =
      ap (λ x. view c print o.phone_number t x.0) (send_otp_granted s ok)
      ∙ ap (filter (is_open o.phone_number t)) (
          c.insert_law (new_record t sent o)
            (c.update_many (is_pending o.phone_number) (λ r. record r { expires_at = t }) s.0)
          ∙ ap (λ ds. new_record t sent o ∷ ds)
              (c.update_many_law (is_pending o.phone_number) (λ r. record r { expires_at = t })
                s.0))
      ∙ ground (arith, none_open-change_all o.phone_number t (c.docs s.0), ==_refl o.phone_number)

  -- After a code was sent, and while it has not expired, it is accepted exactly if fewer than three
  -- wrong codes were tried, whatever was sent to the phone before.
  pub count-send_otp :
      (s : S × C) (gs : List (ℕ × String)) (now : ℕ)
      → is_success (send_otp c k print t sent o s).1 ≡ true
      → t ≤ now
      → now < t + otp_expiry
      → AreWrong c print o.phone_number t (new_record t sent o) gs
      → is_success
          (verify_otp c print now o.phone_number sent
            (run c print o.phone_number t gs (after_send s))).1
        ≡ ltb (length gs) max_attempts
  unfolding new_record
  count-send_otp s gs now ok h e w =
      count-run c print o.phone_number t gs now (after_send s) (new_record t sent o) h e
        (view-send_otp s ok) w
      ∙ ground arith

  -- A code that was accepted, as the first guess or after wrong ones, is not accepted again, nor is
  -- any other, whatever is tried after and however late, as long as no other is sent.
  pub verify_otp-once :
      (s : S × C) (before after : List (ℕ × String)) (now later : ℕ) (code other : String)
      → is_success (send_otp c k print t sent o s).1 ≡ true
      → All (λ g. t ≤ g.0) before
      → t ≤ now
      → is_success
          (verify_otp c print now o.phone_number code
            (run c print o.phone_number t before (after_send s))).1
        ≡ true
      → All (λ g. t ≤ g.0) after
      → t ≤ later
      → is_success
          (verify_otp c print later o.phone_number other (
            run c print o.phone_number t after
              (verify_otp c print now o.phone_number code
                (run c print o.phone_number t before (after_send s))).0)).1
        ≡ false
  verify_otp-once s before after now later code other ok b h accepted a l =
      let one =
        run-IsSingle c print o.phone_number t before (after_send s) b
          (inr (new_record t sent o, view-send_otp s ok)) in
      let tried = run c print o.phone_number t before (after_send s) in
      let s2 = (verify_otp c print now o.phone_number code tried).0 in
      let used = (verify_otp-IsSingle c print o.phone_number t now code tried h one).1 accepted in
      (nothing_left c print o.phone_number t later other (run c print o.phone_number t after s2) l
        (run-nothing c print o.phone_number t after s2 a used)).1
