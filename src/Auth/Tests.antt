-- ===== src/Auth/Tests.antt =====
-- One-time passwords at concrete inputs, and the theorems applied there.
use native.Mathlib.Decide.{ℕ_discrete}
use backend_gateway.Base.{
  ℕ, ◌+◌, ◌<◌, String, String_discrete, true, false, Option, none, some, List, [], ◌∷◌, ◌≡◌, ◌≢◌,
  refl, if◌then◌else◌, ◌==◌, ==_refl, ne_of_test, string_eq, ltb, arith, length, listed,
}
use backend_gateway.Auth.Response.{is_success}
use backend_gateway.Auth.Otp.{
  OtpRecord, SendOtp, Cache, wait_time, new_record, send_otp, check_code, verify_otp, generate_otp,
}
use backend_gateway.Auth.Guesses.{run}
use backend_gateway.Auth.Sent.{after_send, count-send_otp, verify_otp-once}
use backend_gateway.Auth.Waiting
use backend_gateway.Auth.Waiting.{Request, sending, guess, cleaning, handle, send_otp-send_otp}

program : Unit {0}
unfolding String_discrete ℕ_discrete wait_time new_record send_otp check_code verify_otp
    generate_otp handle
program = tt

-- A cache as a function: the end of the life of each key, and its value.
abbrev Store : Type 0
Store = String → Option (ℕ × ℕ)

abbrev alive : ℕ → Option (ℕ × ℕ) → Option ℕ
alive now none = none
alive now (some (end, v)) = if ltb now end then some v else none

abbrev get_entry : String → ℕ → Store → Option ℕ
get_entry key now c = alive now (c key)

abbrev set_entry : String → ℕ → ℕ → ℕ → Store → Store
set_entry k now v ttl c j = if k == j then some (now + ttl, v) else c j

get_entry-set_entry :
    (k : String) (now v ttl later : ℕ) (c : Store)
    → later < now + ttl
    → get_entry k later (set_entry k now v ttl c) ≡ some v
get_entry-set_entry k now v ttl later c h = ground (arith, ==_refl k)

get_entry-set_entry_other :
    (k j : String) (now v ttl later : ℕ) (c : Store)
    → k ≢ j
    → get_entry j later (set_entry k now v ttl c) ≡ get_entry j later c
get_entry-set_entry_other k j now v ttl later c h = ground arith

abbrev entries : Cache Store
entries = record { get = get_entry; set = set_entry; get_set = get_entry-set_entry }

abbrev print : ℕ → String
print n = "n"

abbrev request : SendOtp
request = record { phone_number = "+4912345"; channel = none; ip_address = none; user_agent = none }

abbrev start : List OtpRecord × Store
start = ([], λ key. none)

abbrev wrong : List (ℕ × String)
wrong = (1001, "000000") ∷ (1002, "000001") ∷ []

accepted_test :
    is_success
      (verify_otp (listed OtpRecord) print 1003 "+4912345" "123456" (
        run
          (listed OtpRecord)
          print
          "+4912345"
          1000
          wrong
          (after_send (listed OtpRecord) entries print 1000 "123456" request start))).1
    ≡ true
unfolding program
accepted_test = refl

count-send_otp_example :
    is_success
      (verify_otp (listed OtpRecord) print 1003 "+4912345" "123456" (
        run
          (listed OtpRecord)
          print
          "+4912345"
          1000
          wrong
          (after_send (listed OtpRecord) entries print 1000 "123456" request start))).1
    ≡ ltb (length wrong) 3
unfolding program
count-send_otp_example =
    count-send_otp (listed OtpRecord) entries print 1000 "123456" request start wrong 1003 refl
      (ground arith) (ground arith)
      (
        (ground arith, ground arith, ne_of_test "000000" "123456" refl),
        ((ground arith, ground arith, ne_of_test "000001" "123456" refl), tt),
      )

-- Two wrong guesses, the right one, and two more.
verify_otp-once_example :
    is_success
      (verify_otp (listed OtpRecord) print 1005 "+4912345" "123456" (
        run
          (listed OtpRecord)
          print
          "+4912345"
          1000
          wrong
          (verify_otp (listed OtpRecord) print 1003 "+4912345" "123456" (
            run
              (listed OtpRecord)
              print
              "+4912345"
              1000
              wrong
              (after_send (listed OtpRecord) entries print 1000 "123456" request start))).0)).1
    ≡ false
unfolding program
verify_otp-once_example =
    verify_otp-once (listed OtpRecord) entries print 1000 "123456" request start wrong wrong 1003
      1005 "123456" "123456" refl (ground arith, (ground arith, tt)) (ground arith) accepted_test
      (ground arith, (ground arith, tt)) (ground arith)

-- A code for another phone, a guess and a clean-up in the minute after the first request.
abbrev between : List Request
between =
    sending 2000 "777777" (record request { phone_number = "+4999999" })
    ∷ guess 3000 "+4912345" "123456"
    ∷ cleaning 4000
    ∷ []

abbrev after_between : List OtpRecord × Store
after_between =
    Waiting.run (listed OtpRecord) entries print between
      (send_otp (listed OtpRecord) entries print 1000 "123456" request start).0

send_otp-send_otp_example :
    (is_success (send_otp (listed OtpRecord) entries print 60999 "654321" request after_between).1
      ≡ false)
    × ((send_otp (listed OtpRecord) entries print 60999 "654321" request after_between).0
        ≡ after_between)
unfolding program
send_otp-send_otp_example =
    send_otp-send_otp (listed OtpRecord) entries print get_entry-set_entry_other 1000 "123456"
      request start between 60999 "654321" request refl (ground arith)
      (
        (ground arith, ground arith),
        ((ground arith, ground arith), ((ground arith, ground arith), tt)),
      )
      (ground arith) (ground arith) refl
