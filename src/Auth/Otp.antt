-- ===== src/Auth/Otp.antt =====
-- src/microservices/auth-service/services/otp.service.ts over a collection of records and a cache.
use Prim.Native.String.{◌++◌ as ◌<>◌}
use backend_gateway.Base.{
  ℕ, ◌+◌, ◌-◌, ◌*◌, ◌/◌, ◌<◌, String, Bool, true, false, Option, none, some, ◌≡◌, ◌==◌, string_eq,
  if◌then◌else◌, ltb, leb, not, ◌&&◌, ◌||◌, Collection,
}
use backend_gateway.Auth.Response.{
  otp_invalid, otp_expired, otp_rate_limited, Response, success_response, error_response,
}

pub data Channel : Type 0 where
  sms whatsapp email : Channel

pub record OtpRecord : Type 0 where
  pub phone_number : String
  pub code : String
  pub channel : Channel
  pub attempts : ℕ
  pub max_attempts : ℕ
  pub expires_at : ℕ
  pub is_verified : Bool
  pub verified_at : Option ℕ
  pub ip_address : Option String
  pub user_agent : Option String

pub record SendOtp : Type 0 where
  pub phone_number : String
  pub channel : Option Channel
  pub ip_address : Option String
  pub user_agent : Option String

-- The cache of numbers by key: what is set is found until its time to live is over.
pub record Cache (C : Type 0) : Type 0 where
  pub get : String → ℕ → C → Option ℕ
  pub set : String → ℕ → ℕ → ℕ → C → C
  pub get_set :
      (k : String) (now v ttl later : ℕ) (c : C)
      → later < now + ttl
      → get k later (set k now v ttl c) ≡ some v

abbrev pub otp_expiry : ℕ
otp_expiry = 5 * 60 * 1000

abbrev pub max_attempts : ℕ
max_attempts = 3

abbrev pub rate_limit : ℕ
rate_limit = 1 * 60 * 1000

abbrev pub rate_key : String → String
rate_key phone = "otp_rate:" <> phone

-- `generateOtp`, of what `Math.floor(Math.random() * 900000)` draws.
unfoldable pub generate_otp : ℕ → ℕ
generate_otp drawn = 100000 + drawn

-- How long a request has to wait after one in the cache; a request at time 0 does not count.
unfoldable pub wait_time : ℕ → Option ℕ → ℕ
wait_time now none = 0
wait_time now (some t) = if leb t 0 then 0 else rate_limit - (now - t)

-- A record of the phone that is not verified.
abbrev pub is_pending : String → OtpRecord → Bool
is_pending phone r = r.phone_number == phone && not r.is_verified

-- One that has not expired either.
abbrev pub is_open : String → ℕ → OtpRecord → Bool
is_open phone now r = is_pending phone r && ltb now r.expires_at

abbrev channel_or_sms : Option Channel → Channel
channel_or_sms none = sms
channel_or_sms (some c) = c

unfoldable pub new_record : ℕ → String → SendOtp → OtpRecord
new_record now code o = record {
  phone_number = o.phone_number;
  code = code;
  channel = channel_or_sms o.channel;
  attempts = 0;
  max_attempts = max_attempts;
  expires_at = now + otp_expiry;
  is_verified = false;
  verified_at = none;
  ip_address = o.ip_address;
  user_agent = o.user_agent;
}

-- Whether the code was delivered: `send_sms` is the answer of the SMS service.
unfoldable pub deliver_otp : Bool → Bool → Channel → Bool
deliver_otp is_development send_sms sms = send_sms || is_development
deliver_otp is_development send_sms whatsapp = send_sms || is_development
deliver_otp is_development send_sms email = false

module _ {S C : Type 0} (c : Collection OtpRecord S) (k : Cache C) where
  -- The stores after `sendOtp`, and its answer with the code.
  unfoldable pub send_otp : (ℕ → String) → ℕ → String → SendOtp → S × C → (S × C) × Response String
  unfolding wait_time new_record
  send_otp print now code o (s, cache) =
      let wait = wait_time now (k.get (rate_key o.phone_number) now cache) in
      if ltb 0 wait
      then (
        (s, cache),
        error_response otp_rate_limited (
            "Please wait "
            <> (print ((wait + 999) / 1000) <> " seconds before requesting another OTP")),
      )
      else (
        (
          c.insert (new_record now code o)
              (c.update_many (is_pending o.phone_number) (λ r. record r { expires_at = now }) s),
          k.set (rate_key o.phone_number) now now rate_limit cache,
        ),
        success_response code,
      )

module _ {S : Type 0} (c : Collection OtpRecord S) where
  -- `save` writes the record that was found, which is the newest open one.
  unfoldable pub check_code : (ℕ → String) → ℕ → String → String → OtpRecord → S → S × Response Bool
  check_code print now phone code r s =
      if leb r.max_attempts r.attempts
      then (
        c.delete_one (is_open phone now) s,
        error_response otp_invalid
            "Maximum verification attempts exceeded. Please request a new OTP.",
      )
      else if r.code == code
      then (
        c.update_one (is_open phone now)
            (λ d. record d { is_verified = true; verified_at = some now }) s,
        success_response true,
      )
      else (
        c.update_one (is_open phone now) (λ d. record d { attempts = d.attempts + 1 }) s,
        error_response otp_invalid (
            "Invalid OTP code. "
            <> (print (r.max_attempts - (r.attempts + 1)) <> " attempts remaining.")),
      )

  unfoldable pub verify_otp : (ℕ → String) → ℕ → String → String → S → S × Response Bool
  unfolding check_code
  verify_otp print now phone code s = elim (c.find_newest (is_open phone now) s) [
    | none ↦
        (s, error_response otp_expired "OTP not found or has expired. Please request a new OTP.")
    | some r ↦ check_code print now phone code r s
  ]

  unfoldable pub cleanup_expired_otps : ℕ → S → S
  cleanup_expired_otps now s = c.delete_many (λ r. ltb r.expires_at now) s
