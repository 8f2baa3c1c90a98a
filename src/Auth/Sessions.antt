-- ===== src/Auth/Sessions.antt =====
-- src/microservices/auth-service/services/session.service.ts over a collection of sessions. What
-- fails in the driver (`INTERNAL_ERROR`) is left out.
use backend_gateway.Base.{
  ℕ, ◌+◌, ◌*◌, String, Bool, true, false, Option, none, some, List, ◌==◌, nat_eq, string_eq,
  if◌then◌else◌, ltb, not, ◌&&◌, ◌||◌, Collection,
}
use backend_gateway.Auth.Response.{not_found, Response, success_response, error_response}

pub record DeviceInfo : Type 0 where
  pub device_id : Option String
  pub device_type : String
  pub device_name : Option String
  pub os : Option String
  pub os_version : Option String
  pub app_version : Option String
  pub push_token : Option String
  pub user_agent : Option String

pub record Session : Type 0 where
  pub user_id : String
  pub session_id : String
  pub refresh_token : String
  pub device_info : DeviceInfo
  pub ip_address : Option String
  pub location : Option String
  pub is_active : Bool
  pub last_active_at : ℕ
  pub expires_at : ℕ
  pub revoked_at : Option ℕ
  pub revoked_reason : Option String

pub record CreateSession : Type 0 where
  pub user_id : String
  pub refresh_token : String
  pub device_info : Option DeviceInfo
  pub ip_address : Option String

-- A text that counts as true, if there is one: `a || b`.
abbrev or_else : Option String → Option String → Option String
or_else none b = b
or_else (some a) b = if a == "" then b else some a

abbrev unknown_device : DeviceInfo
unknown_device = record {
  device_id = none;
  device_type = "unknown";
  device_name = none;
  os = none;
  os_version = none;
  app_version = none;
  push_token = none;
  user_agent = none;
}

abbrev device_or_unknown : Option DeviceInfo → DeviceInfo
device_or_unknown none = unknown_device
device_or_unknown (some d) = d

-- The device of a request, if it has an id that is not empty.
abbrev pub given_device : Option DeviceInfo → Option (String × DeviceInfo)
given_device none = none
given_device (some d) = elim d.device_id [
  | none ↦ none
  | some i ↦ if i == "" then none else some (i, d)
]

abbrev pub same_device : String → Option String → Bool
same_device device none = false
same_device device (some i) = i == device

-- The active sessions of a user on a device.
abbrev pub on_device : String → String → Session → Bool
on_device user device s =
    (s.user_id == user && same_device device s.device_info.device_id) && s.is_active

-- `isActive: true, expiresAt: { $gt: now }`
abbrev pub is_live : ℕ → Session → Bool
is_live now s = s.is_active && ltb now s.expires_at

unfoldable pub new_session : ℕ → ℕ → String → CreateSession → Session
new_session now expiry id o = record {
  user_id = o.user_id;
  session_id = id;
  refresh_token = o.refresh_token;
  device_info = device_or_unknown o.device_info;
  ip_address = o.ip_address;
  location = none;
  is_active = true;
  last_active_at = now;
  expires_at = expiry;
  revoked_at = none;
  revoked_reason = none;
}

-- The session that a device has, for a new token. `tracks_mixed` says whether the driver saves what
-- changes inside `deviceInfo`, which the schema leaves without a type.
unfoldable pub renewed : Bool → ℕ → ℕ → CreateSession → DeviceInfo → Session → Session
renewed tracks_mixed now expiry o d s = record s {
  refresh_token = o.refresh_token;
  last_active_at = now;
  expires_at = expiry;
  ip_address = or_else o.ip_address s.ip_address;
  device_info =
      if tracks_mixed
      then record s.device_info { push_token = or_else d.push_token s.device_info.push_token }
      else s.device_info;
}

abbrev pub revoked : ℕ → String → Session → Session
revoked now reason s = record s {
  is_active = false;
  revoked_at = some now;
  revoked_reason = some reason;
}

abbrev reason_or_default : Option String → String
reason_or_default none = "User requested"
reason_or_default (some r) = if r == "" then "User requested" else r

abbrev pub except : Option String → Session → Bool
except none s = true
except (some id) s = if id == "" then true else not (s.session_id == id)

-- The sessions that `revokeAllSessions` revokes.
abbrev pub revocable : String → Option String → Session → Bool
revocable user kept s = (s.user_id == user && s.is_active) && except kept s

abbrev pub old_revoked : ℕ → Option ℕ → Bool
old_revoked now none = false
old_revoked now (some t) = ltb (t + 30 * 24 * 60 * 60 * 1000) now

abbrev pub is_stale : ℕ → Session → Bool
is_stale now s = ltb s.expires_at now || (not s.is_active && old_revoked now s.revoked_at)

module _ {S : Type 0} (c : Collection Session S) where
  -- The rest of `createSession`, with no session of the device at hand.
  unfoldable pub insert_session : ℕ → ℕ → String → CreateSession → S → S × Response String
  insert_session now expiry id o s = (c.insert (new_session now expiry id o) s, success_response id)

  -- `save` writes the session that was found, by its id.
  unfoldable pub reuse_or_insert :
      Bool → ℕ → ℕ → String → CreateSession → String → DeviceInfo → S → S × Response String
  unfolding insert_session
  reuse_or_insert tracks_mixed now expiry id o device d s =
      elim (c.find_one (on_device o.user_id device) s) [
        | none ↦ insert_session now expiry id o s
        | some e ↦ (
          c.update_one (λ x. x.session_id == e.session_id) (renewed tracks_mixed now expiry o d) s,
          success_response e.session_id,
        )
      ]

  unfoldable pub create_session : Bool → ℕ → ℕ → String → CreateSession → S → S × Response String
  unfolding insert_session reuse_or_insert
  create_session tracks_mixed now expiry id o s = elim (given_device o.device_info) [
    | none ↦ insert_session now expiry id o s
    | some (device, d) ↦ reuse_or_insert tracks_mixed now expiry id o device d s
  ]

  unfoldable pub get_session : ℕ → String → S → Response (Option Session)
  get_session now id s = success_response (c.find_one (λ x. x.session_id == id && is_live now x) s)

  unfoldable pub get_session_by_refresh_token : ℕ → String → S → Response (Option Session)
  get_session_by_refresh_token now token s =
      success_response (c.find_one (λ x. x.refresh_token == token && is_live now x) s)

  unfoldable pub get_user_sessions : ℕ → String → S → Response (List Session)
  get_user_sessions now user s =
      success_response
        (c.find_sorted (λ x. x.user_id == user && is_live now x) (λ x. x.last_active_at) s)

  unfoldable pub update_session_activity : ℕ → String → S → S
  update_session_activity now id s =
      c.update_one (λ x. x.session_id == id) (λ x. record x { last_active_at = now }) s

  -- An update of one, and the answer by whether one matched.
  unfoldable pub update_found : (Session → Bool) → (Session → Session) → S → S × Response (Unit {0})
  update_found p f s =
      if c.count p s == 0
      then (c.update_one p f s, error_response not_found "Session not found")
      else (c.update_one p f s, success_response tt)

  unfoldable pub update_session_refresh_token : ℕ → String → String → S → S × Response (Unit {0})
  unfolding update_found
  update_session_refresh_token now id token s =
      update_found (λ x. x.session_id == id && x.is_active)
        (λ x. record x { refresh_token = token; last_active_at = now }) s

  unfoldable pub revoke_session : ℕ → String → String → Option String → S → S × Response (Unit {0})
  unfolding update_found
  revoke_session now user id reason s =
      update_found (λ x. (x.user_id == user && x.session_id == id) && x.is_active)
        (revoked now (reason_or_default reason)) s

  unfoldable pub revoke_all_sessions : ℕ → String → Option String → S → S × Response ℕ
  revoke_all_sessions now user kept s = (
    c.update_many (revocable user kept) (revoked now "User revoked all sessions") s,
    success_response (c.count (revocable user kept) s),
  )

  unfoldable pub get_session_count : ℕ → String → S → ℕ
  get_session_count now user s = c.count (λ x. x.user_id == user && is_live now x) s

  unfoldable pub cleanup_expired_sessions : ℕ → S → S × ℕ
  cleanup_expired_sessions now s = (c.delete_many (is_stale now) s, c.count (is_stale now) s)
