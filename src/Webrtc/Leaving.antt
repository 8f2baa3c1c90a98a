-- ===== src/Webrtc/Leaving.antt =====
-- What a disconnect does to the calls (src/gateways/webrtc.gateway.ts, `handleDisconnect`).
use backend_gateway.Base.{
  ℕ, String, Bool, true, false, none, some, List, [], ◌∷◌, ◌≡◌, ◌≢◌, ◌↔◌, Dict, refl, ap, inl, inr,
  ◌==◌, string_eq, if◌then◌else◌, includes, IsDistinct, keys, get, has, delete, get-delete, arith,
  Bool-cases, ◌&&◌, ◌||◌, any, filter, not,
}
use backend_gateway.Webrtc.State.{CallSession, Gateway, Client, active, is_active}
use backend_gateway.Webrtc.Presence.{
  is_abandoned, close_abandoned, end_abandoned, handle_disconnect,
}
use backend_gateway.Webrtc.Invariant.{IsValid}
use backend_gateway.Webrtc.Ending.{connected-close_abandoned, get-close_abandoned}

-- The user takes part in an answered call of which no other participant is connected.
pub record IsAbandoned (g : Gateway) (user : String) (c : CallSession) : Type 0 where
  pub member : includes c.participants user ≡ true
  pub answered : c.status ≡ active
  pub alone :
      (p : String) → includes c.participants p ≡ true → p ≢ user → has p g.connected_users ≡ false

module _ (m : Dict String String) (user : String) where
  abbrev others_connected : List String → Bool
  others_connected ps = any (λ p. has p m) (filter (λ p. not (p == user)) ps)

  alone_of_test :
      (ps : List String) (p : String)
      → others_connected ps ≡ false
      → includes ps p ≡ true
      → p ≢ user
      → has p m ≡ false
  alone_of_test [] p h k other = cc
  alone_of_test (q ∷ ps) p h k other = ground (arith, alone_of_test ps p)

  test_of_alone :
      (ps : List String)
      → ((p : String) → includes ps p ≡ true → p ≢ user → has p m ≡ false)
      → others_connected ps ≡ false
  test_of_alone [] h = refl
  test_of_alone (q ∷ ps) h = ground (arith, h q, test_of_alone ps (λ p k. h p (ground arith)))

is_abandoned_iff :
    (g : Gateway) (user : String) (c : CallSession)
    → (is_abandoned g user c ≡ true) ↔ IsAbandoned g user c
unfolding is_abandoned
is_abandoned_iff g user c = (
  (λ h. record {
    member = ground arith;
    answered = ground arith;
    alone =
        λ p k other. alone_of_test g.connected_users user c.participants p (ground arith) k other;
  }),
  λ a. ground (arith, test_of_alone g.connected_users user c.participants a.alone),
)

-- Some entry of the list is filed under the key and is abandoned.
abbrev pub hit : Gateway → String → String → List (String × CallSession) → Bool
hit g user k [] = false
hit g user k ((key, call) ∷ rest) = (key == k && is_abandoned g user call) || hit g user k rest

is_abandoned_same_users :
    (g h : Gateway) (user : String) (c : CallSession)
    → h.connected_users ≡ g.connected_users
    → is_abandoned h user c ≡ is_abandoned g user c
unfolding is_abandoned
is_abandoned_same_users g h user c e =
    ap
      (λ (m : Dict String String).
        includes c.participants user
        && (is_active c.status && not (others_connected m user c.participants)))
      e

hit_same_users :
    (g h : Gateway) (user k : String) (entries : List (String × CallSession))
    → h.connected_users ≡ g.connected_users
    → hit h user k entries ≡ hit g user k entries
hit_same_users g h user k [] e = refl
hit_same_users g h user k ((key, call) ∷ rest) e =
    rw (is_abandoned_same_users g h user call e, hit_same_users g h user k rest e)

pub get-end_abandoned :
    (now : ℕ) (client : Client) (k : String) (entries : List (String × CallSession)) (g : Gateway)
    → get k (end_abandoned now client entries g).0.active_calls
      ≡ (if hit g client.user_id k entries then none else get k g.active_calls)
unfolding end_abandoned
get-end_abandoned now client k [] g = refl
get-end_abandoned now client k ((key, call) ∷ rest) g =
    let g' = (close_abandoned now client key call g).0 in
    ground (
      arith,
      get-end_abandoned now client k rest g',
      get-close_abandoned now client key k call g,
      hit_same_users g g' client.user_id k rest (connected-close_abandoned now client key call g),
    )

connected-end_abandoned :
    (now : ℕ) (client : Client) (entries : List (String × CallSession)) (g : Gateway)
    → (end_abandoned now client entries g).0.connected_users ≡ g.connected_users
unfolding end_abandoned
connected-end_abandoned now client [] g = refl
connected-end_abandoned now client ((key, call) ∷ rest) g = cc (
  connected-end_abandoned now client rest (close_abandoned now client key call g).0,
  connected-close_abandoned now client key call g,
)

no_hit :
    (g : Gateway) (user k : String) (m : List (String × CallSession))
    → includes (keys m) k ≡ false
    → hit g user k m ≡ false
no_hit g user k [] h = refl
no_hit g user k ((key, call) ∷ rest) h = ground (arith, no_hit g user k rest)

hit-get :
    (g : Gateway) (user k : String) (c : CallSession) (m : List (String × CallSession))
    → IsDistinct (keys m)
    → get k m ≡ some c
    → hit g user k m ≡ is_abandoned g user c
unfolding get
hit-get g user k c [] d h = cc
hit-get g user k c ((key, call) ∷ rest) d h =
    ground (arith, no_hit g user k rest, hit-get g user k c rest)

end_abandoned-keeps :
    (now : ℕ) (client : Client) (g : Gateway) (k : String) (c : CallSession)
    → IsDistinct (keys g.active_calls)
    → let g' = (end_abandoned now client g.active_calls g).0 in
      (get k g'.active_calls ≡ some c)
      ↔ ((get k g.active_calls ≡ some c) × (¬ IsAbandoned g' client.user_id c))
end_abandoned-keeps now client g k c d =
    let g' = (end_abandoned now client g.active_calls g).0 in
    let left = get-end_abandoned now client k g.active_calls g in
    let same =
      is_abandoned_same_users g g' client.user_id c
        (connected-end_abandoned now client g.active_calls g) in
    let test = is_abandoned_iff g' client.user_id c in
    (
      λ h.
          let before : get k g.active_calls ≡ some c = ground (arith, left) in
          (
            before,
            λ a.
                ground (
                  arith,
                  left,
                  same,
                  test.1 a,
                  hit-get g client.user_id k c g.active_calls d before,
                ),
          ),
      λ (before, kept). elim (Bool-cases (is_abandoned g' client.user_id c)) [
        | inl out ↦ absurd (kept (test.0 out))
        | inr stays ↦
            ground (arith, left, same, hit-get g client.user_id k c g.active_calls d before)
      ],
    )

handle_disconnect_lem :
    (now : ℕ) (client : Client) (g : Gateway)
    → client.user_id ≢ ""
    → handle_disconnect now client g
      ≡ end_abandoned now client g.active_calls
          (record g { connected_users = delete client.user_id g.connected_users })
unfolding handle_disconnect
handle_disconnect_lem now client g real = ground arith

-- After the disconnect of a user a call is in the table exactly if it was there before and is not
-- abandoned: a ringing call stays, and so does one with another participant connected.
pub get-handle_disconnect :
    (now : ℕ) (client : Client) (g : Gateway) (k : String) (c : CallSession)
    → IsValid g
    → client.user_id ≢ ""
    → let g' = (handle_disconnect now client g).0 in
      (get k g'.active_calls ≡ some c)
      ↔ ((get k g.active_calls ≡ some c) × ¬ (IsAbandoned g' client.user_id c))
get-handle_disconnect now client g k c v real = rw (handle_disconnect_lem now client g real) (
    end_abandoned-keeps now client
      (record g { connected_users = delete client.user_id g.connected_users }) k c v.calls_distinct)

-- The user is no longer connected, and every other user is connected as before.
pub connected-handle_disconnect :
    (now : ℕ) (client : Client) (g : Gateway) (j : String)
    → client.user_id ≢ ""
    → get j (handle_disconnect now client g).0.connected_users
      ≡ (if client.user_id == j then none else get j g.connected_users)
unfolding handle_disconnect
connected-handle_disconnect now client g j real = ground (
  arith,
  get-delete client.user_id j g.connected_users,
  connected-end_abandoned now client g.active_calls
      (record g { connected_users = delete client.user_id g.connected_users }),
)
