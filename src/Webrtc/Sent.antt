-- ===== src/Webrtc/Sent.antt =====
-- What stands in a list of effects.
use backend_gateway.Base.{List, [], ◌∷◌, ◌++◌, ◌≡◌, ◌⊎◌, inl, inr}
use backend_gateway.Webrtc.State.{Effect}

abbrev pub Sent : Effect → List Effect → Type 0
Sent e [] = ⊥
Sent e (x ∷ xs) = (x ≡ e) ⊎ Sent e xs

pub Sent-append_left : (e : Effect) (xs ys : List Effect) → Sent e xs → Sent e (xs ++ ys)
Sent-append_left e [] ys h = absurd h
Sent-append_left e (x ∷ xs) ys (inl h) = inl h
Sent-append_left e (x ∷ xs) ys (inr h) = inr (Sent-append_left e xs ys h)

pub Sent-append_right : (e : Effect) (xs ys : List Effect) → Sent e ys → Sent e (xs ++ ys)
Sent-append_right e [] ys h = h
Sent-append_right e (x ∷ xs) ys h = inr (Sent-append_right e xs ys h)

pub Sent-append : (e : Effect) (xs ys : List Effect) → Sent e (xs ++ ys) → Sent e xs ⊎ Sent e ys
Sent-append e [] ys h = inr h
Sent-append e (x ∷ xs) ys (inl h) = inl (inl h)
Sent-append e (x ∷ xs) ys (inr h) = elim (Sent-append e xs ys h) [
  | inl k ↦ inl (inr k)
  | inr k ↦ inr k
]
