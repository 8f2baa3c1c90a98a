-- ===== src/Scheduled/Due.antt =====
-- What a run of the scheduler leaves (src/modules/scheduled-messages).
use backend_gateway.Base.{
  ℕ, ◌<◌, String, true, false, Option, none, some, List, [], ◌∷◌, ◌≡◌, ◌↔◌, refl, if◌then◌else◌,
  ◌⊎◌, inl, inr, arith, Option-cases, count_where,
}
use backend_gateway.Scheduled.Service.{
  ScheduledMessage, is_due, failed_with, sent_as, settled, process_scheduled_messages,
}

-- A message that is due stays so exactly where the save in the `catch` throws.
settled_stays_due :
    (save : ScheduledMessage → Option String) (now : ℕ) (r : String ⊎ String) (m : ScheduledMessage)
    → ((settled save now r m).1 ≡ true → is_due now (settled save now r m).0 ≡ is_due now m)
      × ((settled save now r m).1 ≡ false → is_due now (settled save now r m).0 ≡ false)
unfolding settled
settled_stays_due save now (inl e) m = (λ h. ground arith, λ h. ground arith)
settled_stays_due save now (inr i) m = (λ h. ground arith, λ h. ground arith)

-- A save in the `catch` that always goes through.
settled-saves :
    (save : ScheduledMessage → Option String) (now : ℕ) (r : String ⊎ String) (m : ScheduledMessage)
    → ((d : ScheduledMessage) (reason : String) → save (failed_with reason d) ≡ none)
    → (settled save now r m).1 ≡ false
unfolding settled
settled-saves save now (inl e) m h = ground (arith, h m e)
settled-saves save now (inr i) m h = elim (Option-cases (save (sent_as now i m))) [
  | inl e ↦ ground (arith, e)
  | inr (reason, e) ↦ ground (arith, e, h (sent_as now i m) reason)
]

module _ {M : Type 0} (send : ScheduledMessage → M → M × (String ⊎ String))
    (save : ScheduledMessage → Option String) (now : ℕ) where
  process-ends :
      (ms : List ScheduledMessage) (s : M)
      → let (ms', _, last) = process_scheduled_messages send save now ms s in
        last ≡ none → count_where (is_due now) ms' ≡ 0
  unfolding process_scheduled_messages
  process-ends [] s h = refl
  process-ends (m ∷ ms) s h =
      let next = process-ends ms (if is_due now m then (send m s).0 else s) in
      let (kept, gone) = settled_stays_due save now (send m s).1 m in
      ground (arith, next, kept, gone, h)

  process-stops :
      (x : ScheduledMessage) (ms : List ScheduledMessage) (s : M)
      → let (ms', _, last) = process_scheduled_messages send save now ms s in
        last ≡ some x → 0 < count_where (is_due now) ms'
  unfolding process_scheduled_messages
  process-stops x [] s h = ground arith
  process-stops x (m ∷ ms) s h =
      let next = process-stops x ms (if is_due now m then (send m s).0 else s) in
      let (kept, gone) = settled_stays_due save now (send m s).1 m in
      ground (arith, next, kept, gone, h)

  -- A run of the scheduler goes through to the end exactly if nothing is left after it that was due.
  pub process_scheduled_messages_completes :
      (ms : List ScheduledMessage) (s : M)
      → let (ms', _, last) = process_scheduled_messages send save now ms s in
        (last ≡ none) ↔ (count_where (is_due now) ms' ≡ 0)
  process_scheduled_messages_completes ms s =
      let (ms', s', last) = process_scheduled_messages send save now ms s in
      elim (Option-cases last) [
        | inl e ↦ (λ h. process-ends ms s h, λ z. e)
        | inr (m, e) ↦
            (let more = process-stops m ms s e in
              (λ h. ground (arith, h, e), λ z. ground (arith, more, z)))
      ]

  process-saves :
      (ms : List ScheduledMessage) (s : M)
      → ((d : ScheduledMessage) (reason : String) → save (failed_with reason d) ≡ none)
      → (process_scheduled_messages send save now ms s).2 ≡ none
  unfolding process_scheduled_messages
  process-saves [] s h = refl
  process-saves (m ∷ ms) s h = ground (
    arith,
    settled-saves save now (send m s).1 m h,
    process-saves ms (if is_due now m then (send m s).0 else s) h,
  )

  -- If every save of a failed message goes through, a run of the scheduler leaves nothing that was
  -- due, whichever messages could not be sent or not be saved as sent.
  pub process_scheduled_messages-is_due :
      (ms : List ScheduledMessage) (s : M)
      → ((d : ScheduledMessage) (reason : String) → save (failed_with reason d) ≡ none)
      → count_where (is_due now) (process_scheduled_messages send save now ms s).0 ≡ 0
  process_scheduled_messages-is_due ms s h = process-ends ms s (process-saves ms s h)
