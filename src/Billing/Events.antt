-- ===== src/Billing/Events.antt =====
-- A usage event is stored once for each event id.
use aether_code.Base.{
  Bool, false, [], Text, ◌==◌, text_eq, text_beq_iff, ℤ, Result, ok, err, Result-cases, inl, inr,
  ◌≡◌, ◌≢◌, refl, sym, ap, ◌∙◌, subst, Bool-cases,
}
use aether_code.Text.{trim_space}
use aether_code.Text.Trim.{trim_space_idem}
use aether_code.Store.Provider.{Time}
use aether_code.Store.Database.{Database, IsTable}
use aether_code.Store.Database.Once.{Once, create-Once}
use aether_code.Billing.{UsageEvent, apply_event_defaults}
use aether_code.Billing.Charges.{BillingStore, create_usage_event, persisted, stored}
use aether_code.Billing.Charges.Laws.{persisted-eq-ok}

abbrev pub same_event_id : UsageEvent → UsageEvent → Bool
same_event_id e f = f.event_id == e.event_id

-- The second event is the first one with its primary key, and with a time of creation if it had none:
-- gorm fills in both when it inserts a row.
abbrev pub SameEvent : UsageEvent → UsageEvent → Type 0
SameEvent e f =
    (f ≡ record e { id = f.id; created_at = f.created_at })
    × (e.created_at ≢ 0 → f.created_at ≡ e.created_at)

event_id-defaults :
    (millis : Time → Time → ℤ) (now : Time) (e : UsageEvent)
    → (apply_event_defaults millis now e).event_id ≡ trim_space e.event_id
unfolding apply_event_defaults
event_id-defaults millis now e = refl

module _ (d : Database) (s : BillingStore d) (lawful : IsTable s.events same_event_id SameEvent)
    (millis : Time → Time → ℤ) (raw : UsageEvent) (now : Time) (db : d.Db) where
  -- The event with its defaults, as the hook that runs before an insert leaves it.
  abbrev pub new_event : UsageEvent
  new_event = apply_event_defaults millis now (apply_event_defaults millis now raw)

  abbrev pub StoredOnce : UsageEvent → d.Db → Type 0
  StoredOnce event db' =
      (event.event_id ≡ trim_space raw.event_id)
      × (trim_space raw.event_id ≢ [])
      × Once s.events same_event_id SameEvent lawful new_event db event db'

  read-StoredOnce :
      (db1 : d.Db) (event : UsageEvent) (db' : d.Db)
      → trim_space raw.event_id ≢ []
      → s.events.create_or_nothing new_event db ≡ ok db1
      → persisted db1
          (s.events.first (λ e. e.event_id == (apply_event_defaults millis now raw).event_id) db1)
        ≡ (ok event, db')
      → StoredOnce event db'
  unfolding apply_event_defaults
  read-StoredOnce db1 event db' named made h =
      let id = trim_space raw.event_id in
      let test = λ (e : UsageEvent). e.event_id == id in
      let (read, same) = persisted-eq-ok db1 (s.events.first test db1) h in
      let (once, passes) =
        create-Once s.events same_event_id SameEvent lawful new_event test db db1 event
          (λ x. ap (λ (t : Text). x.event_id == t) (sym (trim_space_idem raw.event_id))) made
          read in
      (
        (text_beq_iff event.event_id id).0 passes,
        named,
        subst (Once s.events same_event_id SameEvent lawful new_event db event) same once,
      )

  -- A successful call returns the stored event of the trimmed event id, which is not blank. If the
  -- id was known, the call has stored nothing; if not, the event with its defaults is all that it
  -- has stored, with its primary key and, where it had no time of creation, with one. The tables answer
  -- as their interface says.
  pub create_usage_event-StoredOnce :
      {event : UsageEvent} {db' : d.Db}
      → create_usage_event d s millis raw now db ≡ (ok event, db')
      → StoredOnce event db'
  unfolding create_usage_event
  create_usage_event-StoredOnce {event} {db'} h =
      let e1 = apply_event_defaults millis now raw in
      let test = λ (e : UsageEvent). e.event_id == e1.event_id in
      let then' = λ (db1 : d.Db). persisted db1 (s.events.first test db1) in
      elim (Bool-cases (e1.event_id == [])) [
        | inl t ↦ bad (rw (t, create_usage_event) at h)
        | inr f ↦
            let h1 : stored db (s.events.create_or_nothing new_event db) then' ≡ (ok event, db') =
              rw (f, create_usage_event) at h in
            elim (Result-cases (s.events.create_or_nothing new_event db)) [
              | inl (db1, made) ↦
                  read-StoredOnce db1 event db' (named f) made
                    (sym (ap (λ r. stored db r then') made) ∙ h1)
              | inr (e, refused) ↦ bad (sym (ap (λ r. stored db r then') refused) ∙ h1)
            ]
      ]
    where
      bad :
          {A : Type 0} {e : Text} {db0 : d.Db}
          → ◌≡◌ {A = Result Text UsageEvent × d.Db} (err e, db0) (ok event, db')
          → A
      bad {A} {e} h =
          let wrong : ◌≡◌ {A = Result Text UsageEvent} (err e) (ok event) =
            ap (λ (x : Result Text UsageEvent × d.Db). x.0) h in
          cc

      named :
          ((apply_event_defaults millis now raw).event_id == []) ≡ false
          → trim_space raw.event_id ≢ []
      named f e = cc (
        f,
        (text_beq_iff (apply_event_defaults millis now raw).event_id []).1
            (event_id-defaults millis now raw ∙ e),
      )
