-- ===== src/Policy/Reservation.antt =====
-- The daily reservation (policy_engine/evaluate.py): what `reserve_daily_spend` and
-- `release_daily_spend` do to an actor's day, and the bound that they keep with the evaluation.
use trust_gate_merchant_copi.Base.{
  ℕ, ◌≡◌, ◌≢◌, refl, sym, ap, ◌∙◌, Bool, true, false, Option, none, some, ◌∷◌, arith, if◌then◌else◌,
  is_some, Bool-cases, Option-cases, ◌⊎◌, inl, inr, ℤ, pos, ◌+ℤ◌, ◌-ℤ◌, ◌≤ℤ◌, ◌<ℤ◌, leb_ℤ, max_ℤ,
  int_laws, max_ℤ-restored, parts_of_eq, find, update_where, find-update_where_self,
  find-update_where-none,
}
use trust_gate_merchant_copi.Models.{
  Uuid, Text, Time, date, deny, SpendingPolicy, DailySpendReservation, Db, is_policy_version,
  is_actor_day,
}
use trust_gate_merchant_copi.Session.{ok}
use trust_gate_merchant_copi.Session.Returns.{gets-ok, raise_if-ok, modify-ok, pure-last}
use trust_gate_merchant_copi.Policy.{
  evaluate_policy_rules, rules_of, reserved_or_zero, daily_spend, add_amount, upsert_reservation,
  reserve_under, reserve_daily_spend, give_back, release_daily_spend,
}
use trust_gate_merchant_copi.Policy.Rules.{not_denied_iff}

module _ (tenant actor : Uuid) (day : ℕ) where
  abbrev key : DailySpendReservation → Bool
  key = is_actor_day tenant actor day

  daily_of_row :
      (s : Db) {r : DailySpendReservation}
      → find key s.reservations ≡ some r
      → daily_spend tenant actor day s ≡ r.reserved_amount_minor
  unfolding daily_spend
  daily_of_row s e = ap reserved_or_zero e

  daily_of_none : (s : Db) → find key s.reservations ≡ none → daily_spend tenant actor day s ≡ pos 0
  unfolding daily_spend
  daily_of_none s e = ap reserved_or_zero e

  daily-insert :
      (amount : ℤ) (s : Db)
      → daily_spend tenant actor day (record s {
        reservations =
            record {
              tenant_id = tenant;
              actor_id = actor;
              spend_date = day;
              reserved_amount_minor = amount;
            }
            ∷ s.reservations;
      })
        ≡ amount
  unfolding daily_spend find
  daily-insert amount s = ground arith

  daily-update :
      (f : DailySpendReservation → DailySpendReservation)
      → ((r : DailySpendReservation) → key (f r) ≡ key r)
      → (s : Db) {r : DailySpendReservation} → find key s.reservations ≡ some r
      → daily_spend tenant actor day (record s { reservations = update_where key f s.reservations })
        ≡ (f r).reserved_amount_minor
  unfolding daily_spend
  daily-update f keep s e = ap reserved_or_zero (find-update_where_self key f keep s.reservations e)

  -- The amount was added, and either the limit holds or this is the day's first reservation.
  abbrev Reserved : ℤ → ℤ → Db → Db → Type 0
  Reserved amount limit s t =
      (daily_spend tenant actor day t ≡ daily_spend tenant actor day s +ℤ amount)
      × ((daily_spend tenant actor day t ≤ℤ limit) ⊎ (daily_spend tenant actor day t ≡ amount))
      × (pos 0 ≤ℤ daily_spend tenant actor day t)

  upsert_none :
      (amount limit : ℤ) (s : Db) {t : Db}
      → find key s.reservations ≡ none
      → upsert_reservation tenant actor day amount limit none s ≡ (ok true, t)
      → Reserved amount limit s t
  unfolding upsert_reservation
  upsert_none amount limit s e h =
      let (nonneg, h₁) = raise_if-ok _ _ _ s h in
      let (_, result) = pure-last _ _ (modify-ok _ _ s h₁) in
      let now = ap (daily_spend tenant actor day) result ∙ daily-insert amount s in
      let before = daily_of_none s e in
      (
        omega (int_laws, parts_of_eq now, parts_of_eq before),
        inr now,
        ground (arith, parts_of_eq now),
      )

  upsert_some :
      (amount limit : ℤ) (r : DailySpendReservation) (s : Db) {t : Db}
      → find key s.reservations ≡ some r
      → upsert_reservation tenant actor day amount limit (some r) s ≡ (ok true, t)
      → Reserved amount limit s t
  unfolding upsert_reservation
  upsert_some amount limit r s {t} e h =
      elim (Bool-cases (leb_ℤ (r.reserved_amount_minor +ℤ amount) limit)) [
        | inl fits ↦
            let (nonneg, h₁) = raise_if-ok _ _ _ s (rw fits at h) in
            let (_, result) = pure-last _ _ (modify-ok _ _ s h₁) in
            let now =
              ap (daily_spend tenant actor day) result
              ∙ daily-update (add_amount amount) (λ x. refl) s e in
            let before = daily_of_row s e in
            (
              omega (int_laws, parts_of_eq now, parts_of_eq before),
              inl (ground (arith, parts_of_eq now)),
              ground (arith, parts_of_eq now),
            )
        | inr over ↦ absurd (cc ((pure-last _ _ (rw over at h)).0))
      ]

  upsert-Reserved :
      (amount limit : ℤ) (o : Option DailySpendReservation) (s : Db) {t : Db}
      → find key s.reservations ≡ o
      → upsert_reservation tenant actor day amount limit o s ≡ (ok true, t)
      → Reserved amount limit s t
  upsert-Reserved amount limit none s e h = upsert_none amount limit s e h
  upsert-Reserved amount limit (some r) s e h = upsert_some amount limit r s e h

  reserve_under-Reserved :
      (amount : ℤ) (o : Option SpendingPolicy) (s : Db) {t : Db}
      → reserve_under tenant actor amount day o s ≡ (ok true, t)
      → (p : SpendingPolicy) × (o ≡ some p) × Reserved amount p.max_daily_spend_minor s t
  unfolding reserve_under
  reserve_under-Reserved amount none s h = absurd (cc ((pure-last _ _ h).0))
  reserve_under-Reserved amount (some p) s h =
      (p, refl, upsert-Reserved amount p.max_daily_spend_minor _ s refl (gets-ok _ _ s h))

-- A reservation that succeeds adds exactly the amount to the actor's day, under the policy version
-- that it names.
reserve-Reserved :
    (tenant actor : Uuid) (amount : ℤ) (version : ℕ) (now : Time) (s : Db) {t : Db}
    → reserve_daily_spend tenant actor amount version now s ≡ (ok true, t)
    → (p : SpendingPolicy) × (find (is_policy_version tenant version) s.policies ≡ some p)
      × Reserved tenant actor (date now) amount p.max_daily_spend_minor s t
unfolding reserve_daily_spend
reserve-Reserved tenant actor amount version now s h =
    reserve_under-Reserved tenant actor (date now) amount _ s (gets-ok _ _ s h)

-- However stale the daily total was that the policy engine read: if the engine did not deny the
-- amount under a policy for some daily total of at least zero, and the reservation under that policy's
-- version succeeds, then the actor's day holds what it held before and the amount, and that is between
-- zero and the policy's daily limit.
pub reserve_bounded :
    (tenant actor : Uuid) (amount : ℤ) (now : Time) (p : SpendingPolicy) (s t : Db) (allowed : Bool)
    (stale : ℤ) (currency : Text) (as_of : Time)
    → find (is_policy_version tenant p.version) s.policies ≡ some p
    → pos 0 ≤ℤ stale
    → (evaluate_policy_rules (some (rules_of p)) allowed stale amount currency as_of).decision
      ≢ deny
    → reserve_daily_spend tenant actor amount p.version now s ≡ (ok true, t)
    → (daily_spend tenant actor (date now) t ≡ daily_spend tenant actor (date now) s +ℤ amount)
      × (pos 0 ≤ℤ daily_spend tenant actor (date now) t)
      × (daily_spend tenant actor (date now) t ≤ℤ p.max_daily_spend_minor)
reserve_bounded tenant actor amount now p s t allowed stale currency as_of known nonneg not_denied
      h =
    let (q, found, reserved) = reserve-Reserved tenant actor amount p.version now s h in
    let permitted =
      (not_denied_iff (rules_of p) allowed stale amount currency as_of).0 not_denied in
    let same : q ≡ p = cc (sym found ∙ known) in
    let bound = ap (λ (x : SpendingPolicy). x.max_daily_spend_minor) same in
    (
      reserved.0,
      reserved.2,
      elim reserved.1 [
        | inl fits ↦ omega (arith, parts_of_eq bound)
        | inr first ↦ omega (int_laws, parts_of_eq first, permitted.within_day)
      ],
    )

module _ (tenant actor : Uuid) (amount : ℤ) (day : ℕ) (s : Db) where
  released_row :
      (o : Option DailySpendReservation)
      → find (key tenant actor day) s.reservations ≡ o
      → daily_spend tenant actor day (record s {
        reservations = update_where (key tenant actor day) (give_back amount) s.reservations;
      })
        ≡ (if is_some o then max_ℤ (daily_spend tenant actor day s -ℤ amount) (pos 0) else pos 0)
  released_row none e = daily_of_none tenant actor day _ (
      find-update_where-none (key tenant actor day) (give_back amount) (λ x. refl) s.reservations e)
  released_row (some r) e =
      daily-update tenant actor day (give_back amount) (λ x. refl) s e
      ∙ ap (λ (n : ℤ). max_ℤ (n -ℤ amount) (pos 0)) (sym (daily_of_row tenant actor day s e))

  floor_of_none :
      pos 0 <ℤ amount
      → daily_spend tenant actor day s ≡ pos 0
      → max_ℤ (daily_spend tenant actor day s -ℤ amount) (pos 0) ≡ pos 0
  unfolding ◌-ℤ◌
  floor_of_none positive e = rw e (ground arith)

  -- Releasing a positive amount takes it from the actor's day, and never below zero; with no
  -- reservation on that day there is nothing to take.
  pub release_floor :
      {b : Bool} {t : Db}
      → pos 0 <ℤ amount
      → release_daily_spend tenant actor amount day s ≡ (ok b, t)
      → daily_spend tenant actor day t ≡ max_ℤ (daily_spend tenant actor day s -ℤ amount) (pos 0)
  unfolding release_daily_spend
  release_floor positive h =
      let not_zero : leb_ℤ amount (pos 0) ≡ false = ground arith in
      let (_, result) = pure-last _ _ (modify-ok _ _ s (gets-ok _ _ s (rw not_zero at h))) in
      ap (daily_spend tenant actor day) result
      ∙ elim (Option-cases (find (key tenant actor day) s.reservations)) [
        | inl e ↦
            released_row none e ∙ sym (floor_of_none positive (daily_of_none tenant actor day s e))
        | inr (r, e) ↦ released_row (some r) e
      ]

-- What was reserved is given back: after a reservation of a positive amount that succeeded, a
-- release of the same amount for the same day restores the actor's daily total, whatever it was.
pub release-reserve :
    (tenant actor : Uuid) (amount : ℤ) (version : ℕ) (now : Time) (s t : Db) {b : Bool} {u : Db}
    → pos 0 <ℤ amount
    → pos 0 ≤ℤ daily_spend tenant actor (date now) s
    → reserve_daily_spend tenant actor amount version now s ≡ (ok true, t)
    → release_daily_spend tenant actor amount (date now) t ≡ (ok b, u)
    → daily_spend tenant actor (date now) u ≡ daily_spend tenant actor (date now) s
release-reserve tenant actor amount version now s t positive nonneg reserved released =
    let (_, _, sum) = reserve-Reserved tenant actor amount version now s reserved in
    release_floor tenant actor amount (date now) t positive released
    ∙ max_ℤ-restored _ amount _ sum.0 nonneg

-- Only the reservations count.
pub daily-reservations :
    (tenant actor : Uuid) (day : ℕ) (s t : Db)
    → t.reservations ≡ s.reservations
    → daily_spend tenant actor day t ≡ daily_spend tenant actor day s
unfolding daily_spend
daily-reservations tenant actor day s t e =
    ap (λ rows. reserved_or_zero (find (is_actor_day tenant actor day) rows)) e
