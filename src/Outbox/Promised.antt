-- ===== src/Outbox/Promised.antt =====
-- claim_pending_events keeps what a claim promises.
use fielded_online.Common.{
  ℕ, zero, suc, ◌≤◌, ◌<◌, ◌+◌, ◌≡◌, refl, sym, ap, ◌∙◌, ◌⊎◌, inl, inr, Bool, true, false,
  if◌then◌else◌, List, [], ◌∷◌, map, none, some, All, elem, length, select, take, ==_refl,
  Bool-cases, Option-cases, ◌&&◌, arith,
}
use mathlib.Core.Path.{subst}
use fielded_online.Store.Outbox.{OutboxEvent, retryable, processing}
use fielded_online.Outbox.Claims.{
  is_due, is_processing, is_past_lease, order_events, claim, ids, due_events, update_where, reclaim,
  claim_pending_events,
}
use fielded_online.Outbox.Claimed.{
  IsServed, order_events-IsOrdered, take-IsServed, All-insert_event, All-of_order_events,
  length-take_le, length-map-claim,
}
use fielded_online.Outbox.Promises.{
  IsDue, IsTaken, IsReclaimed, IsLeased, Pointwise, AnyOf, IsClaimed,
}

claim-IsTaken : (now : ℕ) (e : OutboxEvent) → IsTaken now e (claim now e)
claim-IsTaken now e = record {
  id = refl;
  event_type = refl;
  status = refl;
  started = refl;
  attempts = refl;
}

is_due-IsDue :
    (now : ℕ) (locked : ℕ → Bool) (e : OutboxEvent)
    → is_due now locked e ≡ true
    → IsDue now locked e
is_due-IsDue now locked e h = record {
  status = ground arith;
  available = ground arith;
  unlocked = ground arith;
}

IsDue-is_due :
    (now : ℕ) (locked : ℕ → Bool) (e : OutboxEvent)
    → is_due now locked e ≡ false
    → ¬ IsDue now locked e
IsDue-is_due now locked e h d = absurd (ground (arith, d.status, d.available, d.unlocked))

abbrev expired : ℕ → ℕ → OutboxEvent → Bool
expired now lease e = is_processing e.status && is_past_lease now lease e.processing_started_at

expired-start :
    (now lease : ℕ) (e : OutboxEvent)
    → expired now lease e ≡ true
    → (start : ℕ) × (e.status ≡ processing)
      × (e.processing_started_at ≡ some start)
      × (start + lease < now)
expired-start now lease e h = elim (Option-cases e.processing_started_at) [
  | inl none_yet ↦ absurd (ground arith)
  | inr (start, f) ↦ (start, ground arith, f, ground arith)
]

unexpired-IsLeased :
    (now lease : ℕ) (e : OutboxEvent) → expired now lease e ≡ false → IsLeased now lease e
unexpired-IsLeased now lease e h (start, was, began, late) = absurd (ground arith)

reclaim_row :
    (now lease : ℕ) (e : OutboxEvent)
    → let r =
        if expired now lease e
        then record e { status = retryable; available_at = now; processing_started_at = none }
        else e in
      IsReclaimed now lease e r ⊎ (IsLeased now lease e × (r ≡ e))
reclaim_row now lease e = elim (Bool-cases (expired now lease e)) [
  | inl late ↦
      let (start, was, began, past) = expired-start now lease e late in
      inl (
        rw late (record {
          start = start;
          was = was;
          began = began;
          expired = past;
          id = refl;
          attempts = refl;
          status = refl;
          available = refl;
        }))
  | inr running ↦ inr (unexpired-IsLeased now lease e running, rw running refl)
]

reclaim-Pointwise :
    (now lease : ℕ) (es : List OutboxEvent)
    → Pointwise
        (λ e r. IsReclaimed now lease e r ⊎ (IsLeased now lease e × (r ≡ e)))
        es
        (reclaim now lease es)
unfolding reclaim
reclaim-Pointwise now lease [] = tt
reclaim-Pointwise now lease (e ∷ es) = (reclaim_row now lease e, reclaim-Pointwise now lease es)

ids-map-claim : (now : ℕ) (es : List OutboxEvent) → ids (map (claim now) es) ≡ ids es
ids-map-claim now [] = refl
ids-map-claim now (e ∷ es) = ap (λ is. e.id ∷ is) (ids-map-claim now es)

module _ (now : ℕ) (P : OutboxEvent → Type 0) where
  All-map-claim :
      (es : List OutboxEvent) → All (λ e. P (claim now e)) es → All P (map (claim now) es)
  All-map-claim [] ps = tt
  All-map-claim (e ∷ es) (p, ps) = (p, All-map-claim es ps)

module _ (P : OutboxEvent → Type 0) where
  All-take : (n : ℕ) (es : List OutboxEvent) → All P es → All P (take n es)
  All-take zero es ps = tt
  All-take (suc n) [] ps = tt
  All-take (suc n) (e ∷ es) (p, ps) = (p, All-take n es ps)

  All-order_events : (es : List OutboxEvent) → All P es → All P (order_events es)
  unfolding order_events
  All-order_events [] ps = tt
  All-order_events (e ∷ es) (p, ps) =
      All-insert_event P e (order_events es) p (All-order_events es ps)

  All-imp :
      (Q : OutboxEvent → Type 0) (es : List OutboxEvent)
      → ((e : OutboxEvent) → P e → Q e)
      → All P es
      → All Q es
  All-imp Q [] f ps = tt
  All-imp Q (e ∷ es) f (p, ps) = (f e p, All-imp Q es f ps)

  -- What holds of the due rows, over the whole table.
  All-of_IsDue :
      (now : ℕ) (locked : ℕ → Bool) (es : List OutboxEvent)
      → All P (select (is_due now locked) es)
      → All (λ e. (¬ IsDue now locked e) ⊎ P e) es
  All-of_IsDue now locked [] ps = tt
  All-of_IsDue now locked (e ∷ es) ps = elim (Bool-cases (is_due now locked e)) [
    | inl hit ↦
        let both : P e × All P (select (is_due now locked) es) = rw hit at ps in
        (inr (both.0), All-of_IsDue now locked es (both.1))
    | inr miss ↦
        let rest : All P (select (is_due now locked) es) = rw miss at ps in
        (inl (IsDue-is_due now locked e miss), All-of_IsDue now locked es rest)
  ]

-- A due row is one of the table.
All-IsDue :
    (now : ℕ) (locked : ℕ → Bool) (es : List OutboxEvent)
    → All (λ x. AnyOf (λ e. IsDue now locked e × (e ≡ x)) es) (select (is_due now locked) es)
All-IsDue now locked [] = tt
All-IsDue now locked (e ∷ es) =
    let rest =
      All-imp (λ x. AnyOf (λ e. IsDue now locked e × (e ≡ x)) es)
        (λ x. AnyOf (λ e. IsDue now locked e × (e ≡ x)) (e ∷ es)) (select (is_due now locked) es)
        (λ x i. inr i) (All-IsDue now locked es) in
    elim (Bool-cases (is_due now locked e)) [
      | inl hit ↦ rw hit (inl (is_due-IsDue now locked e hit, refl), rest)
      | inr miss ↦ rw miss rest
    ]

-- A due row, once it is claimed.
AnyOf-IsTaken :
    (now : ℕ) (locked : ℕ → Bool) (x : OutboxEvent) (es : List OutboxEvent)
    → AnyOf (λ e. IsDue now locked e × (e ≡ x)) es
    → AnyOf (λ e. IsDue now locked e × IsTaken now e (claim now x)) es
AnyOf-IsTaken now locked x [] i = elim i [ ]
AnyOf-IsTaken now locked x (e ∷ es) (inl (d, same_row)) =
    inl (d, subst (λ y. IsTaken now e (claim now y)) same_row (claim-IsTaken now e))
AnyOf-IsTaken now locked x (e ∷ es) (inr i) = inr (AnyOf-IsTaken now locked x es i)

All-IsTaken :
    (now : ℕ) (locked : ℕ → Bool) (es due : List OutboxEvent)
    → All (λ x. AnyOf (λ e. IsDue now locked e × (e ≡ x)) es) due
    → All (λ x. AnyOf (λ e. IsDue now locked e × IsTaken now e x) es) (map (claim now) due)
All-IsTaken now locked es due h =
    All-map-claim now (λ x. AnyOf (λ e. IsDue now locked e × IsTaken now e x) es) due
      (All-imp (λ x. AnyOf (λ e. IsDue now locked e × (e ≡ x)) es)
        (λ x. AnyOf (λ e. IsDue now locked e × IsTaken now e (claim now x)) es) due
        (λ x i. AnyOf-IsTaken now locked x es i) h)

mark-Pointwise :
    (now : ℕ) (is : List ℕ) (es : List OutboxEvent)
    → Pointwise
        (λ e r. ((elem e.id is ≡ true) × IsTaken now e r) ⊎ ((elem e.id is ≡ false) × (r ≡ e)))
        es
        (update_where (λ e. elem e.id is) (claim now) es)
mark-Pointwise now is [] = tt
mark-Pointwise now is (e ∷ es) = elim (Bool-cases (elem e.id is)) [
  | inl hit ↦ (inl (hit, rw hit (claim-IsTaken now e)), mark-Pointwise now is es)
  | inr miss ↦ (inr (miss, rw miss refl), mark-Pointwise now is es)
]

-- Enough are taken, or all.
take-cases : (n : ℕ) (es : List OutboxEvent) → (length (take n es) ≡ n) ⊎ (take n es ≡ es)
take-cases zero es = inl refl
take-cases (suc n) [] = inr refl
take-cases (suc n) (e ∷ es) = elim (take-cases n es) [
  | inl h ↦ inl (omega arith)
  | inr h ↦ inr (ap (λ rest. e ∷ rest) h)
]

elem_later :
    (i : ℕ) (es all : List OutboxEvent)
    → All (λ e. elem e.id (ids all) ≡ true) es
    → All (λ e. elem e.id (i ∷ ids all) ≡ true) es
elem_later i [] all h = tt
elem_later i (e ∷ es) all (h, hs) = (ground arith, elem_later i es all hs)

All-elem : (es : List OutboxEvent) → All (λ e. elem e.id (ids es) ≡ true) es
All-elem [] = tt
All-elem (e ∷ es) = (ground (arith, ==_refl e.id), elem_later e.id es es (All-elem es))

IsServed-claim :
    (now : ℕ) (due : List OutboxEvent) (e : OutboxEvent)
    → IsServed due e
    → IsServed (map (claim now) due) e
IsServed-claim now due e (inl h) = inl (ap (λ is. elem e.id is) (ids-map-claim now due) ∙ h)
IsServed-claim now due e (inr h) =
    inr (All-map-claim now (λ x. x.available_at ≤ e.available_at) due h)

claimed_full :
    (batch_size now : ℕ) (locked : ℕ → Bool) (table : List OutboxEvent)
    → let batch = map (claim now) (due_events batch_size now locked table) in
      (length batch ≡ batch_size)
      ⊎ All (λ e. (¬ IsDue now locked e) ⊎ (elem e.id (ids batch) ≡ true)) table
unfolding due_events
claimed_full batch_size now locked table =
    let due = select (is_due now locked) table in
    let ordered = order_events due in
    let batch = take batch_size ordered in
    elim (take-cases batch_size ordered) [
      | inl h ↦ inl (length-map-claim now batch ∙ h)
      | inr h ↦
          let same_ids : ids (map (claim now) batch) ≡ ids ordered =
            ids-map-claim now batch ∙ ap ids h in
          inr (
            All-of_IsDue (λ e. elem e.id (ids (map (claim now) batch)) ≡ true) now locked table
              (All-of_order_events (λ e. elem e.id (ids (map (claim now) batch)) ≡ true) due
                (subst (λ is. All (λ e. elem e.id is ≡ true) ordered) (sym same_ids)
                  (All-elem ordered))))
    ]

-- At most batch_size rows are claimed, and fewer only if every row that may be claimed is, once the
-- leases that ran out are taken back; each claimed row was such a row, is PROCESSING now, and counts an
-- attempt more; a row that may be claimed and is not is available no earlier than each that is; and
-- the table that is left has the claimed rows marked, and every other row as before.
pub claim_pending_events-IsClaimed :
    (batch_size lease now : ℕ) (locked : ℕ → Bool) (es : List OutboxEvent)
    → let (batch, after) = claim_pending_events batch_size lease now locked es in
      IsClaimed batch_size lease now locked es batch after
unfolding claim_pending_events due_events
claim_pending_events-IsClaimed batch_size lease now locked es =
    let table = reclaim now lease es in
    let due = select (is_due now locked) table in
    let ordered = order_events due in
    let batch = take batch_size ordered in
    record {
      recovered = table;
      leases = reclaim-Pointwise now lease es;
      bounded = omega (arith, length-map-claim now batch, length-take_le batch_size ordered);
      full = claimed_full batch_size now locked table;
      served =
          All-imp _ _ table
            (λ e s. elim s [ inl n ↦ inl n | inr i ↦ inr (IsServed-claim now batch e i) ])
            (All-of_IsDue (IsServed batch) now locked table (
              All-of_order_events (IsServed batch) due
                (take-IsServed batch_size ordered (order_events-IsOrdered due))));
      taken =
          All-IsTaken now locked table batch
            (All-take _ batch_size ordered (All-order_events _ due (All-IsDue now locked table)));
      marked =
          subst
            (λ is.
              Pointwise
                (λ e r.
                  ((elem e.id is ≡ true) × IsTaken now e r) ⊎ ((elem e.id is ≡ false) × (r ≡ e)))
                table (update_where (λ e. elem e.id (ids batch)) (claim now) table))
            (sym (ids-map-claim now batch)) (mark-Pointwise now (ids batch) table);
    }
