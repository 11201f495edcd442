-- ===== src/Outbox/Claimed.antt =====
-- The order of the due rows: nothing that is due is passed over for a later row.
use fielded_online.Common.{
  ℕ, zero, suc, ◌≤◌, ◌≡◌, refl, ◌⊎◌, inl, inr, Bool, true, false, if◌then◌else◌, List, [], ◌∷◌, map,
  All, elem, length, take, leb, ==_refl, arith,
}
use fielded_online.Store.Outbox.{OutboxEvent}
use fielded_online.Outbox.Claims.{insert_event, order_events, claim, ids}

pub length-take_le : (n : ℕ) (es : List OutboxEvent) → length (take n es) ≤ n
length-take_le zero es = omega arith
length-take_le (suc n) [] = omega arith
length-take_le (suc n) (e ∷ es) = omega (arith, length-take_le n es)

pub length-map-claim : (now : ℕ) (es : List OutboxEvent) → length (map (claim now) es) ≡ length es
length-map-claim now [] = refl
length-map-claim now (e ∷ es) = omega (arith, length-map-claim now es)

-- Every row of the list becomes available no earlier than e.
abbrev pub IsAfter : OutboxEvent → List OutboxEvent → Type 0
IsAfter e = All λ x. e.available_at ≤ x.available_at

abbrev pub IsOrdered : List OutboxEvent → Type 0
IsOrdered [] = Unit
IsOrdered (e ∷ es) = IsAfter e es × IsOrdered es

IsAfter-trans :
    (e x : OutboxEvent) (es : List OutboxEvent)
    → e.available_at ≤ x.available_at
    → IsAfter x es
    → IsAfter e es
IsAfter-trans e x [] h k = tt
IsAfter-trans e x (y ∷ ys) h (k, ks) = (omega arith, IsAfter-trans e x ys h ks)

module _ (P : OutboxEvent → Type 0) where
  pub All-insert_event :
      (e : OutboxEvent) (es : List OutboxEvent) → P e → All P es → All P (insert_event e es)
  unfolding insert_event
  All-insert_event e [] p ps = (p, tt)
  All-insert_event e (x ∷ xs) p (q, qs) = ground (arith, All-insert_event e xs p qs)

  All-of_step :
      (b : Bool) (e x : OutboxEvent) (xs rest : List OutboxEvent)
      → (All P rest → P e × All P xs)
      → All P (if b then e ∷ x ∷ xs else x ∷ rest)
      → P e × All P (x ∷ xs)
  All-of_step true e x xs rest f ps = ps
  All-of_step false e x xs rest f (p, ps) = ((f ps).0, (p, (f ps).1))

  All-of_insert_event :
      (e : OutboxEvent) (es : List OutboxEvent) → All P (insert_event e es) → P e × All P es
  unfolding insert_event
  All-of_insert_event e [] ps = ps
  All-of_insert_event e (x ∷ xs) ps =
      All-of_step (leb e.available_at x.available_at) e x xs (insert_event e xs)
        (All-of_insert_event e xs) ps

  pub All-of_order_events : (es : List OutboxEvent) → All P (order_events es) → All P es
  unfolding order_events
  All-of_order_events [] ps = tt
  All-of_order_events (e ∷ es) ps =
      let (q, qs) = All-of_insert_event e (order_events es) ps in (q, All-of_order_events es qs)

IsOrdered-step :
    (b : Bool) (e x : OutboxEvent) (xs rest : List OutboxEvent)
    → (b ≡ true → e.available_at ≤ x.available_at)
    → (b ≡ false → IsAfter x rest)
    → IsAfter x xs
    → IsOrdered xs
    → IsOrdered rest
    → IsOrdered (if b then e ∷ x ∷ xs else x ∷ rest)
IsOrdered-step true e x xs rest le gt h k r = ((le refl, IsAfter-trans e x xs (le refl) h), (h, k))
IsOrdered-step false e x xs rest le gt h k r = (gt refl, r)

insert_event-IsOrdered :
    (e : OutboxEvent) (es : List OutboxEvent) → IsOrdered es → IsOrdered (insert_event e es)
unfolding insert_event
insert_event-IsOrdered e [] h = (tt, tt)
insert_event-IsOrdered e (x ∷ xs) (h, k) =
    IsOrdered-step (leb e.available_at x.available_at) e x xs (insert_event e xs)
      (λ le. ground arith)
      (λ gt. All-insert_event (λ y. x.available_at ≤ y.available_at) e xs (ground arith) h) h k
      (insert_event-IsOrdered e xs k)

pub order_events-IsOrdered : (es : List OutboxEvent) → IsOrdered (order_events es)
unfolding order_events
order_events-IsOrdered [] = tt
order_events-IsOrdered (e ∷ es) =
    insert_event-IsOrdered e (order_events es) (order_events-IsOrdered es)

-- A due row is in the batch, or every row of the batch became available no later.
abbrev pub IsServed : List OutboxEvent → OutboxEvent → Type 0
IsServed batch e =
    (elem e.id (ids batch) ≡ true) ⊎ (All (λ x. x.available_at ≤ e.available_at) batch)

IsServed-later :
    (x e : OutboxEvent) (batch : List OutboxEvent)
    → x.available_at ≤ e.available_at
    → IsServed batch e
    → IsServed (x ∷ batch) e
IsServed-later x e batch h (inl i) = inl (ground arith)
IsServed-later x e batch h (inr k) = inr (h, k)

All-IsServed-later :
    (x : OutboxEvent) (es batch : List OutboxEvent)
    → IsAfter x es
    → All (IsServed batch) es
    → All (IsServed (x ∷ batch)) es
All-IsServed-later x [] batch h k = tt
All-IsServed-later x (e ∷ es) batch (h, hs) (k, ks) =
    (IsServed-later x e batch h k, All-IsServed-later x es batch hs ks)

All-IsServed-none : (es : List OutboxEvent) → All (IsServed []) es
All-IsServed-none [] = tt
All-IsServed-none (e ∷ es) = (inr tt, All-IsServed-none es)

pub take-IsServed : (n : ℕ) (es : List OutboxEvent) → IsOrdered es → All (IsServed (take n es)) es
take-IsServed zero es h = All-IsServed-none es
take-IsServed (suc n) [] h = tt
take-IsServed (suc n) (e ∷ es) (h, k) = (
  inl (ground (arith, ==_refl e.id)),
  All-IsServed-later e es (take n es) h (take-IsServed n es k),
)
