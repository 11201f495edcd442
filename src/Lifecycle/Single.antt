-- ===== src/Lifecycle/Single.antt =====
-- One service execution for each booking.
use fielded_online.Common.{
  ℕ, ◌≡◌, refl, inl, inr, ◌⊎◌, Bool, true, List, [], ◌∷◌, ◌++◌, some, find, ◌==◌, arith,
}
use fielded_online.Common.Outcome.{ok, err, conflict, Result-cases}
use fielded_online.Status.Bookings.{booking_status_enum, confirmed, in_progress}
use fielded_online.Store.{Store}
use fielded_online.Store.Lifecycle.{Booking, ServiceExecution}
use fielded_online.Lifecycle.Bookings.{find_booking}
use fielded_online.Lifecycle.Access.{find_execution, is_some, check_booking}
use fielded_online.Lifecycle.Executions.{new_execution, create_from_booking}

find-append_last :
    (t : ServiceExecution → Bool) (xs : List ServiceExecution) (x : ServiceExecution)
    → t x ≡ true
    → is_some (find t (xs ++ (x ∷ []))) ≡ true
find-append_last t [] x h = rw h refl
find-append_last t (y ∷ ys) x h = ground (arith, find-append_last t ys x h)

find_booking-id :
    (i : ℕ) (bs : List Booking) (b : Booking)
    → find (λ (x : Booking). x.id == i) bs ≡ some b
    → (b.id == i) ≡ true
find_booking-id i [] b h = cc
find_booking-id i (x ∷ bs) b h = ground (arith, find_booking-id i bs b)

-- What a booking that passes the validations is.
check_booking-ok :
    (i business : ℕ) (s : Store) (b : Booking)
    → check_booking i business s ≡ ok b
    → (find_booking i s ≡ some b)
      × (b.business_id ≡ business)
      × ((b.status ≡ confirmed) ⊎ (b.status ≡ in_progress))
unfolding check_booking
check_booking-ok i business s b h = ground arith

check_booking-conflict :
    (i business : ℕ) (s : Store)
    → is_some (find_execution i s) ≡ true
    → check_booking i business s ≡ err conflict
unfolding check_booking
check_booking-conflict i business s h = rw h refl

-- An execution that is created belongs to the business and to a booking that is CONFIRMED or
-- IN_PROGRESS; and a second call for the booking, whenever and by whomever, is refused as a conflict
-- and changes nothing.
pub create_from_booking_again :
    (now later i business other : ℕ) (x : ServiceExecution) (s s' : Store)
    → create_from_booking now i business s ≡ (ok x, s')
    → (b : Booking) × (find_booking i s ≡ some b)
      × (x.business_id ≡ business)
      × (b.business_id ≡ business)
      × ((b.status ≡ confirmed) ⊎ (b.status ≡ in_progress))
      × (create_from_booking later i other s' ≡ (err conflict, s'))
unfolding create_from_booking
create_from_booking_again now later i business other x s s' h =
    elim (Result-cases (check_booking i business s)) [
      | inl (b, passed) ↦
          let (found, owner, status) = check_booking-ok i business s b passed in
          let y = new_execution now business b s in
          let same_row : x ≡ y = ground arith in
          let table : s' ≡ record s { executions = s.executions ++ (y ∷ []) } = ground arith in
          let known : is_some (find_execution i s') ≡ true = rw table (
            find-append_last (λ e. e.booking_id == i) s.executions y
              (find_booking-id i s.bookings b found)) in
          (b, found, cc, owner, status, rw (check_booking-conflict i other s' known) refl)
      | inr (e, failed) ↦ absurd (ground arith)
    ]
