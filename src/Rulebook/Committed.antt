-- ===== src/Rulebook/Committed.antt =====
-- What a request leaves behind: the tables of before, or what is written once its checks have passed.
use fielded_online.Common.{◌≡◌, refl}
use fielded_online.Common.Outcome.{Result, ok, err}
use fielded_online.Rulebook.Rows.{Tables}
use fielded_online.Rulebook.Service.{save_with}
use fielded_online.Rulebook.Operations.{committed}

pub committed-save_with :
    {A : Type 0} (P : Tables → Type 0) (s : Tables) (r : Result A) (write : A → Tables → Tables)
    → P s
    → ((a : A) → r ≡ ok a → P (write a s))
    → P (committed (save_with r write) s)
committed-save_with P s (ok a) write before after = after a refl
committed-save_with P s (err e) write before after = before

pub save_with-eq-ok :
    {A : Type 0} (r : Result A) (write : A → Tables → Tables) (s : Tables) (a : A) (s' : Tables)
    → save_with r write s ≡ (ok a, s')
    → (r ≡ ok a) × (write a s ≡ s')
save_with-eq-ok (ok b) write s a s' h = (cc, cc)
save_with-eq-ok (err e) write s a s' h = cc
