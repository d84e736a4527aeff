-- ===== src/Runner/Kyc/Table.antt =====
-- The table of attempts by their ids: what each transaction does to each row.
use concierge.Prelude.{
  ℕ, String, List, [], ◌∷◌, ◌++◌, true, false, ◌||◌, Option, none, some, any, map, contains,
  Distinct, ◌==◌, if◌then◌else◌, ◌≡◌, refl, ap, arith, ==_iff,
}
use concierge.Prelude.Int.{ℤ}
use concierge.Governance.Peer.{UserId}
use concierge.Runner.Kyc.Status.{KycStatus}
use concierge.Runner.Kyc.Cases.{Case, NewCase, KycDecision, retire, retire_all, clashes}
use concierge.Runner.Kyc.Decision.{find_case, written, write_case}

unfoldable pub row : ℕ → List Case → Option Case
row id [] = none
row id (c ∷ cs) = if c.id == id then some c else row id cs

abbrev pub ids : List Case → List ℕ
ids cases = map (λ c. c.id) cases

abbrev pub map_row : (Case → Case) → Option Case → Option Case
map_row f none = none
map_row f (some c) = some (f c)

abbrev pub row_or : Option Case → Option Case → Option Case
row_or none other = other
row_or (some c) other = some c

pub row-write_case :
    (now : ℤ) (id i : ℕ) (status : KycStatus) (d : KycDecision) (cases : List Case)
    → row i (write_case now id status d cases)
      ≡ (if id == i then map_row (written now status d) (row i cases) else row i cases)
unfolding row write_case written
row-write_case now id i status d [] = ground arith
row-write_case now id i status d (c ∷ cs) = ground (arith, row-write_case now id i status d cs)

pub ids-write_case :
    (now : ℤ) (id : ℕ) (status : KycStatus) (d : KycDecision) (cases : List Case)
    → ids (write_case now id status d cases) ≡ ids cases
unfolding write_case written
ids-write_case now id status d [] = refl
ids-write_case now id status d (c ∷ cs) = ground (arith, ids-write_case now id status d cs)

pub row-retire_all :
    (now : ℤ) (user : UserId) (ttl i : ℕ) (cases : List Case)
    → row i (retire_all now user ttl cases) ≡ map_row (retire now user ttl) (row i cases)
unfolding row retire_all retire
row-retire_all now user ttl i [] = refl
row-retire_all now user ttl i (c ∷ cs) = ground (arith, row-retire_all now user ttl i cs)

pub ids-retire_all :
    (now : ℤ) (user : UserId) (ttl : ℕ) (cases : List Case)
    → ids (retire_all now user ttl cases) ≡ ids cases
unfolding retire_all retire
ids-retire_all now user ttl [] = refl
ids-retire_all now user ttl (c ∷ cs) = ground (arith, ids-retire_all now user ttl cs)

pub row-append : (i : ℕ) (xs ys : List Case) → row i (xs ++ ys) ≡ row_or (row i xs) (row i ys)
unfolding row
row-append i [] ys = refl
row-append i (x ∷ xs) ys = ground (arith, row-append i xs ys)

pub row-contains : (i : ℕ) (cases : List Case) → contains (ids cases) i ≡ false → row i cases ≡ none
unfolding row
row-contains i [] h = refl
row-contains i (c ∷ cs) h = ground (arith, row-contains i cs)

pub contains-row :
    (i : ℕ) (c : Case) (cases : List Case) → row i cases ≡ some c → contains (ids cases) i ≡ true
unfolding row
contains-row i c [] h = ground arith
contains-row i c (x ∷ cs) h = ground (arith, contains-row i c cs)

pub row-id : (i : ℕ) (c : Case) (cases : List Case) → row i cases ≡ some c → c.id ≡ i
unfolding row
row-id i c [] h = ground arith
row-id i c (x ∷ cs) h = ground (arith, row-id i c cs)

-- The row that a vendor's session finds is the row of its id.
pub row-find_case :
    (provider ref : String) (c : Case) (cases : List Case)
    → find_case provider ref cases ≡ some c
    → Distinct (ids cases)
    → row c.id cases ≡ some c
unfolding find_case row
row-find_case provider ref c [] h u = ground arith
row-find_case provider ref c (x ∷ cs) h u =
    ground (arith, row-find_case provider ref c cs, contains-row x.id c cs, ==_iff x.id c.id)

pub contains-append_one :
    (xs : List ℕ) (n i : ℕ) → contains (xs ++ n ∷ []) i ≡ (contains xs i || n == i)
contains-append_one [] n i = ground arith
contains-append_one (x ∷ xs) n i = ground (arith, contains-append_one xs n i)

pub Distinct-append_one :
    (xs : List ℕ) (n : ℕ) → Distinct xs → contains xs n ≡ false → Distinct (xs ++ n ∷ [])
Distinct-append_one [] n u h = ground arith
Distinct-append_one (x ∷ xs) n u h =
    ground (arith, Distinct-append_one xs n, contains-append_one xs n x)

pub ids-append_one : (xs : List Case) (c : Case) → ids (xs ++ c ∷ []) ≡ ids xs ++ c.id ∷ []
ids-append_one [] c = refl
ids-append_one (x ∷ xs) c = ap (λ l. x.id ∷ l) (ids-append_one xs c)

pub no_clash-id :
    (new : NewCase) (cases : List Case)
    → any (clashes new) cases ≡ false
    → contains (ids cases) new.id ≡ false
unfolding clashes
no_clash-id new [] h = refl
no_clash-id new (c ∷ cs) h = ground (arith, no_clash-id new cs)
