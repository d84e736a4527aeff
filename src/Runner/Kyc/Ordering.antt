-- ===== src/Runner/Kyc/Ordering.antt =====
-- The order of verdicts: what a sequence of transactions can do to an attempt.
use concierge.Prelude.{
  ℕ, List, [], ◌∷◌, Bool, true, false, not, ◌&&◌, Option, none, some, Distinct, ◌≡◌, inl, inr, refl,
  sym, ap, subst, ◌∙◌, arith, Bool-cases, if◌then◌else◌,
}
use concierge.Prelude.Int.{ℤ, ◌≤ℤ◌}
use concierge.Users.Account.{User}
use concierge.Runner.Kyc.Status.{KycStatus, held_duplicate, is_decided, abandoned, status_lists}
use concierge.Runner.Kyc.Cases.{Case, KycDecision, retire, is_stale, inserted}
use concierge.Runner.Kyc.Decision.{is_marked, is_older, written, is_some, decided_at, is_duplicate}
use concierge.Runner.Kyc.Table.{row, ids, map_row}
use concierge.Runner.Kyc.History.{Call, step, run, Moves}
use concierge.Runner.Kyc.Changes.{Change, same, retired, new_row, moved, step_change, step-Distinct}

-- What the check on the table says, and that a retired attempt is an abandoned one.
pub record IsSound (c : Case) : Type 0 where
  pub dated : is_some c.decision_at ≡ is_decided c.status
  pub marked : is_marked c.payload.retired_by_ttl ≡ true → c.status ≡ abandoned

-- The instant of the last verdict that was written.
abbrev pub NotBefore : Option ℤ → Option ℤ → Type 0
NotBefore none later = Unit
NotBefore (some at) none = ⊥
NotBefore (some at) (some then_) = at ≤ℤ then_

-- An attempt after some transactions: it is of the same person and session, it is decided if it
-- was, it is the same row if this plane had retired it, and its last verdict is no older.
pub record Later (c e : Case) : Type 0 where
  pub same_user : e.user_id ≡ c.user_id
  pub same_session : (e.provider ≡ c.provider) × (e.provider_ref ≡ c.provider_ref)
  pub same_tier : e.requested_tier ≡ c.requested_tier
  pub decided : is_decided c.status ≡ true → is_decided e.status ≡ true
  pub retired : is_marked c.payload.retired_by_ttl ≡ true → e ≡ c
  pub no_older : NotBefore c.event_at e.event_at

NotBefore-refl : (o : Option ℤ) → NotBefore o o
NotBefore-refl none = tt
NotBefore-refl (some at) = omega arith

NotBefore-trans : (a b c : Option ℤ) → NotBefore a b → NotBefore b c → NotBefore a c
NotBefore-trans none b c h k = tt
NotBefore-trans (some x) none c h k = absurd h
NotBefore-trans (some x) (some y) none h k = absurd k
NotBefore-trans (some x) (some y) (some z) h k = omega arith

Later-refl : (c : Case) → Later c c
Later-refl c = record {
  same_user = refl;
  same_session = (refl, refl);
  same_tier = refl;
  decided = λ h. h;
  retired = λ h. refl;
  no_older = NotBefore-refl c.event_at;
}

Later-trans : (c d e : Case) → Later c d → Later d e → Later c e
Later-trans c d e l k = record {
  same_user = k.same_user ∙ l.same_user;
  same_session = (k.same_session.0 ∙ l.same_session.0, k.same_session.1 ∙ l.same_session.1);
  same_tier = k.same_tier ∙ l.same_tier;
  decided = λ h. k.decided (l.decided h);
  retired = λ h. k.retired (rw (l.retired h) h) ∙ l.retired h;
  no_older = NotBefore-trans c.event_at d.event_at e.event_at l.no_older k.no_older;
}

-- What the retirement picks waits on the user, so it runs and carries no mark.
stale_runs :
    (now : ℤ) (user ttl : ℕ) (c : Case)
    → IsSound c
    → is_stale now user ttl c ≡ true
    → (is_decided c.status ≡ false) × (is_marked c.payload.retired_by_ttl ≡ false)
unfolding is_stale is_decided
stale_runs now user ttl c h e =
    let running : is_decided c.status ≡ false = ground (arith, status_lists c.status) in
    (
      running,
      elim (Bool-cases (is_marked c.payload.retired_by_ttl)) [
        | inr m ↦ m
        | inl m ↦ absurd (ground (arith, h.marked m))
      ],
    )

retire-IsSound :
    (now : ℤ) (user ttl : ℕ) (c : Case)
    → IsSound c
    → IsSound (retire now user ttl c) × Later c (retire now user ttl c)
unfolding retire is_decided
retire-IsSound now user ttl c h = elim (Bool-cases (is_stale now user ttl c)) [
  | inr e ↦ rw e (h, Later-refl c)
  | inl e ↦
      let (running, unmarked) = stale_runs now user ttl c h e in
      rw e (
        record { dated = refl; marked = λ k. refl },
        record {
          same_user = refl;
          same_session = (refl, refl);
          same_tier = refl;
          decided = λ k. refl;
          retired = λ k. absurd (ground (arith, k, unmarked));
          no_older = NotBefore-refl c.event_at;
        },
      )
]

dated_flag : (b : Bool) (now : ℤ) → is_some (decided_at b now) ≡ b
dated_flag true now = refl
dated_flag false now = refl

written-IsSound :
    (now : ℤ) (s : KycStatus) (d : KycDecision) (c : Case) → IsSound (written now s d c)
unfolding written
written-IsSound now s d c = record {
  dated = dated_flag (is_decided s) now;
  marked = λ k. absurd (ground arith);
}

NotBefore-is_older :
    (signed_at : ℤ) (o : Option ℤ) → is_older signed_at o ≡ false → NotBefore o (some signed_at)
unfolding is_older
NotBefore-is_older signed_at none h = tt
NotBefore-is_older signed_at (some at) h = ground arith

-- A decided attempt is written by a decided verdict, and the hold of a duplicate is one.
decided_of :
    (was dup : Bool) (s given : KycStatus)
    → s ≡ (if dup then held_duplicate else given)
    → (was && not (is_decided given)) ≡ false
    → was ≡ true
    → is_decided s ≡ true
unfolding is_decided
decided_of was true s given e h k = ap is_decided e
decided_of was false s given e h k = ap is_decided e ∙ flag (is_decided given) h k
  where
    flag : (b : Bool) → (was && not b) ≡ false → was ≡ true → b ≡ true
    flag b h k = ground arith

written-Later :
    (now : ℤ) (users : List User) (cases : List Case) (s : KycStatus) (d : KycDecision) (c : Case)
    → Moves users cases c d s
    → Later c (written now s d c)
unfolding written
written-Later now users cases s d c m = record {
  same_user = refl;
  same_session = (refl, refl);
  same_tier = refl;
  decided =
      decided_of (is_decided c.status) (is_duplicate users cases c.user_id d) s d.status
        m.by_duplicate m.not_reopened;
  retired = λ k. absurd (ground (arith, k, m.unmarked));
  no_older = NotBefore-is_older d.signed_at c.event_at m.not_older;
}

-- What a row becomes.
abbrev Follows : Option Case → Option Case → Type 0
Follows none o = Unit
Follows (some c) none = ⊥
Follows (some c) (some e) = Later c e

abbrev pub Sound : Option Case → Type 0
Sound none = Unit
Sound (some c) = IsSound c

Follows-refl : (o : Option Case) → Follows o o
Follows-refl none = tt
Follows-refl (some c) = Later-refl c

Follows-trans : (a b c : Option Case) → Follows a b → Follows b c → Follows a c
Follows-trans none b c h k = tt
Follows-trans (some x) none c h k = absurd h
Follows-trans (some x) (some y) none h k = absurd k
Follows-trans (some x) (some y) (some z) h k = Later-trans x y z h k

retire-Sound :
    (now : ℤ) (user ttl : ℕ) (o : Option Case)
    → Sound o
    → Sound (map_row (retire now user ttl) o) × Follows o (map_row (retire now user ttl) o)
retire-Sound now user ttl none h = (tt, tt)
retire-Sound now user ttl (some c) h = retire-IsSound now user ttl c h

pub change-Sound :
    {cases : List Case} {i : ℕ} {call : Call} {o : Option Case}
    → Sound (row i cases)
    → Change cases i call o
    → Sound o × Follows (row i cases) o
unfolding is_decided inserted
change-Sound {cases} {i} h same = (h, Follows-refl (row i cases))
change-Sound {cases} {i} h (retired now new fresh) =
    retire-Sound now new.user_id new.ttl_secs (row i cases) h
change-Sound {cases} {i} h (new_row now new e n) = (
  record { dated = refl; marked = λ k. absurd (ground arith) },
  subst (λ o. Follows o (some (inserted now new))) (sym e) tt,
)
change-Sound {cases} {i} h (moved now users provider d c s e f m) = (
  written-IsSound now s d c,
  subst (λ o. Follows o (some (written now s d c))) (sym e) (written-Later now users cases s d c m),
)

pub run-Sound :
    (cases : List Case) (calls : List Call) (i : ℕ)
    → Distinct (ids cases)
    → Sound (row i cases)
    → Sound (row i (run cases calls)) × Follows (row i cases) (row i (run cases calls))
unfolding run
run-Sound cases [] i u h = (h, Follows-refl (row i cases))
run-Sound cases (call ∷ calls) i u h =
    let (sound, first) = change-Sound h (step_change cases call i u) in
    let (sound_end, rest) =
      run-Sound (step cases call) calls i (step-Distinct cases call u) sound in
    (sound_end, Follows-trans (row i cases) (row i (step cases call)) _ first rest)

-- Whatever is opened and delivered from an empty table on, an attempt carries the instant of its
-- decision exactly when its status is a decided one, and one that this plane retired is abandoned.
pub run-IsSound : (calls : List Call) (i : ℕ) (c : Case) → row i (run [] calls) ≡ some c → IsSound c
unfolding row
run-IsSound calls i c h = subst Sound h (run-Sound [] calls i tt tt).0

-- Whatever is opened and delivered afterwards, an attempt of a table without double ids that is
-- sound stays the same person's and the same session's, a decided one never runs again, one that
-- this plane retired stays as it is, and no verdict is written over one that was signed later.
pub run-Later :
    (cases : List Case) (calls : List Call) (i : ℕ) (c : Case)
    → Distinct (ids cases)
    → row i cases ≡ some c
    → IsSound c
    → (e : Case) × (row i (run cases calls) ≡ some e) × Later c e
run-Later cases calls i c u h s = found (row i (run cases calls)) refl (
    subst (λ o. Follows o (row i (run cases calls))) h
      (run-Sound cases calls i u (subst Sound (sym h) s)).1)
  where
    found :
        (o : Option Case)
        → row i (run cases calls) ≡ o
        → Follows (some c) o
        → (e : Case) × (row i (run cases calls) ≡ some e) × Later c e
    found none e f = absurd f
    found (some x) e f = (x, e, f)
