-- ===== src/Runner/Kyc/Window.antt =====
-- How many attempts a user opens in a window: the cap of `start` in runner/src/web/kyc.rs.
use concierge.Prelude.{
  ℕ, ◌+◌, ◌≤◌, ◌<◌, String, List, [], ◌∷◌, ◌++◌, Bool, false, Option, none, some, any, count_p, leb,
  ◌==◌, ◌≡◌, inl, inr, refl, ap, arith, Bool-cases, Option-cases, if◌then◌else◌, ==_iff,
}
use concierge.Prelude.Int.{ℤ, ◌≤ℤ◌}
use concierge.Governance.Peer.{UserId}
use concierge.Runner.Genesis.{Store, find_user}
use concierge.Runner.Kyc.Cases.{
  Case, NewCase, StartGate, retire, retire_all, inserted, clashes, open_case, start_gate, is_recent,
}
use concierge.Runner.Kyc.Callback.{Plane}
use concierge.Runner.Kyc.Start.{
  start_window_secs, start_max_per_window, CsrfOutcome, passed, no_session, mismatched, Provider,
  Request, resumed, new_case, opened, open_session, past_gate, start_as, start,
  redirect_is_trustworthy,
}

-- The user's attempts that were opened in the window that ends at an instant.
abbrev pub recent : ℤ → UserId → List Case → ℕ
recent now user cases = count_p (is_recent now user start_window_secs) cases

recent_later :
    (t now : ℤ) (user : UserId) (cases : List Case)
    → t ≤ℤ now
    → recent now user cases ≤ recent t user cases
recent_later t now user [] h = omega arith
recent_later t now user (c ∷ cs) h = ground (arith, recent_later t now user cs)

recent-retire_all :
    (now at : ℤ) (user other ttl : ℕ) (cases : List Case)
    → recent now user (retire_all at other ttl cases) ≡ recent now user cases
unfolding retire_all retire
recent-retire_all now at user other ttl [] = refl
recent-retire_all now at user other ttl (c ∷ cs) =
    ground (arith, recent-retire_all now at user other ttl cs)

recent-append :
    (now : ℤ) (user : UserId) (xs : List Case) (c : Case)
    → recent now user (xs ++ c ∷ [])
      ≡ recent now user xs + (if is_recent now user start_window_secs c then 1 else 0)
recent-append now user [] c = omega arith
recent-append now user (x ∷ xs) c = omega (arith, recent-append now user xs c)

-- What a start makes of the attempts: nothing, or it opens one for a user who is below the cap.
data Started (now : ℤ) (cases : List Case) : List Case → Type 0 where
  unchanged : Started now cases cases
  opens :
      (new : NewCase)
      → recent now new.user_id cases < start_max_per_window
      → Started now cases (retire_all now new.user_id new.ttl_secs cases ++ inserted now new ∷ [])

opened-Started :
    (now : ℤ) (plane : Plane) (new : NewCase) (url : String) (case_id : ℕ)
    → recent now new.user_id plane.cases < start_max_per_window
    → Started now plane.cases (opened plane url case_id (open_case now plane.cases new)).0.cases
unfolding open_case
opened-Started now plane new url case_id h = elim (Bool-cases (any (clashes new) plane.cases)) [
  | inl clash ↦ rw clash (unchanged)
  | inr fresh ↦ rw fresh (opens new h)
]

module _ (origin_of : String → Option String) where
  session_Started :
      (now : ℤ) (ttl_secs : ℕ) (plane : Plane) (provider : Provider) (user case_id : ℕ)
      → recent now user plane.cases < start_max_per_window
      → Started now plane.cases
          (open_session origin_of now ttl_secs plane provider user case_id).0.cases
  unfolding open_session
  session_Started now ttl_secs plane provider user case_id h =
      elim (Option-cases (provider.start_session case_id 1)) [
        | inl e ↦ rw (e, open_session) (unchanged)
        | inr (session, e) ↦
            elim (Bool-cases
              (redirect_is_trustworthy origin_of session.redirect_url provider.session_origins)) [
                | inr f ↦ rw (e, open_session) (rw f (unchanged))
                | inl f ↦
                    rw (e, open_session)
                      (rw f (
                        opened-Started now plane (new_case provider user case_id ttl_secs session)
                          session.redirect_url case_id h))
              ]
      ]

  gate_Started :
      (now : ℤ) (ttl_secs : ℕ) (plane : Plane) (provider : Provider) (user case_id : ℕ)
      (gate : StartGate)
      → gate.recent ≡ recent now user plane.cases
      → Started now plane.cases
          (past_gate origin_of now ttl_secs plane provider user case_id gate).0.cases
  unfolding past_gate
  gate_Started now ttl_secs plane provider user case_id gate h =
      elim (Option-cases (resumed origin_of provider gate.live)) [
        | inr (outcome, e) ↦ rw (e, past_gate) (unchanged)
        | inl e ↦ elim (Bool-cases (leb start_max_per_window gate.recent)) [
          | inl full ↦ rw (e, past_gate) (rw full (unchanged))
          | inr room ↦
              rw (e, past_gate)
                (rw room (
                  session_Started now ttl_secs plane provider user case_id
                    (ground (arith, room, h))))
        ]
      ]

  as_Started :
      (now : ℤ) (ttl_secs : ℕ) (plane : Plane) (provider : Provider) (case_id : ℕ)
      (caller : Option UserId)
      → Started now plane.cases
          (start_as origin_of now ttl_secs plane provider case_id caller).0.cases
  unfolding start_as start_gate
  as_Started now ttl_secs plane provider case_id none = unchanged
  as_Started now ttl_secs plane provider case_id (some user) =
      elim (Option-cases (find_user user plane.accounts.users)) [
        | inl e ↦ rw (e, start_as) (unchanged)
        | inr (account, e) ↦ elim (Bool-cases account.email_verified) [
          | inr f ↦ rw (e, start_as) (rw f (unchanged))
          | inl f ↦
              rw (e, start_as)
                (rw f (
                  gate_Started now ttl_secs plane provider user case_id
                    (start_gate now plane.cases user start_window_secs ttl_secs) refl))
        ]
      ]

  csrf_Started :
      (now : ℤ) (ttl_secs : ℕ) (plane : Plane) (provider : Option Provider) (request : Request)
      → Started now plane.cases (start origin_of now ttl_secs plane provider request).0.cases
  unfolding start
  csrf_Started now ttl_secs plane none request = unchanged
  csrf_Started now ttl_secs plane (some provider) request = by_csrf request.csrf refl
    where
      by_csrf :
          (c : CsrfOutcome)
          → request.csrf ≡ c
          → Started now plane.cases
              (start origin_of now ttl_secs plane (some provider) request).0.cases
      by_csrf no_session e = rw (e, start) (unchanged)
      by_csrf mismatched e = rw (e, start) (unchanged)
      by_csrf passed e =
          rw (e, start) (as_Started now ttl_secs plane provider request.case_id request.caller)

inserted_recent :
    (now : ℤ) (user : UserId) (new : NewCase)
    → (if is_recent now user start_window_secs (inserted now new) then 1 else 0)
      ≤ (if new.user_id == user then 1 else 0)
unfolding inserted
inserted_recent now user new = ground arith

Started-recent :
    (now : ℤ) (user : UserId) (cases next : List Case)
    → Started now cases next
    → recent now user cases ≤ start_max_per_window
    → recent now user next ≤ start_max_per_window
Started-recent now user cases next unchanged h = h
Started-recent now user cases next (opens new below) h =
    let kept = recent-retire_all now now user new.user_id new.ttl_secs cases in
    let one =
      recent-append now user (retire_all now new.user_id new.ttl_secs cases) (inserted now new) in
    elim (Bool-cases (new.user_id == user)) [
      | inl e ↦
          let same_user : recent now new.user_id cases ≡ recent now user cases =
            ap (λ u. recent now u cases) ((==_iff new.user_id user).0 e) in
          omega (
            arith,
            kept,
            one,
            same_user,
            below,
            inserted_recent now user new,
            one_if (new.user_id == user),
          )
      | inr e ↦
          omega (arith, kept, one, h, inserted_recent now user new, none_if (new.user_id == user) e)
    ]
  where
    one_if : (b : Bool) → (if b then 1 else 0) ≤ 1
    one_if b = ground arith

    none_if : (b : Bool) → b ≡ false → ◌≡◌ {A = ℕ} (if b then 1 else 0) 0
    none_if b e = rw e refl

-- A start, with the vendor and the accounts of its moment.
pub record Attempt : Type 0 where
  pub now : ℤ
  pub provider : Option Provider
  pub accounts : Store
  pub request : Request

-- Instants that do not run backwards.
abbrev pub InOrder : ℤ → List Attempt → Type 0
InOrder t [] = Unit
InOrder t (a ∷ starts) = (t ≤ℤ a.now) × InOrder a.now starts

abbrev pub end : ℤ → List Attempt → ℤ
end t [] = t
end t (a ∷ starts) = end a.now starts

module _ (origin_of : String → Option String) (ttl_secs : ℕ) where
  unfoldable pub run_starts : List Case → List Attempt → List Case
  run_starts cases [] = cases
  run_starts cases (a ∷ starts) =
      run_starts
        (start origin_of a.now ttl_secs (record { cases = cases; accounts = a.accounts }) a.provider
          a.request).0.cases
        starts

  -- However many starts are made, by whomever and with whatever answers of the vendor, at instants
  -- that do not run backwards, no user has opened more than five attempts within the last day of the
  -- last of them, where that was so before the first.
  pub run_starts-recent :
      (t : ℤ) (cases : List Case) (starts : List Attempt) (user : UserId)
      → InOrder t starts
      → recent t user cases ≤ start_max_per_window
      → recent (end t starts) user (run_starts cases starts) ≤ start_max_per_window
  unfolding run_starts
  run_starts-recent t cases [] user o h = h
  run_starts-recent t cases (a ∷ starts) user (later, o) h =
      let plane : Plane = record { cases = cases; accounts = a.accounts } in
      run_starts-recent a.now (start origin_of a.now ttl_secs plane a.provider a.request).0.cases
        starts user o
        (Started-recent a.now user cases _
          (csrf_Started origin_of a.now ttl_secs plane a.provider a.request)
          (omega (arith, recent_later t a.now user cases later, h)))
