-- ===== src/Governance/Peer/Laws.antt =====
-- Laws of the search for a voter and of the write to the one that was found.
use concierge.Prelude.{
  ℕ, ◌+◌, length, List, [], ◌∷◌, none, some, Bool, false, not, ◌&&◌, map, filter, contains, ◌==◌,
  if◌then◌else◌, ◌≡◌, refl, ap, arith, Distinct,
}
use concierge.Prelude.Int.{ℤ}
use concierge.Governance.Peer.{UserId, Peer, find_peer, record_vote, user_ids}

module _ {V : Type 0} where
  -- A vote changes nobody's place in the snapshot.
  pub user_ids-record_vote :
      (voter : UserId) (v : V) (now : ℤ) (ps : List (Peer V))
      → user_ids (record_vote voter v now ps) ≡ user_ids ps
  unfolding record_vote
  user_ids-record_vote voter v now [] = refl
  user_ids-record_vote voter v now (p ∷ ps) = ground (arith, user_ids-record_vote voter v now ps)

  -- Whoever is found is the voter.
  pub user_id-find_peer :
      (voter : UserId) (ps : List (Peer V)) (p : Peer V)
      → find_peer voter ps ≡ some p
      → p.user_id ≡ voter
  unfolding find_peer
  user_id-find_peer voter [] p h = ground arith
  user_id-find_peer voter (x ∷ ps) p h = ground (arith, user_id-find_peer voter ps p)

  -- The write is read back by its voter, and by nobody else.
  pub find_peer-record_vote :
      (voter other : UserId) (v : V) (now : ℤ) (ps : List (Peer V)) (p : Peer V)
      → find_peer voter ps ≡ some p
      → find_peer other (record_vote voter v now ps) ≡ (
          if voter == other
          then some (record p { vote = v; voted_at = now })
          else find_peer other ps)
  unfolding find_peer record_vote
  find_peer-record_vote voter other v now [] p h = ground arith
  find_peer-record_vote voter other v now (x ∷ ps) p h =
      ground (arith, find_peer-record_vote voter other v now ps p)

  -- Nobody outside the snapshot is found.
  pub find_peer-none :
      (voter : UserId) (ps : List (Peer V))
      → contains (user_ids ps) voter ≡ false
      → find_peer voter ps ≡ none
  unfolding find_peer
  find_peer-none voter [] h = refl
  find_peer-none voter (p ∷ ps) h = ground (arith, find_peer-none voter ps)

-- A filter keeps out what fails its test.
pub contains-filter :
    (q : ℕ → Bool) (a : ℕ) (xs : List ℕ) → contains (filter q xs) a ≡ (contains xs a && q a)
contains-filter q a [] = refl
contains-filter q a (x ∷ xs) = ground (arith, contains-filter q a xs, ap q {x = x} {y = a})

pub user_ids-map :
    {V : Type 0} (f : UserId → Peer V) (xs : List UserId)
    → ((x : UserId) → (f x).user_id ≡ x)
    → user_ids (map f xs) ≡ xs
user_ids-map f [] h = refl
user_ids-map f (x ∷ xs) h = ground (arith, h x, user_ids-map f xs h)

-- A list without doubles loses one element for an id that it holds.
pub length-filter_one :
    (i : UserId) (xs : List UserId)
    → Distinct xs
    → length (filter (λ o. not (o == i)) xs) + (if contains xs i then 1 else 0) ≡ length xs
length-filter_one i [] d = omega arith
length-filter_one i (x ∷ xs) d = ground (arith, length-filter_one i xs d.1)
