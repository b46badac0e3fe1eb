-- ===== src/Adapter/Claims.antt =====
-- The claims of hey_platform/adapter.py: one thread is dispatched at a time, among all the adapters
-- of the process that share a state file.
use hermes_hey.Prelude.{
  ℕ, Text, text_eq, text_eq_iff, text_eq_refl, Bool, true, false, ◌≡◌, ◌≢◌, Option, none, some, [],
  ◌∷◌, arith, if◌then◌else◌, ==_refl, Option-cases, inl, inr, Bool-cases,
}
use hermes_hey.Dict
use hermes_hey.Dict.{Dict, ◌==◌, nat_key, text_key, get-put, get-pop}
use hermes_hey.Core.Event.{HeyEvent, identity}

-- `_claims`, shared by the class: for each state file its threads with the identity in work
abbrev pub Claims : Type 0
Claims = Dict Text (Dict ℕ Text)

-- `self._claims.get(key, {})`
unfoldable pub claims_of : Text → Claims → Dict ℕ Text
claims_of key claims = elim (Dict.get key claims) [ none ↦ [] | some d ↦ d ]

-- `_claimed_identity`
unfoldable pub claimed_identity : Text → ℕ → Claims → Option Text
unfolding claims_of
claimed_identity key thread_id claims = Dict.get thread_id (claims_of key claims)

-- `_claim`, but for the adapter's `_inflight`
unfoldable pub claim : Text → HeyEvent → Claims → Bool × Claims
unfolding claims_of
claim key event claims = elim (Dict.get event.thread_id (claims_of key claims)) [
  | some other ↦ (false, claims)
  | none ↦
      (true, Dict.put key (Dict.put event.thread_id (identity event) (claims_of key claims)) claims)
]

-- the loop of `_release_claim`
unfoldable pub release_identity : Text → Dict ℕ Text → Dict ℕ Text
release_identity id [] = []
release_identity id ((thread_id, claimed) ∷ d) =
    let rest = release_identity id d in
    if text_eq claimed id then rest else (thread_id, claimed) ∷ rest

-- the claims of one state file are put back, or dropped when there are none
unfoldable pub put_back : Text → Dict ℕ Text → Claims → Claims
put_back key [] claims = Dict.pop key claims
put_back key (c ∷ d) claims = Dict.put key (c ∷ d) claims

-- `_release_claim`, but for the adapter's `_inflight`
unfoldable pub release_claim : Text → Text → Claims → Claims
unfolding claims_of release_identity put_back
release_claim key id claims = put_back key (release_identity id (claims_of key claims)) claims

claims_of-put :
    (key k : Text) (d : Dict ℕ Text) (claims : Claims)
    → claims_of k (Dict.put key d claims) ≡ (if text_eq key k then d else claims_of k claims)
unfolding claims_of
claims_of-put key k d claims = ground (arith, get-put key k d claims)

pub claims_of-put_back :
    (key k : Text) (d : Dict ℕ Text) (claims : Claims)
    → claims_of k (put_back key d claims) ≡ (if text_eq key k then d else claims_of k claims)
unfolding claims_of put_back
claims_of-put_back key k [] claims = ground (arith, get-pop key k claims)
claims_of-put_back key k (c ∷ d) claims = ground (arith, get-put key k (c ∷ d) claims)

-- A thread can be claimed exactly when it is not claimed.
pub claim_iff :
    (key : Text) (event : HeyEvent) (claims : Claims)
    → ((claim key event claims).0 ≡ true → claimed_identity key event.thread_id claims ≡ none)
      × (claimed_identity key event.thread_id claims ≡ none → (claim key event claims).0 ≡ true)
unfolding claim claimed_identity
claim_iff key event claims = (ground arith, ground arith)

-- After a claim that succeeds, the thread of the event under the claiming state file has the
-- event's identity, and every other thread and state file what it had; after one that fails,
-- nothing has changed.
pub claimed_identity-claim :
    (key k : Text) (event : HeyEvent) (t : ℕ) (claims : Claims)
    → claimed_identity k t (claim key event claims).1 ≡ (
        if (claim key event claims).0
        then (if text_eq key k
            then (if event.thread_id == t
                then some (identity event)
                else claimed_identity k t claims)
            else claimed_identity k t claims)
        else claimed_identity k t claims)
unfolding claimed_identity claim Dict.get
claimed_identity-claim key k event t claims =
    elim (Option-cases (Dict.get event.thread_id (claims_of key claims))) [
      | inr (other, e) ↦ rw (e, claim)
      | inl e ↦
          rw
            (
              e,
              claim,
              claims_of-put key k (Dict.put event.thread_id (identity event) (claims_of key claims))
                  claims,
            )
            (elim (Bool-cases (text_eq key k)) [
              | inl same ↦
                  rw (same, get-put event.thread_id t (identity event) (claims_of key claims))
                    (ground (arith, text_eq_iff key k))
              | inr other ↦ rw other
            ])
    ]

get-release_identity_self :
    (id : Text) (t : ℕ) (d : Dict ℕ Text) → Dict.get t (release_identity id d) ≢ some id
unfolding release_identity Dict.get
get-release_identity_self id t [] = λ h. ground arith
get-release_identity_self id t ((j, claimed) ∷ d) =
    λ h. ground (arith, text_eq_iff claimed id, get-release_identity_self id t d)

get-release_identity_ne :
    (id x : Text) (t : ℕ) (d : Dict ℕ Text)
    → x ≢ id
    → Dict.get t d ≡ some x
    → Dict.get t (release_identity id d) ≡ some x
unfolding release_identity Dict.get
get-release_identity_ne id x t [] ne h = ground arith
get-release_identity_ne id x t ((j, claimed) ∷ d) ne h =
    ground (arith, text_eq_iff claimed id, get-release_identity_ne id x t d ne)

claimed_identity-release_claim :
    (key k id : Text) (t : ℕ) (claims : Claims)
    → claimed_identity k t (release_claim key id claims) ≡ (
        if text_eq key k
        then Dict.get t (release_identity id (claims_of key claims))
        else claimed_identity k t claims)
unfolding claimed_identity release_claim
claimed_identity-release_claim key k id t claims =
    rw (claims_of-put_back key k (release_identity id (claims_of key claims)) claims)
      (elim (Bool-cases (text_eq key k)) [ inl same ↦ rw same | inr other ↦ rw other ])

-- A claimed event is the one in work on its thread.
pub claimed_identity-claim_self :
    (key : Text) (event : HeyEvent) (claims : Claims)
    → (claim key event claims).0 ≡ true
    → claimed_identity key event.thread_id (claim key event claims).1 ≡ some (identity event)
claimed_identity-claim_self key event claims h = ground (
  arith,
  claimed_identity-claim key key event event.thread_id claims,
  text_eq_refl key,
  ==_refl event.thread_id,
)

-- After a release no thread of the state file is claimed for the released identity, the claims of
-- other identities stand, and the claims of other state files are as before.
pub release_claim_lem :
    (key id : Text) (claims : Claims)
    → ((t : ℕ) → claimed_identity key t (release_claim key id claims) ≢ some id)
      × ((t : ℕ) (x : Text)
          → x ≢ id
          → claimed_identity key t claims ≡ some x
          → claimed_identity key t (release_claim key id claims) ≡ some x)
      × ((k : Text) (t : ℕ)
          → k ≢ key
          → claimed_identity k t (release_claim key id claims) ≡ claimed_identity k t claims)
unfolding claimed_identity
release_claim_lem key id claims = (
  (λ t. λ h. get-release_identity_self id t (claims_of key claims) (own t h)),
  (λ t x ne h.
      rw (claimed_identity-release_claim key key id t claims, text_eq_refl key)
        (get-release_identity_ne id x t (claims_of key claims) ne h)),
  (λ k t ne. ground (arith, claimed_identity-release_claim key k id t claims, text_eq_iff key k)),
)
  where
    own :
        (t : ℕ)
        → claimed_identity key t (release_claim key id claims) ≡ some id
        → Dict.get t (release_identity id (claims_of key claims)) ≡ some id
    own t h = ground (arith, claimed_identity-release_claim key key id t claims, text_eq_refl key)
