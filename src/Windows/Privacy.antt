-- ===== src/Windows/Privacy.antt =====
-- The tests of hey_platform/engine.py for a private path on Windows.
use hermes_hey.Prelude.{
  ℕ, Text, codes, text_eq, text_eq_iff, Bool, true, false, not, ◌&&◌, ◌≡◌, refl, List, [], ◌∷◌,
  ◌++◌, ap, arith, ◌==◌, if◌then◌else◌, Result, ok, err, ErrorClass, Error, os_error, not_found,
  runtime_error, raw, Bool-cases, inl, inr,
}
use hermes_hey.Decimal.{decimal}
use hermes_hey.Queue.State.{contains_text, subset}

abbrev pub system_sid : Text
system_sid = codes "S-1-5-18"

abbrev pub administrators_sid : Text
administrators_sid = codes "S-1-5-32-544"

-- `_windows_acl_is_private`
unfoldable pub acl_is_private : Text → Text → List Text → Bool
acl_is_private owner_sid current_sid allowed_sids =
    text_eq owner_sid current_sid
    && (contains_text current_sid allowed_sids
        && subset allowed_sids (current_sid ∷ system_sid ∷ administrators_sid ∷ []))

-- what the test reads of a path: the bit 0x400 of its attributes, and its type
pub record Metadata : Type 0 where
  pub is_reparse_point : Bool
  pub is_dir : Bool
  pub is_reg : Bool

-- `_windows_metadata_is_secure`
unfoldable pub metadata_is_secure : Metadata → Bool → Bool
metadata_is_secure metadata directory =
    not metadata.is_reparse_point && (if directory then metadata.is_dir else metadata.is_reg)

-- `except (OSError, RuntimeError): return False`
unfoldable pub is_caught : ErrorClass → Bool
is_caught os_error = true
is_caught not_found = true
is_caught runtime_error = true
is_caught _ = false

refused : ErrorClass → Result Bool → Result Bool
unfolding is_caught
refused c r = if is_caught c then ok false else r

secure : Bool → Metadata → Text × (Text × List Text) → Bool
unfolding metadata_is_secure acl_is_private
secure directory metadata (owner_sid, (current_sid, allowed_sids)) =
    metadata_is_secure metadata directory && acl_is_private owner_sid current_sid allowed_sids

-- `_windows_path_is_secure`, on what the two readers return or raise for the path
unfoldable pub path_is_secure :
    Bool → Result Metadata → Result (Text × (Text × List Text)) → Result Bool
unfolding refused secure
path_is_secure directory (err e) acl = refused e.class (err e)
path_is_secure directory (ok metadata) (err e) = refused e.class (err e)
path_is_secure directory (ok metadata) (ok acl) = ok (secure directory metadata acl)

pub data AceKind : Type 0 where
  allow deny : AceKind

-- `_windows_ace_kind`
unfoldable pub ace_kind : ℕ → Result AceKind
ace_kind ace_type =
    if ace_type == 0
    then ok allow
    else if ace_type == 1
    then ok deny
    else err (record {
      class = os_error;
      message = raw (codes "unsupported Windows ACE type: " ++ decimal ace_type);
    })

refused_not_true : (e : Error) → refused e.class (err e) ≡ ok true → ⊥
unfolding refused
refused_not_true e h = elim (Bool-cases (is_caught e.class)) [
  | inl caught ↦ ground (arith, caught)
  | inr other ↦ ground (arith, other)
]

secure-parts :
    (directory : Bool) (m : Metadata) (owner current : Text) (allowed_sids : List Text)
    → secure directory m (owner, (current, allowed_sids)) ≡ true
    → (owner ≡ current)
      × (m.is_reparse_point ≡ false)
      × ((if directory then m.is_dir else m.is_reg) ≡ true)
      × (contains_text current allowed_sids ≡ true)
      × (subset allowed_sids (current ∷ system_sid ∷ administrators_sid ∷ []) ≡ true)
unfolding secure metadata_is_secure acl_is_private
secure-parts directory m owner current allowed_sids h = ground (arith, text_eq_iff owner current)

-- Where a path is found secure, both readers returned, the path is no reparse point and of the
-- type asked for, its owner is the current user, who is allowed, and all who are allowed are the
-- current user, the system and the administrators.
pub path_is_secure-private :
    (directory : Bool) (metadata : Result Metadata) (acl : Result (Text × (Text × List Text)))
    → path_is_secure directory metadata acl ≡ ok true
    → (m : Metadata) × (owner : Text) × (allowed_sids : List Text) × (metadata ≡ ok m)
      × (acl ≡ ok (owner, (owner, allowed_sids)))
      × (m.is_reparse_point ≡ false)
      × ((if directory then m.is_dir else m.is_reg) ≡ true)
      × (contains_text owner allowed_sids ≡ true)
      × (subset allowed_sids (owner ∷ system_sid ∷ administrators_sid ∷ []) ≡ true)
unfolding path_is_secure
path_is_secure-private directory (err e) acl h = absurd (refused_not_true e h)
path_is_secure-private directory (ok m) (err e) h = absurd (refused_not_true e h)
path_is_secure-private directory (ok m) (ok (owner, (current, allowed_sids))) h =
    let facts = secure-parts directory m owner current allowed_sids (ground (arith, h)) in
    (
      m,
      current,
      allowed_sids,
      refl,
      ap (λ o. ok (o, (current, allowed_sids))) facts.0,
      facts.1,
      facts.2,
      facts.3,
      facts.4,
    )
