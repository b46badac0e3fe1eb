-- ===== src/Queue/Returns.antt =====
-- `ingest` and `complete` of hey_platform/engine.py return where the calls of the storage and the codec do.
use hermes_hey.Prelude.{
  ℕ, ◌+◌, Text, Bool, true, false, ◌≡◌, refl, Option, some, List, [], ◌∷◌, ◌++◌, map, length,
  length-map, leb, Result, ok, Bool-cases, inl, inr,
}
use hermes_hey.Exec.{Exec}
use hermes_hey.Json.{Fields}
use hermes_hey.Core.Event.{HeyEvent, identity, to_dict}
use hermes_hey.Queue.State.{Codec, DurableQueue, State, encode_state, load_state, contains_text}
use hermes_hey.Queue.Format.{CodecLaws}
use hermes_hey.Queue.Spec.{Ledger, state_of, others}
use hermes_hey.Queue.Stored.{keep_others-others}
use hermes_hey.Queue.Transaction.{
  Storage, load, save, transact, ingest_new, ingest, complete_in, complete,
}
use hermes_hey.Queue.Refinement.{StorageLaws, Keeps, Keeps-of_content, load_state-front}

-- Every call of the storage returns: from a world that is up, opening gives a handle, and with a handle
-- that is ready so do the reading, the replacing and the closing. The two leave the handle ready.
pub record Quiet {B W : Type 0} (storage : Storage B W) (Up : W → Type 0) (Ready : ℕ → W → Type 0)
    : Type 0 where
  pub open_returns :
      (w : W)
      → Up w
      → (fd : ℕ) × ((storage.open_parent true w).0 ≡ ok (some fd))
        × Ready fd (storage.open_parent true w).1
  pub read_returns :
      (fd n : ℕ) (w : W)
      → Ready fd w
      → (o : Option B) × ((storage.read_state (some fd) n w).0 ≡ ok o)
        × Ready fd (storage.read_state (some fd) n w).1
  pub replace_returns :
      (fd : ℕ) (b : B) (w : W)
      → Ready fd w
      → ((storage.replace_state (some fd) b w).0 ≡ ok tt)
        × Ready fd (storage.replace_state (some fd) b w).1
  pub close_returns : (fd : ℕ) (w : W) → Ready fd w → (storage.close_parent (some fd) w).0 ≡ ok tt

module _ {B W : Type 0} {storage : Storage B W} {codec : Codec B} (laws : CodecLaws codec)
    (disk : StorageLaws codec storage) (q : DurableQueue) {Up : W → Type 0} {Ready : ℕ → W → Type 0}
    (quiet : Quiet storage Up Ready) where
  -- the state is printed within the bound of the file
  abbrev pub Fits : List Text → List Fields → Type 0
  Fits seen pending = (b : B) × (encode_state codec q seen pending ≡ ok b)

  -- the code returns and leaves the handle ready
  abbrev Done : {A : Type 0} → ℕ → A → Result A × W → Type 0
  Done fd a r = (r.0 ≡ ok a) × Ready fd r.1

  load-returns :
      (fd : ℕ) (l : Ledger) (w : W)
      → Keeps laws disk q w l
      → Ready fd w
      → Done fd (state_of l) (load storage codec q (some fd) w)
  unfolding load
  load-returns fd l w k ready =
      let (o, e, still) = quiet.read_returns fd (q.max_state_bytes + 1) w ready in
      let same = disk.read_result fd (q.max_state_bytes + 1) w o e in
      let found : load_state codec q o ≡ ok (state_of l) =
        rw (same, load_state-front laws disk q (disk.content w)) k.loads in
      rw e (found, still)

  save-returns :
      (seen : List Text) (pending : List Fields) (fd : ℕ) (w : W)
      → Fits seen pending
      → Ready fd w
      → Done fd tt (save storage codec q seen pending (some fd) w)
  unfolding save
  save-returns seen pending fd w (b, e) ready = rw e (quiet.replace_returns fd b w ready)

  -- A transaction returns where its change of the state does.
  transact-returns :
      {A : Type 0} (body : Option ℕ → State → Exec W A) (l : Ledger) (w : W)
      → Keeps laws disk q w l
      → Up w
      → ((fd : ℕ) (w' : W) → Ready fd w' → (a : A) × Done fd a (body (some fd) (state_of l) w'))
      → (a : A) × ((transact storage codec q body w).0 ≡ ok a)
  unfolding transact
  transact-returns body l w k up each =
      let (fd, opened, ready) = quiet.open_returns w up in
      let w1 = (storage.open_parent true w).1 in
      let k1 : Keeps laws disk q w1 l =
        Keeps-of_content laws disk q w w1 l (disk.open_content true w) k in
      let (loaded, still) = load-returns fd l w1 k1 ready in
      let w2 = (load storage codec q (some fd) w1).1 in
      let (a, (done, left)) = each fd w2 still in
      let released = quiet.close_returns fd (body (some fd) (state_of l) w2).1 left in
      (a, rw (opened, loaded, released, done) refl)

  -- Over a codec and a storage that keep their laws, where the file holds a good state that stands
  -- for a ledger with room for one more event, and the storage's calls return (`Quiet`: from a
  -- world that is up, opening gives a ready handle, with which reading, replacing and closing
  -- return): if the world is up and the state with the event behind the others is printed within
  -- the bound of the file, `ingest` returns.
  pub ingest-returns :
      (e : HeyEvent) (authorize : HeyEvent → Bool) (l : Ledger) (w : W)
      → Keeps laws disk q w l
      → Up w
      → leb q.max_pending (length l.events) ≡ false
      → Fits (l.seen ++ identity e ∷ []) (map to_dict l.events ++ to_dict e ∷ [])
      → (accepted : Bool) × ((ingest storage codec q e authorize w).0 ≡ ok accepted)
  unfolding ingest ingest_new
  ingest-returns e authorize l w k up room fits = elim (Bool-cases (authorize e)) [
    | inr no_access ↦ (false, rw no_access refl)
    | inl allowed ↦ rw allowed (
        transact-returns (ingest_new storage codec q e) l w k up (λ fd w' ready.
          elim (Bool-cases (contains_text (identity e) l.seen)) [
            | inl old ↦ (false, rw old (refl, ready))
            | inr new ↦
                let (saved, still) =
                  save-returns (l.seen ++ identity e ∷ []) (map to_dict l.events ++ to_dict e ∷ [])
                    fd w' fits ready in
                (true, rw (new, length-map to_dict l.events, room) (rw saved (refl, still)))
          ]))
  ]

  -- Over a codec and a storage that keep their laws, where the file holds a good state that stands
  -- for a ledger, and the storage's calls return (`Quiet`: from a world that is up, opening gives
  -- a ready handle, with which reading, replacing and closing return): if the world is up and the
  -- state without the event is printed within the bound of the file, `complete` returns.
  pub complete-returns :
      (id : Text) (l : Ledger) (w : W)
      → Keeps laws disk q w l
      → Up w
      → Fits l.seen (map to_dict (others id l.events))
      → (complete storage codec q id w).0 ≡ ok tt
  unfolding complete complete_in
  complete-returns id l w k up fits =
      let (u, done) = transact-returns (complete_in storage codec q id) l w k up (λ fd w' ready. (
        tt,
        rw (keep_others-others id l.events k.good.valid)
            (save-returns l.seen (map to_dict (others id l.events)) fd w' fits ready),
      )) in
      done
