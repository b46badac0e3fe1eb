-- ===== src/Queue/Refinement.antt =====
-- The operations of `DurableQueue` over a state file implement the ledger.
use hermes_hey.Prelude.{
  ℕ, ◌+◌, Text, Bool, true, false, ◌≡◌, refl, Option, none, some, List, [], ◌∷◌, ◌++◌, map, length,
  length-map, leb, arith, ok, ◌⊎◌, inl, inr, Result-cases, Bool-cases,
}
use mathlib.Core.List.{map-append}
use hermes_hey.Exec.{Exec}
use hermes_hey.Core.Event.{HeyEvent, IsValid, identity, to_dict}
use hermes_hey.Queue.State.{Codec, DurableQueue, State, load_state, encode_state, contains_text}
use hermes_hey.Queue.Format.{CodecLaws, IsGood}
use hermes_hey.Queue.Spec.{Ledger, state_of, stored, accept, others, finish}
use hermes_hey.Queue.Stored.{
  load_state-encode_state, stored-IsGood, CanStore, CanStore-snoc, CanStore-others,
  keep_others-others,
}
use hermes_hey.Queue.Transaction.{
  Storage, load, save, transact, ingest_new, ingest, complete_in, complete,
}

-- What a queue relies on of the storage of its file: `content` is what the file holds. A replacement
-- is atomic: if it raises, the file holds the old bytes or the new ones.
pub record StorageLaws {B W : Type 0} (codec : Codec B) (storage : Storage B W) : Type 0 where
  pub content : W → Option B
  pub open_content : (create : Bool) (w : W) → content (storage.open_parent create w).1 ≡ content w
  pub open_created :
      (w : W) (h : Option ℕ) → (storage.open_parent true w).0 ≡ ok h → (fd : ℕ) × (h ≡ some fd)
  pub open_missing : (w : W) → (storage.open_parent false w).0 ≡ ok none → content w ≡ none
  pub read_content :
      (h : Option ℕ) (n : ℕ) (w : W) → content (storage.read_state h n w).1 ≡ content w
  pub read_result :
      (fd n : ℕ) (w : W) (o : Option B)
      → (storage.read_state (some fd) n w).0 ≡ ok o
      → o ≡ elim (content w) [ none ↦ none | some b ↦ some (codec.front n b) ]
  pub replace_done :
      (h : Option ℕ) (b : B) (w : W)
      → (storage.replace_state h b w).0 ≡ ok tt
      → content (storage.replace_state h b w).1 ≡ some b
  pub replace_atomic :
      (h : Option ℕ) (b : B) (w : W)
      → (content (storage.replace_state h b w).1 ≡ content w)
        ⊎ (content (storage.replace_state h b w).1 ≡ some b)
  pub close_content : (h : Option ℕ) (w : W) → content (storage.close_parent h w).1 ≡ content w

module _ {B W : Type 0} {storage : Storage B W} {codec : Codec B} (laws : CodecLaws codec)
    (disk : StorageLaws codec storage) (q : DurableQueue) where
  -- the file holds a good state that stands for the ledger
  pub record Keeps (w : W) (l : Ledger) : Type 0 where
    pub loads : load_state codec q (disk.content w) ≡ ok (state_of l)
    pub good : IsGood q l.seen l.events

  -- what `_load` reads through the bound on the file's size
  pub load_state-front :
      (o : Option B)
      → load_state codec q
          (elim o [ none ↦ none | some b ↦ some (codec.front (q.max_state_bytes + 1) b) ])
        ≡ load_state codec q o
  unfolding load_state
  load_state-front none = refl
  load_state-front (some b) = elim (Bool-cases (leb (codec.size b) q.max_state_bytes)) [
    | inl e ↦ rw (laws.front_of_size-le (q.max_state_bytes + 1) b (ground arith))
    | inr e ↦ rw (laws.size-front q.max_state_bytes b, e)
  ]

  pub content-load :
      (h : Option ℕ) (w : W) → disk.content (load storage codec q h w).1 ≡ disk.content w
  unfolding load
  content-load h w = ground (arith, disk.read_content h (q.max_state_bytes + 1) w)

  pub Keeps-of_content :
      (w w' : W) (l : Ledger) → disk.content w' ≡ disk.content w → Keeps w l → Keeps w' l
  Keeps-of_content w w' l e k = record { loads = rw e k.loads; good = k.good }

  pub load-result :
      (fd : ℕ) (w : W) (l : Ledger) (r : State)
      → Keeps w l
      → (load storage codec q (some fd) w).0 ≡ ok r
      → r ≡ state_of l
  unfolding load
  load-result fd w l r k h =
      elim (Result-cases (storage.read_state (some fd) (q.max_state_bytes + 1) w).0) [
        | inr (x, e) ↦ absurd (ground arith)
        | inl (o, e) ↦
            let same = disk.read_result fd (q.max_state_bytes + 1) w o e in
            let found : load_state codec q o ≡ ok (state_of l) =
              rw (same, load_state-front (disk.content w)) k.loads in
            ground arith
      ]

  -- `_save` of what can be stored, if it does not raise
  save-Keeps :
      (seen : List Text) (events : List HeyEvent) (h : Option ℕ) (w : W)
      → CanStore q seen events
      → (save storage codec q seen (map to_dict events) h w).0 ≡ ok tt
      → Keeps (save storage codec q seen (map to_dict events) h w).1 (stored q seen events)
  unfolding save
  save-Keeps seen events h w c done =
      elim (Result-cases (encode_state codec q seen (map to_dict events))) [
        | inr (x, e) ↦ absurd (ground arith)
        | inl (b, e) ↦ rw e (record {
          loads =
              rw (disk.replace_done h b w (ground arith))
                (load_state-encode_state codec laws q seen events b c e);
          good = stored-IsGood q seen events c;
        })
      ]

  ingest_new-refines :
      (e : HeyEvent) (h : Option ℕ) (l : Ledger) (w : W) (b : Bool)
      → Keeps w l
      → IsValid e
      → (ingest_new storage codec q e h (state_of l) w).0 ≡ ok b
      → (l' : Ledger) × (accept q e l ≡ some (b, l'))
        × Keeps (ingest_new storage codec q e h (state_of l) w).1 l'
  unfolding ingest_new accept
  ingest_new-refines e h l w b k v done = elim (Bool-cases (contains_text (identity e) l.seen)) [
    | inl old ↦ rw old (l, ground arith, k)
    | inr new ↦ elim (Bool-cases (leb q.max_pending (length (map to_dict l.events)))) [
      | inl full ↦ absurd (ground arith)
      | inr room ↦
          let same = map-append to_dict l.events (e ∷ []) in
          let can =
            CanStore-snoc q l.seen l.events e k.good v new
              (rw (length-map to_dict l.events) at room) in
          elim (Result-cases
            (save storage codec q (l.seen ++ identity e ∷ []) (map to_dict (l.events ++ e ∷ [])) h
              w).0) [
                | inr (x, f) ↦ absurd (ground (arith, same))
                | inl (u, f) ↦
                    rw (new, room, ← same, f)
                      (
                        stored q (l.seen ++ identity e ∷ []) (l.events ++ e ∷ []),
                        ground (arith, length-map to_dict l.events),
                        save-Keeps (l.seen ++ identity e ∷ []) (l.events ++ e ∷ []) h w can f,
                      )
              ]
    ]
  ]

  -- A transaction starts from what the file holds, and closing it changes nothing.
  transact-result :
      {A : Type 0} (body : Option ℕ → State → Exec W A) (Post : A → W → Type 0)
      → ((a : A) (w w' : W) → disk.content w' ≡ disk.content w → Post a w → Post a w')
      → (l : Ledger) (w : W) → Keeps w l
      → ((h : Option ℕ) (w' : W) (a : A)
          → Keeps w' l
          → (body h (state_of l) w').0 ≡ ok a
          → Post a (body h (state_of l) w').1)
      → (a : A) → (transact storage codec q body w).0 ≡ ok a
      → Post a (transact storage codec q body w).1
  unfolding transact
  transact-result body Post stable l w k each a done =
      elim (Result-cases (storage.open_parent true w).0) [
        | inr (x, e) ↦ absurd (ground arith)
        | inl (h, e) ↦
            let (fd, opened) = disk.open_created w h e in
            let w1 = (storage.open_parent true w).1 in
            let k1 : Keeps w1 l = Keeps-of_content w w1 l (disk.open_content true w) k in
            elim (Result-cases (load storage codec q (some fd) w1).0) [
              | inr (x, f) ↦ absurd (ground arith)
              | inl (r, f) ↦
                  let loaded = load-result fd w1 l r k1 f in
                  let w2 = (load storage codec q (some fd) w1).1 in
                  let k2 : Keeps w2 l = Keeps-of_content w1 w2 l (content-load (some fd) w1) k1 in
                  let w3 = (body (some fd) (state_of l) w2).1 in
                  elim (Result-cases (storage.close_parent (some fd) w3).0) [
                    | inr (x, g) ↦ absurd (ground arith)
                    | inl (u, g) ↦
                        rw (e, opened, f, loaded)
                          (stable a w3 _ (disk.close_content (some fd) w3)
                            (each (some fd) w2 a k2 (ground arith)))
                  ]
            ]
      ]

  -- Over a codec and a storage that keep their laws, where the file holds a good state that stands
  -- for a ledger, and for a valid event that is authorized: if `ingest` returns, its answer and
  -- the ledger that the file then holds are those of `accept`, which refuses an event that was
  -- seen and stores a new one behind the others.
  pub ingest-refines :
      (e : HeyEvent) (authorize : HeyEvent → Bool) (l : Ledger) (w : W) (b : Bool)
      → Keeps w l
      → IsValid e
      → authorize e ≡ true
      → (ingest storage codec q e authorize w).0 ≡ ok b
      → (l' : Ledger) × (accept q e l ≡ some (b, l'))
        × Keeps (ingest storage codec q e authorize w).1 l'
  unfolding ingest
  ingest-refines e authorize l w b k v allowed done = rw allowed (
      transact-result (ingest_new storage codec q e)
        (λ (b' : Bool) (w' : W). (l' : Ledger) × (accept q e l ≡ some (b', l')) × Keeps w' l')
        (λ b' w1 w2 same (l', accepted, k'). (l', accepted, Keeps-of_content w1 w2 l' same k')) l w
        k (λ h w' b' k' done'. ingest_new-refines e h l w' b' k' v done') b (rw allowed at done))

  complete_in-refines :
      (id : Text) (h : Option ℕ) (l : Ledger) (w : W)
      → Keeps w l
      → (complete_in storage codec q id h (state_of l) w).0 ≡ ok tt
      → Keeps (complete_in storage codec q id h (state_of l) w).1 (finish q id l)
  unfolding complete_in finish
  complete_in-refines id h l w k done = rw (keep_others-others id l.events k.good.valid) (
      save-Keeps l.seen (others id l.events) h w (CanStore-others q l.seen l.events id k.good)
        (rw (keep_others-others id l.events k.good.valid) at done))

  -- Over a codec and a storage that keep their laws, where the file holds a good state that stands
  -- for a ledger: if `complete` of an identity returns, the file holds the ledger of `finish`, in
  -- which no event with the identity waits and the memory is that of a save.
  pub complete-refines :
      (id : Text) (l : Ledger) (w : W)
      → Keeps w l
      → (complete storage codec q id w).0 ≡ ok tt
      → Keeps (complete storage codec q id w).1 (finish q id l)
  unfolding complete
  complete-refines id l w k done =
      transact-result (complete_in storage codec q id)
        (λ (u : Unit {0}) (w' : W). Keeps w' (finish q id l))
        (λ u w1 w2 same k'. Keeps-of_content w1 w2 (finish q id l) same k') l w k
        (λ h w' u k' done'. complete_in-refines id h l w' k' done') tt done
