-- ===== src/Queue/Handles.antt =====
-- The operations of `DurableQueue` in hey_platform/engine.py close the directory that they open.
use hermes_hey.Prelude.{
  ℕ, ◌+◌, ◌-◌, Text, Bool, true, false, ◌≡◌, refl, Option, none, some, List, [], ◌∷◌, ◌++◌, length,
  leb, Result, ok, err, Result-cases, inl, inr, arith, runtime_error, collect,
}
use hermes_hey.Exec.{Exec, pure, throw, lift, finally, ◌>>=◌}
use hermes_hey.Exec.Views.{Keeps, bind-Keeps, if-Keeps}
use hermes_hey.Json.{Fields}
use hermes_hey.Core.Event.{HeyEvent, identity, from_dict, to_dict}
use hermes_hey.Queue.State.{Codec, DurableQueue, State, encode_state, contains_text, keep_others}
use hermes_hey.Queue.Transaction.{
  Storage, load, save, transact, ingest_new, ingest, complete_in, complete, pending,
}

-- the handle that an opening keeps
abbrev pub kept : Result (Option ℕ) → ℕ
kept (ok (some fd)) = 1
kept (ok none) = 0
kept (err e) = 0

-- What a storage does to the count of open handles.
pub record HandleLaws {B W : Type 0} (storage : Storage B W) : Type 0 where
  pub opened : W → ℕ
  pub open_kept :
      (create : Bool) (w : W)
      → opened (storage.open_parent create w).1 ≡ opened w + kept (storage.open_parent create w).0
  pub open_some :
      (w : W) (h : Option ℕ) → (storage.open_parent true w).0 ≡ ok h → (fd : ℕ) × (h ≡ some fd)
  pub read_same : (h : Option ℕ) (n : ℕ) → Keeps opened (storage.read_state h n)
  pub replace_same : (fd : ℕ) (b : B) → Keeps opened (storage.replace_state (some fd) b)
  pub close_one : (fd : ℕ) (w : W) → opened (storage.close_parent (some fd) w).1 ≡ opened w - 1

module _ {B W : Type 0} {storage : Storage B W} (laws : HandleLaws storage) (codec : Codec B)
    (q : DurableQueue) where
  abbrev Same : {A : Type 0} → Exec W A → Type 0
  Same m = Keeps laws.opened m

  lift-Same : {A : Type 0} (r : Result A) → Same (lift r)
  lift-Same r w = refl

  load-Same : (h : Option ℕ) → Same (load storage codec q h)
  unfolding load
  load-Same h =
      bind-Keeps laws.opened (storage.read_state h (q.max_state_bytes + 1)) _
        (laws.read_same h (q.max_state_bytes + 1)) (λ encoded w. refl)

  save-Same :
      (seen : List Text) (pending : List Fields) (fd : ℕ)
      → Same (save storage codec q seen pending (some fd))
  unfolding save
  save-Same seen pending fd =
      bind-Keeps laws.opened (lift (encode_state codec q seen pending)) _ (λ w. refl)
        (λ encoded. laws.replace_same fd encoded)

  -- The handle that was opened is closed by the `finally` block, whatever comes between.
  closes :
      {A : Type 0} (body : Exec W A) (fd n : ℕ) (w : W)
      → Same body
      → laws.opened w ≡ n + 1
      → laws.opened (finally body (storage.close_parent (some fd)) w).1 ≡ n
  closes body fd n w same is_open = omega (arith, same w, laws.close_one fd (body w).1)

  transact-Same :
      {A : Type 0} (body : Option ℕ → State → Exec W A)
      → ((fd : ℕ) (value : State) → Same (body (some fd) value))
      → Same (transact storage codec q body)
  unfolding transact
  transact-Same body same w = elim (Result-cases (storage.open_parent true w).0) [
    | inr (x, e) ↦ let opened = laws.open_kept true w in rw e (omega (arith, rw e at opened))
    | inl (h, e) ↦
        let (fd, is_some) = laws.open_some w h e in
        let opened = laws.open_kept true w in
        let m = load storage codec q (some fd) >>= body (some fd) in
        rw (e, is_some)
          (closes m fd (laws.opened w) (storage.open_parent true w).1
            (bind-Keeps laws.opened (load storage codec q (some fd)) (body (some fd))
              (load-Same (some fd)) (same fd))
            (rw (e, is_some) at opened))
  ]

  ingest_new-Same :
      (event : HeyEvent) (fd : ℕ) (value : State)
      → Same (ingest_new storage codec q event (some fd) value)
  unfolding ingest_new
  ingest_new-Same event fd value =
      if-Keeps laws.opened (contains_text (identity event) value.seen) (pure false) _ (λ w. refl)
        (if-Keeps laws.opened (leb q.max_pending (length value.pending))
          (throw runtime_error "HEY pending queue is full") _ (λ w. refl)
          (bind-Keeps laws.opened
            (save storage codec q (value.seen ++ identity event ∷ [])
              (value.pending ++ to_dict event ∷ []) (some fd))
            _ (save-Same _ _ fd) (λ u w. refl)))

  -- `ingest` leaves as many handles open as before, whether it returns or raises.
  pub ingest-opened :
      (event : HeyEvent) (authorize : HeyEvent → Bool) (w : W)
      → laws.opened (ingest storage codec q event authorize w).1 ≡ laws.opened w
  unfolding ingest
  ingest-opened event authorize =
      if-Keeps laws.opened (authorize event)
        (transact storage codec q (ingest_new storage codec q event)) (pure false)
        (transact-Same (ingest_new storage codec q event) (ingest_new-Same event)) (λ w. refl)

  complete_in-Same :
      (id : Text) (fd : ℕ) (value : State) → Same (complete_in storage codec q id (some fd) value)
  unfolding complete_in
  complete_in-Same id fd value =
      bind-Keeps laws.opened (lift (keep_others id value.pending)) _ (λ w. refl)
        (λ rest. save-Same value.seen rest fd)

  pub complete-opened :
      (id : Text) (w : W) → laws.opened (complete storage codec q id w).1 ≡ laws.opened w
  unfolding complete
  complete-opened id = transact-Same (complete_in storage codec q id) (complete_in-Same id)

  pub pending-opened : (w : W) → laws.opened (pending storage codec q w).1 ≡ laws.opened w
  unfolding pending
  pending-opened w =
      let opened = laws.open_kept false w in
      elim (Result-cases (storage.open_parent false w).0) [
        | inr (x, e) ↦ rw e (omega (arith, rw e at opened))
        | inl (none, e) ↦ rw e (omega (arith, rw e at opened))
        | inl (some fd, e) ↦ rw e (
            closes
              (load storage codec q (some fd) >>= λ value. lift (collect from_dict value.pending))
              fd (laws.opened w) (storage.open_parent false w).1
              (bind-Keeps laws.opened (load storage codec q (some fd)) _ (load-Same (some fd))
                (λ value w'. refl))
              (rw e at opened))
      ]
