-- ===== src/Wallet/Once/Keys.antt =====
-- A request under an idempotency key: it takes its key before it acts, and a taken key only replays
-- (`withIdempotency` of src/wallet/wallet.service.ts).
use oyana_backend.Base.{
  String, Bool, ◌≡◌, refl, ap, ◌⊎◌, inl, inr, Bool-cases, Option-cases, Option, none, some, List,
  [], ◌∷◌, ◌==◌, ◌||◌, eq_refl, arith,
}
use oyana_backend.Base.Text.{trim}
use oyana_backend.Base.Table.{exists, update_where, find_first}
use oyana_backend.Value.{Value}
use oyana_backend.Wallet.Schema.{WalletIdempotencyKey, KeyStatus}
use oyana_backend.Act.{
  World, Act, create, update, is_unique_constraint_error, ◌>>=◌, try_else, find, ask,
}
use oyana_backend.Db.{keys}
use oyana_backend.Act.Keeps.{
  Keeps, Keeps-bind, Keeps-try_catch, Keeps-try_else, Keeps-find, Keeps-pure, Keeps-option,
  Keeps-if, Keeps-throw, Keeps-throw_if, Keeps-or_throw,
}
use oyana_backend.Act.Reads.{
  Reads, Reads-bind, Reads-throw_if, Reads-if, Reads-find_bind, Reads-throw,
}
use oyana_backend.Act.Writes.{Keeps-create_by, Keeps-update_by}
use oyana_backend.Wallet.Paystack.{Env, random_uuid}
use oyana_backend.Wallet.Idempotency.{
  with_idempotency, perform, run_action, fail_key, raced, replay_record, replay_by_status,
  create_key, is_same_key, hash_payload,
}
use oyana_backend.Wallet.Ledger.Accounts.{Keeps-random_uuid}
use oyana_backend.Wallet.Ledger.Rows.{find_first-of_exists}
use oyana_backend.Wallet.Once.{K, Taken}

exists-update_where :
    (p q : WalletIdempotencyKey → Bool) (f : WalletIdempotencyKey → WalletIdempotencyKey)
    (ks : List WalletIdempotencyKey)
    → ((k : WalletIdempotencyKey) → p (f k) ≡ p k)
    → exists p (update_where q f ks) ≡ exists p ks
unfolding update_where
exists-update_where p q f [] same = refl
exists-update_where p q f (k ∷ ks) same = elim (Bool-cases (q k)) [
  | inl hit ↦ rw (hit, same k, exists-update_where p q f ks same) refl
  | inr miss ↦ rw (miss, exists-update_where p q f ks same) refl
]

module _ (owner operation key : String) (env : Env) where
  Keeps-update_key :
      (q : WalletIdempotencyKey → Bool) (f : WalletIdempotencyKey → WalletIdempotencyKey)
      → ((k : WalletIdempotencyKey)
          → is_same_key owner operation key (f k) ≡ is_same_key owner operation key k)
      → Keeps (K owner operation key env) (update keys q f)
  Keeps-update_key q f same =
      Keeps-update_by keys q f
        (λ d h. rw (exists-update_where (is_same_key owner operation key) q f d.keys same) h)

  Keeps-create_key :
      (clashes : WalletIdempotencyKey → Bool) (row : WalletIdempotencyKey)
      → Keeps (K owner operation key env) (create keys clashes row)
  Keeps-create_key clashes row = Keeps-create_by keys clashes row (λ d new h. ground arith)

  module _ {T : Type 0} where
    Keeps-perform :
        (id : String) (action : Act (T × Value))
        → Keeps (K owner operation key env) action
        → Keeps (K owner operation key env) (perform env id action)
    unfolding perform run_action fail_key
    Keeps-perform id action ka =
        Keeps-try_catch _ _
          (Keeps-bind _ _ ka
            λ x. Keeps-bind _ _ (Keeps-update_key _ _ (λ k. refl)) λ k. Keeps-pure _)
          λ e. Keeps-bind _ _ (Keeps-update_key _ _ (λ k. refl)) λ k. Keeps-throw e

module _ {T : Type 0} (replay : Value → Act T)
    (reads : (v : Value) (w : World) → Reads (replay v) w) where
  Reads-replay_by_status :
      (s : KeyStatus) (response : Option Value) (w : World)
      → Reads (replay_by_status s response replay) w
  Reads-replay_by_status KeyStatus.completed (some v) w =
      Reads-if _ _ _ w (Reads-throw _ w) (reads v w)
  Reads-replay_by_status KeyStatus.completed none w = Reads-throw _ w
  Reads-replay_by_status KeyStatus.failed response w = Reads-throw _ w
  Reads-replay_by_status KeyStatus.in_progress response w = Reads-throw _ w

  Reads-replay_record :
      (hash : String) (k : WalletIdempotencyKey) (w : World) → Reads (replay_record hash replay k) w
  unfolding replay_record
  Reads-replay_record hash k w =
      Reads-bind _ _ w (Reads-throw_if _ _ w) λ u. Reads-replay_by_status k.status k.response w

module _ {T : Type 0} (owner operation key : String) (env : Env) where
  Keeps-replay_by_status :
      (s : KeyStatus) (response : Option Value) (replay : Value → Act T)
      → ((v : Value) → Keeps (K owner operation key env) (replay v))
      → Keeps (K owner operation key env) (replay_by_status s response replay)
  Keeps-replay_by_status KeyStatus.completed (some v) replay k =
      Keeps-if _ _ _ (Keeps-throw _) (k v)
  Keeps-replay_by_status KeyStatus.completed none replay k = Keeps-throw _
  Keeps-replay_by_status KeyStatus.failed response replay k = Keeps-throw _
  Keeps-replay_by_status KeyStatus.in_progress response replay k = Keeps-throw _

  Keeps-replay_record :
      (hash : String) (replay : Value → Act T) (k : WalletIdempotencyKey)
      → ((v : Value) → Keeps (K owner operation key env) (replay v))
      → Keeps (K owner operation key env) (replay_record hash replay k)
  unfolding replay_record
  Keeps-replay_record hash replay k kr =
      Keeps-bind _ _ (Keeps-throw_if _ _) λ u. Keeps-replay_by_status k.status k.response replay kr

  -- A request under any key leaves a key taken.
  pub Keeps-with_idempotency :
      (o p k : String) (payload : Value) (replay : Value → Act T) (action : Act (T × Value))
      → ((v : Value) → Keeps (K owner operation key env) (replay v))
      → Keeps (K owner operation key env) action
      → Keeps (K owner operation key env) (with_idempotency env o p k payload replay action)
  unfolding with_idempotency create_key raced
  Keeps-with_idempotency o p k payload replay action kr ka =
      Keeps-bind _ _ (Keeps-throw_if _ _) λ u. Keeps-bind _ _ (Keeps-find _ _) λ existing.
        Keeps-option existing _ _
          (Keeps-try_else _ _ _
            (Keeps-bind _ _ (Keeps-random_uuid (K owner operation key env) env)
              λ id. Keeps-create_key owner operation key env _ _)
            (λ x. Keeps-perform owner operation key env x.id action ka)
            (λ e.
              Keeps-if (is_unique_constraint_error e) _ _
                (Keeps-bind _ _ (Keeps-find _ _) λ found.
                  Keeps-bind _ _ (Keeps-or_throw found _) λ x. Keeps-replay_record _ replay x kr)
                (Keeps-throw e)))
          (λ x. Keeps-replay_record _ replay x kr)

-- the database and the requests sent are as they were
abbrev pub IsUntouched : World → World → Type 0
IsUntouched w w' = (w'.db ≡ w.db) × (w'.sent ≡ w.sent)

module _ {T : Type 0} (owner operation key : String) (env : Env) (payload : Value)
    (replay : Value → Act T) (reads : (v : Value) (w : World) → Reads (replay v) w)
    (action : Act (T × Value)) where
  -- A taken key only replays.
  pub with_idempotency-Reads :
      (w : World)
      → Taken owner operation (trim key) w.db
      → Reads (with_idempotency env owner operation key payload replay action) w
  unfolding with_idempotency
  with_idempotency-Reads w taken =
      let (k, found) =
        find_first-of_exists (is_same_key owner operation (trim key)) w.db.keys taken in
      Reads-bind _ _ w (Reads-throw_if _ _ w) λ u.
        Reads-find_bind keys (is_same_key owner operation (trim key)) _ w
          (rw found (Reads-replay_record replay reads (hash_payload env payload) k w))

  -- A request that returns or throws without having taken its key has done nothing.
  pub with_idempotency-Takes :
      (w : World)
      → Keeps (K owner operation (trim key) env) action
      → let w' = (with_idempotency env owner operation key payload replay action w).1 in
        IsUntouched w w' ⊎ Taken owner operation (trim key) w'.db
  unfolding with_idempotency create_key raced ◌>>=◌ find create random_uuid ask try_else
      is_unique_constraint_error
  with_idempotency-Takes w ka = elim (Bool-cases (trim key == "")) [
    | inl unnamed ↦ rw unnamed (inl (refl, refl))
    | inr named ↦
        elim (Option-cases (find_first (is_same_key owner operation (trim key)) w.db.keys)) [
          | inr (k, found) ↦
              let same = (Reads-replay_record replay reads (hash_payload env payload) k w).same in
              rw (named, found) (inl (ap (λ w. w.db) same, ap (λ w. w.sent) same))
          | inl new ↦
              elim (Bool-cases (
                exists (λ k. k.id == env.uuid w.asked || is_same_key owner operation (trim key) k)
                  w.db.keys)) [
                    | inl clash ↦ rw (named, new, clash) (rw new (inl (refl, refl)))
                    | inr free ↦
                        rw (named, new, free)
                          (inr (
                            (Keeps-perform owner operation (trim key) env (env.uuid w.asked) action
                                ka).at
                              _ (rw (eq_refl owner, eq_refl operation, eq_refl (trim key)) refl)))
                  ]
        ]
  ]
