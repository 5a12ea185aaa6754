-- ===== src/Wallet/Ledger/Accounts.antt =====
-- Looking up profiles and wallets keeps the wallet tables sound, and so does opening a wallet.
use oyana_backend.Base.{
  String, Bool, true, false, ◌≡◌, refl, sym, Option, none, some, List, [], ◌∷◌, ◌||◌, arith,
  if◌then◌else◌, Bool-cases, inl, inr, eq_refl,
}
use oyana_backend.Base.Table.{All-map, exists, find_first}
use oyana_backend.Wallet.Schema.{WalletTransaction, WalletAccount}
use oyana_backend.Db.{Db, wallets}
use oyana_backend.Act.{World, Error, Request, create, ◌>>=◌, or_throw, ask}
use oyana_backend.Act.Keeps.{Keeps, Triple, Post, keeps_rules}
use oyana_backend.Act.Promises.{Triple-bind, Triple-find_bind, Triple-try_catch, Triple-throw}
use oyana_backend.Wallet.Paystack.{
  Env, InitializeTransactionInput, ChargeAuthorizationInput, ResolveAccountInput,
  CreateRecipientInput, TransferInput, not_empty, random_uuid, now, log_request,
  initialize_transaction, charge_authorization, verify_transaction, get_supported_banks,
  resolve_bank_account, create_transfer_recipient, initiate_transfer,
}
use oyana_backend.User.{assert_driver_onboarding_complete}
use oyana_backend.Wallet.Account.{
  require_profile, assert_phone_verified, normalize_currency, generate_reference, create_wallet,
  adopt_wallet, get_or_create_wallet_account, new_wallet, is_text, open_wallet, is_p2002,
}
use oyana_backend.Wallet.Ledger.{IsOwned, has_wallet, has_id}
use oyana_backend.Wallet.Ledger.Rows.{ledger-new, IsOwned-cons}
use oyana_backend.Wallet.Ledger.Writes.{IsFact, names_references, Fact, holds_wallet, Knows}

module _ (P : Db → Type 0) where
  pub Keeps-assert_driver_onboarding_complete :
      (id : String) → Keeps P (assert_driver_onboarding_complete id)
  unfolding assert_driver_onboarding_complete
  Keeps-assert_driver_onboarding_complete id = search keeps_rules

  pub Keeps-require_profile : (id : String) → Keeps P (require_profile id)
  unfolding require_profile
  Keeps-require_profile id = search (keeps_rules, Keeps-assert_driver_onboarding_complete)

  pub Keeps-assert_phone_verified : (id : String) → Keeps P (assert_phone_verified id)
  unfolding assert_phone_verified
  Keeps-assert_phone_verified id = search (keeps_rules, Keeps-require_profile)

  pub Keeps-normalize_currency : (c : Option String) → Keeps P (normalize_currency c)
  unfolding normalize_currency
  Keeps-normalize_currency c = search keeps_rules

  module _ (env : Env) where
    pub Keeps-random_uuid : Keeps P (random_uuid env)
    unfolding random_uuid
    Keeps-random_uuid = search keeps_rules

    pub Keeps-now : Keeps P (now env)
    unfolding now
    Keeps-now = search keeps_rules

    pub Keeps-generate_reference : (prefix : String) → Keeps P (generate_reference env prefix)
    unfolding generate_reference
    Keeps-generate_reference prefix = search (keeps_rules, Keeps-random_uuid, Keeps-now)

    log_request-at :
        (r : Request) (b : Bool) (w : World)
        → P w.db
        → P (if b then record w { sent = r ∷ w.sent } else w).db
    log_request-at r true w h = h
    log_request-at r false w h = h

    Keeps-log_request : (r : Request) → Keeps P (log_request env r)
    unfolding log_request
    Keeps-log_request r = record { at = λ w h. log_request-at r (not_empty env.secret_key) w h }

    pub Keeps-initialize_transaction :
        (i : InitializeTransactionInput) → Keeps P (initialize_transaction env i)
    unfolding initialize_transaction
    Keeps-initialize_transaction i = search keeps_rules

    pub Keeps-charge_authorization :
        (i : ChargeAuthorizationInput) → Keeps P (charge_authorization env i)
    unfolding charge_authorization
    Keeps-charge_authorization i = search (keeps_rules, Keeps-log_request)

    pub Keeps-verify_transaction : (s : String) → Keeps P (verify_transaction env s)
    unfolding verify_transaction
    Keeps-verify_transaction s = search keeps_rules

    pub Keeps-get_supported_banks : (s : String) → Keeps P (get_supported_banks env s)
    unfolding get_supported_banks
    Keeps-get_supported_banks s = search keeps_rules

    pub Keeps-resolve_bank_account :
        (i : ResolveAccountInput) → Keeps P (resolve_bank_account env i)
    unfolding resolve_bank_account
    Keeps-resolve_bank_account i = search keeps_rules

    pub Keeps-create_transfer_recipient :
        (i : CreateRecipientInput) → Keeps P (create_transfer_recipient env i)
    unfolding create_transfer_recipient
    Keeps-create_transfer_recipient i = search keeps_rules

    pub Keeps-initiate_transfer : (i : TransferInput) → Keeps P (initiate_transfer env i)
    unfolding initiate_transfer
    Keeps-initiate_transfer i = search (keeps_rules, Keeps-log_request)

-- A wallet that a query finds is there.
pub IsOwned-found :
    (p : WalletAccount → Bool) (ws : List WalletAccount) (a : WalletAccount)
    → find_first p ws ≡ some a
    → IsOwned ws a.id
unfolding find_first
IsOwned-found p [] a e = absurd (ground arith)
IsOwned-found p (w ∷ ws) a e = elim (Bool-cases (p w)) [
  | inl hit ↦ let same : w ≡ a = ground arith in rw same (rw eq_refl refl)
  | inr miss ↦ IsOwned-cons w a.id ws (IsOwned-found p ws a (rw miss at e))
]

IsFact-cons :
    (w : WalletAccount) (k : Fact) (ws : List WalletAccount) (ts : List WalletTransaction)
    → IsFact ws ts k
    → IsFact (w ∷ ws) ts k
IsFact-cons w (holds_wallet k) ws ts h = IsOwned-cons w k ws h
IsFact-cons w names_references ws ts h = h

module _ (ks : List Fact) (env : Env) where
  -- The row of a new wallet: no balance, and no transactions yet.
  new_wallet-Knows :
      (id owner : String) (d : Db)
      → has_wallet id d.wallets ≡ false
      → Knows ks d
      → Knows (holds_wallet id ∷ ks) (record d { wallets = new_wallet id owner ∷ d.wallets })
  new_wallet-Knows id owner d new h =
      let still = IsOwned-cons (new_wallet id owner) in
      (
        record {
          wallets_sound = (
            record {
              balanced = sym (ledger-new id d.wallets d.transactions new h.0.transactions_owned);
              solvent = omega arith;
            },
            h.0.wallets_sound,
          );
          transactions_owned =
              All-map (λ t. still t.wallet_account_id d.wallets) d.transactions
                h.0.transactions_owned;
          references_distinct = h.0.references_distinct;
          intents_sound =
              All-map
                (λ i s. record {
                  owned = still i.wallet_account_id d.wallets s.owned;
                  positive = s.positive;
                })
                d.intents h.0.intents_sound;
          withdrawals_sound =
              All-map
                (λ i s. record {
                  owned = still i.wallet_account_id d.wallets s.owned;
                  positive = s.positive;
                })
                d.withdrawals h.0.withdrawals_sound;
        },
        (
          rw eq_refl refl,
          All-map (λ k. IsFact-cons (new_wallet id owner) k d.wallets d.transactions) ks h.1,
        ),
      )

  exists-or_left :
      (k : String) (q : WalletAccount → Bool) (ws : List WalletAccount)
      → exists (λ w. has_id k w || q w) ws ≡ false
      → has_wallet k ws ≡ false
  exists-or_left k q [] h = refl
  exists-or_left k q (w ∷ ws) h = ground (arith, exists-or_left k q ws)

  create_wallet-Triple :
      (owner : String)
      → Triple (Knows ks) (λ a d. Knows (holds_wallet a.id ∷ ks) d) (create_wallet env owner)
  unfolding create_wallet random_uuid ask create ◌>>=◌
  create_wallet-Triple owner = record {
    at = λ w h.
        let id = env.uuid w.asked in
        elim (Bool-cases
          (exists (λ a. has_id id a || is_text a.owner_profile_id owner) w.db.wallets)) [
            | inl taken ↦ rw taken h
            | inr new ↦
                rw new (new_wallet-Knows id owner w.db (exists-or_left id _ w.db.wallets new) h)
          ];
  }

  abbrev Owns : WalletAccount → Db → Type 0
  Owns a d = Knows (holds_wallet a.id ∷ ks) d

  found-Owns :
      (p : WalletAccount → Bool) (e : Error) (o : Option WalletAccount) (w : World)
      → find_first p w.db.wallets ≡ o
      → Knows ks w.db
      → Post (Knows ks) Owns (or_throw o e w).0 (or_throw o e w).1.db
  found-Owns p e none w eq h = h
  found-Owns p e (some a) w eq h = (h.0, (IsOwned-found p w.db.wallets a eq, h.1))

  adopt_wallet-Triple : (owner : String) (e : Error) → Triple (Knows ks) Owns (adopt_wallet owner e)
  unfolding adopt_wallet
  adopt_wallet-Triple owner e = elim (Bool-cases (is_p2002 e)) [
    | inl race ↦ rw race (
        Triple-find_bind (Knows ks) Owns wallets (λ w. is_text w.owner_profile_id owner)
          (λ o. or_throw o e)
          (λ w h. found-Owns (λ w. is_text w.owner_profile_id owner) e _ w refl h))
    | inr other ↦ rw other (Triple-throw (Knows ks) Owns e)
  ]

  opened-Owns :
      (owner : String) (o : Option WalletAccount) (w : World)
      → find_first (λ w. is_text w.owner_profile_id owner) w.db.wallets ≡ o
      → Knows ks w.db
      → let m = open_wallet env owner o in Post (Knows ks) Owns (m w).0 (m w).1.db
  unfolding open_wallet
  opened-Owns owner none w eq h =
      (Triple-try_catch (Knows ks) Owns (create_wallet env owner) (adopt_wallet owner)
          (create_wallet-Triple owner) (adopt_wallet-Triple owner)).at
        w h
  opened-Owns owner (some a) w eq h = (h.0, (IsOwned-found _ w.db.wallets a eq, h.1))

  -- The wallet that is returned is there, and a new one has no transactions.
  pub get_or_create_wallet_account-Triple :
      (owner : String) → Triple (Knows ks) Owns (get_or_create_wallet_account env owner)
  unfolding get_or_create_wallet_account
  get_or_create_wallet_account-Triple owner =
      Triple-bind (Knows ks) Owns (require_profile owner) _ (Keeps-require_profile (Knows ks) owner)
        λ p.
          Triple-find_bind (Knows ks) Owns wallets _ (open_wallet env owner)
            (λ w h. opened-Owns owner _ w refl h)
