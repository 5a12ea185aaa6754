-- ===== src/Wallet/Tests/Run.antt =====
-- A funding by checkout, its confirmation, and a withdrawal, run to the end.
use oyana_backend.Base.Text.{
  trim_start, trim_end, trim, to_lower, to_upper, take_chars, drop_chars, keep_chars, chars_count,
  show_ℕ,
}
use oyana_backend.Value.{
  get_field, show_ℤ, read_string, read_string_from_idempotency_payload, to_json_value,
  to_json_items, to_json_fields,
}
use oyana_backend.Profile.Roles.{
  includes, is_driver_user_role, has_approved_driver_mode, map_user_role_to_user_types,
  normalize_profile_roles, resolve_profile_role, has_any_profile_role,
}
use oyana_backend.Profile.Onboarding.{
  normalize_driver_type, resolve_active_provider, has_completed_driver_registration,
  resolve_public_role, resolve_onboarding_step, is_driver_onboarding_completed,
}
use oyana_backend.Act.{
  ◌>>=◌, ask, try_catch, transaction, try_else, find, create, update, update_many,
  is_unique_constraint_error,
}
use oyana_backend.Wallet.Paystack.{
  request, log_request, initialize_transaction, charge_authorization, verify_transaction,
  get_supported_banks, resolve_bank_account, create_transfer_recipient, initiate_transfer,
  verify_webhook_signature, random_uuid, now,
}
use oyana_backend.Wallet.Paystack.Status.{
  lower_status, map_paystack_status_to_payment_intent_status, extract_paystack_amount,
}
use oyana_backend.User.{assert_driver_onboarding_complete}
use oyana_backend.Wallet.Account.{
  require_profile, assert_phone_verified, get_wallet_compliance, assert_wallet_ownership,
  adopt_wallet, create_wallet, open_wallet, get_or_create_wallet_account, generate_reference,
  normalize_currency, get_funding_transaction_reference, get_withdrawal_debit_reference,
  get_withdrawal_reversal_reference, mask_account_number,
}
use oyana_backend.Wallet.Email.{
  is_valid_email, resolve_paystack_fallback_email_domain, resolve_paystack_customer_email,
}
use oyana_backend.Wallet.Idempotency.{
  hash_payload, replay_record, create_key, run_action, fail_key, perform, raced, with_idempotency,
}
use oyana_backend.Wallet.Idempotency.Stringify.{
  insert_entry, stable_stringify, stringify_items, sorted_entries,
}
use oyana_backend.Wallet.Card.{save_card, upsert_wallet_card_method}
use oyana_backend.Wallet.Finalize.{
  verified_currency, adopt_topup, mark_intent_failed, credit_topup, settle_topup,
  check_verification, mark_intent_succeeded, remember_card, finalize_found, finalize_in_transaction,
  finalize_funding_intent, finalize_funding_by_reference,
}
use oyana_backend.Wallet.Funding.{
  find_own_intent, replay_wallet_funding_response, funding_payload, confirmed_result, create_intent,
  fund_with_card, fund_by_checkout, fund_into, fund, create_wallet_funding, verify_funding,
  confirm_wallet_funding,
}
use oyana_backend.Wallet.Withdrawal.{
  normalized_transfer_status, replay_withdrawal, withdrawal_payload, debit_wallet,
  touch_bank_account, debit_covered, debit_in_transaction, save_destination, record_transfer,
  send_transfer, undo_withdrawal, find_destination, debit_and_send, withdraw_from, withdraw,
  create_wallet_withdrawal,
}
use oyana_backend.Wallet.Withdrawal.Destination.{
  get_saved_bank_withdrawal_destination, lookup_bank_name, get_raw_bank_withdrawal_destination,
  persist_saved_bank_account,
}
use oyana_backend.Wallet.Withdrawal.Reversal.{
  mark_withdrawal_succeeded, credit_reversal, settle_reversal, mark_reversed,
  reverse_unless_reversed, reverse_in_transaction, mark_withdrawal_failed_and_reverse,
  mark_withdrawal_failed_by_reference,
}
use oyana_backend.Wallet.Webhook.{
  failure_reason_of, dispatch_event, handle_event, handle_payload, handle_paystack_webhook_event,
  paystack_webhook,
}
use oyana_backend.Base.Table.{find_first, find_many, update_where}
use oyana_backend.Base.Int.{◌+ℤ◌, ◌-ℤ◌}
use oyana_backend.Base.{◌≡◌, refl, List, [], ◌∷◌, map}
use oyana_backend.Base.Int.{ℤ, pos}
use oyana_backend.Db.{Db}
use oyana_backend.Wallet.Ledger.Requests.{serve}
use oyana_backend.Wallet.Ledger.{ledger}
use oyana_backend.Wallet.Tests.{paystack, opened, requests}

abbrev balances : Db → List ℤ
balances d = map (λ w. w.balance_minor) d.wallets

run_test : balances (serve paystack requests opened).db ≡ pos 3000 ∷ []
unfolding serve ledger trim_start trim_end trim to_lower to_upper take_chars drop_chars keep_chars
    chars_count show_ℕ get_field show_ℤ read_string read_string_from_idempotency_payload
    to_json_value to_json_items to_json_fields includes is_driver_user_role has_approved_driver_mode
    map_user_role_to_user_types normalize_profile_roles resolve_profile_role has_any_profile_role
    normalize_driver_type resolve_active_provider has_completed_driver_registration
    resolve_public_role resolve_onboarding_step is_driver_onboarding_completed ◌>>=◌ ask try_catch
    transaction try_else find create update update_many is_unique_constraint_error request
    log_request initialize_transaction charge_authorization verify_transaction get_supported_banks
    resolve_bank_account create_transfer_recipient initiate_transfer verify_webhook_signature
    random_uuid now lower_status map_paystack_status_to_payment_intent_status
    extract_paystack_amount assert_driver_onboarding_complete require_profile assert_phone_verified
    get_wallet_compliance assert_wallet_ownership adopt_wallet create_wallet open_wallet
    get_or_create_wallet_account generate_reference normalize_currency
    get_funding_transaction_reference get_withdrawal_debit_reference
    get_withdrawal_reversal_reference mask_account_number is_valid_email
    resolve_paystack_fallback_email_domain resolve_paystack_customer_email hash_payload
    replay_record create_key run_action fail_key perform raced with_idempotency insert_entry
    stable_stringify stringify_items sorted_entries save_card upsert_wallet_card_method
    verified_currency adopt_topup mark_intent_failed credit_topup settle_topup check_verification
    mark_intent_succeeded remember_card finalize_found finalize_in_transaction
    finalize_funding_intent finalize_funding_by_reference find_own_intent
    replay_wallet_funding_response funding_payload confirmed_result create_intent fund_with_card
    fund_by_checkout fund_into fund create_wallet_funding verify_funding confirm_wallet_funding
    normalized_transfer_status replay_withdrawal withdrawal_payload debit_wallet touch_bank_account
    debit_covered debit_in_transaction save_destination record_transfer send_transfer
    undo_withdrawal find_destination debit_and_send withdraw_from withdraw create_wallet_withdrawal
    get_saved_bank_withdrawal_destination lookup_bank_name get_raw_bank_withdrawal_destination
    persist_saved_bank_account mark_withdrawal_succeeded credit_reversal settle_reversal
    mark_reversed reverse_unless_reversed reverse_in_transaction mark_withdrawal_failed_and_reverse
    mark_withdrawal_failed_by_reference failure_reason_of dispatch_event handle_event handle_payload
    handle_paystack_webhook_event paystack_webhook find_first find_many update_where ◌+ℤ◌ ◌-ℤ◌
run_test = refl
