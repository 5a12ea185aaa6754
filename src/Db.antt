-- ===== src/Db.antt =====
-- The database: one list of rows for each table that the modelled services use, the newest first.
use oyana_backend.Base.{List}
use oyana_backend.Profile.Schema.{Profile, UserAddress}
use oyana_backend.Wallet.Schema.{
  WalletAccount, WalletTransaction, PaymentIntent, WalletWithdrawal, WalletCardMethod,
  WalletSavedBankAccount, WalletIdempotencyKey,
}
use oyana_backend.Provider.Schema.{Provider, ProviderMember}
use oyana_backend.Shipments.Schema.{
  Shipment, ShipmentItem, ShipmentEvent, ShipmentMilestone, PlatformConfig,
}
use oyana_backend.MarketPlace.Schema.{ShipmentBid, ShipmentBidAward}
use oyana_backend.Dispatch.Schema.{DispatchBatch, DispatchOffer, ShipmentAssignment}
use oyana_backend.Notifications.Schema.{Notification, PushDevice}

pub record Db : Type 0 where
  pub wallets : List WalletAccount
  pub transactions : List WalletTransaction
  pub intents : List PaymentIntent
  pub withdrawals : List WalletWithdrawal
  pub cards : List WalletCardMethod
  pub bank_accounts : List WalletSavedBankAccount
  pub keys : List WalletIdempotencyKey
  pub profiles : List Profile
  pub addresses : List UserAddress
  pub providers : List Provider
  pub members : List ProviderMember
  pub platform_configs : List PlatformConfig
  pub shipments : List Shipment
  pub items : List ShipmentItem
  pub events : List ShipmentEvent
  pub milestones : List ShipmentMilestone
  pub bids : List ShipmentBid
  pub awards : List ShipmentBidAward
  pub batches : List DispatchBatch
  pub offers : List DispatchOffer
  pub assignments : List ShipmentAssignment
  pub notifications : List Notification
  pub devices : List PushDevice

-- A table of the database.
pub record Table (R : Type 0) : Type 0 where
  pub rows : Db → List R
  pub write : List R → Db → Db

abbrev pub wallets : Table WalletAccount
wallets = record { rows = λ d. d.wallets; write = λ l d. record d { wallets = l } }

abbrev pub transactions : Table WalletTransaction
transactions = record { rows = λ d. d.transactions; write = λ l d. record d { transactions = l } }

abbrev pub intents : Table PaymentIntent
intents = record { rows = λ d. d.intents; write = λ l d. record d { intents = l } }

abbrev pub withdrawals : Table WalletWithdrawal
withdrawals = record { rows = λ d. d.withdrawals; write = λ l d. record d { withdrawals = l } }

abbrev pub cards : Table WalletCardMethod
cards = record { rows = λ d. d.cards; write = λ l d. record d { cards = l } }

abbrev pub bank_accounts : Table WalletSavedBankAccount
bank_accounts = record {
  rows = λ d. d.bank_accounts;
  write = λ l d. record d { bank_accounts = l };
}

abbrev pub keys : Table WalletIdempotencyKey
keys = record { rows = λ d. d.keys; write = λ l d. record d { keys = l } }

abbrev pub profiles : Table Profile
profiles = record { rows = λ d. d.profiles; write = λ l d. record d { profiles = l } }

abbrev pub addresses : Table UserAddress
addresses = record { rows = λ d. d.addresses; write = λ l d. record d { addresses = l } }

abbrev pub providers : Table Provider
providers = record { rows = λ d. d.providers; write = λ l d. record d { providers = l } }

abbrev pub members : Table ProviderMember
members = record { rows = λ d. d.members; write = λ l d. record d { members = l } }

abbrev pub platform_configs : Table PlatformConfig
platform_configs = record {
  rows = λ d. d.platform_configs;
  write = λ l d. record d { platform_configs = l };
}

abbrev pub shipments : Table Shipment
shipments = record { rows = λ d. d.shipments; write = λ l d. record d { shipments = l } }

abbrev pub items : Table ShipmentItem
items = record { rows = λ d. d.items; write = λ l d. record d { items = l } }

abbrev pub events : Table ShipmentEvent
events = record { rows = λ d. d.events; write = λ l d. record d { events = l } }

abbrev pub milestones : Table ShipmentMilestone
milestones = record { rows = λ d. d.milestones; write = λ l d. record d { milestones = l } }

abbrev pub bids : Table ShipmentBid
bids = record { rows = λ d. d.bids; write = λ l d. record d { bids = l } }

abbrev pub awards : Table ShipmentBidAward
awards = record { rows = λ d. d.awards; write = λ l d. record d { awards = l } }

abbrev pub batches : Table DispatchBatch
batches = record { rows = λ d. d.batches; write = λ l d. record d { batches = l } }

abbrev pub offers : Table DispatchOffer
offers = record { rows = λ d. d.offers; write = λ l d. record d { offers = l } }

abbrev pub assignments : Table ShipmentAssignment
assignments = record { rows = λ d. d.assignments; write = λ l d. record d { assignments = l } }

abbrev pub notifications : Table Notification
notifications = record {
  rows = λ d. d.notifications;
  write = λ l d. record d { notifications = l };
}

abbrev pub devices : Table PushDevice
devices = record { rows = λ d. d.devices; write = λ l d. record d { devices = l } }
