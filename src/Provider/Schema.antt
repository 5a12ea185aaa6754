-- ===== src/Provider/Schema.antt =====
-- Providers and their members: prisma/schemas/provider.prisma, the columns that are read.
use oyana_backend.Base.{ℕ, String, Bool, Option}
use oyana_backend.Base.Int.{ℤ}
use oyana_backend.Shipments.Schema.{VehicleCategory}

pub record Provider : Type 0 where
  pub id : String
  pub profile_id : Option String
  pub driver_type : Option VehicleCategory
  pub is_available : Bool
  pub priority_score : ℤ
  -- in hundredths
  pub rating_avg : ℕ

pub record ProviderMember : Type 0 where
  pub provider_id : String
  pub profile_id : String
  pub status : String
