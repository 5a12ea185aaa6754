-- ===== src/Profile.antt =====
-- Profiles: the enums of graphql/enums.ts, the roles of a profile (auth/utils/roles.util.ts) and
-- the onboarding of drivers (user/driver-onboarding.util.ts, user/user.service.ts).
pub mod Enums
pub mod Roles
pub mod Onboarding
pub mod Schema
mod Tests
