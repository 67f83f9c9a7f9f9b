-- ===== src/CacheInfo.antt =====
-- The keys and the lifetimes of cached values: the class `CacheInfo` of src/utils/cache.info.ts.
pub mod General
pub mod Tokens
pub mod Accounts
pub mod Entry
pub mod Reading
pub mod Unique
mod Tests
use api_elrond_com.Common.{ℕ, String}

pub record CacheInfo : Type 0 where
  pub key : String
  pub ttl : ℕ

-- The seconds of a span of time: `Constants` of the package `@multiversx/sdk-nestjs`.
pub record Durations : Type 0 where
  pub one_second : ℕ
  pub one_minute : ℕ
  pub one_hour : ℕ
  pub one_day : ℕ
  pub one_week : ℕ
  pub one_month : ℕ
