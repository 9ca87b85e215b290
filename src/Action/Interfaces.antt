-- ===== src/Action/Interfaces.antt =====
-- What src/classes/action.ts uses of @solana/web3.js, @solana/spl-token, the farms program and
-- decimal.js, and of the accounts on the chain.
use Prim.Native.String.{String}
use klend_sdk.Prelude.{ℕ, Bool, Option, List}

-- A seed of a program address: a text or the bytes of a key or of a number.
pub data Seed (K : Type 0) : Type 0 where
  text : String → Seed K
  byte : ℕ → Seed K
  key : K → Seed K

pub record UserMetadata (K : Type 0) : Type 0 where
  pub referrer : K

pub record Web3 (K : Type 0) : Type 0 where
  pub wrapped_sol_mint : K
  pub native_mint : K
  pub token_program_id : K
  pub associated_token_program_id : K
  pub farms_id : K
  pub find_program_address : List (Seed K) → K → K
  -- `getAccountInfo` returns an account.
  pub account_exists : K → Bool
  -- `getMinimumBalanceForRentExemption(165)`.
  pub rent_exempt : ℕ
  -- The address of the lookup table that `createLookupTable` makes for an authority.
  pub new_lookup_table : K → K
  -- The metadata account of a user, if there is one.
  pub user_metadata : K → Option (UserMetadata K)
  -- The padding of an oracle's chain, `U16_MAX` of the scope library.
  pub u16_max : ℕ
  -- `parseInt` of the digits of a big integer.
  pub parse_int : ℕ → ℕ

pub record Decimals (D : Type 0) : Type 0 where
  -- `new Decimal(n.toString())` of a big integer.
  pub of_bn : ℕ → D
  pub add : D → D → D
  pub mul : D → D → D
  pub div : D → D → D
  pub lte : D → D → Bool
  -- `new BN(x.ceil().toString())`.
  pub ceil_bn : D → ℕ
  -- `new BN(Math.floor(x.toNumber()).toString())`.
  pub floor_bn : D → ℕ
