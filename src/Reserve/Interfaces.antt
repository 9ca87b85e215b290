-- ===== src/Reserve/Interfaces.antt =====
-- What the configuration update of src/classes/reserve.ts takes from bn.js, @solana/web3.js and borsh.
use klend_sdk.Prelude.{ℕ, ◌≡◌}
use klend_sdk.Prelude.Outcome.{Outcome, ok}
use klend_sdk.Reserve.Bytes.{Buffer}
use klend_sdk.Reserve.Data.{ReserveConfig}

pub record Codecs (K : Type 0) : Type 0 where
  -- `toNumber` of a big integer, which throws for a large one.
  pub to_number : ℕ → Outcome ℕ
  -- `toBuffer` of a public key.
  pub to_buffer : K → Buffer
  -- The bytes that `ReserveConfig.layout().encode` writes.
  pub encode_config : ReserveConfig K → Buffer

-- Where `toNumber` returns, it returns the number.
abbrev pub IsExact : {K : Type 0} → Codecs K → Type 0
IsExact c = (n m : ℕ) → c.to_number n ≡ ok m → m ≡ n
