-- ===== src/Reserve/Change/Token.antt =====
-- The branch of `parseForChangesReserveConfigAndGetIxs` of src/classes/reserve.ts for the information
-- on the token.
use klend_sdk.Prelude.{List, ℕ, Option, none, some, ◌==◌, not}
use klend_sdk.Prelude.Outcome.{ok}
use klend_sdk.Pubkey.Keys.{PublicKeys}
use klend_sdk.Reserve.Data.{ReserveConfig, TokenInfo}
use klend_sdk.Reserve.Interfaces.{Codecs}
use klend_sdk.Reserve.Modes.{UpdateConfigMode}
use klend_sdk.Reserve.Modes
use klend_sdk.Reserve.Encode.{number, numbers, public_key}
use klend_sdk.Reserve.Change.{Changes, unless, ◌>+>◌, change, bn, arrays_differ}

module _ {K : Type 0} (codecs : Codecs K) where
  unfoldable pub token_info_created : TokenInfo K → Changes
  token_info_created new =
      change codecs Modes.update_token_info_name (ok (numbers new.name))
      >+> change codecs Modes.update_token_info_lower_heuristic (bn codecs new.heuristic.lower)
      >+> change codecs Modes.update_token_info_upper_heuristic (bn codecs new.heuristic.upper)
      >+> change codecs Modes.update_token_info_exp_heuristic (bn codecs new.heuristic.exp)
      >+> change codecs Modes.update_token_info_twap_divergence
          (bn codecs new.max_twap_divergence_bps)
      >+> change codecs Modes.update_token_info_price_max_age (bn codecs new.max_age_price_seconds)
      >+> change codecs Modes.update_token_info_twap_max_age (bn codecs new.max_age_twap_seconds)
      >+> change codecs Modes.update_token_info_scope_chain
          (ok (numbers new.scope_configuration.price_chain))
      >+> change codecs Modes.update_token_info_scope_twap
          (ok (numbers new.scope_configuration.twap_chain))
      >+> change codecs Modes.update_switchboard_feed
          (ok (public_key new.switchboard_configuration.price_aggregator))
      >+> change codecs Modes.update_switchboard_twap_feed
          (ok (public_key new.switchboard_configuration.twap_aggregator))
      >+> change codecs Modes.update_pyth_price (ok (public_key new.pyth_configuration.price))
      >+> change codecs Modes.update_block_price_usage (ok (number new.block_price_usage))

  abbrev update_numbers : UpdateConfigMode → List ℕ → List ℕ → Changes
  update_numbers m old new =
      unless (not (arrays_differ old new)) (change codecs m (ok (numbers new)))

  abbrev update_bn : UpdateConfigMode → ℕ → ℕ → Changes
  update_bn m old new = unless (old == new) (change codecs m (bn codecs new))

  module _ ⦃p : PublicKeys K⦄ where
    abbrev update_key : UpdateConfigMode → K → K → Changes
    update_key m old new = unless (p.equals old new) (change codecs m (ok (public_key new)))

    unfoldable pub token_info_updated : TokenInfo K → TokenInfo K → Changes
    token_info_updated old new =
        update_numbers Modes.update_token_info_name old.name new.name
        >+> update_bn Modes.update_token_info_lower_heuristic old.heuristic.lower
            new.heuristic.lower
        >+> update_bn Modes.update_token_info_upper_heuristic old.heuristic.upper
            new.heuristic.upper
        >+> update_bn Modes.update_token_info_exp_heuristic old.heuristic.exp new.heuristic.exp
        >+> update_bn Modes.update_token_info_twap_divergence old.max_twap_divergence_bps
            new.max_twap_divergence_bps
        >+> update_bn Modes.update_token_info_price_max_age old.max_age_price_seconds
            new.max_age_price_seconds
        >+> update_bn Modes.update_token_info_twap_max_age old.max_age_twap_seconds
            new.max_age_twap_seconds
        >+> update_numbers Modes.update_token_info_scope_chain old.scope_configuration.price_chain
            new.scope_configuration.price_chain
        >+> update_numbers Modes.update_token_info_scope_twap old.scope_configuration.twap_chain
            new.scope_configuration.twap_chain
        >+> update_key Modes.update_switchboard_feed old.switchboard_configuration.price_aggregator
            new.switchboard_configuration.price_aggregator
        >+> update_key Modes.update_switchboard_twap_feed
            old.switchboard_configuration.twap_aggregator
            new.switchboard_configuration.twap_aggregator
        >+> update_key Modes.update_pyth_price old.pyth_configuration.price
            new.pyth_configuration.price
        >+> unless (old.block_price_usage == new.block_price_usage)
            (change codecs Modes.update_block_price_usage (ok (number new.block_price_usage)))
        >+> update_key Modes.update_scope_price_feed old.scope_configuration.price_feed
            new.scope_configuration.price_feed

    unfoldable pub token_info_changes : Option (ReserveConfig K) → ReserveConfig K → Changes
    unfolding token_info_created token_info_updated
    token_info_changes none new = token_info_created new.token_info
    token_info_changes (some old) new = token_info_updated old.token_info new.token_info
