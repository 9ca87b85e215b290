-- ===== src/Examples/Builds.antt =====
-- The builders of src/classes/action.ts on the small market.
use klend_sdk.Prelude.{ℕ, true, false, Bool, none, inl, ◌≡◌, refl, Option}
use klend_sdk.Prelude.Outcome.{Outcome, ok, error}
use klend_sdk.Pubkey.Keys.{numbered_keys}
use klend_sdk.Pubkey.HashMap
use klend_sdk.Pubkey.Set
use klend_sdk.Action.Data.{KaminoObligation}
use klend_sdk.Action.Initialize.{ObligationArg}
use klend_sdk.Action.Ata.{add_ata_ixs, make_ata}
use klend_sdk.Action.Refresh.{add_refresh_reserve_ixs, add_refresh_obligation_ix}
use klend_sdk.Action.Support.{
  add_support_ixs, add_support_ixs_without_init_obligation, add_in_between_ixs,
}
use klend_sdk.Action.Build.{
  BuildOptions, build_deposit_txns, build_liquidate_txns, build_deposit_and_borrow_txns,
  build_repay_and_withdraw_txns,
}
use klend_sdk.Action.Build.Ensures.{Ensures, HasLending}
use klend_sdk.Action.Build.Builders
use klend_sdk.Action.Build.Sending
use klend_sdk.Action.Build.Sending.{Interleaves}
use klend_sdk.Action.State.{KaminoAction}
use klend_sdk.Examples.Market.{
  number_web3, whole_decimals, small_market, small_obligation, small_action,
}

abbrev all_options : BuildOptions ℕ
all_options = record {
  extra_compute_budget = 300000;
  include_ata_ixns = true;
  request_elevation_group = false;
  include_user_metadata = true;
  referrer = 0;
  current_slot = 9;
  scope_refresh = record { include_scope_refresh = true; scope_feed = "hubble" };
}

abbrev not_loaded : ℕ → Option (KaminoObligation ℕ ℕ)
not_loaded address = none

abbrev given : ObligationArg ℕ ℕ
given = inl small_obligation

abbrev is_ok : {A : Type 0} → Outcome A → Bool
is_ok (ok a) = true
is_ok (error message) = false

-- The deposit of the example returns.
deposit_returns :
    is_ok (build_deposit_txns not_loaded small_market 25 201 61 given all_options none) ≡ true
unfolding build_deposit_txns HashMap.of_entries HashMap.set Set.add HashMap.get add_support_ixs
    add_support_ixs_without_init_obligation add_ata_ixs add_refresh_reserve_ixs make_ata
deposit_returns = refl

abbrev returned : {A : Type 0} → Outcome A → A → A
returned (ok a) b = a
returned (error message) b = b

-- What the deposit and borrow of the example returns.
abbrev deposited_and_borrowed : KaminoAction ℕ ℕ
deposited_and_borrowed =
    returned
      (build_deposit_and_borrow_txns not_loaded small_market 25 201 4 90 61 given all_options)
      small_action

deposit_and_borrow_returns :
    build_deposit_and_borrow_txns not_loaded small_market 25 201 4 90 61 given all_options
    ≡ ok deposited_and_borrowed
unfolding build_deposit_and_borrow_txns HashMap.of_entries HashMap.set Set.add HashMap.get
    add_support_ixs add_support_ixs_without_init_obligation add_ata_ixs add_refresh_reserve_ixs
    make_ata add_refresh_obligation_ix add_in_between_ixs
deposit_and_borrow_returns = refl

build_deposit_and_borrow_txns-Interleaves_example : Interleaves deposited_and_borrowed
build_deposit_and_borrow_txns-Interleaves_example =
    Sending.build_deposit_and_borrow_txns-Interleaves not_loaded small_market all_options 25 201 4
      90 61 given deposited_and_borrowed deposit_and_borrow_returns

build_deposit_txns-HasLending_example :
    Ensures
      (HasLending 1)
      (build_deposit_txns not_loaded small_market 25 201 61 given all_options none)
build_deposit_txns-HasLending_example =
    Builders.build_deposit_txns-HasLending not_loaded small_market all_options 25 201 61 given none

build_liquidate_txns-HasLending_example :
    Ensures
      (HasLending 1)
      (build_liquidate_txns not_loaded small_market 5 1 90 201 77 61 given 0 all_options)
build_liquidate_txns-HasLending_example =
    Builders.build_liquidate_txns-HasLending not_loaded small_market all_options 5 1 90 201 77 61
      given 0

build_deposit_and_borrow_txns-HasLending_example :
    Ensures
      (HasLending 2)
      (build_deposit_and_borrow_txns not_loaded small_market 25 201 4 90 61 given all_options)
build_deposit_and_borrow_txns-HasLending_example =
    Builders.build_deposit_and_borrow_txns-HasLending not_loaded small_market all_options 25 201 4
      90 61 given

build_repay_and_withdraw_txns-HasLending_example :
    Ensures
      (HasLending 2)
      (build_repay_and_withdraw_txns not_loaded small_market 5 90 3 201 61 given true all_options)
build_repay_and_withdraw_txns-HasLending_example =
    Builders.build_repay_and_withdraw_txns-HasLending not_loaded small_market all_options 5 90 3 201
      61 given true
