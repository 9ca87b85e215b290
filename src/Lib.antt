-- ===== src/Lib.antt =====
-- klend-sdk builds the transactions of the Kamino lending program. This library models, in a
-- verification library beside it, the collections keyed by public keys, the class that turns an
-- action of a user (a deposit, a borrow, a liquidation, ..) into a list of instructions, the update of a
-- reserve's configuration, the borrow rates and borrow caps of a reserve, the elevation groups of a market,
-- and the setup of a user's lookup table.
--
-- The parts, and the files that model them:
--   - Prelude: shared names, Boolean tests, lists over the native numbers, and Outcome, the result of
--     code that may throw.
--   - Pubkey: src/utils/pubkey.ts. Pubkey/Keys is the interface of public keys; Pubkey/Set is
--     PublicKeySet; Pubkey/Counting counts the keys of an array; Pubkey/LinearMap is PublicKeyMap, over an array; Pubkey/HashMap is PubkeyHashMap, with
--     the JavaScript Map of buckets as an association list in the order of insertion (JsMap). hash_code
--     is hashCode, `13 * 7 + (the last 32 bits of the key)`.
--   - Action: src/classes/action.ts. Action/Interfaces holds what the code takes from libraries and from
--     the chain: program addresses, which accounts exist, decimals. Action/Data holds the reserves,
--     obligations and markets as far as an action reads them, and the instructions, whose constructors are
--     the builders of src/idl_codegen/instructions with their arguments. Action/State is the class
--     KaminoAction: seven arrays of instructions, each with its labels (a Queue). Its methods take and
--     return the record: Keys (addresses, getAdditionalDepositReservesList), Refresh (addRefreshReserveIxs,
--     addRefreshObligationIx, addRequestElevationIx, addRefreshFarmsForReserve), Init (addInit..,
--     addComputeBudgetIxn, addScopeRefreshIxs), Lending (addDepositIx and its kind), Ata (addAtaIxs,
--     updateWSOLAccount), Elevation, Positions and Requests (the steps of
--     addSupportIxsWithoutInitObligation), Support (that method, addSupportIxs, addInBetweenIxs,
--     addRefreshObligation), Initialize (initialize, initializeMultiTokenAction, loadObligation), Build
--     (build..Txns) and Transactions (getTransactions).
--     The proofs stand beside what they are about; Action/Frame says what a support step may change, and
--     Action/Build/Ensures what a builder ensures.
--   - Reserve: the configuration update of src/classes/reserve.ts. Reserve/Modes is
--     src/idl_codegen/types/UpdateConfigMode.ts with its discriminators, Encodable and Decoding below
--     it hold toEncodable, toJSON, fromDecoded and fromJSON, and Codes the layout;
--     Reserve/Data holds the classes of the configuration; Reserve/Bytes is the Buffer that numbers are
--     written into; Reserve/Encode is updateReserveConfigEncodedValue and serializeBorrowRateCurve;
--     Reserve/Change (Plain, Structured, Token) is the comparison of one key of the configuration, a
--     function `.._changes` for each branch of parseForChangesReserveConfigAndGetIxs; Reserve/Update is
--     that function with updateReserveConfigIx and updateEntireReserveConfigIx. Its children hold the
--     specification (Settings: which field each mode stands for; Expected: one update for each setting
--     that differs) and the proofs (Agreement, Settling, Applied, Returns, Errors, Unchanged).
--     Reserve/Rates is the curve of borrow rates (src/classes/curve.ts, getBorrowRate of
--     src/classes/utils.ts and truncateBorrowCurve), over numbers of an interface; Order has the laws of
--     their order, Bounds when a rate is returned, Points what the loop finds, Values the rates, and Padding
--     the added points. Reserve/Caps is getBorrowCapForReserve and
--     getLiquidityAvailableForDebtReserveGivenCaps with the amounts that they read;
--     its Laws are about the amount of one group, Collateral about the caps of the collaterals, and Offer
--     about the whole.
--   - Market: getMarketElevationGroupDescriptions of src/classes/market.ts and the searches by mints and by
--     reserves. Market/Groups/Joining is what the reserves add to each description; Laws and Search hold
--     the independent descriptions.
--   - Metadata: src/utils/userMetadata.ts and src/utils/lookupTable.ts. Metadata/Tables makes the
--     instructions on a lookup table, Metadata/Addresses is getUserLookupTableAddresses, Metadata/Setup
--     is getUserLutAddressAndSetupIxns.
--   - Examples: runs at concrete inputs.
--
-- An action uses the collections: the positions of an obligation and the reserves of a market are maps,
-- and the reserves to refresh are the array of a set. A thrown error is the result `error`, with the
-- text of the message that does not depend on keys. An asynchronous read of the chain is a function of
-- the interface Web3, which does not change while one action is built.
--
-- The market's descriptions read the groups and the reserves that actions read, and the caps of a reserve
-- read these descriptions. The configuration update stands by itself; of the action builder it shares the
-- collections, the keys and Outcome. The lookup table of a user is derived from the market's reserves and
-- the program addresses that actions use too.
--
-- Numbers are natural numbers; an amount is an unsigned big integer in the code, so a negative capacity of
-- a withdrawal cap is not represented. JavaScript numbers of rates and the amounts of decimal.js are the
-- types of the interfaces Numbers and Amounts, with the laws of an order and, for the rates between
-- the points, of rounded operations on numbers below a bound, as hypotheses (IsOrdered, IsRounded,
-- HasOrder). The loop over chunks of a lookup table runs on fuel, one round for each key, which is enough
-- since a round takes 25 keys; every other loop goes over an array.
--
-- Not modelled: the sending and simulation of transactions, which is I/O; buildWithdrawReferrerFeeTxns and
-- getRefreshAllReserves of src/classes/action.ts; the calculations of reserves but for their
-- borrow rates and caps, and those of obligations, vaults and leverage; the generated clients but for
-- the types named above.
pub mod Action
pub mod Examples
pub mod Market
pub mod Metadata
pub mod Prelude
pub mod Pubkey
pub mod Reserve
